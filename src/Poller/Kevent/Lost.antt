-- ===== src/Poller/Kevent/Lost.antt =====
-- src/PollerKevent.cpp: what becomes of a change behind one that fails.
use liby_cpp.Base.{
  ℕ, ◌<◌, ◌≡◌, refl, ap, ◌∙◌, sym, Bool, false, List, [], ◌∷◌, some, Run, ok, ◌>>=◌,
}
use liby_cpp.Poller.{Channel, Poller, checked_fd, deref, get_channel}
use liby_cpp.Poller.Kevent.{
  Change, Kqueue, Own, change_of, evfilt_read, evfilt_write, span, batches, update_chanel,
  update_kevents,
}
use liby_cpp.Poller.Kevent.Batches.{Laws, get_channel-ok}

module _ (kernel : Kqueue) where
  abbrev collecting : List Change → Poller (Own kernel) → Poller (Own kernel)
  collecting cs w = record w { own = record w.own { changes_ = cs } }

  -- Two changes of one registered descriptor make one batch.
  pair-batches :
      (w : Poller (Own kernel)) (fd p : ℕ) (reads writes : Bool) (k : kernel.Instance)
      → fd < w.open_max
      → w.channels_ fd ≡ some p
      → batches kernel 2 w
          (change_of fd evfilt_read reads ∷ change_of fd evfilt_write writes ∷ [])
          k
        ≡ ok (
            kernel.change k
              (change_of fd evfilt_read reads ∷ change_of fd evfilt_write writes ∷ []))
  unfolding batches span
  pair-batches w fd p reads writes k within table =
      let second : get_channel w (change_of fd evfilt_write writes).ident ≡ ok (some p) =
        get_channel-ok kernel w fd within ∙ ap ok table in
      rw (get_channel-ok kernel w fd within, table, second) refl

  module _ (laws : Laws kernel) where
    -- For a live channel that the table has under its descriptor: where the read filter of the
    -- descriptor is not in the kernel's queue, so that deleting it fails, and no other change is
    -- collected, `updateChanel(ch, false, writable)` and then `updateKevents` leave everything as it
    -- was. The deletion of the read filter comes first and ends the call, so that the write filter is
    -- neither added nor deleted.
    pub update_chanel-lost :
        (w : Poller (Own kernel)) (p fd : ℕ) (c : Channel) (writable : Bool)
        → deref w p ≡ ok c
        → checked_fd c.fd_ ≡ ok fd
        → fd < w.open_max
        → w.channels_ fd ≡ some p
        → w.own.changes_ ≡ []
        → laws.accepts w.own.kq_ (change_of fd evfilt_read false) ≡ false
        → (do w' ← update_chanel kernel p false writable w; update_kevents kernel w') ≡ ok w
    unfolding update_chanel update_kevents
    update_chanel-lost w p fd c writable here is_fd within table none_collected missing =
        let cs = change_of fd evfilt_read false ∷ change_of fd evfilt_write writable ∷ [] in
        let pushed : update_chanel kernel p false writable w ≡ ok (collecting cs w) =
          rw (here, is_fd, none_collected) refl in
        let none_applied : update_kevents kernel (collecting cs w) ≡ ok (collecting [] w) =
          rw
            (
              pair-batches (collecting cs w) fd p false writable w.own.kq_ within table,
              laws.stops w.own.kq_ (change_of fd evfilt_read false)
                  (change_of fd evfilt_write writable ∷ []) missing,
            )
            refl in
        ap (λ (r : Run (Poller (Own kernel))). r >>= update_kevents kernel) pushed
        ∙ none_applied
        ∙ ap (λ (l : List Change). ok (collecting l w)) (sym none_collected)
