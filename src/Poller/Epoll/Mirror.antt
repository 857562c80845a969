-- ===== src/Poller/Epoll/Mirror.antt =====
-- src/PollerEpoll.cpp, src/Channel.cpp: the table of channels and the interest list of the kernel.
use liby_cpp.Base.{
  ℕ, ◌<◌, ◌≤◌, arith, ◌≡◌, refl, Bool, true, false, Option, none, some, ==_self, ==_iff, ◌==◌, pos,
  List, Bool-cases, lt→ltb, inl, inr, Run, thrown, or_fault, ◌>>=◌, Safe, safe, stopped, Safe-bind,
  Safe-assert, ◌≢◌,
}
use liby_cpp.Poller.{Channel, Poller, put, set_channel}
use liby_cpp.Poller.Class.{add_channel, update_channel, delete_channel, remove_channel}
use liby_cpp.Poller.Safety
use liby_cpp.Poller.Epoll.{
  Interest, Kernel, Own, add_chanel, update_chanel, remove_chanel, epoll_class,
}

-- What the kernel documents of `epoll_ctl`: an instance has a list of descriptors with what is asked
-- of each; a descriptor is added only if it is not in the list and is below the limit of open files,
-- and is changed or deleted only if it is in the list; nothing else changes.
pub record Laws (kernel : Kernel) (limit : ℕ) : Type 0 where
  pub list : kernel.Instance → ℕ → Option Interest
  pub added :
      (k k' : kernel.Instance) (fd : ℕ) (i : Interest)
      → kernel.ctl_add k fd i ≡ some k'
      → (fd < limit) × (list k fd ≡ none) × (list k' ≡ put (list k) fd (some i))
  pub changed :
      (k k' : kernel.Instance) (fd : ℕ) (i : Interest)
      → kernel.ctl_mod k fd i ≡ some k'
      → (list k fd ≢ none) × (list k' ≡ put (list k) fd (some i))
  pub deleted :
      (k k' : kernel.Instance) (fd : ℕ)
      → kernel.ctl_del k fd ≡ some k'
      → (list k fd ≢ none) × (list k' ≡ put (list k) fd none)

abbrev pub is_some {ℓ} : {A : Type ℓ} → Option A → Bool
is_some none = false
is_some (some a) = true

-- Two tables have the same places set.
unfoldable pub SamePlaces {ℓ κ} :
    {A : Type ℓ} {B : Type κ} → (ℕ → Option A) → (ℕ → Option B) → Type 0
SamePlaces f g = (fd : ℕ) → is_some (f fd) ≡ is_some (g fd)

SamePlaces-put {ℓ κ} :
    {A : Type ℓ} {B : Type κ} (f : ℕ → Option A) (g : ℕ → Option B) (i : ℕ) (a : A) (b : B)
    → SamePlaces f g
    → SamePlaces (put f i (some a)) (put g i (some b))
unfolding SamePlaces
SamePlaces-put f g i a b same j = elim (Bool-cases (j == i)) [
  | inl e ↦ rw e refl
  | inr e ↦ rw e (same j)
]

SamePlaces-put-none {ℓ κ} :
    {A : Type ℓ} {B : Type κ} (f : ℕ → Option A) (g : ℕ → Option B) (i : ℕ)
    → SamePlaces f g
    → SamePlaces (put f i none) (put g i none)
unfolding SamePlaces
SamePlaces-put-none f g i same j = elim (Bool-cases (j == i)) [
  | inl e ↦ rw e refl
  | inr e ↦ rw e (same j)
]

SamePlaces-kept {ℓ κ} :
    {A : Type ℓ} {B : Type κ} (f : ℕ → Option A) (g : ℕ → Option B) (i : ℕ) (a : A) (b : B)
    → SamePlaces f g
    → f i ≡ some a
    → SamePlaces f (put g i (some b))
unfolding SamePlaces
SamePlaces-kept f g i a b same here j = elim (Bool-cases (j == i)) [
  | inl e ↦ rw ((==_iff j i).0 e, here, ==_self i) refl
  | inr e ↦ rw e (same j)
]

module _ (kernel : Kernel) (limit : ℕ) (laws : Laws kernel limit) where
  -- The table has a place for each descriptor below the limit, its places hold channels that are
  -- alive, and they are set exactly for the descriptors in the kernel's list.
  pub record Sound (w : Poller (Own kernel)) : Type 0 where
    pub places : limit ≤ w.open_max
    pub alive : Safety.Live w
    pub below : (fd p : ℕ) → w.channels_ fd ≡ some p → fd < limit
    pub mirrored : SamePlaces w.channels_ (laws.list w.own.instance_)

  pub forgets :
      (w : Poller (Own kernel)) (ticks loops afters : List ℕ)
      → Sound w
      → Sound (record w {
        next_tick_handlers = ticks;
        next_loop_handlers = loops;
        after_loop_handlers = afters;
      })
  forgets w ticks loops afters s = record {
    places = s.places;
    alive = s.alive;
    below = s.below;
    mirrored = s.mirrored;
  }

  or_thrown-Safe {κ κ'} :
      {X : Type κ} {Y : Type κ'} {Q : Y → Type κ'} (answer : Option X) {rest : X → Run Y}
      → ((x : X) → answer ≡ some x → Safe Q (rest x))
      → Safe Q (or_fault answer thrown >>= rest)
  or_thrown-Safe none continue = stopped (λ e. cc) λ e. cc
  or_thrown-Safe (some x) continue = continue x refl

  -- `addChannel` of a channel that is alive leaves the table and the kernel's list in agreement, or it
  -- throws, or an assertion fails.
  pub add_channel-Mirrors :
      (p : ℕ) (c : Channel) (w : Poller (Own kernel))
      → Sound w
      → w.objects p ≡ some c
      → Safe Sound (add_channel (epoll_class kernel) p w)
  unfolding add_channel epoll_class add_chanel set_channel
  add_channel-Mirrors p c w s alive = rw alive (
      Safe-bind (Safe-assert c.poller_) λ _ _. Safety.checked_fd-Safe c.fd_ λ fd e.
        let asked : Interest = record { epollin = c.readable_; epollout = c.writable_ } in
        or_thrown-Safe (kernel.ctl_add w.own.instance_ fd asked) λ k answer.
          let (inside, free, list) = laws.added w.own.instance_ k fd asked answer in
          rw (lt→ltb fd w.open_max (omega (arith, s.places))) (
            safe (record {
              places = s.places;
              alive = Safety.LiveTable-put w.channels_ w.objects p fd c s.alive alive e;
              below = λ f q h. elim (Safety.put-inv w.channels_ fd f (some p) (some q) h) [
                | inl (same, _) ↦ omega (arith, same)
                | inr (differ, e') ↦ s.below f q e'
              ];
              mirrored =
                  rw list
                    (SamePlaces-put w.channels_ (laws.list w.own.instance_) fd p asked s.mirrored);
            })))

  -- `updateChannel` of a channel that is alive and in its place keeps the table and the kernel's list
  -- in agreement, and the kernel then asks for what the channel has enabled, or it throws, or an
  -- assertion fails.
  pub update_channel-Mirrors :
      (p fd : ℕ) (c : Channel) (w : Poller (Own kernel))
      → Sound w
      → w.objects p ≡ some c
      → c.fd_ ≡ pos fd
      → w.channels_ fd ≡ some p
      → Safe
          (λ w'.
            Sound w'
            × (laws.list w'.own.instance_ fd
                ≡ some (record { epollin = c.readable_; epollout = c.writable_ })))
          (update_channel (epoll_class kernel) p w)
  unfolding update_channel epoll_class update_chanel
  update_channel-Mirrors p fd c w s alive e here =
      let asked : Interest = record { epollin = c.readable_; epollout = c.writable_ } in
      rw (alive, e)
        (Safe-bind (Safe-assert c.poller_) λ _ _.
          or_thrown-Safe (kernel.ctl_mod w.own.instance_ fd asked) λ k answer.
            let (known, list) = laws.changed w.own.instance_ k fd asked answer in
            safe (
              record {
                places = s.places;
                alive = s.alive;
                below = s.below;
                mirrored = rw list (
                    SamePlaces-kept w.channels_ (laws.list w.own.instance_) fd p asked s.mirrored
                      here);
              },
              rw (list, ==_self fd) refl,
            ))

  -- `~Channel` of a channel that is alive and in its place in the table keeps the table and the
  -- kernel's list in agreement: no event can come for the channel that is gone.
  pub delete_channel-Mirrors :
      (p fd : ℕ) (c : Channel) (w : Poller (Own kernel))
      → Sound w
      → w.objects p ≡ some c
      → c.fd_ ≡ pos fd
      → w.channels_ fd ≡ some p
      → Safe
          (λ w'. Sound w' × (w'.channels_ fd ≡ none) × (laws.list w'.own.instance_ fd ≡ none))
          (delete_channel (epoll_class kernel) p w)
  unfolding delete_channel remove_channel epoll_class remove_chanel set_channel
  delete_channel-Mirrors p fd c w s alive e here =
      rw (alive, e)
        (Safe-bind
          (Safe-bind (Safe-assert c.poller_) λ _ _.
            rw (lt→ltb fd w.open_max (omega (arith, s.places, s.below fd p here))) (
              or_thrown-Safe (kernel.ctl_del w.own.instance_ fd) λ k answer.
                let (known, list) = laws.deleted w.own.instance_ k fd answer in
                safe (
                  safe (
                    record {
                      places = s.places;
                      alive = Safety.LiveTable-delete w.channels_ w.objects p fd c s.alive alive e;
                      below = λ f q h. elim (Safety.put-inv w.channels_ fd f none (some q) h) [
                        | inl (same, e') ↦ absurd cc
                        | inr (differ, e') ↦ s.below f q e'
                      ];
                      mirrored = rw list (
                          SamePlaces-put-none w.channels_ (laws.list w.own.instance_) fd
                            s.mirrored);
                    },
                    rw (==_self fd) refl,
                    rw (list, ==_self fd) refl,
                  ))))
          λ w' s'. s')
