-- ===== src/Poller/Select/Table.antt =====
-- src/PollerSelect.cpp, src/Channel.cpp: what a channel's calls do to the table and to `maxfd_`.
use liby_cpp.Base.{
  ℕ, suc, ◌≤◌, ◌<◌, ◌≡◌, refl, Bool, true, false, none, some, leb, if◌then◌else◌, ℤ, pos, negsuc,
  ne→==, leb-lt, lt→ltb, arith, inl, inr, ok, Safe, safe, stopped, Safe-bind, Safe-if, Safe-assert,
}
use liby_cpp.Poller.{Channel, Poller, put, set_channel}
use liby_cpp.Poller.Class.{add_channel, delete_channel, remove_channel}
use liby_cpp.Poller.Safety
use liby_cpp.Poller.Select.{
  Sets, fd_setsize, rounds_of, le_fd, is_fd, FdSet, fd_write, set_if, add_chanel, remove_chanel,
  select_class,
}
use liby_cpp.Poller.Select.Safety.{Sound}

raise-le : (m : ℤ) (fd : ℕ) → rounds_of m ≤ rounds_of (if le_fd m fd then pos (suc fd) else m)
raise-le (pos n) fd = ground arith
raise-le (negsuc n) fd = omega arith

raise-lt : (m : ℤ) (fd : ℕ) → fd < rounds_of (if le_fd m fd then pos (suc fd) else m)
raise-lt (pos n) fd = ground arith
raise-lt (negsuc n) fd = omega arith

raise-inside :
    (m : ℤ) (fd cap : ℕ)
    → rounds_of m ≤ cap
    → fd < cap
    → rounds_of (if le_fd m fd then pos (suc fd) else m) ≤ cap
raise-inside (pos n) fd cap h k = ground arith
raise-inside (negsuc n) fd cap h k = omega arith

module _ (w : Poller Sets) (s : Sound w) (p : ℕ) (c : Channel) (fd : ℕ)
    (alive : w.objects p ≡ some c) (fd_c : c.fd_ ≡ pos fd) (rset wset eset : FdSet) where
  added :
      fd < fd_setsize
      → Sound (record w {
        channels_ = put w.channels_ fd (some p);
        own = record {
          rset_ = rset;
          wset_ = wset;
          eset_ = eset;
          maxfd_ = if le_fd w.own.maxfd_ fd then pos (suc fd) else w.own.maxfd_;
        };
      })
  added inside = record {
    places = s.places;
    inside = raise-inside w.own.maxfd_ fd fd_setsize s.inside inside;
    alive = Safety.LiveTable-put w.channels_ w.objects p fd c s.alive alive fd_c;
    watched = λ f q h. elim (Safety.put-inv w.channels_ fd f (some p) (some q) h) [
      | inl (same, e) ↦ omega (arith, same, raise-lt w.own.maxfd_ fd)
      | inr (differ, e) ↦ omega (arith, s.watched f q e, raise-le w.own.maxfd_ fd)
    ];
  }

  removed : Sound (record w {
    channels_ = put w.channels_ fd none;
    objects = put w.objects p none;
    own = record { rset_ = rset; wset_ = wset; eset_ = eset; maxfd_ = w.own.maxfd_ };
  })
  removed = record {
    places = s.places;
    inside = s.inside;
    alive = Safety.LiveTable-delete w.channels_ w.objects p fd c s.alive alive fd_c;
    watched = λ f q h. elim (Safety.put-inv w.channels_ fd f none (some q) h) [
      | inl (same, e) ↦ absurd cc
      | inr (differ, e) ↦ s.watched f q e
    ];
  }

is_fd-above : (m : ℤ) (fd : ℕ) → fd < rounds_of m → is_fd m fd ≡ false
is_fd-above (pos n) fd h = ne→== n fd (omega arith)
is_fd-above (negsuc n) fd h = refl

fd_write-inside :
    (set : FdSet) (fd : ℕ) (b : Bool) → fd < fd_setsize → fd_write set fd b ≡ ok (put set fd b)
unfolding fd_write
fd_write-inside set fd b inside = rw (lt→ltb fd fd_setsize inside) refl

set_if-Safe :
    (b : Bool) (set : FdSet) (fd : ℕ) → fd < fd_setsize → Safe (λ _. Unit {0}) (set_if b set fd)
set_if-Safe true set fd inside = rw (fd_write-inside set fd true inside) (safe tt)
set_if-Safe false set fd inside = safe tt

-- `addChannel` of a channel that is alive keeps the table sound, or it throws because the descriptor
-- does not fit into the sets, or an assertion fails.
pub add_channel-Sound :
    (p : ℕ) (c : Channel) (w : Poller Sets)
    → Sound w
    → w.objects p ≡ some c
    → Safe Sound (add_channel select_class p w)
unfolding add_channel select_class add_chanel set_channel
add_channel-Sound p c w s alive = rw alive (
    Safe-bind (Safe-assert c.poller_) λ _ _. Safety.checked_fd-Safe c.fd_ λ fd e.
      Safe-if (leb fd_setsize fd) (λ _. stopped (λ e. cc) λ e. cc)
        λ outside.
          let inside = leb-lt fd_setsize fd outside in
          rw (lt→ltb fd w.open_max (omega (arith, s.places))) (
            Safe-bind (set_if-Safe c.readable_ w.own.rset_ fd inside) λ rset _.
              Safe-bind (set_if-Safe c.writable_ w.own.wset_ fd inside) λ wset _.
                rw (fd_write-inside w.own.eset_ fd true inside)
                  (safe (added w s p c fd alive e rset wset (put w.own.eset_ fd true) inside))))

-- `~Channel` of a channel that is alive and in its place in the table keeps the table sound: no place
-- is left with the address of the channel.
pub delete_channel-Sound :
    (p fd : ℕ) (c : Channel) (w : Poller Sets)
    → Sound w
    → w.objects p ≡ some c
    → c.fd_ ≡ pos fd
    → w.channels_ fd ≡ some p
    → Safe Sound (delete_channel select_class p w)
unfolding delete_channel remove_channel select_class remove_chanel set_channel
delete_channel-Sound p fd c w s alive e here =
    let inside : fd < fd_setsize = omega (arith, s.inside, s.watched fd p here) in
    rw (alive, e)
      (Safe-bind
        (Safe-bind (Safe-assert c.poller_) λ _ _.
          rw
            (
              fd_write-inside w.own.rset_ fd false inside,
              fd_write-inside w.own.wset_ fd false inside,
              fd_write-inside w.own.eset_ fd false inside,
              lt→ltb fd w.open_max (omega (arith, s.places)),
              is_fd-above w.own.maxfd_ fd (s.watched fd p here),
            )
            (safe (
              safe (
                removed w s p c fd alive e (put w.own.rset_ fd false) (put w.own.wset_ fd false)
                  (put w.own.eset_ fd false)))))
        λ w' s'. s')
