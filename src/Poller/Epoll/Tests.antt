-- ===== src/Poller/Epoll/Tests.antt =====
-- A kernel with the documented laws, and runs of the poller over it.
use liby_cpp.Base.{
  ℕ, ◌<◌, ◌≡◌, ◌≢◌, refl, true, false, [], ◌∷◌, ◌++◌, Option, none, some, ltb, ◌==◌, if◌then◌else◌,
  pos, arith, ltb→lt, Bool-cases, inl, inr, ok, Safe, safe,
}
use liby_cpp.Poller.{Channel, Poller, Call, no_channel, put, next_loop}
use liby_cpp.Poller.Class.{delete_channel}
use liby_cpp.Poller.Safety.{LiveTable, LiveTable-put, put-inv}
use liby_cpp.Poller.Epoll.{Interest, Kernel, Event, Own, epoll_class, loop_once}
use liby_cpp.Poller.Epoll.Mirror.{Laws, Sound, SamePlaces, forgets, delete_channel-Mirrors}
use liby_cpp.Poller.Epoll.Safety.{AllBelow, loop_once-Safe}

abbrev Table : Type 0
Table = ℕ → Option Interest

abbrev add_new : Option Interest → Table → Option Table
add_new none t = some t
add_new (some i) t = none

abbrev if_known : Option Interest → Table → Option Table
if_known none t = none
if_known (some i) t = some t

-- A kernel with descriptors below 8.
abbrev small_kernel : Kernel
small_kernel = record {
  Instance = Table;
  create = λ fd. none;
  ctl_add = λ k fd i. if ltb fd 8 then add_new (k fd) (put k fd (some i)) else none;
  ctl_mod = λ k fd i. if_known (k fd) (put k fd (some i));
  ctl_del = λ k fd. if_known (k fd) (put k fd none);
}

add_new-inv : (o : Option Interest) (t k : Table) → add_new o t ≡ some k → (o ≡ none) × (k ≡ t)
add_new-inv none t k h = (refl, cc)
add_new-inv (some i) t k h = absurd cc

if_known-inv : (o : Option Interest) (t k : Table) → if_known o t ≡ some k → (o ≢ none) × (k ≡ t)
if_known-inv none t k h = absurd cc
if_known-inv (some i) t k h = ((λ e. cc), cc)

ctl_add-inv :
    (k k' : Table) (fd : ℕ) (i : Interest)
    → small_kernel.ctl_add k fd i ≡ some k'
    → (fd < 8) × (k fd ≡ none) × (k' ≡ put k fd (some i))
ctl_add-inv k k' fd i h = elim (Bool-cases (ltb fd 8)) [
  | inl e ↦
      let (free, list) = add_new-inv (k fd) (put k fd (some i)) k' (rw e at h) in
      (ltb→lt fd 8 e, free, list)
  | inr e ↦ absurd (let no = rw e at h in cc)
]

abbrev small_laws : Laws small_kernel 8
small_laws = record {
  list = λ k. k;
  added = ctl_add-inv;
  changed = λ k k' fd i h. if_known-inv (k fd) (put k fd (some i)) k' h;
  deleted = λ k k' fd h. if_known-inv (k fd) (put k fd none) k' h;
}

abbrev fd_5 : Channel
fd_5 = record no_channel { fd_ = pos 5; poller_ = true; readable_ = true; read_callback = some 7 }

abbrev all_objects : ℕ → Option Channel
all_objects p = some fd_5

abbrev for_input : Interest
for_input = record { epollin = true; epollout = false }

abbrev one_channel : Poller (Own small_kernel)
one_channel = record {
  open_max = 8;
  channels_ = put (λ fd. none) 5 (some 0);
  next_tick_handlers = [];
  next_loop_handlers = [];
  after_loop_handlers = [];
  objects = all_objects;
  own = record { instance_ = put (λ fd. none) 5 (some for_input); events_size = 1; room = 48 };
}

one_channel-Sound : Sound small_kernel 8 small_laws one_channel
unfolding LiveTable SamePlaces
one_channel-Sound = record {
  places = omega arith;
  alive = LiveTable-put (λ fd. none) all_objects 0 5 fd_5 (λ fd p h. absurd cc) refl refl;
  below = λ fd p h. elim (put-inv (λ n. none) 5 fd (some 0) (some p) h) [
    | inl (same, _) ↦ omega (arith, same)
    | inr (_, e) ↦ absurd cc
  ];
  mirrored = λ fd. elim (Bool-cases (fd == 5)) [ inl e ↦ rw e refl | inr e ↦ rw e refl ];
}

delete_channel-Mirrors_example :
    Safe
      (λ w'.
        Sound small_kernel 8 small_laws w'
        × (w'.channels_ 5 ≡ none)
        × (small_laws.list w'.own.instance_ 5 ≡ none))
      (delete_channel (epoll_class small_kernel) 0 one_channel)
delete_channel-Mirrors_example =
    delete_channel-Mirrors small_kernel 8 small_laws 0 5 fd_5 one_channel one_channel-Sound refl
      refl refl

abbrev to_next_loop : Call (Own small_kernel)
to_next_loop h w = ok (next_loop w h)

to_next_loop-Safe :
    (h : ℕ) (w : Poller (Own small_kernel))
    → Sound small_kernel 8 small_laws w
    → Safe (Sound small_kernel 8 small_laws) (to_next_loop h w)
unfolding next_loop
to_next_loop-Safe h w s = safe (
    forgets small_kernel 8 small_laws w w.next_tick_handlers (w.next_loop_handlers ++ h ∷ [])
      w.after_loop_handlers s)

abbrev input_5 : Event
input_5 = record { fd = 5; epollrdhup = false; epollerr = false; epollin = true; epollout = false }

input_5-AllBelow : AllBelow 8 (input_5 ∷ [])
unfolding AllBelow
input_5-AllBelow = (omega arith, tt)

loop_once-Safe_example :
    Safe
      (Sound small_kernel 8 small_laws)
      (loop_once small_kernel to_next_loop (λ k room. input_5 ∷ []) 4 one_channel)
loop_once-Safe_example =
    loop_once-Safe small_kernel 8 small_laws to_next_loop to_next_loop-Safe (λ k room. input_5 ∷ [])
      (λ k room. input_5-AllBelow) 4 one_channel one_channel-Sound
