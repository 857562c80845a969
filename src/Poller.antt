-- ===== src/Poller.antt =====
-- src/Poller.h, src/Poller.cpp, src/Channel.h, src/Channel.cpp: the channels, the table of channels
-- and the lists of handlers that every poller has.
pub mod Class
pub mod Handlers
pub mod Safety
pub mod Scan
pub mod Select
pub mod Poll
pub mod Epoll
pub mod Kevent
mod Tests
use liby_cpp.Base.{
  ℕ, zero, suc, Bool, true, false, not, ◌&&◌, ◌||◌, List, [], ◌∷◌, ◌++◌, Option, none, some, ltb,
  ◌==◌, if◌then◌else◌, get_elem?, ℤ, pos, negsuc, Run, ok, fault, assertion_failed, out_of_bounds,
  out_of_fuel, ◌>>=◌, ◌>>◌, assert, or_fault,
}

-- A channel; the callbacks are named by numbers, `none` is the empty function. `poller_` says
-- whether the pointer is set, to the poller at hand.
pub record Channel : Type 0 where
  pub read_callback : Option ℕ
  pub writ_callback : Option ℕ
  pub erro_callback : Option ℕ
  pub readable_ : Bool
  pub writable_ : Bool
  pub old_readable_ : Bool
  pub old_writable_ : Bool
  pub fd_ : ℤ
  pub poller_ : Bool

-- `Channel()`
abbrev pub no_channel : Channel
no_channel = record {
  read_callback = none;
  writ_callback = none;
  erro_callback = none;
  readable_ = false;
  writable_ = false;
  old_readable_ = false;
  old_writable_ = false;
  fd_ = negsuc 0;
  poller_ = false;
}

abbrev pub is_negative : ℤ → Bool
is_negative (pos n) = false
is_negative (negsuc n) = true

-- `Channel(poller, fd)`
unfoldable pub of_fd : Bool → ℤ → Run Channel
of_fd poller fd = do
  assert (not (is_negative fd) && poller)
  ok (record no_channel { fd_ = fd; poller_ = poller })

-- `setPoller(poller)`
unfoldable pub set_poller : Channel → Bool → Run Channel
set_poller c poller = do assert poller; ok (record c { poller_ = poller })

abbrev pub is_zero : ℤ → Bool
is_zero (pos n) = n == 0
is_zero (negsuc n) = false

-- `set_fd(fd)`, which asserts that `fd` is not 0.
unfoldable pub set_fd : Channel → ℤ → Run Channel
set_fd c fd = do assert (not (is_zero fd)); ok (record c { fd_ = fd })

unfoldable pub enable_read : Channel → Bool → Channel
enable_read c flag = record c { readable_ = flag }

unfoldable pub enable_writ : Channel → Bool → Channel
enable_writ c flag = record c { writable_ = flag }

unfoldable pub on_read : Channel → Option ℕ → Channel
on_read c cb = record c { read_callback = cb }

unfoldable pub on_writ : Channel → Option ℕ → Channel
on_writ c cb = record c { writ_callback = cb }

unfoldable pub on_erro : Channel → Option ℕ → Channel
on_erro c cb = record c { erro_callback = cb }

abbrev pub differs : Bool → Bool → Bool
differs true b = not b
differs false b = b

unfoldable pub is_event_changed : Channel → Bool
is_event_changed c = differs c.old_readable_ c.readable_ || differs c.old_writable_ c.writable_

unfoldable pub change_event : Channel → Channel
change_event c = record c { old_writable_ = c.writable_; old_readable_ = c.readable_ }

-- `assert(ch->get_fd() >= 0)` and the number.
abbrev pub checked_fd : ℤ → Run ℕ
checked_fd (pos fd) = ok fd
checked_fd (negsuc fd) = fault assertion_failed

-- A poller with what its class adds, and the channels that are alive, by their addresses. The table
-- `channels_` has `open_max` places.
pub record Poller {ℓ} (P : Type ℓ) : Type ℓ where
  pub open_max : ℕ
  pub channels_ : ℕ → Option ℕ
  pub next_tick_handlers : List ℕ
  pub next_loop_handlers : List ℕ
  pub after_loop_handlers : List ℕ
  pub objects : ℕ → Option Channel
  pub own : P

abbrev pub put {ℓ} : {A : Type ℓ} → (ℕ → A) → ℕ → A → ℕ → A
put f i a j = if j == i then a else f j

abbrev pub is_empty {ℓ} : {A : Type ℓ} → List A → Bool
is_empty [] = true
is_empty (x ∷ xs) = false

-- What a `BasicHandler` does, by its number.
abbrev pub Call {ℓ} : Type ℓ → Type ℓ
Call P = ℕ → Poller P → Run (Poller P)

module _ {ℓ} {P : Type ℓ} where
  -- `Poller()`, with `get_open_max()` places.
  unfoldable pub new_poller : ℕ → P → Poller P
  new_poller open_max own = record {
    open_max = open_max;
    channels_ = λ fd. none;
    next_tick_handlers = [];
    next_loop_handlers = [];
    after_loop_handlers = [];
    objects = λ p. none;
    own = own;
  }

  -- `getChannel(fd)`
  unfoldable pub get_channel : Poller P → ℕ → Run (Option ℕ)
  get_channel w fd = if ltb fd w.open_max then ok (w.channels_ fd) else fault out_of_bounds

  -- `setChannel(fd, ch)`
  unfoldable pub set_channel : Poller P → ℕ → Option ℕ → Run (Poller P)
  set_channel w fd ch =
      if ltb fd w.open_max
      then ok (record w { channels_ = put w.channels_ fd ch })
      else fault out_of_bounds

  unfoldable pub next_tick : Poller P → ℕ → Poller P
  next_tick w handler = record w { next_tick_handlers = w.next_tick_handlers ++ handler ∷ [] }

  unfoldable pub next_loop : Poller P → ℕ → Poller P
  next_loop w handler = record w { next_loop_handlers = w.next_loop_handlers ++ handler ∷ [] }

  unfoldable pub after_loop : Poller P → ℕ → Poller P
  after_loop w handler = record w { after_loop_handlers = w.after_loop_handlers ++ handler ∷ [] }

  -- The channel at an address; one that is no longer alive is no memory of the program.
  abbrev pub deref : Poller P → ℕ → Run Channel
  deref w p = or_fault (w.objects p) out_of_bounds

module _ {ℓ} {P : Type ℓ} (call : Call P) where
  -- A callback that may be empty, which is only logged.
  abbrev pub call_back : Option ℕ → Poller P → Run (Poller P)
  call_back none w = ok w
  call_back (some h) w = call h w

  unfoldable pub handle_read_event : ℕ → Poller P → Run (Poller P)
  handle_read_event p w = do c ← deref w p; call_back c.read_callback w

  unfoldable pub handle_writ_event : ℕ → Poller P → Run (Poller P)
  handle_writ_event p w = do c ← deref w p; call_back c.writ_callback w

  unfoldable pub handle_erro_event : ℕ → Poller P → Run (Poller P)
  handle_erro_event p w = do c ← deref w p; call_back c.erro_callback w

  -- The loop over one of the lists from place `i` on. A handler may push further handlers onto the
  -- list that is being walked, and they are reached too.
  unfoldable pub run_from : ℕ → (Poller P → List ℕ) → ℕ → Poller P → Run (Poller P)
  run_from zero handlers i w = fault out_of_fuel
  run_from (suc fuel) handlers i w = elim (get_elem? (handlers w) i) [
    | none ↦ ok w
    | some h ↦ do w' ← call h w; run_from fuel handlers (suc i) w'
  ]

  unfoldable pub run_next_tick_handlers : ℕ → Poller P → Run (Poller P)
  run_next_tick_handlers fuel w = if is_empty w.next_tick_handlers then ok w else do
    w' ← run_from fuel Poller.next_tick_handlers 0 w
    ok (record w' { next_tick_handlers = [] })

  unfoldable pub run_next_loop_handlers : ℕ → Poller P → Run (Poller P)
  run_next_loop_handlers fuel w = if is_empty w.next_loop_handlers then ok w else do
    w' ← run_from fuel Poller.next_loop_handlers 0 w
    ok (record w' { next_loop_handlers = [] })

  unfoldable pub run_after_loop_handlers : ℕ → Poller P → Run (Poller P)
  run_after_loop_handlers fuel w = if is_empty w.after_loop_handlers then ok w else do
    w' ← run_from fuel Poller.after_loop_handlers 0 w
    ok (record w' { after_loop_handlers = [] })
