-- ===== src/Http/Example.antt =====
-- A connection of a socket that does nothing, with a poller that takes every change, for the
-- examples of client and server.
use liby_cpp.Base.{
  ℕ, ◌<◌, refl, ap, true, false, [], none, some, map, arith, Bool, length, length-map, ok, Returns,
  returns, pos,
}
use liby_cpp.Buffer.{Buffer, of_bytes}
use liby_cpp.Buffer.Content.{Holds, length-content}
use liby_cpp.Buffer.Moves.Append.{of_bytes-Holds}
use liby_cpp.Poller.{Poller, Channel, no_channel}
use liby_cpp.Poller.Class.{Class}
use liby_cpp.Connection.{Net, World, would_block, read_blocks}
use liby_cpp.Connection.Sends.{Keeps, IsLive}
use liby_cpp.Http.{Text}

abbrev pub quiet_net : Net
quiet_net = record {
  State = Unit {0};
  writev = λ s iov. (would_block, s);
  write = λ s bs. (would_block, s);
  sendfile = λ s fd offset len. (would_block, s);
  readv = λ s n. (read_blocks, s);
  read = λ s n. (read_blocks, s);
  set_noblock = λ s flag. s;
}

abbrev pub idle_class : Class ℕ
idle_class = record {
  add_chanel = λ p w. ok w;
  update_chanel = λ p r t w. ok w;
  remove_chanel = λ p w. ok w;
}

pub idle_class-Keeps :
    (p : ℕ) (r t : Bool) (w : Poller ℕ) → Returns (Keeps w) (idle_class.update_chanel p r t w)
idle_class-Keeps p r t w = returns λ q c alive polled. (c, alive, polled)

abbrev channel : Channel
channel = record no_channel { fd_ = pos 5; poller_ = true }

-- The connection with the channel at address 3 and the buffer given.
abbrev pub connected : Buffer → World quiet_net ℕ
connected b = record {
  conn = record {
    destroy_ = false;
    self_ = true;
    socket_ = true;
    chan_ = some 3;
    read_buf = b;
    writ_tasks = [];
    read_event_callback = none;
    erro_event_callback = none;
  };
  poller = record {
    open_max = 8;
    channels_ = λ fd. none;
    next_tick_handlers = [];
    next_loop_handlers = [];
    after_loop_handlers = [];
    objects = λ p. some channel;
    own = 0;
  };
  kernel = tt;
}

pub connected-IsLive : (b : Buffer) → IsLive (connected b)
connected-IsLive b = record { ptr = 3; channel = channel; held = refl; alive = refl; polled = refl }

-- A buffer of exactly a text.
pub buffer_of : Text → Buffer
buffer_of text = of_bytes (map some text)

pub buffer_of-Holds : (text : Text) → Holds (map some text) (buffer_of text)
unfolding buffer_of
buffer_of-Holds text = of_bytes-Holds (map some text)

pub buffer_of-room : (text : Text) → 0 < length text → 0 < (buffer_of text).capacity_
buffer_of-room text h =
    let holds = buffer_of-Holds text in
    omega (
      arith,
      h,
      ap length holds.same,
      length-map (λ (c : ℕ). some c) text,
      length-content (buffer_of text) holds.valid,
      holds.valid.within,
      holds.valid.ordered,
    )
