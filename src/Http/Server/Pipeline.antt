-- ===== src/Http/Server/Pipeline.antt =====
-- src/http/HttpServer.cpp: several requests in one buffer.
use mathlib.Core.List.{append_assoc, append-nil}
use mathlib.Core.Path.{subst}
use liby_cpp.Base.{
  ℕ, zero, suc, ◌<◌, ◌≡◌, sym, ap, ◌∙◌, Bool, true, false, List, [], ◌∷◌, ◌++◌, Option, some, map,
  if◌then◌else◌, arith, length, length-append, length-map, ◌==◌, ok, Returns, returns, Returns-bind,
  Returns-if, Returns-map, ne→==,
}
use liby_cpp.Buffer.{Buffer, empty}
use liby_cpp.Buffer.Content.{content, length-content, IsValid, Holds}
use liby_cpp.Poller.{Poller}
use liby_cpp.Poller.Class.{Class}
use liby_cpp.Connection.{Net, IoTask, World}
use liby_cpp.Connection.Sends.{Keeps, IsLive}
use liby_cpp.Http.{Text, lookup, get_or_empty, methods_string}
use liby_cpp.Http.Request.{Request, RequestParser, clear, to_string}
use liby_cpp.Http.Request.Roundtrip.{IsPrintable}
use liby_cpp.Http.Server.{HttpContext, Session, Files, Handlers, read_loop, handle_read_event}
use liby_cpp.Http.Server.Answers.{ready, head_task, wants_keep_alive, Answered, round-Answered}

-- A request with the file that it asks for and the size of that.
pub record Hit : Type 0 where
  pub request : Request
  pub fp : ℕ
  pub filesize : ℕ

pub record IsHit (files : Files) (root : Text) (h : Hit) : Type 0 where
  pub printable : IsPrintable h.request
  pub opened : files.open_file (root ++ h.request.uri_) ≡ some h.fp
  pub measured : files.get_file_size h.fp ≡ some h.filesize

-- The text is the printed requests, one behind the other, each but the last one with "keep-alive";
-- what stands behind one is its `body_`. Nothing stands behind the last one if it has that too.
pub data Pipelined (files : Files) (root : Text) : Text → List Hit → Type 0 where
  nothing : Pipelined files root [] []
  last :
      (h : Hit)
      → IsHit files root h
      → wants_keep_alive h.request ≡ false
      → Pipelined files root (to_string h.request) (h ∷ [])
  more :
      (h : Hit) (hs : List Hit)
      → IsHit files root h
      → wants_keep_alive h.request ≡ true
      → Pipelined files root h.request.body_ hs
      → Pipelined files root (to_string h.request) (h ∷ hs)

abbrev pub heads : Handlers → List Hit → List IoTask
heads handlers [] = []
heads handlers (h ∷ hs) = head_task handlers h.request.uri_ h.fp h.filesize ∷ heads handlers hs

pub empty-content : (b : Buffer) (n : ℕ) → IsValid b → length (content b) ≡ n → empty b ≡ (n == 0)
unfolding empty
empty-content b n v h = ground (arith, length-content b v, h, v.ordered)

pub to_string-long : (r : Request) → 0 < length (to_string r)
unfolding to_string
to_string-long r =
    let method = get_or_empty (lookup ◌==◌ r.method_ methods_string) in
    omega (arith, length-append method _)

-- After a request with "keep-alive" the session is ready for the next one.
pub Answered-ready :
    {net : Net} {P : Type 0} (handlers : Handlers) (fp filesize : ℕ) (r : Request) (w : World net P)
    (alive : Bool) (q : Bool × Session net P)
    → Answered handlers fp filesize r w alive q
    → wants_keep_alive r ≡ true
    → (p : RequestParser) × (q.1 ≡ ready q.1.world alive p)
Answered-ready handlers fp filesize r w alive q ans go =
    let (p, held) = ans.context in
    let next : HttpContext = record { keep_alive_ = alive; request_parser = clear p } in
    let over : HttpContext = record { keep_alive_ = false; request_parser = p } in
    (
      p,
      ap (λ (c : Option HttpContext). record { world = q.1.world; context_ = c })
          (held ∙ ap (λ (b : Bool). some (if b then next else over)) go),
    )

module _ (net : Net) {P : Type 0} (class : Class P) (handlers : Handlers) (files : Files)
    (root : Text)
    (updates : (p : ℕ) (r t : Bool) (w : Poller P)
      → Returns (Keeps w) (class.update_chanel p r t w)) where
  -- The loop answers the request in front, and goes on as it asks.
  pub loop-step :
      (fuel : ℕ) (w : World net P) (alive : Bool) (p : RequestParser) (h : Hit)
      {Q : Session net P → Type 0}
      → IsHit files root h
      → Holds (map some (to_string h.request)) w.conn.read_buf
      → 0 < w.conn.read_buf.capacity_
      → IsLive w
      → ((q : Bool × Session net P)
          → Answered handlers h.fp h.filesize h.request w alive q
          → Returns Q (if q.0 then read_loop net class handlers files root fuel q.1 else ok q.1))
      → Returns Q (read_loop net class handlers files root (suc fuel) (ready w alive p))
  unfolding read_loop
  loop-step fuel w alive p h hit holds set live continue =
      let r = h.request in
      let long = ap length holds.same ∙ length-map (λ (c : ℕ). some c) (to_string r) in
      let full = empty-content w.conn.read_buf (length (to_string r)) holds.valid long in
      let none_left = ne→== (length (to_string r)) 0 (λ e. omega (arith, to_string-long r, e)) in
      Returns-if (empty w.conn.read_buf) (λ is_it. absurd (cc (is_it, full, none_left)))
        λ _.
          Returns-bind
            (round-Answered net class handlers files root updates w alive p r h.fp h.filesize
              hit.printable holds.valid set holds.same hit.opened hit.measured live)
            continue

  read_loop-Heads :
      (fuel : ℕ) (w : World net P) (alive : Bool) (p : RequestParser) (text : Text) (hs : List Hit)
      → Pipelined files root text hs
      → length hs < fuel
      → Holds (map some text) w.conn.read_buf
      → 0 < w.conn.read_buf.capacity_
      → IsLive w
      → Returns
          (λ s. s.world.conn.writ_tasks ≡ w.conn.writ_tasks ++ heads handlers hs)
          (read_loop net class handlers files root fuel (ready w alive p))
  unfolding read_loop
  read_loop-Heads zero w alive p text hs pipe enough holds set live = absurd (omega arith)
  read_loop-Heads (suc fuel) w alive p _ _ nothing enough holds set live =
      rw (empty-content w.conn.read_buf 0 holds.valid (ap length holds.same))
        (returns (sym (append-nil w.conn.writ_tasks)))
  read_loop-Heads (suc fuel) w alive p _ _ (last h hit stop) enough holds set live =
      loop-step fuel w alive p h hit holds set live
        λ q ans. Returns-if q.0 (λ goes. absurd (cc (goes, ans.goes, stop))) λ _. returns ans.queued
  read_loop-Heads (suc fuel) w alive p _ _ (more h hs hit go pipe) enough holds set live =
      loop-step fuel w alive p h hit holds set live λ q ans.
        Returns-if q.0
          (λ _.
            let (p', again) = Answered-ready handlers h.fp h.filesize h.request w alive q ans go in
            subst
              (λ (s : Session net P).
                Returns
                  (λ s'. s'.world.conn.writ_tasks ≡ w.conn.writ_tasks ++ heads handlers (h ∷ hs))
                  (read_loop net class handlers files root fuel s))
              (sym again)
              (Returns-map
                (read_loop-Heads fuel q.1.world alive p' h.request.body_ hs pipe
                  (omega (arith, enough)) ans.behind (omega (arith, set, ans.sized)) ans.live)
                λ s tasks.
                  tasks
                  ∙ ap (λ (ts : List IoTask). ts ++ heads handlers hs) ans.queued
                  ∙ append_assoc w.conn.writ_tasks
                      (head_task handlers h.request.uri_ h.fp h.filesize ∷ []) (heads handlers hs)))
          λ stop. absurd (cc (stop, ans.goes, go))

  -- A read event whose buffer is printed requests behind one another, each for a file that is there
  -- and each but the last one with "keep-alive", puts the heads of the replies behind the tasks that
  -- wait, one for each request and in the order of the requests, if the parser has been cleared, the
  -- connection is live, and the poller takes every change of events. It ends with fuel for one round
  -- more than there are requests.
  pub handle_read_event-Heads :
      (fuel : ℕ) (w : World net P) (alive : Bool) (p : RequestParser) (text : Text) (hs : List Hit)
      → Pipelined files root text hs
      → length hs < fuel
      → Holds (map some text) w.conn.read_buf
      → 0 < w.conn.read_buf.capacity_
      → IsLive w
      → Returns
          (λ s. s.world.conn.writ_tasks ≡ w.conn.writ_tasks ++ heads handlers hs)
          (handle_read_event net class handlers files root fuel (ready w alive p))
  unfolding handle_read_event
  handle_read_event-Heads fuel w alive p text hs pipe enough holds set live =
      read_loop-Heads fuel w alive p text hs pipe enough holds set live
