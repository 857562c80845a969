-- ===== src/Resolver.antt =====
-- src/Resolver.h, src/Resolver.cpp: names are resolved by a thread of their own, which takes requests
-- from a queue and hands the endpoints back to the loop that asked.
pub mod Thread
pub mod Stop
pub mod Delivery
pub mod Answers
mod Tests
use liby_cpp.Base.{
  ℕ, zero, suc, Bool, true, false, List, [], ◌∷◌, ◌++◌, map, Option, none, some, ◌==◌,
  if◌then◌else◌, length, Run, ok, fault, null_pointer,
}
use liby_cpp.BlockingQueue.{BlockingQueue, of_elements, push_back}
use liby_cpp.EventQueue.{EventQueue, run_event_handler}
use liby_cpp.Udp.{Endpoint}

-- An entry of the list of `getaddrinfo`, its address read as a `sockaddr_in`.
pub record AddrInfo : Type 0 where
  pub sin_port : ℕ
  pub sin_addr : ℕ

-- The tuple of a request: the texts, the loop of the thread that asked, which is null if it has none,
-- and the handler, which may be empty.
pub record Query : Type 0 where
  pub name : List ℕ
  pub port : List ℕ
  pub loop : Option ℕ
  pub handler : Option ℕ

pub record ResolverThread : Type 0 where
  pub keep_running : Bool
  pub requests_ : BlockingQueue Query

-- A closure `[eps, handler] { handler(eps); }` and the loop that it was handed to.
pub record Post : Type 0 where
  pub loop : ℕ
  pub handler : ℕ
  pub eps : List Endpoint

-- What is handed to a loop: such a closure, or a handler of some other thread.
pub data Handed : Type 0 where
  resolved : Post → Handed
  other : ℕ → Handed

abbrev pub loop_of : Handed → ℕ
loop_of (resolved p) = p.loop
loop_of (other loop) = loop

-- The loops by their addresses, and all that was handed to them; the number of a handler in the queue
-- of a loop is its place in the list. With it, the numbers that each loop has taken out of its queue.
pub record World : Type 0 where
  pub loops : ℕ → EventQueue
  pub handed : List Handed
  pub ran : ℕ → List ℕ

-- `ResolverThread()`
unfoldable pub new_thread : ResolverThread
new_thread = record { keep_running = true; requests_ = of_elements [] }

-- `Endpoint(info)`
unfoldable pub endpoint_of : AddrInfo → Endpoint
endpoint_of info = record { port_ = info.sin_port; addr_ = info.sin_addr }

-- `ResolverThread::resolve(name, port, loop, handler)`
unfoldable pub request : Query → ResolverThread → ResolverThread
request r t = record t { requests_ = push_back t.requests_ r }

-- `keep_running = false;`
unfoldable pub lower : ResolverThread → ResolverThread
lower t = record t { keep_running = false }

abbrev pub last_request : Query
last_request = record { name = []; port = []; loop = none; handler = none }

-- `stop()`
unfoldable pub stop : ResolverThread → ResolverThread
stop t = request last_request (lower t)

-- `Resolver::async_resolve(host, service, handler)`, called in the thread of a loop or of none.
unfoldable pub async_resolve :
    Option ℕ → List ℕ → List ℕ → Option ℕ → ResolverThread → ResolverThread
async_resolve curr_loop host service handler =
    request (record { name = host; port = service; loop = curr_loop; handler = handler })

-- `loop->runEventHandler(...)`
unfoldable pub hand : Handed → World → World
hand h w = record w {
  loops =
      λ l. if l == loop_of h then run_event_handler (w.loops l) (length w.handed) else w.loops l;
  handed = w.handed ++ h ∷ [];
}

unfoldable pub hand_over : Post → World → World
hand_over p = hand (resolved p)

-- What `getaddrinfo` answers, none for an error.
module _ (getaddrinfo : List ℕ → List ℕ → Option (List AddrInfo)) where
  -- `Resolver::resolve(host, service)`
  unfoldable pub resolve : List ℕ → List ℕ → List Endpoint
  resolve host service = elim (getaddrinfo host service) [
    | none ↦ []
    | some ailist ↦ map endpoint_of ailist
  ]

  -- What `ResolverThread::func` does with a request that it has taken.
  unfoldable pub serve : Query → World → Run World
  serve r w = elim r.handler [
    | none ↦ ok w
    | some handler ↦ elim r.loop [
      | none ↦ fault null_pointer
      | some loop ↦
          ok (hand_over (record { loop = loop; handler = handler; eps = resolve r.name r.port }) w)
    ]
  ]
