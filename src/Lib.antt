-- ===== src/Lib.antt =====
-- Models and theorems for liby-cpp, an event-driven network library in C++.
--
-- The parts of the program that are modelled, and the files that model them:
--
-- Buffer models src/Buffer.h and src/Buffer.cpp, the byte buffer that connections read into and
-- write from. A buffer is a record of the four members; `char *` is an optional block of cells, a
-- cell an optional byte, so that memory from `new char[n]` is visibly unwritten. `memcpy` and
-- `memmove` are reads and writes of a block that fault out of bounds. Buffer has the construction,
-- the sizes and `retrieve`; Buffer/Moves has the operations that move bytes (`append`, `prepend`,
-- `forward`, `backward`, `reserve`, `resize`, `shrink`). Buffer/Content has the invariant and the
-- bytes held; Buffer/Moves/Append, Buffer/Moves/Prepend, Buffer/Moves/Shrink and Buffer/Retrieve
-- prove the operations; Buffer/Queue is the view of a buffer as a queue of bytes.
--
-- BinaryHeap models src/BinaryHeap.h over an abstract `operator<` and default value.
-- BinaryHeap/Order has the heap order and the laws of a strict weak order, BinaryHeap/Up and
-- BinaryHeap/Down the two loops, BinaryHeap/Operations and BinaryHeap/Erase the member functions.
--
-- Timestamp models class Timestamp of src/util.h. TimerQueue models src/TimerQueue.h and
-- src/TimerQueue.cpp with `runAt` and `runAfter` of src/EventLoop.cpp, over BinaryHeap and
-- Timestamp; TimerQueue/Late has what the order of the timers leads to. TimerQueue/Mixin models
-- src/TimerMixin.cpp, the timers that an object holds and cancels, and `runEvery`;
-- TimerQueue/Mixin/Cancel proves that a cancelled timer is silent. The functions that users
-- pass as handlers are a parameter of the model.
--
-- Http models Request, RequestParser and ReplyParser of src/http/HttpDef.h and
-- src/http/HttpDef.cpp. A text is a list of bytes and a pointer into it a position; a read outside
-- of the text that `parse` gets is out of bounds. Http has the characters, the tables of methods
-- and `parse_hex`; Http/Request the printing and the Parse functions for the parts of a request;
-- Http/Request/Stages the switch of `parse`, one function for each case that falls through to the
-- next. Http/Scan, Http/Request/Fields, Http/Request/Uri and Http/Request/HeaderLines prove what
-- single steps find, Http/Request/Roundtrip reads a printed request back, Http/Request/Partial has
-- texts that end early and headers that cannot be taken apart, and Http/Request/Ends the end of the
-- loops. The headers, in C++ an unordered map, are a list of pairs in the order in which an
-- iteration goes through the map; the allocation in `ParseURI` succeeds, and `body_` is the list of
-- its bytes. Http/Reply has the Parse functions of ReplyParser and Http/Reply/Stages its switch,
-- over a Buffer for `content_` and `stoi` of Http/Numbers; Http/Reply/Body proves what the last
-- stages do. Http/Reply/Print prints a reply, and Http/Reply/ReadBack reads a printed reply back, with
-- Http/Reply/Status for the tables, Http/Reply/Digits for numbers, Http/Reply/Head and
-- Http/Reply/Lines for the stages. Http/Mime has `getMimeType`.
--
-- Trie models class Trie of src/util.h, the pointers of a node that are not null as a list with
-- their indices; Trie/Map proves what `find` says after `insert`.
--
-- Poller models src/Channel.h, src/Channel.cpp, src/Poller.h and src/Poller.cpp: the channels, the
-- table from descriptors to channels and the three lists of handlers. Poller/Class has the virtual
-- functions as an interface and the channel's calls of them; Poller/Select, Poller/Poll and
-- Poller/Epoll model src/PollerSelect.cpp, src/PollerPoll.cpp and src/PollerEpoll.cpp,
-- Poller/Kevent models src/PollerKevent.cpp, and Poller/Scan the loop that the first two share.
-- Callbacks and handlers are numbers, and a parameter says what each does to the poller. What
-- `select`, `poll`, `epoll_wait` and `kevent` answer is a parameter too; `epoll_ctl` and the
-- changes of `kevent` are interfaces whose documented laws are records of hypotheses. Channels are
-- objects at addresses, so that a channel may be deleted while the table still has its address,
-- and a call of a deleted channel is an access out of bounds. Poller/Safety, Poller/Select/Safety,
-- Poller/Select/Table, Poller/Poll/Safety, Poller/Poll/Table and Poller/Epoll/Mirror have the
-- invariants, Poller/Handlers, Poller/Scan/Full and Poller/Select/Ready what the loops do, and
-- Poller/Kevent/Batches and Poller/Kevent/Lost which changes of events reach the kernel.
--
-- Http/Server models src/http/HttpServer.cpp and Http/Client models src/http/HttpClient.cpp, over
-- Buffer, the two parsers and Connection; the loops of both `handleReadEvent` are a function for one
-- round and one for the loop on fuel. What `open` and `fstat` find is a parameter of the server, and
-- so is what the handlers of the replies do of the client. Http/Server/Ends, Http/Server/Answers,
-- Http/Server/Pipeline and Http/Server/Errors prove how the server reads and answers requests,
-- Http/Client/Requests, Http/Client/Replies and Http/Client/Spin how the client sends them and takes
-- the replies, and Http/Client/Wire what the server makes of the client's bytes. Connection/Sends has
-- what the calls that send put in the queue of writes.
--
-- Connection models src/Connection.h and src/Connection.cpp: the queue of writes, the functions
-- that send, the events and `destroy`, over Buffer and Poller. Connection/Writes has
-- `handleWritEvent`. The calls of the socket are an interface; Connection/Stream has their
-- documented laws and the view of the queue as a stream of bytes, Connection/Consume and
-- Connection/Flush prove what `handleWritEvent` does to that stream, Connection/Events what
-- arrives; Connection/Sync has `sync_read` and `sync_send`. The queue owns its buffers, and a file
-- is a function from offsets to bytes.
--
-- Udp models src/UdpSocket.h, src/UdpSocket.cpp, src/UdpConnection.h and src/UdpConnection.cpp with
-- the order of src/Endpoint.h: Udp the state and the functions that send, Udp/Events the events.
-- `recvfrom` and `sendto` are an interface, the callbacks a parameter. Udp/Peers has the table of
-- peers with its invariant, Udp/Inbox what comes from each peer, Udp/Errors what stops a socket.
--
-- BlockingQueue models src/BlockingQueue.h; BlockingQueue/Monitor has the threads that wait on the
-- condition variable as a step relation, one step for each call under the mutex, of those that notify
-- and of those that do not. EventQueue models
-- src/EventQueue.h, src/EventQueue.cpp and `runEventHandler` of src/EventLoop.cpp over
-- BlockingQueue, and EventQueue/Wakeup the threads that hand handlers to a loop, with the push and
-- the wake-up as separate steps. EventLoopGroup models the choice of a loop in
-- src/EventLoopGroup.cpp.
--
-- Resolver models src/Resolver.cpp: the requests, and what the resolver thread does with one, over
-- BlockingQueue and EventQueue; `getaddrinfo` is a parameter. Resolver/Thread is the step relation of
-- that thread, the threads that ask, the one that calls `stop`, the loops that run handlers and the
-- threads that hand over handlers of their own; Resolver/Stop proves how the thread ends, Resolver/Delivery
-- what each loop has taken and holds, and Resolver/Answers which answers reach the loops. Requests made in
-- a thread without a loop are left out of that relation, since the resolver thread then uses a null loop.
--
-- TcpServer models src/TcpServer.cpp and `accept` of src/Socket.cpp over Connection, EventQueue,
-- EventLoopGroup and Poller, with the system call as an interface. TcpServer/Accept has what becomes
-- of the sockets that wait, TcpServer/Failure what a failure of `accept` does.
--
-- A call that can go wrong gives a `Run` of Base/Outcome: a value, or the way in which the C++ call
-- fails (a failed assertion, an access out of bounds, a null pointer, an exception, or the fuel of
-- the model used up). Numbers are natural numbers; overflow of `off_t`, of `uint32_t` sizes and of
-- the 64-bit timer ids is left out, as is the release of memory.
--
-- Fuel: `reserve` gets one round more than the size asked for, `insert` of the heap as many rounds
-- as the heap has entries afterwards and `percolate_down` one more than there are entries; the
-- theorems show that these suffice. The loop over the headers gets one round more than the text
-- has bytes, the decoding of a URI one for each byte. `retriveveAsString` takes the depth of its
-- recursion as an argument, and `handleTimeoutEvents` the number of rounds of its loop. The loop
-- that takes written bytes out of the queue of a connection gets one round more than the queue has
-- tasks, and `handleWritEvent` and `sync_send` as many as the caller says, more than bytes wait.
-- The read loop of the HTTP server gets two rounds more than there are bytes. A list of handlers
-- gets more rounds than it will have handlers, the loop over the descriptors one more than there
-- are descriptors, and the read event of a UDP socket one more than there are datagrams. The
-- accept loop gets one round more than sockets wait, and each call of `accept` one more than
-- signals interrupt it.
--
-- Not modelled: the system calls themselves, a failure of `timerfd_settime`, which is only logged, the loop of `run`, which only calls the poller, and the
-- start of threads; TcpClient, which is wiring around shared pointers; logging, signals, the exit
-- handlers, and the conversions of Timestamp to text and to floating point, which are output; the
-- examples, which are programs that use the library.
pub mod Base
pub mod Buffer
pub mod BinaryHeap
pub mod Timestamp
pub mod TimerQueue
pub mod Http
pub mod Trie
pub mod Poller
pub mod Connection
pub mod Udp
pub mod BlockingQueue
pub mod EventQueue
pub mod EventLoopGroup
pub mod Resolver
pub mod TcpServer
