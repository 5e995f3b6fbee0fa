-- ===== src/Lib.antt =====
-- netfish, a reactor library for TCP on Linux: one event loop per thread, which waits in epoll, runs
-- the callbacks of the channels that have events, then the functors that were queued. Timers,
-- connections and connectors are clients of a loop. Paths are from the repository's root.
--
-- The parts, and the files that model them:
-- * Buffer.h, Buffer.cc: Buffer, with its invariant (Buffer.Valid), its reads (Contents), its
--   growth (Room), `readFd` (Input), `shrink` (Shrink), and sequences of calls (Run). A vector is a
--   list of bytes, the indices are `size_t` with the wrap-around written out.
-- * Channel.h, Channel.cc: Channel, with the order of callbacks (Channel.Dispatch). A poll mask is a
--   record of its bits.
-- * EPoller.h, EPoller.cc: EPoller, with its invariant (EPoller.Valid), `updateChannel` (Changes,
--   Registration), `removeChannel` (Registration) and `poll` (Polling). The kernel's epoll is the
--   interface Epoll, an argument of every definition and theorem.
-- * TcpConnection.h, TcpConnection.cc: TcpConnection. It holds two buffers and a channel. The bytes
--   that `write` took, the shutdown of the socket, the functors queued and the callbacks called are
--   fields of the state. Valid has the invariant, Opening its start, Sending and Writing the two
--   ways out, Closing `shutdown`, Reading `handleRead` and the end, Streams all of these in any order,
--   Kept what sending leaves as it was.
-- * Acceptor.h, Acceptor.cc: Acceptor, with Acceptor.Accepting.
-- * TcpServer.h, TcpServer.cc: TcpServer, with its map of connections (TcpServer.Connections)
--   and their names (Names). Lifecycle puts it together with its TcpConnections, as steps of their
--   loops in any order; Totals, Stages, Running, Removing, Orderly and Ends follow a connection
--   through its life, ClosedTwice where that goes wrong.
-- * TcpClient.h, TcpClient.cc: TcpClient, with what happens when its connection comes down
--   (TcpClient.Reconnecting).
-- * Connector.h, Connector.cc: Connector, the state machine that connects and retries; it sets off
--   by timers, by its channel and by functors. Rounds is the loop around it, Sound the invariant
--   of any round, Events and Running its steps, Safety the rounds; Valid is what holds when starts come only to
--   a connector at rest, with Starting, Handling and Restarting; Attempts the retries, Stopping a stop between them,
--   Destroying the destructor.
-- * Timestamp.h, Timestamp.cc, Timer.h, Timer.cc, TimerId.h: Timestamp, with Wait for the
--   time that the timer descriptor is set to, and the two texts of a time (Text, Formatted).
-- * TimerQueue.h, TimerQueue.cc: TimerQueue and TimerQueue.Expiry, a heap of timers with the two
--   sets that order them; a `std::set` is a sorted list (Prelude.OrderedSet). Valid has the invariant, Adding and
--   Calls the calls, Expired and Due `getExpired`, Resets and Settling `reset`, Firing `handleRead`,
--   Covered any sequence of these, Destroying the destructor, Elsewhere `addTimer` in another thread.
-- * EventLoop.h, EventLoop.cc: EventLoop, the queue of functors and the rounds. Pending has what one
--   round runs, Threads the steps of the loop's thread and of others in any order, Owner the thread
--   that a loop belongs to, Services its timers and channels.
-- * EventLoopThreadPool.h, EventLoopThreadPool.cc: ThreadPool, with ThreadPool.Turns.
-- * EventLoopThread.h, EventLoopThread.cc: EventLoopThread, its two threads as a step relation over
--   MutexLock and an EventLoop, with what `startLoop` waits for (Handshake), that it ends
--   (Progress), and the destructor (Ending).
-- * Thread.h, Thread.cc: Thread, with Lifetime. Atomic.h: Atomic, with calls of several threads
--   (Counting). MutexLock.h and Condition.h: MutexLock, with who holds it (Holding).
-- * SocketsOps.h, SocketsOps.cc: Sockets. InetAddress.h, InetAddress.cc: InetAddress, with its
--   texts (Text, Dotted). Socket.h, Socket.cc: Socket.
-- * Logging.h, Logging.cc: Logging, the level.
-- * The programs beside the library: Programs.PingPong and Echo (the handlers of pingPongServer.cc
--   and pingPongClient.cc), Client and Counts (the rest of pingPongClient.cc), Chargen
--   (testTcpServerChargen.cc, testTcpServerDiscard.cc), TwoMessages (testTcpConnectionSend.cc),
--   ThreadSum (testThread.cc).
-- Prelude has the types and lemmas that these share, Prelude.Faults the outcome of a call, and
-- Prelude.Decimal what `snprintf` writes.
--
-- A function `fooBar` is `foo_bar` here; a member function takes the object's record and returns the
-- new one. A call that can abort, throw or do what C++ leaves undefined returns an Outcome, with the
-- fault; an assert is a guard, and the `int` that counts connections has its overflow as a fault. Files named Tests run the definitions and the theorems at data.
--
-- Inputs of the model: what system calls answer (`readv`, `write`, `connect`, `accept4`, `eventfd`,
-- `pthread_create`, SO_ERROR, the clock), the conversions of addresses (the interface Inet),
-- `gmtime_r` for a date, what `new` answers (TimerQueue.Allocator: a free address, or none), what
-- callbacks do to the timer queue, and whether the caller is the loop's thread. Documented bounds on these answers are
-- hypotheses: `write` takes no more than it is given, `readv` no more than its two blocks.
--
-- Loops are recursions on the list that they go over, and the one loop with a counter, in
-- EventLoopThreadPool::start, on the rounds left; so are the loops of the programs that count up. The
-- digits of a number are written with a bound on their number, of which Prelude.Decimal proves that
-- one more than the number is enough.
--
-- Not modelled: the text of the log, `printf` and the mains of the programs; the system calls and
-- pthread calls themselves, whose answers are inputs; `waitForSeconds` and `notifyAll`, which nothing
-- calls; `double` arithmetic; the overflow of `int64_t`; the destructors of TcpServer, TcpConnection
-- and the thread pool, which only release what they hold. Apart from EventLoopThread and
-- TcpServer.Lifecycle, threads appear as the functors that they queue and the orders in which a loop takes them.
pub mod EventLoopThread
pub mod InetAddress
pub mod MutexLock
pub mod Logging
pub mod Prelude
pub mod Acceptor
pub mod Atomic
pub mod Buffer
pub mod Channel
pub mod Connector
pub mod EPoller
pub mod TcpConnection
pub mod EventLoop
pub mod Programs
pub mod Socket
pub mod Sockets
pub mod TcpClient
pub mod TcpServer
pub mod Thread
pub mod ThreadPool
pub mod Timestamp
pub mod TimerQueue
