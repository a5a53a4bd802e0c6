-- ===== src/Lib.antt =====
-- hulatang-io, a C++ library for network programs: byte buffers, an event loop with timers and
-- tasks, channels and connections, files, and an HTTP client. This development models its portable
-- core, its Linux side and most of its Windows side.
--
-- How the program's parts meet. An EventLoop waits in its FdEventManager for events of descriptors,
-- for as long as calculationBlocktime says, handles the timers that are due, and runs the tasks that
-- were queued. An event reaches the Channel of its descriptor, whose Model (a Reactor) reads into or
-- writes from the Buffers of a TCPConnection. A Connector makes the channel of a client, an
-- EventLoopThreadPool gives a loop to each connection that an Acceptor hands to a server. The HTTP
-- client writes an HttpRequest into such a buffer and reads an HttpResponse out of another. On
-- Windows an IOCPFdEventManager tells that an operation has completed, and a Proactor posts the next.
--
-- Which file models what; `A/` stands for the children of A, where the proofs are:
-- - Base and Base/: names of the libraries, lists, texts as lists of bytes, and `Outcome`, what a
--   call ends in: a value, a failed assertion or an abort, undefined behaviour, an exception, or,
--   where a loop is on fuel, none within the fuel.
-- - Buffer and Buffer/: hulatang/base/Buffer.hpp and NoInit.hpp. The vector is the list `bytes`, and
--   each member function is the definition of that name (`makeSpace` is `make_space`). The content
--   of storage that NoInit leaves is an argument, `junk`. The four integer widths share one
--   definition, which has the number of bytes as an argument. The machine is little-endian.
-- - Http/Constant, Http/Url, Http/Number: HttpConstant.cpp, URL.cpp (`split` and what it calls), and
--   std::stoi and std::stoul as the response uses them, all of hulatang/http.
-- - Http/Response: hulatang/http/HttpResponse.cpp, with HttpResponseBuilder as the state `Builder`,
--   which each of its member functions takes and returns. Pointers are indices into the storage.
-- - Http/Request: hulatang/http/HttpRequest.cpp; a map of headers is an association
--   list, and the order in which it gives its elements to `operator<<` is a parameter.
-- - Http/Client: hulatang/http/HttpClient.cpp. The TCPClient is the queued connect, and what the
--   connection sends is a list of texts.
-- - Buffer/Stream: hulatang/base/StreamBuffer.hpp and Stream.hpp, the output side.
-- - File, File/Local, File/Windows: hulatang/base/platform/posix/File.cpp and win32/File.cpp, and
--   hulatang/file/LocalFile.cpp. What a call of the system answers is an argument; the descriptors
--   that the process holds are a list, so that a leak can be seen.
-- - Io/Reactor: hulatang/io/Reactor.cpp and reactor/UnixReactor.cpp. What readv and write answer is
--   an argument.
-- - Io/Connector: hulatang/io/Connector.cpp and reactor/UnixConnectReactor.cpp. What goes out to the
--   loop is the list `requests`.
-- - Io/FdTable, Io/Channel: hulatang/io/FdEventManager.cpp, Channel.hpp, Channel.cpp and
--   async/EPollFdEventManager.cpp; epoll_ctl is a parameter, a step of the kernel's state.
-- - Io/Connection: hulatang/io/TCPConnection.cpp, in the thread of its loop.
-- - Io/Connection/Outgoing, Incoming, Arrival: the same with reactor/UnixReactor.cpp, as streams of
--   bytes: what is sent waits in the buffer until the kernel takes it, in pieces of any length.
-- - Io/Server, Io/Client: hulatang/io/TCPServer.cpp, where the only loop is the server's, and
--   TCPClient.cpp, with the tasks that wait in the loop of the client. Io/Server/Loops, Lives:
--   TCPServer.cpp where each connection has its own loop, with the tasks that wait in each.
--   Io/Client/Connecting, Attempts: the client with its Connector, from `connect` to `disconnect`.
-- - Io/Timer: hulatang/io/TimerEventManager.cpp and TimerEventWatcher.cpp. The std::set is the list of
--   its elements in order; while `process` goes over it, it is the list before the iterator and
--   that from the iterator on (`Pass`). A handler is the list of the timers that it adds. In a set
--   whose order is broken a search is undefined in C++; here it goes from the front.
-- - Io/Cycle: hulatang/io/CycleEventManager.cpp. The concurrent queue is a parameter with the laws
--   of a queue that is first in, first out for the tasks of one thread.
-- - Io/Loop: hulatang/io/EventLoop.cpp, calculationBlocktime and runOnce. The readings of the clock
--   are arguments. Timers here add timers only. Io/Loop/Run: `run`, where a task can stop the loop.
-- - Io/Pool, Io/Proactor, Io/Status: EventLoopThreadPool.cpp, Proactor.cpp and Status.hpp of
--   hulatang/io. A list of overlapped operations is the chain of its `next` pointers.
-- - Io/Thread: hulatang/io/EventLoopThread.cpp. The two threads take turns in any order, each turn
--   an access to a shared variable; a critical section is one turn. The callback of the thread and the
--   tasks of its loop may stop the loop.
-- - Io/Acceptor: hulatang/io/accept/PosixAcceptor.cpp, reactor/UnixAcceptReactor.cpp and
--   hulatang/base/Socket.cpp. What accept and open answer depends on the descriptors that are held.
-- - Io/WsProactor, Io/WsAccept, Io/WsConnect, Io/Iocp: WSProactor.cpp, WSAcceptProactor.cpp and
--   WSConnectProactor.cpp of hulatang/io/proactor, accept/Win32Acceptor.cpp and
--   async/IOCPFdEventManager.cpp.
-- - Io/Wakeup: what stop and queueInLoop of hulatang/io/EventLoop.cpp do from another thread while the
--   loop waits in async/EPollFdEventManager.cpp, with async/LinuxFdEventManager.cpp. The eventfd is an
--   interface with the laws of its count. Io/Idle: hulatang/io/IdleEventManager.cpp.
-- - Io/Server/Start: the start of TCPServer.cpp, with its pool and acceptor. Io/Timer/Creation: the
--   `create` functions of TimerEventWatcher.cpp.
-- - Io/Connection/Contexts: the contexts of TCPConnection.hpp. Io/Connection/Queued: send from another
--   thread, shutdown and forceClose of TCPConnection.cpp.
-- - Io/Address, Io/Timer/Cancel: hulatang/io/InetAddress.cpp; InvokeTimer.cpp, EventWatcher.cpp and
--   the cancelling of TimerEventWatcher.cpp.
--
-- Bounds. A size_t is a number below 2 ^ 64 and its sums wrap (`add64`, `sub64`); the count of tasks
-- is an int32_t and wraps at 2 ^ 32. Delays and times are natural numbers, and do not wrap.
-- Fuel. The loops of the response take the length of the buffer and one more: each round moves
-- behind a line break, and there are no more of these than bytes. The loop of the timers takes one
-- more than there are timers that are due, since a handler adds later timers only; this is proved.
-- The rounds of `run` are on fuel as well: one for each generation of tasks up to that which stops it.
--
-- Not modelled: logging, exceptions and stack traces; the creation of the models of a channel, by
-- SocketModelFactory; the setters of callbacks; more than one thread, but for Io/Thread, Io/Wakeup,
-- Io/Server/Loops and Io/Connection/Queued, so that each other component runs in the thread of its
-- loop; the input stream; ProactorChannel.cpp, which needs a class that the repository lacks;
-- magic_enum and the concurrent queue, which are other libraries. What is left of the sources beside
-- these is glue: constructors that open and close the descriptor of epoll or of the completion port,
-- and functions that call another one.
pub mod Base
pub mod Buffer
pub mod Http
pub mod File
pub mod Io
