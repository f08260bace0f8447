-- ===== src/Lib.antt =====
-- A network library with a key-value store, an HTTP server, an asynchronous logger and timers, as
-- executable definitions with theorems about them.
--
-- Storage/ models src/storage/. `Heap` is src/storage/Node.h: nodes and their `_forward` arrays on
-- an explicit heap, where a read through a null or freed pointer or out of bounds is `none`.
-- `SkipList` is the class of src/storage/SkipList.h: `insert_element`, `delete_element`,
-- `search_element`, `display_list` and `entries` are `insertElement`, `deleteElement`,
-- `searchElement`, `displayList` and the loop of `dumpFile`, each over the loops that the code
-- shares between them (`descend` fills `update`). An operation is one step. The mutex makes it so
-- for `insertElement` and `deleteElement`; the other operations take no lock, and what is said of
-- them is for calls that do not overlap with those two. `Table` is the sorted dictionary that the
-- list stands for; `SkipList.View.Represents` says when. `DumpFile` is the text of the store file.
-- `Worker` is src/storage/SkipListWorker.cpp: `parse_command` splits a command, `handle` calls one
-- of the six handlers, `deal_with_cmd` is `dealWithCmd`. `Service` is the abstract service that it
-- refines, `Worker.Restart` a database that loads the store file when it is made, and
-- `Worker.Session` a sequence of commands as example/kv_server.cpp deals with them. `KvServer` is
-- the message callback of example/kv_server.cpp: bytes are read, the command is dealt with, and
-- the reply is sent.
--
-- Http/ models src/http/: `Request`, `ParseWorker`, `Context`, `Response` and `Server` are the
-- classes `HttpRequest`, `ParseWorker`, `HttpContext`, `HttpResponse` and `HttpServer`, and `Site`
-- is `onRequest` of example/http_server.cpp. A pair of character pointers is the text between
-- them. An unordered map is an association list. `Context.round` is one round of the loop of
-- `parseRequest`, with the assignments that stand in its tests. `Server.Callback` makes
-- `onMessage` a message callback of the server in Network/.
--
-- Network/ models src/network/: `Kernel` is what the code takes from the system call `epoll_ctl`,
-- with its documented behaviour as laws (`Kernel.Table` is a kernel with those laws); `Buffer`,
-- `Channel` (with the registration in `Epoll`), `Connection` and `Server` are the classes. What
-- the system calls `read` and `write` return is given as a list of results. A server has its
-- connections by descriptor, and an epoll for each sub-reactor; `Server.new_connection`,
-- `delete_connection_at`, `message` and `check_active` are `NewConnection`, `DeleteConnection`,
-- the read callback of a connection (`Connection::Business`) and the callback that
-- `CheckActiveConnection` runs at every interval. `Connection.Callback` is the user's callback for
-- a message: it may change the connection's buffers and context, and close it, and leaves its
-- descriptor and channel alone; `EchoServer` has those of example/server.cpp and
-- example/timer_server.cpp. `Reactor` is `Epoll::Poll`, `Channel::HandleEvent` and a round of
-- `EventLoop::Loop`, with the events that `epoll_wait` finds as an argument, and
-- `Reactor.Reachable` the steps of the main loop and the sub-reactors, in any order. `Socket` is
-- `Socket`, `InetAddress`, `ErrorIf` and `Acceptor`, whose `accept_connection` takes the callback
-- for the new connection. `ThreadPool` is the class: its threads take turns in any order, where a
-- turn is what a thread does from one release of the mutex to the next. A thread whose condition
-- does not hold is `asleep` in its wait until `notify_one` or `notify_all` wakes it; `shut_down`
-- is the destructor up to the joins.
--
-- Logger/ models src/logger/: `FixedBuffer` and `LogStream` are src/logger/LogStream.h and .cpp,
-- `AppendFile` is src/logger/FileUtil.cpp over the C library's `fwrite` as a parameter, `LogFile`
-- is src/logger/LogFile.cpp and `AsyncLogging` is src/logger/AsyncLogging.cpp.
-- `AsyncLogging.Threads` puts the front end and the back end together: an event is a call of
-- `append` or the back end's next step, so a list of events is an interleaving; a round starts
-- with the three asserts of `threadFunc` (`round_asserts`). Its `passed` is what has been handed
-- to `append` of the `LogFile`; what of that reaches the file is `AppendFile`'s.
-- `LogFile.write_buffers` hands the collected buffers to the file. `Logging` is `Logger` of
-- src/logger/Logging.cpp: a `Statement` such as `LOG_INFO << "x" << 3` gives a line, which the
-- destructor passes to `g_output`; `Logging.Statements` sets that to the asynchronous logger, as
-- src/logger/test/LogTest.cpp does. `Thread` is src/logger/Thread.cpp and
-- src/logger/CurrentThread.cpp.
--
-- Timer/ models src/timer/: `Node` and `Queue` are `TimerNode` and `TimerQueue`. The clock is an
-- argument, and the arithmetic on `double` intervals a parameter. Among nodes of one expiration
-- the queue is first in, first out, which `std::priority_queue` allows and does not promise.
-- `Clock` is about the time that starts again every 10000 seconds.
--
-- Fuel. A walk along a level of a skip list is given `_elementCount + 1` rounds, the loop of
-- `parseCommand` one round more than the command has bytes, the loop of `parseRequest` one more
-- than there are bytes to read, `convert` one more than the value, and the write loop of the
-- append file one more than the line has bytes. `none` is a fault or fuel that has run out.
--
-- What comes from outside: `operator new` returns an unused address, and among the results of
-- `rand()` there is an even number (`Storage.Worker.Env`); `fwrite` appends the bytes that it
-- counts (`Logger.AppendFile.Stream`); `snprintf` prints a floating-point number in less than 32
-- bytes (`Logger.LogStream.Floats`); `epoll_ctl` succeeds as documented (`Network.Kernel`); a
-- descriptor that `accept` returns is not in use, so no interest list has it.
--
-- Not modelled: a `Connection` made without an event loop, which only example/client.cpp makes; the
-- system calls themselves, the creation of threads, the clock and the file system, console output,
-- the text of an internet address, the names of the log files, and timer callbacks that change the
-- queue.
pub mod Prelude
pub mod Storage
pub mod Http
pub mod Logger
pub mod Network
pub mod Timer
