-- ===== src/Lib.antt =====
-- Verification of hydrogenWeb: a web server in C++ over an event loop for each thread.
--
-- The program. A `Poller` waits for events on the descriptors of its `Channel`s; the `EventLoop` of a
-- thread lets each active channel call back and then runs the functors that it was given. A
-- `TcpConnection` is such a client of its channel: it reads into a `HyBuffer`, hands the bytes to its
-- owner, and writes what the owner sends, at once or out of a second `HyBuffer`. `HttpServer` owns
-- connections: for each it keeps an `HttpContext`, which parses an `HttpRequest` out of the buffer, lets a
-- callback fill an `HttpResponse`, and sends its text. `application/hydrogenWeb.cpp` is that callback.
-- A `TcpServer` keeps the table of its connections: its `Acceptor` hands it each new socket, and its pool
-- the loop that the connection is to live in. A `TimerQueue` runs functors at given times. `Rio`, `Riob`
-- and `sio` read and write files. `SharedBuf` is a bounded buffer over two semaphores.
--
-- The files, by the part of the program:
--   Common: numbers, lists, byte strings, `std::map`, `std::unordered_map`, decimal numbers, and `Result`,
--     whose faults are an access outside a vector, a failed assertion, an exception, and a loop without fuel.
--   HyBuffer: include/core/HyBuffer.hpp and src/HyBuffer.cpp. The state is the vector and both indices.
--   Http/Request, Http/Context, Http/Response, Http/Server: include/network/http and its sources. The
--     functions have the names of the methods; the loop of `parseRequest` is `parse_loop` over `step`.
--   Net/Channel, Net/Connection, Net/Poller, Net/EventLoop: include/network and its sources. The answer of
--     the kernel to a read or a write is an argument; a run is a sequence of steps in any order.
--   Net/ThreadPool: include/core/EventLoopThreadPool.hpp and src/EventLoopThreadPool.cpp.
--   Net/TcpServer: include/network/TcpServer.hpp and src/TcpServer.cpp. Lives has the steps of a server
--     together with its loop; the other modules below it prove what holds in every run.
--   Net/Sockets: src/socketDetail.cpp, src/Socket.cpp and src/Acceptor.cpp. The calls of the kernel are the
--     record `Kernel`, and `Ledger` is what its documentation says of open descriptors.
--   Timing: include/core/TimerQueue.hpp, Timer.hpp, Timestamp.hpp and their sources.
--   Io: include/io/robustio.hpp and src/robustio.cpp. The kernel's calls are parameters.
--   Sio: include/io/sio.hpp and src/sio.cpp. `write` is a parameter.
--   Sync: include/sem and its sources. A thread's way from one lock to the next is a step; Waking has the
--     steps of a semaphore, Threads those of a buffer.
--   App, App/Handlers: application/hydrogenWeb.cpp. Files, database, hash and clock are the record
--     `Outside`, and `on_request` is `onRequest`.
--   Tests: the theorems at concrete inputs.
--
-- Fuel. `parse_request` has fuel for three turns and one for each readable byte, which is enough since a
-- turn ends the loop, changes the state or consumes a byte; a complete context is the one state in which
-- the loop of the source does not end. `readn` has fuel for the bytes asked for and for the interruptions,
-- of which there are finitely many, since a turn uses up one of them; `writen` has it for the answers of 0
-- too. The loops of `sio` have fuel for the length of the text, and for one more than the number, which
-- each turn divides.
--
-- Limits of the runs. A send that would write outside of the output buffer ends a run, since the program
-- goes on with damaged memory then; sizes are below 2^63. In the runs of a server a close is the last
-- callback of its turn, where the source can call the read callback behind it.
--
-- Not modelled: system calls and logging; the start of threads, and a server whose connections live in
-- several loops (the program never runs its pool); `InetAddr`; the tests and the echo programs. A callback
-- of a connection is a function of the loop's thread, and its shared ownership is not modelled: the objects
-- of connections are kept for ever, under the numbers in which they were made.
pub mod Common
pub mod HyBuffer
pub mod Http
pub mod Net
pub mod Io
pub mod Timing
pub mod Sio
pub mod Sync
pub mod App
pub mod Tests
