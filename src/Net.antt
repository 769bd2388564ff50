-- ===== src/Net.antt =====
-- include/network and its sources: the channel, the poller, the event loop and TCP connections.
pub mod Channel
pub mod Connection
pub mod EventLoop
pub mod Poller
pub mod ThreadPool
pub mod Sockets
pub mod TcpServer
