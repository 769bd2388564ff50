-- ===== src/Http.antt =====
-- include/network/http and src/Http*.cpp: the HTTP layer on top of the TCP connections.
pub mod Request
pub mod Context
pub mod Response
pub mod Server
