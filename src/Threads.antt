-- ===== src/Threads.antt =====
-- Handlers that run at once. `Server::serve_tcp` starts a thread for each connection, and the loop
-- `run` and the thread of a new container run beside them. Elsewhere in this library a handler is one
-- step; here it is cut where another thread can come between.
pub mod Requests
pub mod Reclaims
pub mod Reports
pub mod Matching
