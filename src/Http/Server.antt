-- ===== src/Http/Server.antt =====
-- `mod app` and `mod server` of project-03-http-server.rs: the routes, and one connection.
pub mod Defs
pub mod Connection
