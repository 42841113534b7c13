-- ===== src/Http.antt =====
-- beast/http_server: the URL codec, the query parser, the route table, a connection and the
-- acceptor. The network, the clock and the HTTP parser are Boost's: their completions are events.
pub mod Url
pub mod Query
pub mod Message
pub mod Logic
pub mod Singleton
pub mod Connection
pub mod Server
pub mod System
