-- ===== src/Proxy.antt =====
-- internal/proxy: the copy loop of a stream, and the accounting of its tokens.
pub mod Handler
pub mod Sink
pub mod Json
pub mod Stream
