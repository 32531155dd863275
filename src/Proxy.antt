-- ===== src/Proxy.antt =====
-- The proxy: the pool of LLM instances, the selection strategies and the request queues.
pub mod Pool
pub mod Strategy
pub mod Queue
