-- ===== src/Cacheroute.antt =====
-- src/cacheroute: the models of cache operations that the parts of the system exchange.
pub mod State
pub mod CacheOperation
pub mod Observation
pub mod Contracts
pub mod Trace
mod Tests
