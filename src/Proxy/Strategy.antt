-- ===== src/Proxy/Strategy.antt =====
-- proxy/strategy: how the proxy picks an instance among the live ones.
pub mod RoundRobin
pub mod LeastLoad
mod Tests
