-- ===== src/Scheduler.antt =====
-- scheduler/: the registry of proxies and the choice among them.
pub mod ProxyPool
pub mod ControlPlane
mod Tests
pub mod CacheRoute
pub mod RoundRobin
pub mod KdnSync
pub mod KdnPool
