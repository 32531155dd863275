-- ===== src/KdnServer.antt =====
-- kdn_server: the knowledge server's gateway to its caches.
pub mod Capabilities
pub mod Gateway
