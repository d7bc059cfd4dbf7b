-- ===== src/Dht.antt =====
-- pkg/dht: the peer manager, the announcer and the discovery cache.
pub mod Announcer
pub mod Peers
pub mod Discovery
pub mod Client
