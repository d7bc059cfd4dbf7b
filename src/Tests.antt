-- ===== src/Tests.antt =====
-- The theorems at work on concrete data.
mod Samples
mod Config
mod Dht
mod Discovery
mod Storage
mod Crypto
mod Package
mod Packages
mod Handlers
mod Daemon
mod Statistics
mod Files
mod Client
mod Commands
mod Init
mod Routes
