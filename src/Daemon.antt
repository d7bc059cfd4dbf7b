-- ===== src/Daemon.antt =====
-- pkg/daemon: the package database, the configuration and the request handlers.
pub mod AddHandler
pub mod Config
pub mod Lifecycle
pub mod RemoveHandler
pub mod State
pub mod Statistics
pub mod PackageInfo
pub mod Packages
pub mod Init
pub mod Routes
pub mod Mux
