-- ===== src/Commands.antt =====
-- cmd/lbsd and cmd/lbs: the daemon program and the client that starts it.
pub mod PidFile
pub mod Options
pub mod Shutdown
pub mod Client
pub mod Control
pub mod Display
pub mod Requests
