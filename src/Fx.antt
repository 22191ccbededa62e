-- ===== src/Fx.antt =====
-- internal/fx: how the process is put together.
pub mod Claims
pub mod Reconnect
pub mod Templates
pub mod Transport
pub mod Lifecycle
pub mod Messaging
pub mod Presentation
pub mod Observability
pub mod Startup
pub mod Process
