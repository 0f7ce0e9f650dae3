-- ===== src/Supervisor.antt =====
-- internal/supervisor: the root process that runs the allow-listed network commands.
pub mod World
pub mod Protocol
pub mod Dispatch
pub mod Wg
pub mod Bird
pub mod Client
pub mod Routes
