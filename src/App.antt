-- ===== src/App.antt =====
-- internal/config/config.go: the application's configuration.
pub mod Routes
pub mod Load
pub mod Paths
