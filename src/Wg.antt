-- ===== src/Wg.antt =====
-- internal/wg/config.go: reading, checking, redacting and merging WireGuard configurations.
pub mod Scan
pub mod Line
pub mod Config
pub mod Transform
pub mod Validate
