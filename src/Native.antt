-- ===== src/Native.antt =====
-- native_lifecycle.go: what the library does around the native engine.
pub mod Coordinator
pub mod Leases
pub mod Engine
pub mod Opening
pub mod Run
