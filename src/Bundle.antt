-- ===== src/Bundle.antt =====
-- internal/bundle: what a bundle declares, and the checks that it passes before a model is opened.
pub mod Manifest
pub mod Text
pub mod Rules
pub mod Valid
pub mod Compatibility
pub mod Verify
pub mod Json
pub mod Layout
pub mod Parse
pub mod Reading
