-- ===== src/Plugin.antt =====
-- pkg/plugin: what plugins may do, and what the user has approved.
pub mod Manifest
pub mod Glob
pub mod Grant
pub mod Guard
pub mod Runtime
pub mod Dispatch
