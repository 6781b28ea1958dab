-- ===== src/Processor.antt =====
-- processor/: its configuration, and what it makes of the statistics that a rotation hands out.
pub mod Config
pub mod Nesting
pub mod Update
pub mod Rotating
pub mod Matcher
pub mod Manager
pub mod Loaders
pub mod Examples
