-- ===== src/Examples.antt =====
-- The theorems at concrete inputs.
pub mod Ring
pub mod Messages
pub mod Handles
pub mod Cache
pub mod Calls
pub mod Rights
pub mod Descriptors
pub mod Exports
pub mod System
pub mod Procs
pub mod Mounts
pub mod Config
pub mod Replicas
