-- ===== src/Plugins.antt =====
-- The plugins under plugins/, one module each.
pub mod Log
pub mod Certificate
pub mod Packages
pub mod Processes
pub mod Scripts
pub mod Flags
pub mod Apt
pub mod CacheFile
pub mod Reboot
pub mod Cpu
pub mod Memory
pub mod Disk
pub mod Network
