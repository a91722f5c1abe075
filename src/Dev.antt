-- ===== src/Dev.antt =====
-- dev/: devices.
pub mod Block
pub mod Names
pub mod Char
