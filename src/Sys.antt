-- ===== src/Sys.antt =====
-- sys: the parts of the kernel that serve the hardware.
pub mod Irq
