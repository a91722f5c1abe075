-- ===== src/Kernel.antt =====
-- kernel/: the containers and small services that the rest of the kernel is built on.
pub mod Klist
pub mod Cbuf
pub mod Cbufm
pub mod Str
pub mod Hook
pub mod Num
pub mod Snprintf
