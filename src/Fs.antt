-- ===== src/Fs.antt =====
-- fs/: the virtual file system. `Vfs` is its state and the calls on open files, `Mounts` the choice of
-- a mount for a path.
pub mod Types
pub mod Path
pub mod Mounts
pub mod Vfs
pub mod Syscalls
