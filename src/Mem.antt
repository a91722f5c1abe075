-- ===== src/Mem.antt =====
-- mem/: the physical frames.
pub mod Run
pub mod Frame
pub mod Pool
