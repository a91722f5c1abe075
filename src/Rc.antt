-- ===== src/Rc.antt =====
-- The reference counting containers of include/aex: arrays and hash tables of counted cells.
pub mod Array
pub mod Table
