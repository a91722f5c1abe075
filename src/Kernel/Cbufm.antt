-- ===== src/Kernel/Cbufm.antt =====
-- kernel/cbufm.c: the circular buffer with one writer and many readers, each with a position of its
-- own. The writer never waits: it writes over what a slow reader has not read. A `cbufm_write` holds
-- the lock and is one step. `cbufm_read` only waits for the lock to be free; it is modelled over a
-- buffer that nobody writes to meanwhile, where a read that has to wait for bytes is `none`.
mod Tests
pub mod Broadcast
pub mod Reading
use aexkernel.Prelude.{
  ℕ, zero, suc, ◌+◌, Option, none, some, List, [], ◌∷◌, ◌++◌, ltb, ◌==◌, if◌then◌else◌, take, drop,
  length, add_size, sub_size,
}
use aexkernel.Kernel.Cbuf.{memcpy_to, memcpy_from}

pub record Cbufm : Type 0 where
  pub write_ptr : ℕ
  pub size : ℕ
  pub buffer : List ℕ

-- `block` is what `kmalloc(size)` returned.
pub cbufm_create : List ℕ → ℕ → Cbufm
cbufm_create block size = record { write_ptr = 0; size = size; buffer = block }

pub smaller : ℕ → ℕ → ℕ
smaller possible limit = if ltb limit possible then limit else possible

-- A position moved on by `n`, and back to the start at the end.
pub advance : ℕ → ℕ → ℕ → ℕ
advance size p n = if add_size p n == size then 0 else add_size p n

-- `possible` at the head of the loop of `cbufm_read`.
pub read_possible : Cbufm → ℕ → ℕ → ℕ
read_possible c start len =
    let w_off = if ltb c.write_ptr start then add_size c.write_ptr c.size else c.write_ptr in
    smaller (smaller (sub_size c.size start) (sub_size w_off start)) len

-- The bytes of one pass before those of the later ones.
abbrev pub behind : List ℕ → Option (List ℕ × ℕ) → Option (List ℕ × ℕ)
behind bytes none = none
behind bytes (some (rest, start)) = some (bytes ++ rest, start)

-- The loop of `cbufm_read` over a buffer that nobody writes to meanwhile: the bytes and the new
-- position. `none` is a read that waits, or one that runs out of fuel.
pub read_loop : ℕ → Cbufm → ℕ → ℕ → Option (List ℕ × ℕ)
read_loop fuel c start zero = some ([], start)
read_loop zero c start (suc len) = none
read_loop (suc fuel) c start (suc len) =
    let n = read_possible c start (suc len) in
    let rest = read_loop fuel c (advance c.size start n) (sub_size (suc len) n) in
    if n == 0 then none else behind (memcpy_from c.buffer start n) rest

pub cbufm_read : Cbufm → ℕ → ℕ → Option (List ℕ × ℕ)
cbufm_read c start len = read_loop (suc len) c start len

-- The loop of `cbufm_write` with the bytes left; `none` when the fuel runs out.
pub write_loop : ℕ → Cbufm → List ℕ → Option Cbufm
write_loop fuel c [] = some c
write_loop zero c (x ∷ src) = none
write_loop (suc fuel) c (x ∷ src) =
    let amnt = smaller (sub_size c.size c.write_ptr) (length (x ∷ src)) in
    write_loop fuel
      (record c {
        write_ptr = advance c.size c.write_ptr amnt;
        buffer = memcpy_to c.buffer c.write_ptr (take amnt (x ∷ src));
      })
      (drop amnt (x ∷ src))

-- The result of the call is the new `write_ptr`.
pub cbufm_write : Cbufm → List ℕ → Option Cbufm
cbufm_write c src = write_loop (suc (length src)) c src

pub cbufm_sync : Cbufm → ℕ
cbufm_sync c = c.write_ptr

pub cbufm_available : Cbufm → ℕ → ℕ
cbufm_available c start =
    if start == c.write_ptr
    then 0
    else if ltb c.write_ptr start
    then add_size (sub_size c.size start) c.write_ptr
    else sub_size c.write_ptr start
