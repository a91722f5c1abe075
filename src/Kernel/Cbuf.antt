-- ===== src/Kernel/Cbuf.antt =====
-- kernel/cbuf.c: the blocking circular buffer of bytes, with the copies of kernel/string.c's memcpy.
-- Each pass of the loops of `cbuf_read` and `cbuf_write` runs under the buffer's spinlock and is one
-- atomic step here. A pass that finds nothing to move changes nothing in the buffer, and its caller is
-- `waiting`; Rounds has the passes with the event on which they wait and which they trigger.
mod Tests
pub mod Ring
pub mod Chunk
pub mod Stream
pub mod Rounds
pub mod Blocking
use aexkernel.Prelude.{
  ℕ, zero, suc, ◌+◌, List, [], ◌∷◌, ltb, leb, ◌==◌, if◌then◌else◌, set, get_or, take, drop, length,
  add_size, sub_size,
}

pub record Cbuf : Type 0 where
  pub write_ptr : ℕ
  pub read_ptr : ℕ
  pub size : ℕ
  pub buffer : List ℕ

-- memcpy(dst + off, src, length of src)
pub memcpy_to : List ℕ → ℕ → List ℕ → List ℕ
memcpy_to dst off [] = dst
memcpy_to dst off (x ∷ src) = memcpy_to (set dst off x) (suc off) src

-- The bytes that memcpy(dst, src + off, n) copies.
pub memcpy_from : List ℕ → ℕ → ℕ → List ℕ
memcpy_from src off zero = []
memcpy_from src off (suc n) = get_or src off 0 ∷ memcpy_from src (suc off) n

-- `block` is what `kmalloc(size)` returned.
pub cbuf_create : List ℕ → ℕ → Cbuf
cbuf_create block size = record { write_ptr = 0; read_ptr = 0; size = size; buffer = block }

abbrev smaller : ℕ → ℕ → ℕ
smaller possible limit = if ltb limit possible then limit else possible

-- `possible` of `cbuf_read` at the head of its loop.
pub read_possible : Cbuf → ℕ → ℕ
read_possible c len =
    let w_off = if ltb c.write_ptr c.read_ptr then add_size c.write_ptr c.size else c.write_ptr in
    smaller (smaller (sub_size c.size c.read_ptr) (sub_size w_off c.read_ptr)) len

-- `possible` of `cbuf_write`.
pub write_possible : Cbuf → ℕ → ℕ
write_possible c len =
    let r_off = if leb c.read_ptr c.write_ptr then add_size c.read_ptr c.size else c.read_ptr in
    smaller (smaller (sub_size c.size c.write_ptr) (sub_size (sub_size r_off 1) c.write_ptr)) len

-- A pointer moved on by `n`, and back to the start when it reaches the end.
pub advance : ℕ → ℕ → ℕ → ℕ
advance size p n = if add_size p n == size then 0 else add_size p n

-- What one pass of a loop does: nothing, or a number of bytes moved.
pub data Pass (A : Type 0) : Type 0 where
  waiting : Pass A
  moved : A → Cbuf → Pass A

-- One pass of `cbuf_read` with `len` bytes still wanted, and the bytes that it delivers.
pub read_pass : Cbuf → ℕ → Pass (List ℕ)
read_pass c len =
    let n = read_possible c len in
    if n == 0
    then waiting
    else moved (memcpy_from c.buffer c.read_ptr n)
        (record c { read_ptr = advance c.size c.read_ptr n })

-- One pass of `cbuf_write` with the bytes `src` still to write, and what is left of them.
pub write_pass : Cbuf → List ℕ → Pass (List ℕ)
write_pass c src =
    let n = write_possible c (length src) in
    if n == 0
    then waiting
    else moved (drop n src) (record c {
      write_ptr = advance c.size c.write_ptr n;
      buffer = memcpy_to c.buffer c.write_ptr (take n src);
    })

pub cbuf_available : Cbuf → ℕ
cbuf_available c =
    if c.read_ptr == c.write_ptr
    then 0
    else if ltb c.write_ptr c.read_ptr
    then add_size (sub_size c.size c.read_ptr) c.write_ptr
    else sub_size c.write_ptr c.read_ptr
