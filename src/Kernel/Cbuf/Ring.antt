-- ===== src/Kernel/Cbuf/Ring.antt =====
-- The bytes that a circular buffer holds, and its invariant.
use aexkernel.Prelude.{
  ℕ, zero, suc, ◌+◌, ◌-◌, ◌≤◌, ◌<◌, ◌≡◌, refl, ap, ap₂, ◌∙◌, ◌⊎◌, List, [], ◌∷◌, ltb, leb,
  if◌then◌else◌, set, get_or, length, length-set, get_or-set, tabulate, tabulate_ext, arith,
}
use aexkernel.Kernel.Cbuf.{Cbuf, memcpy_to, memcpy_from, cbuf_create, cbuf_available}

-- The index that lies `k` behind a start, given as one sum.
abbrev pub wrap : ℕ → ℕ → ℕ
wrap size k = if ltb k size then k else k - size

-- One byte of the buffer always stays free, so equal pointers mean an empty buffer.
pub record IsValid (c : Cbuf) : Type 0 where
  pub storage : c.size ≤ length c.buffer
  pub small : c.size < 9223372036854775808
  pub write_in : c.write_ptr < c.size
  pub read_in : c.read_ptr < c.size

-- The number of bytes from the read to the write pointer, going round.
abbrev pub held : Cbuf → ℕ
held c =
    if leb c.read_ptr c.write_ptr
    then c.write_ptr - c.read_ptr
    else c.size - c.read_ptr + c.write_ptr

-- What a reader has still to get, oldest byte first.
abbrev pub contents : Cbuf → List ℕ
contents c = tabulate (held c) (λ i. get_or c.buffer (wrap c.size (c.read_ptr + i)) 0)

pub memcpy_from-tabulate :
    (src : List ℕ) (off n : ℕ) → memcpy_from src off n ≡ tabulate n (λ i. get_or src (off + i) 0)
unfolding memcpy_from
memcpy_from-tabulate src off zero = refl
memcpy_from-tabulate src off (suc n) = ap₂ ◌∷◌ (ap (λ j. get_or src j 0) (omega arith)) (
    memcpy_from-tabulate src (suc off) n
    ∙ tabulate_ext n _ _ (λ i l. ap (λ j. get_or src j 0) (omega arith)))

pub length-memcpy_to :
    (dst : List ℕ) (off : ℕ) (src : List ℕ) → length (memcpy_to dst off src) ≡ length dst
unfolding memcpy_to
length-memcpy_to dst off [] = refl
length-memcpy_to dst off (x ∷ src) =
    length-memcpy_to (set dst off x) (suc off) src ∙ length-set dst off x

-- A copy leaves every byte outside its range alone.
pub memcpy_to_out :
    (dst : List ℕ) (off : ℕ) (src : List ℕ) (j : ℕ)
    → off + length src ≤ length dst
    → (j < off) ⊎ (off + length src ≤ j)
    → get_or (memcpy_to dst off src) j 0 ≡ get_or dst j 0
unfolding memcpy_to
memcpy_to_out dst off [] j h o = refl
memcpy_to_out dst off (x ∷ src) j h o =
    memcpy_to_out (set dst off x) (suc off) src j (omega (arith, length-set dst off x))
      (omega arith)
    ∙ get_or-set dst off j x 0 (omega arith)
    ∙ ground arith

-- Inside its range a copy gives the source's bytes.
pub memcpy_to_in :
    (dst : List ℕ) (off : ℕ) (src : List ℕ) (k j : ℕ)
    → off + length src ≤ length dst
    → k < length src
    → j ≡ off + k
    → get_or (memcpy_to dst off src) j 0 ≡ get_or src k 0
unfolding memcpy_to
memcpy_to_in dst off [] k j h l e = absurd (omega arith)
memcpy_to_in dst off (x ∷ src) zero j h l e =
    memcpy_to_out (set dst off x) (suc off) src j (omega (arith, length-set dst off x))
      (omega arith)
    ∙ get_or-set dst off j x 0 (omega arith)
    ∙ ground arith
memcpy_to_in dst off (x ∷ src) (suc k) j h l e =
    memcpy_to_in (set dst off x) (suc off) src k j (omega (arith, length-set dst off x))
      (omega arith) (omega arith)

-- `cbuf_available` counts the bytes held, and fewer than `size` of them fit.
pub cbuf_available-held : {c : Cbuf} → IsValid c → (cbuf_available c ≡ held c) × (held c < c.size)
unfolding cbuf_available
cbuf_available-held v = ground arith

-- A buffer made of a block of at least `size` bytes is valid and empty.
pub cbuf_create-IsValid :
    (block : List ℕ) (size : ℕ)
    → size ≤ length block
    → 0 < size
    → size < 9223372036854775808
    → IsValid (cbuf_create block size) × (contents (cbuf_create block size) ≡ [])
unfolding cbuf_create
cbuf_create-IsValid block size h p b = (omega arith, ground arith)
