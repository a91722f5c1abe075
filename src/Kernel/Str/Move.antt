-- ===== src/Kernel/Str/Move.antt =====
-- `memmove` between ranges of one memory that may overlap, and `memset`.
use aexkernel.Prelude.{
  ℕ, zero, suc, ◌+◌, ◌-◌, ◌<◌, ◌≤◌, ◌%◌, ◌≡◌, ap, ◌∙◌, inl, inr, List, ltb, leb, ◌&&◌,
  if◌then◌else◌, Bool-cases, get_or, get_or-set, set, length-set, length, arith,
}
use aexkernel.Kernel.Str.{copy_up, copy_down, memmove, memset_from, memset}

copy_up_lem :
    (mem : List ℕ) (dst src i n j : ℕ)
    → dst < src
    → dst + i + n ≤ length mem
    → get_or (copy_up mem dst src i n) j 0 ≡ (
        if leb (dst + i) j && ltb j (dst + i + n)
        then get_or mem (j - dst + src) 0
        else get_or mem j 0)
unfolding copy_up
copy_up_lem mem dst src i zero j l h = ground arith
copy_up_lem mem dst src i (suc n) j l h =
    let v = get_or mem (src + i) 0 in
    copy_up_lem (set mem (dst + i) v) dst src (suc i) n j l
      (omega (arith, length-set mem (dst + i) v))
    ∙ ground (
      arith,
      get_or-set mem (dst + i) j v 0 (omega arith),
      get_or-set mem (dst + i) (j - dst + src) v 0 (omega arith),
      same_source j i,
    )
  where
    same_source : (j i : ℕ) → j ≡ dst + i → get_or mem (j - dst + src) 0 ≡ get_or mem (src + i) 0
    same_source j i e = ap (λ k. get_or mem k 0) (omega arith)

copy_down_lem :
    (mem : List ℕ) (dst src i j : ℕ)
    → src ≤ dst
    → dst + i ≤ length mem
    → get_or (copy_down mem dst src i) j 0
      ≡ (if leb dst j && ltb j (dst + i) then get_or mem (j - dst + src) 0 else get_or mem j 0)
unfolding copy_down
copy_down_lem mem dst src zero j l h = ground arith
copy_down_lem mem dst src (suc i) j l h =
    let v = get_or mem (src + i) 0 in
    copy_down_lem (set mem (dst + i) v) dst src i j l (omega (arith, length-set mem (dst + i) v))
    ∙ ground (
      arith,
      get_or-set mem (dst + i) j v 0 (omega arith),
      get_or-set mem (dst + i) (j - dst + src) v 0 (omega arith),
      same_source j i,
    )
  where
    same_source : (j i : ℕ) → j ≡ dst + i → get_or mem (j - dst + src) 0 ≡ get_or mem (src + i) 0
    same_source j i e = ap (λ k. get_or mem k 0) (omega arith)

-- `memmove` leaves in the destination range the bytes that the source range held before the call,
-- however the ranges overlap, and every other byte as it was. The destination lies in the memory.
pub get_or-memmove :
    (mem : List ℕ) (dst src size j : ℕ)
    → dst + size ≤ length mem
    → get_or (memmove mem dst src size) j 0
      ≡ (if leb dst j && ltb j (dst + size) then get_or mem (j - dst + src) 0 else get_or mem j 0)
unfolding memmove
get_or-memmove mem dst src size j h = elim (Bool-cases (ltb dst src)) [
  | inl l ↦ rw l (copy_up_lem mem dst src 0 size j (ground arith) (omega arith) ∙ ground arith)
  | inr n ↦ rw n (copy_down_lem mem dst src size j (ground arith) h)
]

memset_from_lem :
    (buf : List ℕ) (value i n j : ℕ)
    → i + n ≤ length buf
    → get_or (memset_from buf value i n) j 0
      ≡ (if leb i j && ltb j (i + n) then value % 256 else get_or buf j 0)
unfolding memset_from
memset_from_lem buf value i zero j h = ground arith
memset_from_lem buf value i (suc n) j h =
    memset_from_lem (set buf i (value % 256)) value (suc i) n j
      (omega (arith, length-set buf i (value % 256)))
    ∙ ground (arith, get_or-set buf i j (value % 256) 0 (omega arith))

-- `memset` puts the low byte of `value` into the first `size` bytes and leaves the others alone.
pub get_or-memset :
    (buf : List ℕ) (value size j : ℕ)
    → size ≤ length buf
    → get_or (memset buf value size) j 0 ≡ (if ltb j size then value % 256 else get_or buf j 0)
unfolding memset
get_or-memset buf value size j h = memset_from_lem buf value 0 size j (omega arith) ∙ ground arith
