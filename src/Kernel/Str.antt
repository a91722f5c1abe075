-- ===== src/Kernel/Str.antt =====
-- kernel/string.c: memory and C strings. Memory from a pointer on is the list of its bytes, and the
-- end of the list stands for a terminator. The C strings that the theorems speak of are the bytes up
-- to the first terminator. Results of type `int` are 32-bit patterns.
mod Tests
pub mod Compare
pub mod Move
pub mod Copy
use aexkernel.Prelude.{
  ℕ, zero, suc, ◌+◌, ◌-◌, ◌%◌, Bool, List, [], ◌∷◌, ◌&&◌, ltb, leb, ◌==◌, if◌then◌else◌, get_or,
  set, minus_one,
}

-- The loop of `memcmp` from index `i` on, with `n` bytes left.
unfoldable pub memcmp_from : List ℕ → List ℕ → ℕ → ℕ → ℕ
memcmp_from a b i zero = 0
memcmp_from a b i (suc n) =
    let rest = memcmp_from a b (suc i) n in
    if ltb (get_or a i 0) (get_or b i 0)
    then minus_one
    else if ltb (get_or b i 0) (get_or a i 0)
    then 1
    else rest

unfoldable pub memcmp : List ℕ → List ℕ → ℕ → ℕ
unfolding memcmp_from
memcmp a b size = memcmp_from a b 0 size

-- The forward loop of `memmove` inside one memory, at index `i`, with `n` bytes left.
copy_up : List ℕ → ℕ → ℕ → ℕ → ℕ → List ℕ
copy_up mem dst src i zero = mem
copy_up mem dst src i (suc n) =
    copy_up (set mem (dst + i) (get_or mem (src + i) 0)) dst src (suc i) n

-- Its backward loop, with the bytes below `i` left.
copy_down : List ℕ → ℕ → ℕ → ℕ → List ℕ
copy_down mem dst src zero = mem
copy_down mem dst src (suc i) = copy_down (set mem (dst + i) (get_or mem (src + i) 0)) dst src i

-- `dst` and `src` are indices into one memory, so that the two ranges may overlap.
pub memmove : List ℕ → ℕ → ℕ → ℕ → List ℕ
unfolding copy_up copy_down
memmove mem dst src size =
    if ltb dst src then copy_up mem dst src 0 size else copy_down mem dst src size

-- The loop of `memset` at index `i`, with `n` bytes left; `(uint8_t) value`.
memset_from : List ℕ → ℕ → ℕ → ℕ → List ℕ
memset_from buf value i zero = buf
memset_from buf value i (suc n) = memset_from (set buf i (value % 256)) value (suc i) n

pub memset : List ℕ → ℕ → ℕ → List ℕ
unfolding memset_from
memset buf value size = memset_from buf value 0 size

-- `left[i] < right[i]` on `char`, which is signed.
abbrev char_lt : ℕ → ℕ → Bool
char_lt a b = ltb ((a + 128) % 256) ((b + 128) % 256)

abbrev char_order : ℕ → ℕ → ℕ
char_order a b = if char_lt a b then minus_one else 1

unfoldable pub strcmp : List ℕ → List ℕ → ℕ
strcmp [] [] = 0
strcmp [] (y ∷ ys) = if y == 0 then 0 else char_order 0 y
strcmp (x ∷ xs) [] = if x == 0 then 0 else char_order x 0
strcmp (x ∷ xs) (y ∷ ys) =
    let rest = strcmp xs ys in if x == y then (if x == 0 then 0 else rest) else char_order x y

unfoldable pub strlen : List ℕ → ℕ
strlen [] = 0
strlen (x ∷ xs) = if x == 0 then 0 else suc (strlen xs)

-- The memory of `dst` after the copy: the source's string and a terminator, over what was there.
pub strcpy : List ℕ → List ℕ → ℕ → List ℕ
strcpy dst [] i = set dst i 0
strcpy dst (x ∷ src) i =
    let rest = strcpy (set dst i x) src (suc i) in if x == 0 then set dst i 0 else rest

pub toupper : ℕ → ℕ
toupper c = if leb b'a' c && leb c b'z' then c - 0x20 else c

pub tolower : ℕ → ℕ
tolower c = if leb b'A' c && leb c b'Z' then c + 0x20 else c

-- How far behind its argument the result of `strchrnul` points.
pub strchrnul : List ℕ → ℕ → ℕ
strchrnul [] c = 0
strchrnul (x ∷ xs) c = if x == c then 0 else if x == 0 then 0 else suc (strchrnul xs c)
