-- ===== src/Kernel/Num.antt =====
-- kernel/string.c: numbers in text. An integer of `w` bits is its pattern; `htoa`, `itoa` and `ltoa`
-- are `ntoa` at 16, 32 and 64 bits, and the other families likewise. The text that a conversion
-- writes is the list of its bytes, without the terminator.
mod Tests
pub mod Reverse
pub mod Roundtrip
use Prim.Native.String.{String}
use Prim.Native.Char.{code}
use aexkernel.Prelude.{
  ℕ, zero, suc, ◌+◌, ◌-◌, ◌*◌, ◌/◌, ◌%◌, ◌^◌, Bool, List, [], ◌∷◌, ◌&&◌, ◌||◌, ltb, leb, ◌==◌,
  if◌then◌else◌, get_or, set, length,
}

abbrev pub codes : String → List ℕ
codes String.[] = []
codes (String.◌∷◌ c s) = code c ∷ codes s

abbrev pub ntoa_dictionary : List ℕ
ntoa_dictionary = codes "zyxwvutsrqponmlkjihgfedcba9876543210123456789abcdefghijklmnopqrstuvwxyz"

-- The digits of `value` in the order in which the loop writes them, lowest first. `digit` looks a
-- remainder up.
pub digits_loop : ℕ → (ℕ → ℕ) → ℕ → ℕ → List ℕ
digits_loop zero digit value base = []
digits_loop (suc f) digit value base =
    let rest = digits_loop f digit (value / base) base in
    digit (value % base) ∷ (if value / base == 0 then [] else rest)

-- The loop that swaps the ends of the text between `low` and `ptr`, which close in on each other.
pub swap_loop : ℕ → List ℕ → ℕ → ℕ → List ℕ
swap_loop zero str low ptr = str
swap_loop (suc f) str low ptr =
    let rest =
      swap_loop f (set (set str low (get_or str ptr 0)) ptr (get_or str low 0)) (suc low)
        (ptr - 1) in
    if ltb low ptr then rest else str

pub turn : List ℕ → List ℕ
unfolding swap_loop
turn str = swap_loop (length str) str 0 (length str - 1)

abbrev pub bad_base : ℕ → Bool
bad_base base = ltb base 2 || ltb 36 base

abbrev pub digit_up : ℕ → ℕ
digit_up r = get_or ntoa_dictionary (35 + r) 0

-- A negative remainder -r picks the mirrored place of the dictionary.
abbrev pub digit_down : ℕ → ℕ
digit_down r = get_or ntoa_dictionary (35 - r) 0

-- UNTOA_COMMON. A value of `w` bits has at most `w` digits in a base from 2 on.
pub untoa : ℕ → ℕ → ℕ → List ℕ
untoa w value base = if bad_base base then [] else turn (digits_loop (suc w) digit_up value base)

-- NTOA_COMMON. `low` starts behind the sign. A negative value is divided towards 0, so its digits
-- are those of its magnitude.
pub ntoa : ℕ → ℕ → ℕ → List ℕ
ntoa w value base =
    let negative = leb (2 ^ (w - 1)) value in
    let up = turn (digits_loop (suc w) digit_up value base) in
    let down = turn (digits_loop (suc w) digit_down (2 ^ w - value) base) in
    if bad_base base
    then []
    else if negative
    then (if base == 10 then b'-' ∷ down else down)
    else up

-- A `char`, which is signed, as a number of `w` bits.
abbrev pub of_char : ℕ → ℕ → ℕ
of_char w c = if ltb c 128 then c else c + 2 ^ w - 256

-- The loop of ATON_COMMON and UATON_COMMON. The signed numbers wrap here; in C their overflow is
-- undefined, and the text of the smallest number reaches it already.
pub aton_loop : ℕ → ℕ → List ℕ → ℕ
aton_loop w res [] = res
aton_loop w res (x ∷ str) =
    let rest = aton_loop w ((res * 10 + of_char w x + 2 ^ w - 48) % 2 ^ w) str in
    if x == 0 then res else rest

pub uaton : ℕ → List ℕ → ℕ
uaton w str = aton_loop w 0 str

unfoldable pub aton : ℕ → List ℕ → ℕ
aton w [] = 0
aton w (x ∷ str) =
    if x == b'-' then (2 ^ w - aton_loop w 0 str) % 2 ^ w else aton_loop w 0 (x ∷ str)
