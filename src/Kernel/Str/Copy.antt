-- ===== src/Kernel/Str/Copy.antt =====
-- What `strcpy` leaves in its destination.
use aexkernel.Prelude.{
  ℕ, zero, suc, ◌+◌, ◌<◌, ◌≡◌, refl, ap, ◌∙◌, inl, inr, false, List, [], ◌∷◌, ◌==◌, Bool-cases,
  get_or, get_or-set, set, drop, length, length-set, arith,
}
use aexkernel.Kernel.Str.{strcpy, strlen}
use aexkernel.Kernel.Str.Compare.{text_at}

drop_here : (xs : List ℕ) (i : ℕ) → i < length xs → drop i xs ≡ get_or xs i 0 ∷ drop (suc i) xs
drop_here [] i h = absurd (omega arith)
drop_here (x ∷ xs) zero h = refl
drop_here (x ∷ xs) (suc i) h = drop_here xs i (omega arith)

-- A copy leaves the bytes before its start alone.
get_or-strcpy :
    (dst src : List ℕ) (i j : ℕ)
    → j < i
    → i + strlen src < length dst
    → get_or (strcpy dst src i) j 0 ≡ get_or dst j 0
unfolding strcpy strlen
get_or-strcpy dst [] i j h l = get_or-set dst i j 0 0 (omega arith) ∙ ground arith
get_or-strcpy dst (x ∷ src) i j h l = elim (Bool-cases (x == 0)) [
  | inl z ↦ rw z (get_or-set dst i j 0 0 (ground arith) ∙ ground arith)
  | inr n ↦ rw n (
      get_or-strcpy (set dst i x) src (suc i) j (omega arith) (ground (arith, length-set dst i x))
      ∙ get_or-set dst i j x 0 (ground arith)
      ∙ ground arith)
]

length-strcpy : (dst src : List ℕ) (i : ℕ) → length (strcpy dst src i) ≡ length dst
unfolding strcpy
length-strcpy dst [] i = length-set dst i 0
length-strcpy dst (x ∷ src) i = elim (Bool-cases (x == 0)) [
  | inl z ↦ rw z (length-set dst i 0)
  | inr n ↦ rw n (length-strcpy (set dst i x) src (suc i) ∙ length-set dst i x)
]

ended_at : (xs : List ℕ) (i : ℕ) → i < length xs → get_or xs i 0 ≡ 0 → text_at (drop i xs) ≡ []
ended_at xs i h e = ap text_at (drop_here xs i h) ∙ ground arith

-- `strcpy` to a place where the string and its terminator fit leaves the source's string there, whatever
-- was there before.
pub text_at-strcpy :
    (dst src : List ℕ) (i : ℕ)
    → i + strlen src < length dst
    → text_at (drop i (strcpy dst src i)) ≡ text_at src
unfolding strcpy strlen
text_at-strcpy dst [] i l =
    ended_at (set dst i 0) i (omega (arith, length-set dst i 0))
      (get_or-set dst i i 0 0 (omega arith) ∙ ground arith)
text_at-strcpy dst (x ∷ src) i l = elim (Bool-cases (x == 0)) [
  | inl z ↦ rw z (
      ended_at (set dst i 0) i (ground (arith, length-set dst i 0))
        (get_or-set dst i i 0 0 (ground arith) ∙ ground arith))
  | inr n ↦ rw n (
      ap text_at (drop_here (strcpy (set dst i x) src (suc i)) i (in_range n))
      ∙ ap (λ b. text_at (b ∷ drop (suc i) (strcpy (set dst i x) src (suc i)))) (first_byte n)
      ∙ rw n (ap (λ t. x ∷ t) (text_at-strcpy (set dst i x) src (suc i) (room n))))
]
  where
    room : (x == 0) ≡ false → suc i + strlen src < length (set dst i x)
    room n = ground (arith, length-set dst i x)

    in_range : (x == 0) ≡ false → i < length (strcpy (set dst i x) src (suc i))
    in_range n = ground (arith, length-strcpy (set dst i x) src (suc i), length-set dst i x)

    first_byte : (x == 0) ≡ false → get_or (strcpy (set dst i x) src (suc i)) i 0 ≡ x
    first_byte n =
        get_or-strcpy (set dst i x) src (suc i) i (omega arith) (room n)
        ∙ get_or-set dst i i x 0 (ground arith)
        ∙ ground arith
