-- ===== src/Kernel/Str/Compare.antt =====
-- What `strcmp`, `memcmp` and `strchrnul` decide.
use aexkernel.Prelude.{
  ℕ, zero, suc, ◌+◌, ◌<◌, ◌≤◌, ◌≡◌, refl, subst, ==_iff, ◌↔◌, inl, inr, List, [], ◌∷◌, ◌==◌,
  if◌then◌else◌, Bool-cases, get_or, length, arith,
}
use aexkernel.Kernel.Str.{memcmp_from, memcmp, strcmp, strlen}

-- The string at a pointer: the bytes up to the first terminator.
abbrev pub text_at : List ℕ → List ℕ
text_at [] = []
text_at (x ∷ xs) = if x == 0 then [] else x ∷ text_at xs

pub strlen-text_at : (s : List ℕ) → strlen s ≡ length (text_at s)
unfolding strlen
strlen-text_at [] = refl
strlen-text_at (x ∷ xs) = ground (arith, strlen-text_at xs)

strcmp-eq : (a b : List ℕ) → strcmp a b ≡ 0 → text_at a ≡ text_at b
unfolding strcmp
strcmp-eq [] [] h = refl
strcmp-eq [] (y ∷ ys) h = ground arith
strcmp-eq (x ∷ xs) [] h = ground arith
strcmp-eq (x ∷ xs) (y ∷ ys) h = ground (arith, strcmp-eq xs ys)

strcmp_of_eq : (a b : List ℕ) → text_at a ≡ text_at b → strcmp a b ≡ 0
unfolding strcmp
strcmp_of_eq [] [] h = refl
strcmp_of_eq [] (y ∷ ys) h = ground arith
strcmp_of_eq (x ∷ xs) [] h = ground arith
strcmp_of_eq (x ∷ xs) (y ∷ ys) h = ground (arith, strcmp_of_eq xs ys)

-- `strcmp` gives 0 exactly when the two strings have the same bytes up to their terminators.
pub strcmp_iff : (a b : List ℕ) → (strcmp a b ≡ 0) ↔ (text_at a ≡ text_at b)
strcmp_iff a b = (strcmp-eq a b, strcmp_of_eq a b)

memcmp_from-eq :
    (a b : List ℕ) (i n k : ℕ)
    → memcmp_from a b i n ≡ 0
    → i ≤ k
    → k < i + n
    → get_or a k 0 ≡ get_or b k 0
unfolding memcmp_from
memcmp_from-eq a b i zero k h p q = absurd (omega arith)
memcmp_from-eq a b i (suc n) k h p q = elim (Bool-cases (i == k)) [
  | inl e ↦ subst (λ j. get_or a j 0 ≡ get_or b j 0) ((==_iff i k).0 e) (head_eq h)
  | inr d ↦ memcmp_from-eq a b (suc i) n k (ground arith) (ground arith) (omega arith)
]
  where
    head_eq : memcmp_from a b i (suc n) ≡ 0 → get_or a i 0 ≡ get_or b i 0
    head_eq h = ground arith

memcmp_from_of_eq :
    (a b : List ℕ) (i n : ℕ)
    → ((k : ℕ) → i ≤ k → k < i + n → get_or a k 0 ≡ get_or b k 0)
    → memcmp_from a b i n ≡ 0
unfolding memcmp_from
memcmp_from_of_eq a b i zero h = refl
memcmp_from_of_eq a b i (suc n) h = ground (
  arith,
  h i (omega arith) (omega arith),
  memcmp_from_of_eq a b (suc i) n (λ k p q. h k (omega arith) (omega arith)),
)

-- `memcmp` gives 0 exactly when the first `size` bytes are the same.
pub memcmp_iff :
    (a b : List ℕ) (size : ℕ)
    → (memcmp a b size ≡ 0) ↔ ((k : ℕ) → k < size → get_or a k 0 ≡ get_or b k 0)
unfolding memcmp
memcmp_iff a b size = (
  λ h k l. memcmp_from-eq a b 0 size k h (omega arith) (omega arith),
  λ h. memcmp_from_of_eq a b 0 size (λ k p q. h k (omega arith)),
)
