-- ===== src/Kernel/Num/Reverse.antt =====
-- Swapping the ends inwards reverses a text.
use mathlib.Core.List.{reverse, reverse-append}
use native.Mathlib.Nat.{zero-add}
use aexkernel.Prelude.{
  ℕ, zero, suc, ◌+◌, ◌-◌, ◌<◌, ◌≤◌, ◌≡◌, refl, ap, ap₂, sym, ◌∙◌, inl, inr, true, false, List, [],
  ◌∷◌, ◌++◌, ltb, leb, ◌==◌, ◌&&◌, if◌then◌else◌, Bool-cases, get_or, get_or-set, set, length-set,
  length, length-append, arith,
}
use aexkernel.Kernel.Num.{swap_loop, turn}

list_ext :
    (a b : List ℕ)
    → length a ≡ length b
    → ((i : ℕ) → i < length a → get_or a i 0 ≡ get_or b i 0)
    → a ≡ b
list_ext [] [] l h = refl
list_ext [] (y ∷ b) l h = absurd (omega arith)
list_ext (x ∷ a) [] l h = absurd (omega arith)
list_ext (x ∷ a) (y ∷ b) l h =
    ap₂ ◌∷◌ (h 0 (omega arith)) (list_ext a b (omega arith) (λ i p. h (suc i) (omega arith)))

get_or-append :
    (a b : List ℕ) (i : ℕ)
    → get_or (a ++ b) i 0 ≡ (if ltb i (length a) then get_or a i 0 else get_or b (i - length a) 0)
get_or-append [] b i = ground arith
get_or-append (x ∷ a) b zero = ground arith
get_or-append (x ∷ a) b (suc i) = get_or-append a b i ∙ ground arith

reverse-cons : (x : ℕ) (a : List ℕ) → reverse (x ∷ a) ≡ reverse a ++ (x ∷ [])
reverse-cons x a = reverse-append (x ∷ []) a

pub length-reverse : (a : List ℕ) → length (reverse a) ≡ length a
length-reverse [] = refl
length-reverse (x ∷ a) =
    ap length (reverse-cons x a)
    ∙ omega (arith, length-append (reverse a) (x ∷ []), length-reverse a)

get_or-reverse :
    (a : List ℕ) (i : ℕ) → i < length a → get_or (reverse a) i 0 ≡ get_or a (length a - 1 - i) 0
get_or-reverse [] i h = absurd (omega arith)
get_or-reverse (x ∷ a) i h =
    ap (λ r. get_or r i 0) (reverse-cons x a)
    ∙ get_or-append (reverse a) (x ∷ []) i
    ∙ elim (Bool-cases (ltb i (length (reverse a)))) [
      | inl l ↦ rw l (
          get_or-reverse a i (ground (arith, length-reverse a))
          ∙ ap (λ k. get_or (x ∷ a) k 0) (shift l))
      | inr n ↦
          rw n (ap (λ j. get_or (x ∷ []) j 0) (at_zero n) ∙ ap (λ k. get_or (x ∷ a) k 0) (end n))
    ]
  where
    shift : ltb i (length (reverse a)) ≡ true → suc (length a - 1 - i) ≡ length (x ∷ a) - 1 - i
    shift l = ground (arith, length-reverse a)

    at_zero : ltb i (length (reverse a)) ≡ false → i - length (reverse a) ≡ 0
    at_zero n = ground (arith, length-reverse a)

    end : ltb i (length (reverse a)) ≡ false → 0 ≡ length (x ∷ a) - 1 - i
    end n = ground (arith, length-reverse a)

length-swap_loop : (f : ℕ) (s : List ℕ) (low ptr : ℕ) → length (swap_loop f s low ptr) ≡ length s
unfolding swap_loop
length-swap_loop zero s low ptr = refl
length-swap_loop (suc f) s low ptr =
    let s' = set s low (get_or s ptr 0) in
    ground (
      arith,
      length-swap_loop f (set s' ptr (get_or s low 0)) (suc low) (ptr - 1),
      length-set s' ptr (get_or s low 0),
      length-set s low (get_or s ptr 0),
    )

-- What one swap makes of each place.
get_or_swapped :
    (s : List ℕ) (low ptr i : ℕ)
    → low < ptr
    → ptr < length s
    → get_or (set (set s low (get_or s ptr 0)) ptr (get_or s low 0)) i 0
      ≡ (if i == low then get_or s ptr 0 else if i == ptr then get_or s low 0 else get_or s i 0)
get_or_swapped s low ptr i l h =
    let s' = set s low (get_or s ptr 0) in
    get_or-set s' ptr i (get_or s low 0) 0 (omega (arith, length-set s low (get_or s ptr 0)))
    ∙ ground (arith, get_or-set s low i (get_or s ptr 0) 0 (omega arith))

abbrev swapped : List ℕ → ℕ → ℕ → List ℕ
swapped s low ptr = set (set s low (get_or s ptr 0)) ptr (get_or s low 0)

-- Where the ends have met, mirroring changes nothing.
mirror_middle :
    (s : List ℕ) (low ptr i : ℕ)
    → ptr ≤ low
    → get_or s i 0 ≡ (if leb low i && leb i ptr then get_or s (low + ptr - i) 0 else get_or s i 0)
mirror_middle s low ptr i h = ground (arith, same)
  where
    same : low + ptr - i ≡ i → get_or s (low + ptr - i) 0 ≡ get_or s i 0
    same e = ap (λ k. get_or s k 0) e

-- Mirroring inside after a swap of the ends is mirroring.
mirror_outer :
    (s : List ℕ) (low ptr i : ℕ)
    → low < ptr
    → ptr < length s
    → (if leb (suc low) i && leb i (ptr - 1)
        then get_or (swapped s low ptr) (suc low + (ptr - 1) - i) 0
        else get_or (swapped s low ptr) i 0)
      ≡ (if leb low i && leb i ptr then get_or s (low + ptr - i) 0 else get_or s i 0)
mirror_outer s low ptr i l h = ground (
  arith,
  get_or_swapped s low ptr i l h,
  get_or_swapped s low ptr (suc low + (ptr - 1) - i) l h,
  at (low + ptr - i) ptr,
  at (low + ptr - i) low,
  at (suc low + (ptr - 1) - i) (low + ptr - i),
)
  where
    at : (j k : ℕ) → j ≡ k → get_or s j 0 ≡ get_or s k 0
    at j k e = ap (λ n. get_or s n 0) e

-- The loop mirrors the places between `low` and `ptr`.
get_or-swap_loop :
    (f : ℕ) (s : List ℕ) (low ptr i : ℕ)
    → ptr < length s
    → ptr - low ≤ f
    → get_or (swap_loop f s low ptr) i 0
      ≡ (if leb low i && leb i ptr then get_or s (low + ptr - i) 0 else get_or s i 0)
unfolding swap_loop
get_or-swap_loop zero s low ptr i h b = mirror_middle s low ptr i (omega arith)
get_or-swap_loop (suc f) s low ptr i h b = elim (Bool-cases (ltb low ptr)) [
  | inl l ↦ rw l (
      get_or-swap_loop f (swapped s low ptr) (suc low) (ptr - 1) i (short l) (omega arith)
      ∙ mirror_outer s low ptr i (ground arith) h)
  | inr n ↦ rw n (mirror_middle s low ptr i (ground arith))
]
  where
    short : ltb low ptr ≡ true → ptr - 1 < length (swapped s low ptr)
    short l = omega (
      arith,
      length-set (set s low (get_or s ptr 0)) ptr (get_or s low 0),
      length-set s low (get_or s ptr 0),
    )

-- Turning a text round in place reverses it.
pub turn-reverse : (s : List ℕ) → turn s ≡ reverse s
unfolding turn
turn-reverse [] = refl
turn-reverse (x ∷ s) =
    list_ext (turn (x ∷ s)) (reverse (x ∷ s))
      (length-swap_loop (length (x ∷ s)) (x ∷ s) 0 (length (x ∷ s) - 1)
        ∙ sym (length-reverse (x ∷ s)))
      (λ i l.
        get_or-swap_loop (length (x ∷ s)) (x ∷ s) 0 (length (x ∷ s) - 1) i (omega arith)
          (omega arith)
        ∙ inside i (omega (arith, length-swap_loop (length (x ∷ s)) (x ∷ s) 0 (length (x ∷ s) - 1)))
        ∙ sym (
            get_or-reverse (x ∷ s) i
              (omega (arith, length-swap_loop (length (x ∷ s)) (x ∷ s) 0 (length (x ∷ s) - 1)))))
  where
    inside :
        (i : ℕ)
        → i < length (x ∷ s)
        → (if leb 0 i && leb i (length (x ∷ s) - 1)
            then get_or (x ∷ s) (0 + (length (x ∷ s) - 1) - i) 0
            else get_or (x ∷ s) i 0)
          ≡ get_or (x ∷ s) (length (x ∷ s) - 1 - i) 0
    inside i l = rw (in_range, zero-add) refl
      where
        in_range : (leb 0 i && leb i (length (x ∷ s) - 1)) ≡ true
        in_range = ground arith
