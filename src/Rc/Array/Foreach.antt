-- ===== src/Rc/Array/Foreach.antt =====
-- Which ids `rcparray_foreach` and `rcparray_find` reach.
use aexkernel.Prelude.{
  ℕ, zero, suc, ◌+◌, ◌-◌, ◌≤◌, ◌<◌, ◌≡◌, refl, sym, ap, subst, ◌∙◌, inl, inr, Bool, true, false,
  ◌||◌, ◌&&◌, ◌↔◌, Option, none, some, List, [], ◌∷◌, ◌==◌, leb, Bool-cases, ==_iff, length, arith,
}
use aexkernel.Rc.Array.{Cell, slot, is_present, present_from, rcparray_foreach}

abbrev pub visits : List ℕ → ℕ → Bool
visits [] i = false
visits (x ∷ xs) i = x == i || visits xs i

module _ {ℓ} {A : Type ℓ} where
  not_present_from :
      (xs : List (Option (Cell A))) (i : ℕ) → length xs ≤ i → present_from xs i ≡ false
  not_present_from [] i h = refl
  not_present_from (x ∷ xs) zero h = absurd (omega arith)
  not_present_from (x ∷ xs) (suc i) h = not_present_from xs i (omega arith)

  present_from-suc :
      (xs : List (Option (Cell A))) (i : ℕ)
      → present_from xs (suc i) ≡ true
      → present_from xs i ≡ true
  present_from-suc [] i h = cc
  present_from-suc (x ∷ xs) zero h = ground arith
  present_from-suc (x ∷ xs) (suc i) h = present_from-suc xs i h

  present_from_le :
      (xs : List (Option (Cell A))) (k i j : ℕ)
      → j ≡ k + i
      → present_from xs j ≡ true
      → present_from xs i ≡ true
  present_from_le xs zero i j e h = subst (λ k. present_from xs k ≡ true) (omega arith) h
  present_from_le xs (suc k) i j e h =
      present_from-suc xs i (present_from_le xs k (suc i) j (omega arith) h)

  none_behind :
      (xs : List (Option (Cell A))) (id i : ℕ)
      → present_from xs id ≡ false
      → (leb id i && present_from xs i) ≡ false
  none_behind xs id i h = elim (Bool-cases (leb id i && present_from xs i)) [
    | inl b ↦ absurd (true-ne-false (sym (last_present b) ∙ h))
    | inr n ↦ n
  ]
    where
      true-ne-false : true ≡ false → ⊥
      true-ne-false e = cc

      last_present : (leb id i && present_from xs i) ≡ true → present_from xs id ≡ true
      last_present b = present_from_le xs (i - id) id i (ground arith) (ground arith)

  first_or_later :
      (xs : List (Option (Cell A))) (id i : ℕ)
      → present_from xs id ≡ true
      → (id == i || (leb (suc id) i && present_from xs i)) ≡ (leb id i && present_from xs i)
  first_or_later xs id i h = elim (Bool-cases (id == i)) [
    | inl e ↦ rw e (sym (rw (refl_leb e) (at_id e)))
    | inr n ↦ rw n (ground arith)
  ]
    where
      refl_leb : (id == i) ≡ true → leb id i ≡ true
      refl_leb e = ground arith

      at_id : (id == i) ≡ true → present_from xs i ≡ true
      at_id e = subst (λ k. present_from xs k ≡ true) ((==_iff id i).0 e) h

  -- The rounds of `rcparray_foreach` from `id` on: they end, with fuel above the number of slots
  -- left, and visit the ids from `id` on that have a present slot at or behind them.
  foreach_from :
      (f : ℕ) (xs : List (Option (Cell A))) (id : ℕ)
      → length xs - id < f
      → (ids : List ℕ) × (rcparray_foreach f xs id ≡ some ids)
        × ((i : ℕ) → visits ids i ≡ (leb id i && present_from xs i))
  unfolding rcparray_foreach
  foreach_from zero xs id h = absurd (omega arith)
  foreach_from (suc f) xs id h = elim (Bool-cases (present_from xs id)) [
    | inr n ↦ ([], rw (n, rcparray_foreach), λ i. sym (none_behind xs id i n))
    | inl p ↦
        let r = foreach_from f xs (suc id) (smaller p) in
        (
          id ∷ r.0,
          rw (p, rcparray_foreach) (rw r.1),
          λ i. ap (λ b. id == i || b) (r.2 i) ∙ first_or_later xs id i p,
        )
  ]
    where
      smaller : present_from xs id ≡ true → length xs - suc id < f
      smaller p = elim (Bool-cases (leb (length xs) id)) [
        | inl b ↦ absurd (true-ne-false (sym p ∙ not_present_from xs id (ground arith)))
        | inr n ↦ ground arith
      ]
        where
          true-ne-false : true ≡ false → ⊥
          true-ne-false e = cc

  -- A slot at `i` or behind it holds a present value.
  abbrev pub Ahead : List (Option (Cell A)) → ℕ → Type ℓ
  Ahead xs i = (j : ℕ) × (c : Cell A) × (i ≤ j) × (slot xs j ≡ some c) × (c.present ≡ true)

  Ahead-here :
      (x : Option (Cell A)) (xs : List (Option (Cell A))) → is_present x ≡ true → Ahead (x ∷ xs) 0
  Ahead-here none xs e = absurd (false-ne-true e)
    where
      false-ne-true : false ≡ true → ⊥
      false-ne-true e = cc
  Ahead-here (some c) xs e = (0, c, omega arith, refl, e)

  present_from-Ahead : (xs : List (Option (Cell A))) (i : ℕ) → present_from xs i ≡ true → Ahead xs i
  present_from-Ahead [] i e = absurd (false-ne-true e)
    where
      false-ne-true : false ≡ true → ⊥
      false-ne-true e = cc
  present_from-Ahead (x ∷ xs) zero e = elim (Bool-cases (is_present x)) [
    | inl b ↦ Ahead-here x xs b
    | inr n ↦
        let (j, c, l, at, p) = present_from-Ahead xs zero (rw n at e) in
        (suc j, c, omega arith, at, p)
  ]
  present_from-Ahead (x ∷ xs) (suc i) e =
      let (j, c, l, at, p) = present_from-Ahead xs i e in (suc j, c, omega (arith, l), at, p)

  present_at :
      (xs : List (Option (Cell A))) (j : ℕ) (c : Cell A)
      → slot xs j ≡ some c
      → c.present ≡ true
      → present_from xs j ≡ true
  present_at [] j c at p = absurd (none-ne-some at)
    where
      none-ne-some : ◌≡◌ {A = Option (Cell A)} none (some c) → ⊥
      none-ne-some e = cc
  present_at (x ∷ xs) zero c at p = ap (λ b. b || present_from xs zero) (ap is_present at ∙ p)
  present_at (x ∷ xs) (suc j) c at p = present_at xs j c at p

  Ahead-present_from : (xs : List (Option (Cell A))) (i : ℕ) → Ahead xs i → present_from xs i ≡ true
  Ahead-present_from xs i (j, c, l, at, p) =
      present_from_le xs (j - i) i j (omega (arith, l)) (present_at xs j c at p)

  -- `rcparray_foreach` with a body that leaves the array alone ends, and the ids that it runs the body
  -- with are just those for which a slot at the id or behind it holds a present value, whether their
  -- own slot does or not. The fuel is above the number of slots.
  pub rcparray_foreach-visits :
      (f : ℕ) (xs : List (Option (Cell A)))
      → length xs < f
      → (ids : List ℕ) × (rcparray_foreach f xs 0 ≡ some ids)
        × ((i : ℕ) → (visits ids i ≡ true) ↔ Ahead xs i)
  rcparray_foreach-visits f xs h =
      let (ids, e, v) = foreach_from f xs 0 (omega arith) in
      (
        ids,
        e,
        λ i. (
          λ t. present_from-Ahead xs i (sym (v i ∙ from_zero i) ∙ t),
          λ a. v i ∙ from_zero i ∙ Ahead-present_from xs i a,
        ),
      )
    where
      from_zero : (i : ℕ) → (leb 0 i && present_from xs i) ≡ present_from xs i
      from_zero i = ground arith
