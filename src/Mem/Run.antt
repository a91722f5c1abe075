-- ===== src/Mem/Run.antt =====
-- Runs of free places in a row of places that are free or taken.
use aexkernel.Prelude.{
  ℕ, zero, suc, ◌+◌, ◌<◌, ◌≤◌, ◌≡◌, inl, inr, Bool, true, false, ◌==◌, if◌then◌else◌, Bool-cases,
  ==_iff, sym, subst, arith,
}

module _ (t : ℕ → Bool) where
  -- How many ids in a row, up to `k` and without it, are free.
  abbrev pub run : ℕ → ℕ
  run zero = 0
  run (suc k) = if t k then 0 else suc (run k)

  pub run-le : (k : ℕ) → run k ≤ k
  run-le zero = omega arith
  run-le (suc k) = ground (arith, run-le k)

  pub free_in_run : (k j : ℕ) → j < k → k ≤ j + run k → t j ≡ false
  free_in_run zero j h l = absurd (omega arith)
  free_in_run (suc k) j h l = elim (Bool-cases (t k)) [
    | inl b ↦ absurd (no_run b)
    | inr f ↦ elim (Bool-cases (j == k)) [
      | inl e ↦ subst (λ i. t i ≡ false) (sym ((==_iff j k).0 e)) f
      | inr n ↦ free_in_run k j (ground arith) (longer f)
    ]
  ]
    where
      no_run : t k ≡ true → ⊥
      no_run b = ground arith

      longer : t k ≡ false → k ≤ j + run k
      longer f = ground arith

  -- A free range makes a run of its length.
  pub run_of_free : (n s k : ℕ) → s + n ≡ k → ((j : ℕ) → s ≤ j → j < k → t j ≡ false) → n ≤ run k
  run_of_free zero s k e h = omega arith
  run_of_free (suc n) s zero e h = absurd (omega arith)
  run_of_free (suc n) s (suc k) e h = ground (
    arith,
    h k (omega arith) (omega arith),
    run_of_free n s k (omega arith) (λ j p q. h j p (omega arith)),
  )

  -- A run that is long enough was exactly as long at some id before.
  pub run_reaches : (n k : ℕ) → 0 < n → n ≤ run k → (i : ℕ) × (i < k) × (run (suc i) ≡ n)
  run_reaches n zero p h = absurd (omega arith)
  run_reaches n (suc k) p h = elim (Bool-cases (run (suc k) == n)) [
    | inl e ↦ (k, omega arith, (==_iff (run (suc k)) n).0 e)
    | inr d ↦ let (i, l, e) = run_reaches n k p (before d) in (i, omega arith, e)
  ]
    where
      before : (run (suc k) == n) ≡ false → n ≤ run k
      before d = ground arith
