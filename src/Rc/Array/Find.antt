-- ===== src/Rc/Array/Find.antt =====
-- include/aex/rcparray.h: what `rcparray_find` finds.
use aexkernel.Prelude.{
  ℕ, zero, suc, ◌+◌, ◌≡◌, refl, sym, ap, ◌∙◌, ◌⊎◌, inl, inr, Bool, true, false, Option, none, some,
  List, [], ◌∷◌, if◌then◌else◌, Bool-cases, set, add_int, arith,
}
use aexkernel.Rc.Array.{Cell, slot, matches, find_id, rcparray_find, rcparray_get}
use aexkernel.Rc.Array.Laws.{IsLive, get_live}

module _ {ℓ} {A : Type ℓ} where
  -- A present value that meets the condition.
  pub record Meets (cond : A → Bool) (xs : List (Option (Cell A))) (id : ℕ) (c : Cell A)
      : Type ℓ where
    pub at : slot xs id ≡ some c
    pub here : c.present ≡ true
    pub holds : cond c.value ≡ true

  abbrev pub NoneMeets : (A → Bool) → List (Option (Cell A)) → Type 0
  NoneMeets cond xs = (i : ℕ) → matches cond (slot xs i) ≡ false

  matches-Meets :
      (cond : A → Bool) (x : Option (Cell A)) (xs : List (Option (Cell A)))
      → matches cond x ≡ true
      → (c : Cell A) × Meets cond (x ∷ xs) 0 c
  matches-Meets cond none xs e = absurd (false-ne-true e)
    where
      false-ne-true : false ≡ true → ⊥
      false-ne-true e = cc
  matches-Meets cond (some c) xs e = elim (Bool-cases c.present) [
    | inl b ↦ (
      c,
      record {
        at = refl;
        here = b;
        holds = ap (λ p. if p then cond c.value else false) (sym b) ∙ e;
      },
    )
    | inr n ↦ absurd (false-ne-true (ap (λ p. if p then cond c.value else false) (sym n) ∙ e))
  ]
    where
      false-ne-true : false ≡ true → ⊥
      false-ne-true e = cc

  pub find_id-cases :
      (cond : A → Bool) (xs : List (Option (Cell A))) (k : ℕ)
      → ((i : ℕ) × (c : Cell A) × (find_id cond xs k ≡ some (k + i)) × Meets cond xs i c)
        ⊎ ((find_id cond xs k ≡ none) × NoneMeets cond xs)
  unfolding find_id
  find_id-cases cond [] k = inr (refl, λ i. refl)
  find_id-cases cond (x ∷ xs) k = elim (Bool-cases (matches cond x)) [
    | inl b ↦
        rw (b, find_id)
          (let (c, m) = matches-Meets cond x xs b in inl (0, c, ap some (omega arith), m))
    | inr n ↦
        rw (n, find_id)
          (elim (find_id-cases cond xs (suc k)) [
            | inl (i, c, e, m) ↦ inl (
              suc i,
              c,
              e ∙ ap some (omega arith),
              record { at = m.at; here = m.here; holds = m.holds },
            )
            | inr (e, f) ↦ inr (e, beyond n f)
          ])
  ]
    where
      beyond : matches cond x ≡ false → NoneMeets cond xs → NoneMeets cond (x ∷ xs)
      beyond n f zero = n
      beyond n f (suc i) = f i

  counted : (c : Cell A) → IsLive c → add_int c.refs 1 ≡ c.refs + 1
  counted c live = let r = live.room in omega arith

  found :
      (cond : A → Bool) (xs : List (Option (Cell A))) (i : ℕ) (c : Cell A)
      → find_id cond xs 0 ≡ some (0 + i)
      → Meets cond xs i c
      → IsLive c
      → rcparray_find cond xs ≡ ((rcparray_get xs i).0, some (i, c.value))
  unfolding rcparray_find
  found cond xs i c e m live =
      rw (e ∙ ap {A = ℕ} some (zero_add i), m.at, rcparray_find)
        (ap (λ n. (set xs i (some (record c { refs = n })), some (i, c.value))) (counted c live)
          ∙ ap {A = List (Option (Cell A)) × Option A} (λ r. (r.0, some (i, c.value)))
              (sym (get_live xs i c m.at live)))
    where
      zero_add : (k : ℕ) → 0 + k ≡ k
      zero_add k = omega arith

  -- `rcparray_find` of an array whose present values can be got: it finds a present value that meets
  -- the condition, as `rcparray_get` of its id, or there is none and nothing changes.
  pub rcparray_find_lem :
      (cond : A → Bool) (xs : List (Option (Cell A)))
      → ((i : ℕ) (c : Cell A) → slot xs i ≡ some c → c.present ≡ true → IsLive c)
      → ((id : ℕ) × (c : Cell A) × (rcparray_find cond xs
            ≡ ((rcparray_get xs id).0, some (id, c.value)))
          × Meets cond xs id c
          × IsLive c)
        ⊎ ((rcparray_find cond xs ≡ (xs, none)) × NoneMeets cond xs)
  unfolding rcparray_find
  rcparray_find_lem cond xs live = elim (find_id-cases cond xs 0) [
    | inl (i, c, e, m) ↦
        inl (i, c, found cond xs i c e m (live i c m.at m.here), m, live i c m.at m.here)
    | inr (e, f) ↦ inr (rw (e, rcparray_find), f)
  ]
