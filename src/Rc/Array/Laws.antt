-- ===== src/Rc/Array/Laws.antt =====
-- What each operation does to every slot of the array.
use aexkernel.Prelude.{
  set-set, ℕ, zero, suc, ◌+◌, ◌<◌, ◌≡◌, refl, sym, ap, ◌∙◌, inl, inr, true, false, Option, none,
  some, List, [], ◌∷◌, ◌==◌, if◌then◌else◌, Bool-cases, ==_iff, Option-cases, set, add_int, sub_int,
  subst, arith,
}
use aexkernel.Rc.Array.{
  Cell, slot, fresh, rcparray_add, rcparray_get, drop_ref, rcparray_unref, rcparray_remove,
}

module _ {ℓ} {A : Type ℓ} where
  pub slot-set :
      (xs : List (Option (Cell A))) (i j : ℕ) (o : Option (Cell A)) {c : Cell A}
      → slot xs i ≡ some c
      → slot (set xs i o) j ≡ (if i == j then o else slot xs j)
  slot-set [] i j o h = cc
  slot-set (x ∷ xs) zero zero o h = refl
  slot-set (x ∷ xs) zero (suc j) o h = ground arith
  slot-set (x ∷ xs) (suc i) zero o h = ground arith
  slot-set (x ∷ xs) (suc i) (suc j) o h = ground (arith, slot-set xs i j o h)

  -- `rcparray_add` puts a present value with one reference into a slot that was free, returns its
  -- id, and leaves every other slot alone.
  pub slot-rcparray_add :
      (xs : List (Option (Cell A))) (v : A)
      → let (ys, id) = rcparray_add xs v in
        (slot xs id ≡ none)
        × ((j : ℕ) → slot ys j ≡ (if id == j then some (fresh v) else slot xs j))
  unfolding rcparray_add
  slot-rcparray_add xs v = (free xs, others xs)
    where
      free : (xs : List (Option (Cell A))) → slot xs (rcparray_add xs v).1 ≡ none
      free [] = refl
      free (none ∷ xs) = refl
      free (some c ∷ xs) = free xs

      others :
          (xs : List (Option (Cell A))) (j : ℕ)
          → slot (rcparray_add xs v).0 j
            ≡ (if (rcparray_add xs v).1 == j then some (fresh v) else slot xs j)
      others [] zero = refl
      others [] (suc j) = ground arith
      others (none ∷ xs) zero = refl
      others (none ∷ xs) (suc j) = ground arith
      others (some c ∷ xs) zero = ground arith
      others (some c ∷ xs) (suc j) = others xs j ∙ ground arith

  pub slot-get_present :
      (xs : List (Option (Cell A))) (i : ℕ) (c : Cell A)
      → slot xs i ≡ some c
      → c.present ≡ true
      → ((rcparray_get xs i).1 ≡ some c.value)
        × ((j : ℕ)
            → slot (rcparray_get xs i).0 j
              ≡ (if i == j then some (record c { refs = add_int c.refs 1 }) else slot xs j))
  unfolding rcparray_get
  slot-get_present xs i c h p =
      (rw (h, p, rcparray_get), λ j. rw (h, p, rcparray_get) (slot-set xs i j _ h))

  pub slot-unref :
      (xs : List (Option (Cell A))) (i : ℕ) (c : Cell A)
      → slot xs i ≡ some c
      → (j : ℕ) → slot (rcparray_unref xs i) j ≡ (if i == j then drop_ref c else slot xs j)
  unfolding rcparray_unref
  slot-unref xs i c h j = rw (h, rcparray_unref) (slot-set xs i j _ h)

  pub slot-remove :
      (xs : List (Option (Cell A))) (i : ℕ) (c : Cell A)
      → slot xs i ≡ some c
      → (j : ℕ)
      → slot (rcparray_remove xs i).0 j
        ≡ (if i == j then drop_ref (record c { present = false }) else slot xs j)
  unfolding rcparray_remove
  slot-remove xs i c h j = rw (h, rcparray_remove) (slot-set xs i j _ h)

  set-slot : (xs : List (Option (Cell A))) (i : ℕ) → set xs i (slot xs i) ≡ xs
  set-slot [] i = refl
  set-slot (x ∷ xs) zero = refl
  set-slot (x ∷ xs) (suc i) = ap (λ r. x ∷ r) (set-slot xs i)

module _ {ℓ} {A : Type ℓ} where
  -- A present value whose count is in the range of `int` and can go up by one.
  pub record IsLive (c : Cell A) : Type 0 where
    pub here : c.present ≡ true
    pub counted : 0 < c.refs
    pub room : c.refs < 2147483647

  pub get_live :
      (xs : List (Option (Cell A))) (i : ℕ) (c : Cell A)
      → slot xs i ≡ some c
      → IsLive c
      → rcparray_get xs i ≡ (set xs i (some (record c { refs = c.refs + 1 })), some c.value)
  unfolding rcparray_get
  get_live xs i c h l =
      rw (h, l.here, rcparray_get)
        (ap (λ n. (set xs i (some (record c { refs = n; present = true })), some c.value))
          (omega arith))

  slot_of_set :
      (xs : List (Option (Cell A))) (i : ℕ) (o : Option (Cell A)) {c : Cell A}
      → slot xs i ≡ some c
      → slot (set xs i o) i ≡ o
  slot_of_set xs i o h = slot-set xs i i o h ∙ ground arith

  drop_live : (c : Cell A) → IsLive c → drop_ref (record c { refs = c.refs + 1 }) ≡ some c
  drop_live c l = elim (Bool-cases (sub_int (c.refs + 1) 1 == 0)) [
    | inl z ↦ absurd (positive z)
    | inr n ↦ rw n (ap (λ k. some (record c { refs = k })) (omega arith))
  ]
    where
      positive : (sub_int (c.refs + 1) 1 == 0) ≡ true → ⊥
      positive z = ground arith

  pub get_live_value :
      (xs : List (Option (Cell A))) (i : ℕ) (c : Cell A)
      → slot xs i ≡ some c
      → IsLive c
      → (rcparray_get xs i).1 ≡ some c.value
  get_live_value xs i c h l = ap (λ r. r.1) (get_live xs i c h l)

  unref_got :
      (xs : List (Option (Cell A))) (i : ℕ) (c : Cell A)
      → slot xs i ≡ some c
      → IsLive c
      → rcparray_unref (set xs i (some (record c { refs = c.refs + 1 }))) i ≡ xs
  unfolding rcparray_unref
  unref_got xs i c h l =
      rw (slot_of_set xs i (some (record c { refs = c.refs + 1 })) h, rcparray_unref)
        (ap (set (set xs i (some (record c { refs = c.refs + 1 }))) i) (drop_live c l)
          ∙ set-set xs i _ (some c)
          ∙ ap (set xs i) (sym h)
          ∙ set-slot xs i)

  -- A reference that is taken and given back leaves the array as it was.
  pub unref-get :
      (xs : List (Option (Cell A))) (i : ℕ) (c : Cell A)
      → slot xs i ≡ some c
      → IsLive c
      → rcparray_unref (rcparray_get xs i).0 i ≡ xs
  unref-get xs i c h l = ap (λ r. rcparray_unref r.0 i) (get_live xs i c h l) ∙ unref_got xs i c h l

  pub slot-got :
      (xs : List (Option (Cell A))) (i : ℕ) (c : Cell A)
      → slot xs i ≡ some c
      → IsLive c
      → slot (rcparray_get xs i).0 i ≡ some (record c { refs = c.refs + 1 })
  slot-got xs i c h l = ap (λ r. slot r.0 i) (get_live xs i c h l) ∙ slot_of_set xs i _ h

  -- Giving a reference back after an addition leaves the added value alone: its slot is another one.
  pub unref-add :
      (xs : List (Option (Cell A))) (i : ℕ) (c : Cell A) (v : A)
      → slot xs i ≡ some c
      → slot (rcparray_unref (rcparray_add xs v).0 i) (rcparray_add xs v).1 ≡ some (fresh v)
  unref-add xs i c v h =
      let law = slot-rcparray_add xs v in
      slot-unref (rcparray_add xs v).0 i c (law.1 i ∙ rw other h) (rcparray_add xs v).1
      ∙ rw other' (law.1 (rcparray_add xs v).1 ∙ rw same)
    where
      none-ne-some : (c : Cell A) → none ≡ some c → ⊥
      none-ne-some c e = cc

      other : ((rcparray_add xs v).1 == i) ≡ false
      other = elim (Bool-cases ((rcparray_add xs v).1 == i)) [
        | inl e ↦
            absurd (
              none-ne-some c (sym (slot-rcparray_add xs v).0 ∙ ap (slot xs) ((==_iff _ i).0 e) ∙ h))
        | inr n ↦ n
      ]

      other' : (i == (rcparray_add xs v).1) ≡ false
      other' = ground (arith, other)

      same : ((rcparray_add xs v).1 == (rcparray_add xs v).1) ≡ true
      same = ground arith

  -- What is not there, or not present any more, is not given out.
  abbrev pub IsGone : Option (Cell A) → Type 0
  IsGone none = Unit
  IsGone (some c) = c.present ≡ false

  pub get_gone :
      (xs : List (Option (Cell A))) (i : ℕ) → IsGone (slot xs i) → rcparray_get xs i ≡ (xs, none)
  unfolding rcparray_get
  get_gone xs i g = elim (Option-cases (slot xs i)) [
    | inl z ↦ rw (z, rcparray_get)
    | inr (c, e) ↦ rw (e, subst IsGone e g, rcparray_get)
  ]

  pub get_gone_array :
      (xs : List (Option (Cell A))) (i : ℕ) → IsGone (slot xs i) → (rcparray_get xs i).0 ≡ xs
  get_gone_array xs i g = ap (λ r. r.0) (get_gone xs i g)

  pub get_gone_value :
      (xs : List (Option (Cell A))) (i : ℕ) → IsGone (slot xs i) → (rcparray_get xs i).1 ≡ none
  get_gone_value xs i g = ap (λ r. r.1) (get_gone xs i g)

  pub remove-IsGone :
      (xs : List (Option (Cell A))) (i : ℕ) (c : Cell A)
      → slot xs i ≡ some c
      → IsGone (slot (rcparray_remove xs i).0 i)
  remove-IsGone xs i c h = subst IsGone (sym (slot-remove xs i c h i)) (rw same (dropped c))
    where
      same : (i == i) ≡ true
      same = ground arith

      dropped : (c : Cell A) → IsGone (drop_ref (record c { present = false }))
      dropped c = elim (Bool-cases (sub_int c.refs 1 == 0)) [ inl z ↦ rw z tt | inr n ↦ rw n refl ]
