-- ===== src/Rc/Array/Ledger.antt =====
-- An array with many users: `holders i` counts the pointers to cell `i` that `rcparray_get` gave out
-- and that are not given back yet. The users' operations run in any order.
use aexkernel.Prelude.{
  ℕ, ◌+◌, ◌-◌, ◌≤◌, ◌<◌, ◌≡◌, refl, sym, ap, ◌∙◌, inl, inr, Bool, true, false, Option, none, some,
  List, ◌==◌, if◌then◌else◌, Bool-cases, Option-cases, ==_iff, subst, add_int, sub_int, arith,
}
use aexkernel.Rc.Array.{
  Cell, slot, fresh, rcparray_add, rcparray_get, drop_ref, rcparray_unref, rcparray_remove,
}
use aexkernel.Rc.Array.Laws.{slot-rcparray_add, slot-get_present, slot-unref, slot-remove}

abbrev pub update : (ℕ → ℕ) → ℕ → ℕ → ℕ → ℕ
update f i v j = if i == j then v else f j

-- Counts stay below the range of `int`.
abbrev pub int_max : ℕ
int_max = 2147483647

pub record Ledger (A : Type 0) : Type 0 where
  pub array : List (Option (Cell A))
  pub holders : ℕ → ℕ

module _ {A : Type 0} where
  -- A user gives back only what it holds, and what is removed is present: a slot is removed once.
  pub data Step : Ledger A → Ledger A → Type 0 where
    add : (s : Ledger A) (v : A) → Step s (record s { array = (rcparray_add s.array v).0 })
    get :
        (s : Ledger A) (i : ℕ) (c : Cell A)
        → slot s.array i ≡ some c
        → c.present ≡ true
        → c.refs < int_max
        → Step s (record s {
          array = (rcparray_get s.array i).0;
          holders = update s.holders i (s.holders i + 1);
        })
    unref :
        (s : Ledger A) (i : ℕ)
        → 0 < s.holders i
        → Step s (record s {
          array = rcparray_unref s.array i;
          holders = update s.holders i (s.holders i - 1);
        })
    remove :
        (s : Ledger A) (i : ℕ) (c : Cell A)
        → slot s.array i ≡ some c
        → c.present ≡ true
        → Step s (record s { array = (rcparray_remove s.array i).0 })

  pub data Reach (s : Ledger A) : Ledger A → Type 0 where
    here : Reach s s
    next : {t u : Ledger A} → Reach s t → Step t u → Reach s u

  -- The references of a cell are its holders, and one for the array while the value is present.
  abbrev pub CountsRight : Option (Cell A) → ℕ → Type 0
  CountsRight none h = h ≡ 0
  CountsRight (some c) h =
      (c.refs ≡ h + (if c.present then 1 else 0)) × (0 < c.refs) × (c.refs ≤ int_max)

  abbrev pub IsCounted : Ledger A → Type 0
  IsCounted s = (i : ℕ) → CountsRight (slot s.array i) (s.holders i)

  counts_if :
      (b : Bool) (o p : Option (Cell A)) (h k : ℕ)
      → (b ≡ true → CountsRight o h)
      → (b ≡ false → CountsRight p k)
      → CountsRight (if b then o else p) (if b then h else k)
  counts_if true o p h k f g = f refl
  counts_if false o p h k f g = g refl

  counts_drop :
      (c : Cell A) (h : ℕ)
      → c.refs ≡ h + (if c.present then 1 else 0)
      → 0 < c.refs
      → c.refs ≤ int_max
      → 0 < h
      → CountsRight (drop_ref c) (h - 1)
  counts_drop c h e p b l = elim (Bool-cases (sub_int c.refs 1 == 0)) [
    | inl z ↦ rw z (ground arith)
    | inr n ↦ rw n (ground arith, ground arith, ground arith)
  ]

  counts_remove :
      (c : Cell A) (h : ℕ)
      → c.present ≡ true
      → CountsRight (some c) h
      → CountsRight (drop_ref (record c { present = false })) h
  counts_remove c h p k = elim (Bool-cases (sub_int c.refs 1 == 0)) [
    | inl z ↦ rw z (ground arith)
    | inr n ↦ rw n (ground arith, ground arith, ground arith)
  ]

  held_slot : (o : Option (Cell A)) (h : ℕ) → CountsRight o h → 0 < h → (c : Cell A) × (o ≡ some c)
  held_slot none h k p = absurd (omega arith)
  held_slot (some c) h k p = (c, refl)

  add-IsCounted :
      (s : Ledger A) (v : A)
      → IsCounted s
      → IsCounted (record s { array = (rcparray_add s.array v).0 })
  add-IsCounted s v inv j =
      let law = slot-rcparray_add s.array v in
      let id = (rcparray_add s.array v).1 in
      subst (λ o. CountsRight o (s.holders j)) (sym (law.1 j))
        (elim (Bool-cases (id == j)) [
          | inl e ↦ rw e (
              fresh_counts (s.holders j) (
                subst (λ k. s.holders k ≡ 0) ((==_iff id j).0 e)
                  (subst (λ o. CountsRight o (s.holders id)) law.0 (inv id))))
          | inr n ↦ rw n (inv j)
        ])
    where
      fresh_counts : (h : ℕ) → h ≡ 0 → CountsRight (some (fresh v)) h
      fresh_counts h e = omega arith

  Step-IsCounted : {s t : Ledger A} → Step s t → IsCounted s → IsCounted t
  Step-IsCounted (add s v) inv j = add-IsCounted s v inv j
  Step-IsCounted (get s i c e p b) inv j =
      subst (λ o. CountsRight o (update s.holders i (s.holders i + 1) j))
        (sym ((slot-get_present s.array i c e p).1 j))
        (counts_if (i == j) _ _ _ _
          (λ _.
            let k = subst (λ o. CountsRight o (s.holders i)) e (inv i) in
            (ground arith, ground arith, ground arith))
          (λ _. inv j))
  Step-IsCounted (unref s i l) inv j =
      let (c, e) = held_slot (slot s.array i) (s.holders i) (inv i) l in
      let k = subst (λ o. CountsRight o (s.holders i)) e (inv i) in
      subst (λ o. CountsRight o (update s.holders i (s.holders i - 1) j))
        (sym (slot-unref s.array i c e j))
        (counts_if (i == j) _ _ _ _ (λ _. counts_drop c (s.holders i) k.0 k.1 k.2 l) (λ _. inv j))
  Step-IsCounted (remove s i c e p) inv j =
      subst (λ o. CountsRight o (s.holders j)) (sym (slot-remove s.array i c e j))
        (elim (Bool-cases (i == j)) [
          | inl q ↦ rw q (
              subst (λ k. CountsRight (drop_ref (record c { present = false })) (s.holders k))
                ((==_iff i j).0 q)
                (counts_remove c (s.holders i) p
                  (subst (λ o. CountsRight o (s.holders i)) e (inv i))))
          | inr n ↦ rw n (inv j)
        ])

  -- Whatever the order of the users' operations: if at the start every cell's count is the number
  -- of pointers given out and not given back, and one more while its value is present, and a freed
  -- slot has no holder, it is so at the end.
  pub Reach-IsCounted : {s t : Ledger A} → Reach s t → IsCounted s → IsCounted t
  Reach-IsCounted here inv = inv
  Reach-IsCounted (next r st) inv = Step-IsCounted st (Reach-IsCounted r inv)

  value_if :
      (b : Bool) (o p : Option (Cell A)) (c' : Cell A) (v : A)
      → (b ≡ true → o ≡ some c' → c'.value ≡ v)
      → (b ≡ false → p ≡ some c' → c'.value ≡ v)
      → (if b then o else p) ≡ some c'
      → c'.value ≡ v
  value_if true o p c' v f g h = f refl h
  value_if false o p c' v f g h = g refl h

  none-ne-some : (c : Cell A) → none ≡ some c → ⊥
  none-ne-some c e = cc

  some_value : (c d : Cell A) → some c ≡ some d → c.value ≡ d.value
  some_value c d h = ground arith

  value-drop_ref : (c c' : Cell A) → drop_ref c ≡ some c' → c'.value ≡ c.value
  value-drop_ref c c' h = elim (Bool-cases (sub_int c.refs 1 == 0)) [
    | inl z ↦ absurd (none-ne-some c' (rw z at h))
    | inr n ↦ sym (some_value (record c { refs = sub_int c.refs 1 }) c' (rw n at h))
  ]

  same_cell :
      (xs : List (Option (Cell A))) (i j : ℕ) (c d : Cell A)
      → slot xs i ≡ some c
      → slot xs j ≡ some d
      → (i == j) ≡ true
      → c.value ≡ d.value
  same_cell xs i j c d e f q = some_value c d (sym e ∙ ap (slot xs) ((==_iff i j).0 q) ∙ f)

  unref_value :
      (xs : List (Option (Cell A))) (i j : ℕ) (d c' : Cell A)
      → slot xs j ≡ some d
      → slot (rcparray_unref xs i) j ≡ some c'
      → c'.value ≡ d.value
  unfolding rcparray_unref
  unref_value xs i j d c' e f = elim (Option-cases (slot xs i)) [
    | inl z ↦ some_value c' d (sym f ∙ ap (λ ys. slot ys j) (unref_none z) ∙ e)
    | inr (c, h) ↦
        value_if (i == j) _ _ c' d.value (λ q r. value-drop_ref c c' r ∙ same_cell xs i j c d h e q)
          (λ q r. some_value c' d (sym r ∙ e)) (sym (slot-unref xs i c h j) ∙ f)
  ]
    where
      unref_none : slot xs i ≡ none → rcparray_unref xs i ≡ xs
      unref_none z = rw (z, rcparray_unref)

  kept_value :
      {s t : Ledger A}
      → Step s t
      → (j : ℕ) (d c' : Cell A) → slot s.array j ≡ some d
      → slot t.array j ≡ some c'
      → c'.value ≡ d.value
  kept_value (add s v) j d c' e f =
      let law = slot-rcparray_add s.array v in
      let id = (rcparray_add s.array v).1 in
      value_if (id == j) _ _ c' d.value
        (λ q r. absurd (none-ne-some d (sym law.0 ∙ ap (slot s.array) ((==_iff id j).0 q) ∙ e)))
        (λ q r. some_value c' d (sym r ∙ e)) (sym (law.1 j) ∙ f)
  kept_value (get s i c h p b) j d c' e f =
      value_if (i == j) _ _ c' d.value
        (λ q r.
          sym (some_value (record c { refs = add_int c.refs 1 }) c' r)
          ∙ same_cell s.array i j c d h e q)
        (λ q r. some_value c' d (sym r ∙ e)) (sym ((slot-get_present s.array i c h p).1 j) ∙ f)
  kept_value (unref s i l) j d c' e f = unref_value s.array i j d c' e f
  kept_value (remove s i c h p) j d c' e f =
      value_if (i == j) _ _ c' d.value
        (λ q r.
          value-drop_ref (record c { present = false }) c' r ∙ same_cell s.array i j c d h e q)
        (λ q r. some_value c' d (sym r ∙ e)) (sym (slot-remove s.array i c h j) ∙ f)

  -- A pointer that is given out stays good over every step that does not give the last one back:
  -- its cell is still there after the step, with the same value.
  pub held-value :
      {s t : Ledger A}
      → IsCounted s
      → Step s t
      → (j : ℕ) → 0 < s.holders j
      → 0 < t.holders j
      → (d : Cell A) × (c : Cell A) × (slot s.array j ≡ some d)
        × (slot t.array j ≡ some c)
        × (c.value ≡ d.value)
  held-value {s} {t} inv st j p q =
      let (d, e) = held_slot (slot s.array j) (s.holders j) (inv j) p in
      let (c, f) = held_slot (slot t.array j) (t.holders j) (Step-IsCounted st inv j) q in
      (d, c, e, f, kept_value st j d c e f)
