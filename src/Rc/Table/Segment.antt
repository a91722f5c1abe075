-- ===== src/Rc/Table/Segment.antt =====
-- include/aex/rcptable.h: the entries of a segment.
use aexkernel.Prelude.{
  ℕ, ◌≡◌, refl, sym, ap, ◌∙◌, inl, inr, true, false, Option, none, some, [], ◌∷◌, ◌==◌,
  if◌then◌else◌, Bool-cases, ==_iff, arith,
}
use aexkernel.Rc.Table.{Entry, Segment, find, put, insert}

-- Tests of one number against two that are known to differ, or to be the same.
other : (a b j : ℕ) → (a == b) ≡ false → (a == j) ≡ true → (b == j) ≡ false
other a b j n p = ground arith

swap_tests {ℓ} :
    {A : Type ℓ} (a b j : ℕ) (x y z : A)
    → (a == b) ≡ false
    → (if a == j then x else if b == j then y else z)
      ≡ (if b == j then y else if a == j then x else z)
swap_tests a b j x y z n = elim (Bool-cases (a == j)) [
  | inl p ↦ rw (p, other a b j n p)
  | inr p ↦ rw p
]

same_tests {ℓ} :
    {A : Type ℓ} (a b j : ℕ) (x y z : A)
    → (a == b) ≡ true
    → (if b == j then x else z) ≡ (if b == j then x else if a == j then y else z)
same_tests a b j x y z e = elim (Bool-cases (b == j)) [
  | inl p ↦ rw p
  | inr p ↦ rw (p, both a b j e p)
]
  where
    both : (a b j : ℕ) → (a == b) ≡ true → (b == j) ≡ false → (a == j) ≡ false
    both a b j e p = ground arith

flip : (a b : ℕ) → (a == b) ≡ false → (b == a) ≡ false
flip a b n = ground arith

module _ {ℓ} {A : Type ℓ} where
  -- No two entries have one id.
  pub data Unique : Segment A → Type ℓ where
    empty : Unique []
    null : {s : Segment A} → Unique s → Unique (none ∷ s)
    cons : {s : Segment A} {e : Entry A} → find s e.id ≡ none → Unique s → Unique (some e ∷ s)

  missing :
      (s : Segment A) (d : Entry A) (id : ℕ)
      → find (some d ∷ s) id ≡ none
      → ((d.id == id) ≡ false) × (find s id ≡ none)
  unfolding find
  missing s d id h = elim (Bool-cases (d.id == id)) [
    | inl b ↦ absurd (some-ne-none (ap (λ c. if c then some d else find s id) (sym b) ∙ h))
    | inr n ↦ (n, ap (λ c. if c then some d else find s id) (sym n) ∙ h)
  ]
    where
      some-ne-none : some d ≡ none → ⊥
      some-ne-none e = cc

  pub find-insert :
      (s : Segment A) (e : Entry A) (j : ℕ)
      → find s e.id ≡ none
      → find (insert s e) j ≡ (if e.id == j then some e else find s j)
  unfolding find insert
  find-insert [] e j h = refl
  find-insert (none ∷ s) e j h = refl
  find-insert (some d ∷ s) e j h =
      let (n, m) = missing s d e.id h in
      ap (λ r. if d.id == j then some d else r) (find-insert s e j m)
      ∙ swap_tests d.id e.id j (some d) (some e) (find s j) n

  pub insert-Unique :
      (s : Segment A) (e : Entry A) → find s e.id ≡ none → Unique s → Unique (insert s e)
  unfolding find insert
  insert-Unique [] e h u = cons refl empty
  insert-Unique (none ∷ s) e h (null u) = cons h u
  insert-Unique (some d ∷ s) e h (cons f u) =
      let (n, m) = missing s d e.id h in
      cons (find-insert s e d.id m ∙ rw (flip d.id e.id n) f) (insert-Unique s e m u)

  find-head :
      (o : Option (Entry A)) (s : Segment A) (id j : ℕ)
      → ((d : Entry A) → o ≡ some d → d.id ≡ id)
      → find s id ≡ none
      → find (o ∷ s) j ≡ (if id == j then o else find s j)
  unfolding find
  find-head none s id j k f = elim (Bool-cases (id == j)) [
    | inl b ↦ rw b (ap (find s) (sym ((==_iff id j).0 b)) ∙ f)
    | inr n ↦ rw n
  ]
  find-head (some d) s id j k f = ap (λ i. if i == j then some d else find s j) (k d refl)

  -- The search after a write where the search for `id` stops; `o` is NULL or has the id.
  pub find-put :
      (s : Segment A) (id : ℕ) (o : Option (Entry A)) (e : Entry A) (j : ℕ)
      → find s id ≡ some e
      → Unique s
      → ((d : Entry A) → o ≡ some d → d.id ≡ id)
      → find (put s id o) j ≡ (if id == j then o else find s j)
  unfolding find put
  find-put [] id o e j h u k = absurd (none-ne-some h)
    where
      none-ne-some : none ≡ some e → ⊥
      none-ne-some e = cc
  find-put (none ∷ s) id o e j h (null u) k = find-put s id o e j h u k
  find-put (some d ∷ s) id o e j h (cons f u) k = elim (Bool-cases (d.id == id)) [
    | inl b ↦ rw b (
        find-head o s id j k (ap (find s) (sym ((==_iff d.id id).0 b)) ∙ f)
        ∙ same_tests d.id id j o (some d) (find s j) b)
    | inr n ↦ rw n (
        ap (λ r. if d.id == j then some d else r) (find-put s id o e j (found n) u k)
        ∙ swap_tests d.id id j (some d) o (find s j) n)
  ]
    where
      found : (d.id == id) ≡ false → find s id ≡ some e
      found n = ap (λ c. if c then some d else find s id) (sym n) ∙ h

  pub put-Unique :
      (s : Segment A) (id : ℕ) (o : Option (Entry A)) (e : Entry A)
      → find s id ≡ some e
      → Unique s
      → ((d : Entry A) → o ≡ some d → d.id ≡ id)
      → Unique (put s id o)
  unfolding find put
  put-Unique [] id o e h u k = empty
  put-Unique (none ∷ s) id o e h (null u) k = null (put-Unique s id o e h u k)
  put-Unique (some d ∷ s) id o e h (cons f u) k = elim (Bool-cases (d.id == id)) [
    | inl b ↦ rw b (head o k (ap (find s) (sym ((==_iff d.id id).0 b)) ∙ f) u)
    | inr n ↦ rw n (
        cons (find-put s id o e d.id (found n) u k ∙ rw (flip d.id id n) f)
          (put-Unique s id o e (found n) u k))
  ]
    where
      found : (d.id == id) ≡ false → find s id ≡ some e
      found n = ap (λ c. if c then some d else find s id) (sym n) ∙ h

      head :
          (o : Option (Entry A))
          → ((d : Entry A) → o ≡ some d → d.id ≡ id)
          → find s id ≡ none
          → Unique s
          → Unique (o ∷ s)
      head none k f u = null u
      head (some c) k f u = cons (ap (find s) (k c refl) ∙ f) u

  pub id_of_found : (s : Segment A) (id : ℕ) (e : Entry A) → find s id ≡ some e → e.id ≡ id
  unfolding find
  id_of_found [] id e h = absurd (none-ne-some h)
    where
      none-ne-some : none ≡ some e → ⊥
      none-ne-some e = cc
  id_of_found (none ∷ s) id e h = id_of_found s id e h
  id_of_found (some d ∷ s) id e h = elim (Bool-cases (d.id == id)) [
    | inl b ↦
        same d e (ap (λ c. if c then some d else find s id) (sym b) ∙ h) ∙ (==_iff d.id id).0 b
    | inr n ↦ id_of_found s id e (ap (λ c. if c then some d else find s id) (sym n) ∙ h)
  ]
    where
      same : (d e : Entry A) → some d ≡ some e → e.id ≡ d.id
      same d e q = ap (λ o. elim o [ none ↦ 0 | some c ↦ c.id ]) (sym q)

  -- A second write where the search stops undoes the first.
  pub put-put :
      (s : Segment A) (id : ℕ) (c e : Entry A)
      → find s id ≡ some e
      → c.id ≡ id
      → put (put s id (some c)) id (some e) ≡ s
  unfolding find put
  put-put [] id c e h k = refl
  put-put (none ∷ s) id c e h k = ap (λ r. none ∷ r) (put-put s id c e h k)
  put-put (some d ∷ s) id c e h k = elim (Bool-cases (d.id == id)) [
    | inl b ↦ rw (b, (==_iff c.id id).1 k) (ap (λ o. o ∷ s) (sym h ∙ rw b))
    | inr n ↦
        rw (n, n)
          (ap (λ r. some d ∷ r)
            (put-put s id c e (ap (λ q. if q then some d else find s id) (sym n) ∙ h) k))
  ]

  pub put-find : (s : Segment A) (id : ℕ) (e : Entry A) → find s id ≡ some e → put s id (some e) ≡ s
  unfolding find put
  put-find [] id e h = refl
  put-find (none ∷ s) id e h = ap (λ r. none ∷ r) (put-find s id e h)
  put-find (some d ∷ s) id e h = elim (Bool-cases (d.id == id)) [
    | inl b ↦ rw b (ap (λ o. o ∷ s) (sym h ∙ rw b))
    | inr n ↦ rw n (
        ap (λ r. some d ∷ r)
          (put-find s id e (ap (λ q. if q then some d else find s id) (sym n) ∙ h)))
  ]

  -- Of two writes where the search stops the second counts.
  pub put-put_last :
      (s : Segment A) (id : ℕ) (c : Entry A) (o : Option (Entry A))
      → c.id ≡ id
      → put (put s id (some c)) id o ≡ put s id o
  unfolding put
  put-put_last [] id c o k = refl
  put-put_last (none ∷ s) id c o k = ap (λ r. none ∷ r) (put-put_last s id c o k)
  put-put_last (some d ∷ s) id c o k = elim (Bool-cases (d.id == id)) [
    | inl b ↦ rw (b, (==_iff c.id id).1 k)
    | inr n ↦ rw (n, n) (ap (λ r. some d ∷ r) (put-put_last s id c o k))
  ]
