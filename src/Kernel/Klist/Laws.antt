-- ===== src/Kernel/Klist/Laws.antt =====
-- A klist is a finite map from indices to pointers, and `count` is its size.
use aexkernel.Prelude.{
  ℕ, zero, suc, ◌+◌, ◌<◌, ◌≡◌, refl, inl, inr, Bool, true, false, Option, none, some, List, [], ◌∷◌,
  map, ◌==◌, if◌then◌else◌, Bool-cases, length, arith, size_max,
}
use aexkernel.Kernel.Klist.{
  Entry, Klist, set_chain, set_count, klist_set, get_chain, klist_get, klist_foreach,
}

==-false_comm : (i j : ℕ) → (i == j) ≡ false → (j == i) ≡ false
==-false_comm i j h = ground arith

module _ {ℓ} {A : Type ℓ} where
  abbrev pub has_index : ℕ → List (Entry A) → Bool
  has_index i [] = false
  has_index i (e ∷ es) = if e.index == i then true else has_index i es

  -- No index stands twice in the chain.
  abbrev pub Unique : List (Entry A) → Type 0
  Unique [] = Unit
  Unique (e ∷ es) = (has_index e.index es ≡ false) × Unique es

  pub record IsValid (k : Klist A) : Type 0 where
    pub unique : Unique k.first
    pub counted : k.count ≡ length k.first
    pub small : length k.first < size_max

  get-none_of_has : (i : ℕ) (es : List (Entry A)) → has_index i es ≡ false → get_chain i es ≡ none
  unfolding get_chain
  get-none_of_has i [] h = refl
  get-none_of_has i (e ∷ es) h = ground (arith, get-none_of_has i es)

  has_index-set_chain :
      (i j : ℕ) (p : Option A) (es : List (Entry A))
      → has_index j es ≡ false
      → (i == j) ≡ false
      → has_index j (set_chain i p es).0 ≡ false
  unfolding set_chain
  has_index-set_chain i j none [] h n = refl
  has_index-set_chain i j (some p) [] h n = ground arith
  has_index-set_chain i j none (e ∷ es) h n = ground (arith, has_index-set_chain i j none es)
  has_index-set_chain i j (some p) (e ∷ es) h n =
      ground (arith, has_index-set_chain i j (some p) es)

  set_chain-Unique :
      (i : ℕ) (p : Option A) (es : List (Entry A)) → Unique es → Unique (set_chain i p es).0
  unfolding set_chain
  set_chain-Unique i none [] u = u
  set_chain-Unique i (some p) [] u = (refl, u)
  set_chain-Unique i none (e ∷ es) u = elim (Bool-cases (e.index == i)) [
    | inl h ↦ rw h u.1
    | inr h ↦ rw h (
      has_index-set_chain i e.index none es u.0 (==-false_comm e.index i h),
      set_chain-Unique i none es u.1,
    )
  ]
  set_chain-Unique i (some p) (e ∷ es) u = elim (Bool-cases (e.index == i)) [
    | inl h ↦ rw h u
    | inr h ↦ rw h (
      has_index-set_chain i e.index (some p) es u.0 (==-false_comm e.index i h),
      set_chain-Unique i (some p) es u.1,
    )
  ]

  get-removed :
      (i j : ℕ) (e : Entry A) (es : List (Entry A))
      → has_index e.index es ≡ false
      → (e.index == i) ≡ true
      → get_chain j es ≡ (if i == j then none else get_chain j (e ∷ es))
  unfolding get_chain
  get-removed i j e es u h = ground (arith, get-none_of_has e.index es)

  get_replaced :
      (i j : ℕ) (p : A) (e : Entry A) (es : List (Entry A))
      → (e.index == i) ≡ true
      → get_chain j (record e { content = p } ∷ es)
        ≡ (if i == j then some p else get_chain j (e ∷ es))
  unfolding get_chain
  get_replaced i j p e es h = ground arith

  skip_entry :
      (i j : ℕ) (p : Option A) (e : Entry A) (es fs : List (Entry A))
      → (e.index == i) ≡ false
      → get_chain j fs ≡ (if i == j then p else get_chain j es)
      → get_chain j (e ∷ fs) ≡ (if i == j then p else get_chain j (e ∷ es))
  unfolding get_chain
  skip_entry i j p e es fs h q = ground arith

  get-set_chain :
      (i j : ℕ) (p : Option A) (es : List (Entry A))
      → Unique es
      → get_chain j (set_chain i p es).0 ≡ (if i == j then p else get_chain j es)
  unfolding set_chain get_chain
  get-set_chain i j none [] u = ground arith
  get-set_chain i j (some p) [] u = ground arith
  get-set_chain i j none (e ∷ es) u = elim (Bool-cases (e.index == i)) [
    | inl h ↦ rw h (get-removed i j e es u.0 h)
    | inr h ↦ rw h (skip_entry i j none e es _ h (get-set_chain i j none es u.1))
  ]
  get-set_chain i j (some p) (e ∷ es) u = elim (Bool-cases (e.index == i)) [
    | inl h ↦ rw h (get_replaced i j p e es h)
    | inr h ↦ rw h (skip_entry i j (some p) e es _ h (get-set_chain i j (some p) es u.1))
  ]

  set_chain_found :
      (i : ℕ) (p : Option A) (es : List (Entry A)) → (set_chain i p es).1 ≡ has_index i es
  unfolding set_chain
  set_chain_found i none [] = refl
  set_chain_found i (some p) [] = refl
  set_chain_found i none (e ∷ es) = ground (arith, set_chain_found i none es)
  set_chain_found i (some p) (e ∷ es) = ground (arith, set_chain_found i (some p) es)

  -- `klist_set` makes the list answer `ptr` at its own index, NULL when it removed the entry, and
  -- leaves every other index as it was; it returns whether the index was there before.
  pub klist_get-klist_set :
      (k : Klist A) (i j : ℕ) (p : Option A)
      → IsValid k
      → (klist_get (klist_set k i p).0 j ≡ (if i == j then p else klist_get k j))
        × ((klist_set k i p).1 ≡ has_index i k.first)
  unfolding klist_get klist_set
  klist_get-klist_set k i j p v =
      (get-set_chain i j p k.first v.unique, set_chain_found i p k.first)

  length-set_chain-none :
      (i : ℕ) (es : List (Entry A))
      → length (set_chain i none es).0 + (if (set_chain i none es).1 then 1 else 0) ≡ length es
  unfolding set_chain
  length-set_chain-none i [] = omega arith
  length-set_chain-none i (x ∷ es) = ground (arith, length-set_chain-none i es)

  length-set_chain-some :
      (i : ℕ) (p : A) (es : List (Entry A))
      → length (set_chain i (some p) es).0
        ≡ length es + (if (set_chain i (some p) es).1 then 0 else 1)
  unfolding set_chain
  length-set_chain-some i p [] = omega arith
  length-set_chain-some i p (x ∷ es) = ground (arith, length-set_chain-some i p es)

  set_count-none :
      (k : Klist A) (found : Bool) (m l : ℕ)
      → k.count ≡ l
      → m + (if found then 1 else 0) ≡ l
      → l < size_max
      → (set_count {A = A} none found k.count ≡ m) × (m < size_max)
  unfolding set_count
  set_count-none k true m l e q b = omega arith
  set_count-none k false m l e q b = omega arith

  set_count-some :
      (p : A) (found : Bool) (n m l : ℕ)
      → n ≡ l
      → m ≡ l + (if found then 0 else 1)
      → suc l < size_max
      → (set_count (some p) found n ≡ m) × (m < size_max)
  unfolding set_count
  set_count-some p true n m l e q b = omega arith
  set_count-some p false n m l e q b = omega arith

  counted-klist_set :
      (k : Klist A) (i : ℕ) (p : Option A)
      → IsValid k
      → suc (length k.first) < size_max
      → ((klist_set k i p).0.count ≡ length (klist_set k i p).0.first)
        × (length (klist_set k i p).0.first < size_max)
  unfolding klist_set
  counted-klist_set k i none v b =
      set_count-none k (set_chain i none k.first).1 _ (length k.first) v.counted
        (length-set_chain-none i k.first) v.small
  counted-klist_set k i (some p) v b =
      set_count-some p (set_chain i (some p) k.first).1 k.count _ (length k.first) v.counted
        (length-set_chain-some i p k.first) b

  Unique-klist_set :
      (k : Klist A) (i : ℕ) (p : Option A) → IsValid k → Unique (klist_set k i p).0.first
  unfolding klist_set
  Unique-klist_set k i p v = set_chain-Unique i p k.first v.unique

  -- `klist_set` keeps the invariant: no index twice, `count` the number of entries, below 2^64. The
  -- chain must leave room for one more entry below 2^64.
  pub klist_set-IsValid :
      (k : Klist A) (i : ℕ) (p : Option A)
      → IsValid k
      → suc (length k.first) < size_max
      → IsValid (klist_set k i p).0
  klist_set-IsValid k i p v b = record {
    unique = Unique-klist_set k i p v;
    counted = (counted-klist_set k i p v b).0;
    small = (counted-klist_set k i p v b).1;
  }

  -- `klist_foreach` started with NULL visits each entry once, in the order of the chain, and ends:
  -- one more round than there are entries is enough.
  foreach_from :
      (f : ℕ) (k : Klist A) (e : Entry A) (es : List (Entry A))
      → length es < f
      → klist_foreach f k (e ∷ es) ≡ some (map (λ x. (x.index, x.content)) es)
  unfolding klist_foreach
  foreach_from zero k e es h = absurd (omega arith)
  foreach_from (suc f) k e [] h = refl
  foreach_from (suc f) k e (x ∷ es) h = rw (foreach_from f k x es (omega arith))

  foreach_start :
      (f c : ℕ) (es : List (Entry A))
      → length es < f
      → klist_foreach f (record { count = c; first = es }) []
        ≡ some (map (λ x. (x.index, x.content)) es)
  unfolding klist_foreach
  foreach_start zero c es h = absurd (omega arith)
  foreach_start (suc f) c [] h = refl
  foreach_start (suc f) c (x ∷ es) h =
      rw (foreach_from f (record { count = c; first = x ∷ es }) x es (omega arith))

  -- `klist_foreach` ends, having visited every entry of the chain once and in order: any fuel
  -- above the number of entries is enough.
  pub klist_foreach-entries :
      (f : ℕ) (k : Klist A)
      → length k.first < f
      → klist_foreach f k [] ≡ some (map (λ x. (x.index, x.content)) k.first)
  klist_foreach-entries f k h = foreach_start f k.count k.first h
