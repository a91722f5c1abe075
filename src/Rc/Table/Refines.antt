-- ===== src/Rc/Table/Refines.antt =====
-- include/aex/rcptable.h: the table against a map from ids to counted entries.
use aexkernel.Prelude.{
  ℕ, ◌%◌, ◌<◌, ◌≡◌, refl, sym, ap, ◌∙◌, inl, inr, Bool, true, false, Option, none, some, [], ◌==◌,
  if◌then◌else◌, Bool-cases, ==_iff, get_or, get_or-set_if, set, length, length-set, add_int,
  sub_int, subst, arith,
}
use aexkernel.Rc.Table.{
  Entry, Segment, Table, segment, with_segment, find, put, insert, rcptable_set, rcptable_get,
  drop_ref, rcptable_unref, rcptable_remove,
}
use aexkernel.Rc.Table.Segment.{
  Unique, find-insert, insert-Unique, find-put, put-Unique, id_of_found,
}

-- The operations that change a table.
pub data Op {ℓ} (A : Type ℓ) : Type ℓ where
  set_op : ℕ → A → Op A
  get_op : ℕ → Op A
  unref_op : ℕ → Op A
  remove_op : ℕ → Op A

module _ {ℓ} {A : Type ℓ} where
  pub record IsValid (t : Table A) : Type ℓ where
    pub segments : 0 < length t.table
    pub unique : (id : ℕ) → Unique (segment t id)

  abbrev pub lookup : Table A → ℕ → Option (Entry A)
  lookup t id = find (segment t id) id

  abbrev pub update : (ℕ → Option (Entry A)) → ℕ → Option (Entry A) → ℕ → Option (Entry A)
  update m id o j = if id == j then o else m j

  -- The segment of `j` after the one of `id` is replaced.
  pub segment-with :
      (t : Table A) (id j : ℕ) (s : Segment A)
      → 0 < length t.table
      → segment (with_segment t id s) j
        ≡ (if id % length t.table == j % length t.table then s else segment t j)
  segment-with t id j s h =
      ap (λ n. get_or (set t.table (id % length t.table) s) (j % n) [])
        (length-set t.table (id % length t.table) s)
      ∙ get_or-set_if t.table (id % length t.table) (j % length t.table) s [] (omega (arith, h))

  -- A write to the segment of `id` that a map sees as an update at `id` is one for the table.
  lookup-with :
      (t : Table A) (id j : ℕ) (s : Segment A) (o : Option (Entry A))
      → 0 < length t.table
      → ((j : ℕ) → find s j ≡ (if id == j then o else find (segment t id) j))
      → lookup (with_segment t id s) j ≡ update (lookup t) id o j
  lookup-with t id j s o h f =
      ap (λ r. find r j) (segment-with t id j s h)
      ∙ elim (Bool-cases (id % length t.table == j % length t.table)) [
        | inl b ↦
            rw b (
              f j
              ∙ ap (λ n. if id == j then o else find (get_or t.table n []) j) ((==_iff _ _).0 b))
        | inr n ↦ rw (n, differ n)
      ]
    where
      differ : (id % length t.table == j % length t.table) ≡ false → (id == j) ≡ false
      differ n = elim (Bool-cases (id == j)) [
        | inl e ↦ absurd (
            true-ne-false
              (sym ((==_iff _ _).1 (ap (λ k. k % length t.table) ((==_iff id j).0 e))) ∙ n))
        | inr d ↦ d
      ]
        where
          true-ne-false : true ≡ false → ⊥
          true-ne-false e = cc

  pub with-IsValid :
      (t : Table A) (id : ℕ) (s : Segment A) → IsValid t → Unique s → IsValid (with_segment t id s)
  with-IsValid t id s v u = record {
    segments = subst (λ n. 0 < n) (sym (length-set t.table (id % length t.table) s)) v.segments;
    unique = λ j.
        subst Unique (sym (segment-with t id j s v.segments))
          (elim (Bool-cases (id % length t.table == j % length t.table)) [
            | inl b ↦ rw b u
            | inr n ↦ rw n (v.unique j)
          ]);
  }

  abbrev pub run : Op A → Table A → Table A × Option A
  run (set_op id v) t = (rcptable_set t id v, none)
  run (get_op id) t = rcptable_get t id
  run (unref_op id) t = rcptable_unref t id
  run (remove_op id) t = rcptable_remove t id

  abbrev pub dropped : (ℕ → Option (Entry A)) → ℕ → Entry A → (ℕ → Option (Entry A)) × Option A
  dropped m id e = let d = drop_ref e in (update m id d.0, d.1)

  abbrev pub run_map : Op A → (ℕ → Option (Entry A)) → (ℕ → Option (Entry A)) × Option A
  run_map (set_op id v) m =
      (update m id (some (record { id = id; refs = 1; present = true; value = v })), none)
  run_map (get_op id) m = elim (m id) [
    | none ↦ (m, none)
    | some e ↦
        if e.present
        then (update m id (some (record e { refs = add_int e.refs 1 })), some e.value)
        else (m, none)
  ]
  run_map (unref_op id) m = elim (m id) [ none ↦ (m, none) | some e ↦ dropped m id e ]
  run_map (remove_op id) m = elim (m id) [
    | none ↦ (m, none)
    | some e ↦ dropped m id (record e { present = false })
  ]

  -- Only a new id is set.
  abbrev pub Fits : Op A → Table A → Type ℓ
  Fits op t = (id : ℕ) (v : A) → op ≡ set_op id v → lookup t id ≡ none

  abbrev pub Refines : Table A × Option A → (ℕ → Option (Entry A)) × Option A → Type ℓ
  Refines (t, r) (m, q) = IsValid t × ((j : ℕ) → lookup t j ≡ m j) × (r ≡ q)

  put-Refines :
      (t : Table A) (id : ℕ) (o : Option (Entry A)) (e : Entry A) (r : Option A)
      → IsValid t
      → lookup t id ≡ some e
      → ((d : Entry A) → o ≡ some d → d.id ≡ e.id)
      → Refines (with_segment t id (put (segment t id) id o), r) (update (lookup t) id o, r)
  put-Refines t id o e r v h k = (
    with-IsValid t id _ v (put-Unique (segment t id) id o e h (v.unique id) same),
    λ j.
        lookup-with t id j (put (segment t id) id o) o v.segments
          (λ j. find-put (segment t id) id o e j h (v.unique id) same),
    refl,
  )
    where
      same : (d : Entry A) → o ≡ some d → d.id ≡ id
      same d q = k d q ∙ id_of_found (segment t id) id e h

  unchanged : (t : Table A) (r : Option A) → IsValid t → Refines (t, r) (lookup t, r)
  unchanged t r v = (v, (λ j. refl), refl)

  abbrev id_or : ℕ → Option (Entry A) → ℕ
  id_or id none = id
  id_or id (some e) = e.id

  dropped-Refines :
      (t : Table A) (id : ℕ) (e d : Entry A)
      → IsValid t
      → lookup t id ≡ some e
      → d.id ≡ e.id
      → Refines
          (with_segment t id (put (segment t id) id (drop_ref d).0), (drop_ref d).1)
          (dropped (lookup t) id d)
  dropped-Refines t id e d v h k = put-Refines t id (drop_ref d).0 e (drop_ref d).1 v h same
    where
      drop_id : id_or d.id (drop_ref d).0 ≡ d.id
      drop_id = elim (Bool-cases (sub_int d.refs 1 == 0)) [ inl b ↦ rw b | inr n ↦ rw n ]

      same : (c : Entry A) → (drop_ref d).0 ≡ some c → c.id ≡ e.id
      same c q = ap (id_or d.id) (sym q) ∙ drop_id ∙ k

  either :
      (t : Table A) (b : Bool) {x : Table A × Option A} {y : (ℕ → Option (Entry A)) × Option A}
      → IsValid t
      → Refines x y
      → Refines (if b then x else (t, none)) (if b then y else (lookup t, none))
  either t true v r = r
  either t false v r = unchanged t none v

  get-Refines :
      (t : Table A) (id : ℕ) (o : Option (Entry A))
      → IsValid t
      → lookup t id ≡ o
      → Refines
          (elim o [
            | none ↦ (t, none)
            | some e ↦
                if e.present
                then (
                  with_segment t id
                      (put (segment t id) id (some (record e { refs = add_int e.refs 1 }))),
                  some e.value,
                )
                else (t, none)
          ])
          (elim o [
            | none ↦ (lookup t, none)
            | some e ↦
                if e.present
                then (
                  update (lookup t) id (some (record e { refs = add_int e.refs 1 })),
                  some e.value,
                )
                else (lookup t, none)
          ])
  get-Refines t id none v h = unchanged t none v
  get-Refines t id (some e) v h =
      either t e.present v
        (put-Refines t id (some (record e { refs = add_int e.refs 1 })) e (some e.value) v h same)
    where
      same : (d : Entry A) → some (record e { refs = add_int e.refs 1 }) ≡ some d → d.id ≡ e.id
      same d q = ap (λ o. elim o [ none ↦ 0 | some c ↦ c.id ]) (sym q)

  -- A reference is dropped of an entry, or of the entry as it is when it is marked as removed.
  drop-Refines :
      (t : Table A) (id : ℕ) (mark : Entry A → Entry A) (o : Option (Entry A))
      → IsValid t
      → ((e : Entry A) → (mark e).id ≡ e.id)
      → lookup t id ≡ o
      → Refines
          (elim o [
            | none ↦ (t, none)
            | some e ↦ (
              with_segment t id (put (segment t id) id (drop_ref (mark e)).0),
              (drop_ref (mark e)).1,
            )
          ])
          (elim o [ none ↦ (lookup t, none) | some e ↦ dropped (lookup t) id (mark e) ])
  drop-Refines t id mark none v k h = unchanged t none v
  drop-Refines t id mark (some e) v k h = dropped-Refines t id e (mark e) v h (k e)

  -- On a table whose segments hold no id twice, whatever the ids hash to: setting an id that is not
  -- there, getting, unreferencing and removing keep the table so, give the results that they give on
  -- a map from ids to counted entries, and change it as they change the map: an entry is cleaned up
  -- exactly when its last reference is dropped, and is not got any more once it is removed.
  pub run-Refines :
      (op : Op A) (t : Table A) → IsValid t → Fits op t → Refines (run op t) (run_map op (lookup t))
  unfolding rcptable_set rcptable_get rcptable_unref rcptable_remove
  run-Refines (set_op id val) t v f = (
    with-IsValid t id _ v (insert-Unique (segment t id) new (f id val refl) (v.unique id)),
    λ j.
        lookup-with t id j (insert (segment t id) new) (some new) v.segments
          (λ j. find-insert (segment t id) new j (f id val refl)),
    refl,
  )
    where
      new : Entry A
      new = record { id = id; refs = 1; present = true; value = val }
  run-Refines (get_op id) t v f = get-Refines t id (lookup t id) v refl
  run-Refines (unref_op id) t v f = drop-Refines t id (λ e. e) (lookup t id) v (λ e. refl) refl
  run-Refines (remove_op id) t v f =
      drop-Refines t id (λ e. record e { present = false }) (lookup t id) v (λ e. refl) refl
