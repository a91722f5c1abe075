-- ===== src/Rc/Table.antt =====
-- include/aex/rcptable.h: a hash table of pointers to counted entries. The table is the list of its
-- segments, `seg_count` their number and `sizes` their lengths; a NULL pointer is `none`. Each macro
-- runs under the table's lock and is one step. `rcptable_get` returns a pointer to the value, which
-- is the value here; what `cleanup` is called on is a result. Allocation is taken to succeed.
mod Tests
pub mod Segment
pub mod Refines
pub mod Balance
use aexkernel.Prelude.{
  ℕ, ◌%◌, Bool, true, false, Option, none, some, List, [], ◌∷◌, ◌==◌, if◌then◌else◌, get_or, set,
  length, replicate, add_int, sub_int, minus_one,
}

pub record Entry {ℓ} (A : Type ℓ) : Type ℓ where
  pub id : ℕ
  pub refs : ℕ
  pub present : Bool
  pub value : A

abbrev pub Segment {ℓ} : Type ℓ → Type ℓ
Segment A = List (Option (Entry A))

pub record Table {ℓ} (A : Type ℓ) : Type ℓ where
  pub table : List (List (Option (Entry A)))
  pub counter : ℕ

abbrev pub rcptable_hash : ℕ → ℕ → ℕ
rcptable_hash id size = id % size

module _ {ℓ} {A : Type ℓ} where
  pub rcptable_init : ℕ → ℕ → Table A
  rcptable_init hashsegs counter = record { table = replicate hashsegs []; counter = counter }

  abbrev pub segment : Table A → ℕ → Segment A
  segment t id = get_or t.table (rcptable_hash id (length t.table)) []

  abbrev pub with_segment : Table A → ℕ → Segment A → Table A
  with_segment t id s = record t { table = set t.table (rcptable_hash id (length t.table)) s }

  -- The search of every macro: the first entry that has the id.
  unfoldable pub find : Segment A → ℕ → Option (Entry A)
  find [] id = none
  find (none ∷ s) id = find s id
  find (some e ∷ s) id = if e.id == id then some e else find s id

  -- A write to the slot where that search stops.
  pub put : Segment A → ℕ → Option (Entry A) → Segment A
  put [] id o = []
  put (none ∷ s) id o = none ∷ put s id o
  put (some e ∷ s) id o = if e.id == id then o ∷ s else some e ∷ put s id o

  -- The first free slot is taken; without one the segment grows by one.
  pub insert : Segment A → Entry A → Segment A
  insert [] e = some e ∷ []
  insert (none ∷ s) e = some e ∷ s
  insert (some d ∷ s) e = some d ∷ insert s e

  pub rcptable_set : Table A → ℕ → A → Table A
  rcptable_set t id val =
      with_segment t id
        (insert (segment t id) (record { id = id; refs = 1; present = true; value = val }))

  pub rcptable_get : Table A → ℕ → Table A × Option A
  rcptable_get t id = elim (find (segment t id) id) [
    | none ↦ (t, none)
    | some e ↦
        if e.present
        then (
          with_segment t id (put (segment t id) id (some (record e { refs = add_int e.refs 1 }))),
          some e.value,
        )
        else (t, none)
  ]

  -- The entry with one reference less, and NULL once none is left; what is cleaned up then.
  abbrev pub drop_ref : Entry A → Option (Entry A) × Option A
  drop_ref e =
      if sub_int e.refs 1 == 0
      then (none, some e.value)
      else (some (record e { refs = sub_int e.refs 1 }), none)

  pub rcptable_unref : Table A → ℕ → Table A × Option A
  rcptable_unref t id = elim (find (segment t id) id) [
    | none ↦ (t, none)
    | some e ↦ (with_segment t id (put (segment t id) id (drop_ref e).0), (drop_ref e).1)
  ]

  -- It takes a reference also of an entry that is removed already.
  pub rcptable_remove : Table A → ℕ → Table A × Option A
  rcptable_remove t id = elim (find (segment t id) id) [
    | none ↦ (t, none)
    | some e ↦
        let d = drop_ref (record e { present = false }) in
        (with_segment t id (put (segment t id) id d.0), d.1)
  ]

  pub rcptable_refcount : Table A → ℕ → ℕ
  rcptable_refcount t id = elim (find (segment t id) id) [ none ↦ minus_one | some e ↦ e.refs ]

  -- A write through the pointer that `rcptable_get` gave.
  pub write_value : Table A → ℕ → (A → A) → Table A
  write_value t id f = elim (find (segment t id) id) [
    | none ↦ t
    | some e ↦ with_segment t id (put (segment t id) id (some (record e { value = f e.value })))
  ]
