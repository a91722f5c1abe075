-- ===== src/Kernel/Klist.antt =====
-- kernel/klist.c and include/aex/klist.h: a list of pointers under `size_t` indices.
-- A non-NULL `void*` is a value of any type `A`, so `ptr == NULL` is `none`. The chain of entries
-- belongs to one klist and is a list; an entry pointer is the rest of the chain from it on, `[]`
-- for NULL. `kmalloc` is taken to return an entry.
mod Tests
pub mod Laws
use aexkernel.Prelude.{
  ℕ, zero, suc, ◌+◌, Bool, true, false, Option, none, some, List, [], ◌∷◌, ◌==◌, if◌then◌else◌,
  add_size, sub_size,
}

pub record Entry {ℓ} (A : Type ℓ) : Type ℓ where
  pub index : ℕ
  pub content : A

pub record Klist {ℓ} (A : Type ℓ) : Type ℓ where
  pub count : ℕ
  pub first : List (Entry A)

abbrev pub entry {ℓ} : {A : Type ℓ} → ℕ → A → Entry A
entry i p = record { index = i; content = p }

module _ {ℓ} {A : Type ℓ} where
  pub klist_init : Klist A
  klist_init = record { count = 0; first = [] }

  pub klist_init_raw : Entry A → Klist A
  klist_init_raw e = record { count = 1; first = e ∷ [] }

  -- The walk of `klist_set` from `entry` on: the chain that it leaves, and whether the index was
  -- there. The walk ends behind the last entry, where a new one is linked.
  pub set_chain : ℕ → Option A → List (Entry A) → List (Entry A) × Bool
  set_chain i none [] = ([], false)
  set_chain i (some p) [] = (entry i p ∷ [], false)
  set_chain i none (e ∷ es) =
      let rest = set_chain i none es in if e.index == i then (es, true) else (e ∷ rest.0, rest.1)
  set_chain i (some p) (e ∷ es) =
      let rest = set_chain i (some p) es in
      if e.index == i then (record e { content = p } ∷ es, true) else (e ∷ rest.0, rest.1)

  -- How `count` changes: up for a new entry, down for a removed one.
  set_count : Option A → Bool → ℕ → ℕ
  set_count none true n = sub_size n 1
  set_count none false n = n
  set_count (some p) true n = n
  set_count (some p) false n = add_size n 1

  pub klist_set : Klist A → ℕ → Option A → Klist A × Bool
  unfolding set_chain set_count
  klist_set k i p =
      let (es, found) = set_chain i p k.first in
      (record { count = set_count p found k.count; first = es }, found)

  pub get_chain : ℕ → List (Entry A) → Option A
  get_chain i [] = none
  get_chain i (e ∷ es) = if e.index == i then some e.content else get_chain i es

  pub klist_get : Klist A → ℕ → Option A
  unfolding get_chain
  klist_get k i = get_chain i k.first

  first_index : List (Entry A) → Option ℕ
  first_index [] = none
  first_index (e ∷ es) = some e.index

  -- `none` is the result -1.
  pub klist_first : Klist A → Option ℕ
  unfolding first_index
  klist_first k = first_index k.first

  next_entry : Klist A → List (Entry A) → List (Entry A)
  next_entry k [] = k.first
  next_entry k (e ∷ es) = es

  entry_content : List (Entry A) → Option A
  entry_content [] = none
  entry_content (e ∷ es) = some e.content

  -- The cursor that is left in `*entry`, and the result.
  pub klist_iter : Klist A → List (Entry A) → List (Entry A) × Option A
  unfolding next_entry entry_content
  klist_iter k cursor = let c = next_entry k cursor in (c, entry_content c)

  -- The rounds of `klist_foreach` from a cursor on, each with its `id` and `var`; `none` when the
  -- fuel runs out.
  pub klist_foreach : ℕ → Klist A → List (Entry A) → Option (List (ℕ × A))
  unfolding klist_iter
  klist_foreach zero k cursor = none
  klist_foreach (suc f) k cursor = elim (klist_iter k cursor).0 [
    | [] ↦ some []
    | e ∷ es ↦ elim (klist_foreach f k (e ∷ es)) [
      | none ↦ none
      | some rounds ↦ some ((e.index, e.content) ∷ rounds)
    ]
  ]
