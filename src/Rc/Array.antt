-- ===== src/Rc/Array.antt =====
-- include/aex/rcparray.h: an array of pointers to counted cells. A NULL pointer is `none`, the
-- block that `array` points to is a list, and `size` its length. An `int` count is its 32-bit
-- pattern. The macros run under the array's lock: each is one atomic step. `rcparray_get` and
-- `rcparray_find` return a pointer to the value, which is the value here: a cell's value is written
-- once, by `rcparray_add`. `kmalloc` and `krealloc` are taken to succeed.
mod Tests
pub mod Laws
pub mod Find
pub mod Foreach
pub mod Ledger
use aexkernel.Prelude.{
  ℕ, zero, suc, Bool, true, false, ◌||◌, Option, none, some, List, [], ◌∷◌, ◌==◌, if◌then◌else◌,
  set, add_int, sub_int, minus_one,
}

pub record Cell {ℓ} (A : Type ℓ) : Type ℓ where
  pub refs : ℕ
  pub present : Bool
  pub value : A

module _ {ℓ} {A : Type ℓ} where
  -- `array[id]`, and `none` also behind the end, where every macro takes the same way out.
  abbrev pub slot : List (Option (Cell A)) → ℕ → Option (Cell A)
  slot [] i = none
  slot (x ∷ xs) zero = x
  slot (x ∷ xs) (suc i) = slot xs i

  abbrev pub fresh : A → Cell A
  fresh v = record { refs = 1; present = true; value = v }

  -- The first free slot is taken; without one the array grows by one.
  unfoldable pub rcparray_add : List (Option (Cell A)) → A → List (Option (Cell A)) × ℕ
  rcparray_add [] v = (some (fresh v) ∷ [], 0)
  rcparray_add (none ∷ xs) v = (some (fresh v) ∷ xs, 0)
  rcparray_add (some c ∷ xs) v = let r = rcparray_add xs v in (some c ∷ r.0, suc r.1)

  unfoldable pub rcparray_get : List (Option (Cell A)) → ℕ → List (Option (Cell A)) × Option A
  rcparray_get xs id = elim (slot xs id) [
    | none ↦ (xs, none)
    | some c ↦
        if c.present
        then (set xs id (some (record c { refs = add_int c.refs 1 })), some c.value)
        else (xs, none)
  ]

  -- The cell with one reference less, and NULL once none is left.
  abbrev pub drop_ref : Cell A → Option (Cell A)
  drop_ref c = if sub_int c.refs 1 == 0 then none else some (record c { refs = sub_int c.refs 1 })

  unfoldable pub rcparray_unref : List (Option (Cell A)) → ℕ → List (Option (Cell A))
  rcparray_unref xs id = elim (slot xs id) [ none ↦ xs | some c ↦ set xs id (drop_ref c) ]

  pub rcparray_remove : List (Option (Cell A)) → ℕ → List (Option (Cell A)) × ℕ
  rcparray_remove xs id = elim (slot xs id) [
    | none ↦ (xs, minus_one)
    | some c ↦ (set xs id (drop_ref (record c { present = false })), sub_int c.refs 1)
  ]

  abbrev pub matches : (A → Bool) → Option (Cell A) → Bool
  matches cond none = false
  matches cond (some c) = if c.present then cond c.value else false

  -- The search of `rcparray_find`: the id of the first present value that meets the condition.
  unfoldable pub find_id : (A → Bool) → List (Option (Cell A)) → ℕ → Option ℕ
  find_id cond [] id = none
  find_id cond (x ∷ xs) id =
      let rest = find_id cond xs (suc id) in if matches cond x then some id else rest

  unfoldable pub rcparray_find :
      (A → Bool) → List (Option (Cell A)) → List (Option (Cell A)) × Option (ℕ × A)
  rcparray_find cond xs = elim (find_id cond xs 0) [
    | none ↦ (xs, none)
    | some id ↦ elim (slot xs id) [
      | none ↦ (xs, none)
      | some c ↦ (set xs id (some (record c { refs = add_int c.refs 1 })), some (id, c.value))
    ]
  ]

  abbrev pub is_present : Option (Cell A) → Bool
  is_present none = false
  is_present (some c) = c.present

  -- The condition of `rcparray_foreach`: some slot from `id` on is present.
  abbrev pub present_from : List (Option (Cell A)) → ℕ → Bool
  present_from [] i = false
  present_from (x ∷ xs) zero = is_present x || present_from xs zero
  present_from (x ∷ xs) (suc i) = present_from xs i

  -- The ids with which `rcparray_foreach` runs its body, over an array that the body leaves alone;
  -- `none` when the fuel runs out. The loop's `id` is not set to the slot that its condition found.
  pub rcparray_foreach : ℕ → List (Option (Cell A)) → ℕ → Option (List ℕ)
  rcparray_foreach zero xs id = none
  rcparray_foreach (suc f) xs id = elim (present_from xs id) [
    | false ↦ some []
    | true ↦ elim (rcparray_foreach f xs (suc id)) [ none ↦ none | some ids ↦ some (id ∷ ids) ]
  ]
