-- ===== src/Rc/Array/Tests.antt =====
-- The counted array's theorems at an array with a value, a free slot and a removed value in use.
use aexkernel.Prelude.{
  ℕ, zero, suc, ◌≡◌, ◌↔◌, refl, true, false, Option, none, some, List, [], ◌∷◌, arith,
}
use aexkernel.Rc.Array.{Cell, slot, rcparray_get, rcparray_foreach}
use aexkernel.Rc.Array.Foreach.{visits, Ahead, rcparray_foreach-visits}
use aexkernel.Rc.Array.Ledger.{
  Ledger, Step, here, next, get, IsCounted, Reach-IsCounted, held-value, update,
}

abbrev cell : Cell ℕ
cell = record { refs = 2; present = true; value = 40 }

abbrev removed : Cell ℕ
removed = record { refs = 1; present = false; value = 50 }

abbrev cells : List (Option (Cell ℕ))
cells = none ∷ some removed ∷ some cell ∷ []

abbrev one_each : ℕ → ℕ
one_each zero = 0
one_each (suc zero) = 1
one_each (suc (suc zero)) = 1
one_each (suc (suc (suc i))) = 0

abbrev ledger : Ledger ℕ
ledger = record { array = cells; holders = one_each }

ledger-IsCounted : IsCounted ledger
ledger-IsCounted zero = refl
ledger-IsCounted (suc zero) = (refl, omega arith, omega arith)
ledger-IsCounted (suc (suc zero)) = (refl, omega arith, omega arith)
ledger-IsCounted (suc (suc (suc i))) = refl

rcparray_foreach-visits_example :
    (ids : List ℕ) × (rcparray_foreach 4 cells 0 ≡ some ids)
    × ((i : ℕ) → (visits ids i ≡ true) ↔ Ahead cells i)
rcparray_foreach-visits_example = rcparray_foreach-visits 4 cells (omega arith)

abbrev after_get : Ledger ℕ
after_get = record {
  array = none ∷ some removed ∷ some (record cell { refs = 3 }) ∷ [];
  holders = update one_each 2 2;
}

get-Step : Step ledger after_get
unfolding rcparray_get
get-Step = get ledger 2 cell refl refl (omega arith)

Reach-IsCounted_example : IsCounted after_get
Reach-IsCounted_example = Reach-IsCounted (next here get-Step) ledger-IsCounted

held-value_example :
    (d : Cell ℕ) × (c : Cell ℕ) × (slot cells 2 ≡ some d)
    × (slot after_get.array 2 ≡ some c)
    × (c.value ≡ d.value)
held-value_example = held-value ledger-IsCounted get-Step 2 (omega arith) (omega arith)
