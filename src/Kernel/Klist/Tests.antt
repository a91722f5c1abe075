-- ===== src/Kernel/Klist/Tests.antt =====
-- The klist's theorems at a list of two entries.
use aexkernel.Prelude.{ℕ, ◌≡◌, refl, true, none, [], ◌∷◌, arith}
use aexkernel.Kernel.Klist.{Klist, entry, klist_set, klist_get}
use aexkernel.Kernel.Klist.Laws.{IsValid, klist_get-klist_set}

abbrev two : Klist ℕ
two = record { count = 2; first = entry 3 30 ∷ entry 5 50 ∷ [] }

two-IsValid : IsValid two
two-IsValid = record { unique = (refl, (refl, tt)); counted = refl; small = omega arith }

klist_get-klist_set_example :
    (klist_get (klist_set two 5 none).0 5 ≡ none) × ((klist_set two 5 none).1 ≡ true)
klist_get-klist_set_example = klist_get-klist_set two 5 5 none two-IsValid
