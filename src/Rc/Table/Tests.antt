-- ===== src/Rc/Table/Tests.antt =====
-- The table's theorems with two segments.
use aexkernel.Prelude.{
  ℕ, zero, suc, ◌≡◌, refl, sym, ap, true, none, some, [], ◌∷◌, length, get_or, ◌%◌, arith,
}
use aexkernel.Rc.Table.{Entry, Table, find, rcptable_get, rcptable_unref}
use aexkernel.Rc.Table.Segment.{Unique, empty, null, cons}
use aexkernel.Rc.Table.Refines.{Op, IsValid, lookup, set_op, run, run_map, Refines, run-Refines}
use aexkernel.Rc.Table.Balance.{unref-get}

abbrev entry : Entry ℕ
entry = record { id = 3; refs = 1; present = true; value = 7 }

abbrev table : Table ℕ
table = record { table = [] ∷ (none ∷ some entry ∷ []) ∷ []; counter = 4 }

all-Unique : (i : ℕ) → Unique (get_or table.table i [])
unfolding find
all-Unique zero = empty
all-Unique (suc zero) = null (cons refl empty)
all-Unique (suc (suc i)) = empty

table-IsValid : IsValid table
table-IsValid = record {
  segments = omega arith;
  unique = λ id. all-Unique (id % length table.table);
}

run-Refines_example : Refines (run (set_op 5 8) table) (run_map (set_op 5 8) (lookup table))
unfolding find
run-Refines_example = run-Refines (set_op 5 8) table table-IsValid fresh
  where
    fresh : (id v : ℕ) → set_op 5 8 ≡ set_op id v → lookup table id ≡ none
    fresh id v e = ap (λ o. lookup table (id_of o)) (sym e)
      where
        id_of : Op ℕ → ℕ
        id_of (set_op i v) = i
        id_of _ = 5

unref-get_example : rcptable_unref (rcptable_get table 3).0 3 ≡ (table, none)
unfolding find
unref-get_example =
    unref-get table 3 entry table-IsValid refl
      (record { here = refl; counted = omega arith; room = omega arith })
