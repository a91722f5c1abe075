-- ===== src/Proc/Processes/Tests.antt =====
-- A table with one process.
use aexkernel.Prelude.{ℕ, zero, suc, ◌%◌, ◌≡◌, refl, true, some, [], ◌∷◌, get_or, arith}
use aexkernel.Rc.Array.{fresh}
use aexkernel.Rc.Table.{Entry, find}
use aexkernel.Rc.Table.Segment.{Unique, empty, cons}
use aexkernel.Proc.Processes.{
  Process, Processes, erange, task_pruse, task_prrelease, task_prget_cwd,
}
use aexkernel.Proc.Processes.Balance.{IsProcess, task_prrelease-task_pruse, task_prget_cwd_lem}

abbrev pub process : Process
process = record {
  cwd = some (b'/' ∷ b'a' ∷ []);
  parent = 0;
  busy = 4;
  fiddies = some (fresh 0) ∷ [];
  threads = [];
  ecode = 0;
}

abbrev pub entry : Entry Process
entry = record { id = 3; refs = 1; present = true; value = process }

abbrev pub processes : Processes
processes = record { table = [] ∷ (some entry ∷ []) ∷ []; counter = 4 }

all-Unique : (i : ℕ) → Unique (get_or processes.table i [])
unfolding find
all-Unique zero = empty
all-Unique (suc zero) = cons refl empty
all-Unique (suc (suc i)) = empty

pub process-IsProcess : IsProcess processes 3 entry
unfolding find
process-IsProcess = record {
  valid = record { segments = omega arith; unique = λ id. all-Unique (id % 2) };
  entry = refl;
  live = record { here = refl; counted = omega arith; room = omega arith };
}

task_prrelease-task_pruse_example :
    ((task_pruse processes 3).1 ≡ true) × (task_prrelease (task_pruse processes 3).0 3 ≡ processes)
task_prrelease-task_pruse_example =
    task_prrelease-task_pruse processes 3 entry process-IsProcess (omega arith)

task_prget_cwd_lem_example : task_prget_cwd processes 3 2 ≡ some (processes, erange, [])
task_prget_cwd_lem_example = task_prget_cwd_lem processes 3 2 entry process-IsProcess
