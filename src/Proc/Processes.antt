-- ===== src/Proc/Processes.antt =====
-- proc/task.c: the table of processes, and the functions that use a process by its pid. A process is
-- kept without its page map, its name and its event. NULL is `none`; `none` as a result is a read
-- through NULL. Each function is one step.
pub mod Tests
pub mod Balance
use aexkernel.Prelude.{
  ℕ, ◌+◌, Bool, true, false, Option, none, some, List, [], ltb, if◌then◌else◌, length, add_int,
  sub_int,
}
use aexkernel.Rc.Array.{Cell}
use aexkernel.Rc.Table.{Table, rcptable_get, rcptable_unref, write_value}

-- `struct process`; `cwd` without its terminator.
pub record Process : Type 0 where
  pub cwd : Option (List ℕ)
  pub parent : ℕ
  pub busy : ℕ
  pub fiddies : List (Option (Cell ℕ))
  pub threads : List (Option (Cell ℕ))
  pub ecode : ℕ

abbrev pub Processes : Type 0
Processes = Table Process

-- `-ENOPS` and `-ERANGE`.
abbrev pub enops : ℕ
enops = 4294967293

abbrev pub erange : ℕ
erange = 4294967282

-- The result tells whether the process is there.
pub task_pruse : Processes → ℕ → Processes × Bool
task_pruse ps pid =
    let (got, found) = rcptable_get ps pid in
    elim found [
      | none ↦ (got, false)
      | some process ↦
          let used = write_value got pid (λ p. record p { busy = add_int p.busy 1 }) in
          ((rcptable_unref used pid).0, true)
    ]

pub task_prrelease : Processes → ℕ → Processes
task_prrelease ps pid =
    let (got, found) = rcptable_get ps pid in
    elim found [
      | none ↦ got
      | some process ↦
          let released = write_value got pid (λ p. record p { busy = sub_int p.busy 1 }) in
          (rcptable_unref released pid).0
    ]

-- The result, and what is written to `buffer`, without the terminator.
pub task_prget_cwd : Processes → ℕ → ℕ → Option (Processes × ℕ × List ℕ)
task_prget_cwd ps pid size =
    let (got, found) = rcptable_get ps pid in
    elim found [
      | none ↦ some (got, enops, [])
      | some process ↦ elim process.cwd [
        | none ↦ none
        | some cwd ↦
            if ltb size (length cwd + 1)
            then some ((rcptable_unref got pid).0, erange, [])
            else some ((rcptable_unref got pid).0, 0, cwd)
      ]
    ]
