-- ===== src/Proc/Processes/Balance.antt =====
-- proc/task.c: what is left of a use of a process.
use aexkernel.Prelude.{
  ℕ, ◌+◌, ◌<◌, ◌≡◌, refl, ap, ◌∙◌, Bool, true, false, Option, none, some, List, [], ltb,
  if◌then◌else◌, length, add_int, sub_int, arith,
}
use aexkernel.Rc.Table.{Entry, rcptable_get, rcptable_unref, write_value}
use aexkernel.Rc.Table.Refines.{IsValid, lookup}
use aexkernel.Rc.Table.Balance.{
  IsLive, rcptable_get-value, unref-get, unref-write_value, write_value-write_value,
  write_value-same, lookup-write_value, write_value-IsValid,
}
use aexkernel.Proc.Processes.{
  Process, Processes, erange, task_pruse, task_prrelease, task_prget_cwd,
}

-- A process that is there, with a count that can go up.
pub record IsProcess (ps : Processes) (pid : ℕ) (e : Entry Process) : Type 0 where
  pub valid : IsValid ps
  pub entry : lookup ps pid ≡ some e
  pub live : IsLive e

task_pruse_lem :
    (ps : Processes) (pid : ℕ) (e : Entry Process)
    → IsProcess ps pid e
    → task_pruse ps pid ≡ (write_value ps pid (λ p. record p { busy = add_int p.busy 1 }), true)
unfolding task_pruse
task_pruse_lem ps pid e h = rw (
  rcptable_get-value ps pid e h.entry h.live,
  unref-write_value ps pid e (λ p. record p { busy = add_int p.busy 1 }) h.valid h.entry h.live,
  task_pruse,
)

task_prrelease_lem :
    (ps : Processes) (pid : ℕ) (e : Entry Process)
    → IsProcess ps pid e
    → task_prrelease ps pid ≡ write_value ps pid (λ p. record p { busy = sub_int p.busy 1 })
unfolding task_prrelease
task_prrelease_lem ps pid e h = rw (
  rcptable_get-value ps pid e h.entry h.live,
  unref-write_value ps pid e (λ p. record p { busy = sub_int p.busy 1 }) h.valid h.entry h.live,
  task_prrelease,
)

-- A process that is there stays there when its value is written.
pub write_value-IsProcess :
    (ps : Processes) (pid : ℕ) (e : Entry Process) (f : Process → Process)
    → IsProcess ps pid e
    → IsProcess (write_value ps pid f) pid (record e { value = f e.value })
write_value-IsProcess ps pid e f h = record {
  valid = write_value-IsValid ps pid e f h.valid h.entry;
  entry = lookup-write_value ps pid e f h.valid h.entry;
  live = record { here = h.live.here; counted = h.live.counted; room = h.live.room };
}

-- For a process that is there and whose `busy` is a pattern of 32 bits, `task_pruse` returns true, and
-- a `task_prrelease` after it leaves the table of processes as it was before both.
pub task_prrelease-task_pruse :
    (ps : Processes) (pid : ℕ) (e : Entry Process)
    → IsProcess ps pid e
    → e.value.busy < 4294967296
    → ((task_pruse ps pid).1 ≡ true) × (task_prrelease (task_pruse ps pid).0 pid ≡ ps)
task_prrelease-task_pruse ps pid e h b = (
  ap (λ r. r.1) (task_pruse_lem ps pid e h),
  ap (λ r. task_prrelease r.0 pid) (task_pruse_lem ps pid e h)
      ∙ task_prrelease_lem used pid (record e { value = taken e.value })
          (write_value-IsProcess ps pid e taken h)
      ∙ write_value-write_value ps pid e taken release h.valid h.entry
      ∙ write_value-same ps pid e (λ p. release (taken p)) h.entry
          (ap (λ n. record e.value { busy = n }) same),
)
  where
    taken : Process → Process
    taken p = record p { busy = add_int p.busy 1 }

    release : Process → Process
    release p = record p { busy = sub_int p.busy 1 }

    used : Processes
    used = write_value ps pid taken

    same : sub_int (add_int e.value.busy 1) 1 ≡ e.value.busy
    same = omega (arith, b)

-- For a process that is there, `task_prget_cwd` writes its directory when that fits into `size` bytes
-- with its terminator, and returns -ERANGE and writes nothing otherwise; the table of processes is
-- not changed. A process without a directory is read through NULL.
pub task_prget_cwd_lem :
    (ps : Processes) (pid size : ℕ) (e : Entry Process)
    → IsProcess ps pid e
    → task_prget_cwd ps pid size ≡ elim e.value.cwd [
      | none ↦ none
      | some cwd ↦ some (if ltb size (length cwd + 1) then (ps, erange, []) else (ps, 0, cwd))
    ]
unfolding task_prget_cwd
task_prget_cwd_lem ps pid size e h =
    rw (rcptable_get-value ps pid e h.entry h.live, task_prget_cwd) (chosen e.value.cwd)
  where
    either :
        (b : Bool) (x y : Processes × ℕ × List ℕ)
        → (if b then some x else some y) ≡ some (if b then x else y)
    either true x y = refl
    either false x y = refl

    chosen :
        (o : Option (List ℕ))
        → elim o as (λ x. Option (Processes × ℕ × List ℕ)) [
          | none ↦ none
          | some cwd ↦
              if ltb size (length cwd + 1)
              then some ((rcptable_unref (rcptable_get ps pid).0 pid).0, erange, [])
              else some ((rcptable_unref (rcptable_get ps pid).0 pid).0, 0, cwd)
        ]
          ≡ elim o [
            | none ↦ none
            | some cwd ↦ some (if ltb size (length cwd + 1) then (ps, erange, []) else (ps, 0, cwd))
          ]
    chosen none = refl
    chosen (some cwd) =
        ap (λ u. if ltb size (length cwd + 1) then some (u.0, erange, []) else some (u.0, 0, cwd))
          (unref-get ps pid e h.valid h.entry h.live)
        ∙ either (ltb size (length cwd + 1)) (ps, erange, []) (ps, 0, cwd)
