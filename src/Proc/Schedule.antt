-- ===== src/Proc/Schedule.antt =====
-- proc/task.c: `task_shed_choose`, which gives a CPU its next thread, and the functions that keep a
-- thread from being replaced. Stacks, registers and page maps are left out of a thread and of a CPU;
-- `CURRENT_CPU_LOCAL` is the state of the CPU that calls. Whether `sheduler_lock` is free and the
-- milliseconds of the clock are arguments.
mod Tests
pub mod Next
pub mod Rounds
pub mod Choice
use aexkernel.Proc.Threads.{Thread, Threads, runnable, sleeping, thread_get, on_thread}
use aexkernel.Prelude.{
  ℕ, zero, suc, ◌-◌, Bool, true, false, Option, none, some, ltb, leb, ◌==◌, if◌then◌else◌, set,
  add_int, sub_int, add_size,
}

-- `task_cpu_local_t`
pub record Cpu : Type 0 where
  pub current_tid : ℕ
  pub current_pid : ℕ
  pub last_tid : ℕ
  pub reshed_block : ℕ
  pub should_reshed : Bool

-- `n > 0` of an `int`.
abbrev pub positive : ℕ → Bool
positive n = if n == 0 then false else ltb n 2147483648

-- The variables of the loop of `task_shed_choose`; `thread` is the last one that was looked up.
pub record Search : Type 0 where
  pub threads : Threads
  pub tid : ℕ
  pub selected_tid : ℕ
  pub thread : Option Thread

-- The inner loop, which passes over NULL threads up to `thread_count`.
pub skip : Threads → ℕ → ℕ → ℕ
skip ts zero tid = tid
skip ts (suc k) tid =
    let rest = skip ts k (suc tid) in elim (thread_get ts tid) [ none ↦ rest | some t ↦ tid ]

-- `thread_try_take` of the thread that is selected; `data.1` tells whether the loop is left.
pub try_take : Search → ℕ → Thread → Search × Bool
try_take s tid t = (
  record {
    threads = set s.threads tid (some (record t { running = true }));
    tid = tid;
    selected_tid = tid;
    thread = some (record t { running = true });
  },
  if t.running then false else true,
)

-- The switch over the status of the thread `tid`.
pub visit : Search → ℕ → ℕ → Thread → Search × Bool
visit s ms tid t =
    if t.status == runnable
    then try_take s tid t
    else if t.status == sleeping
    then if leb ms t.resume_after
      then (record s { tid = tid; thread = some t }, false)
      else try_take s tid (record t { status = runnable })
    else (record s { tid = tid; thread = some t }, false)

-- A round from where the inner loop stopped.
pub land : Search → ℕ → ℕ → ℕ → Search × Bool
land s thread_count ms tid =
    if ltb thread_count tid
    then (record s { tid = 0; thread = thread_get s.threads tid }, false)
    else elim (thread_get s.threads tid) [
      | none ↦ (record s { tid = tid; thread = none }, false)
      | some t ↦ visit s ms tid t
    ]

pub round : Search → ℕ → ℕ → Search × Bool
round s thread_count ms = land s thread_count ms (skip s.threads (thread_count - s.tid) (suc s.tid))

pub rounds : ℕ → Search → ℕ → ℕ → Search
rounds zero s thread_count ms = s
rounds (suc i) s thread_count ms =
    let r = round s thread_count ms in
    elim r.1 [ true ↦ r.0 | false ↦ rounds i r.0 thread_count ms ]

-- `thread_release`
pub thread_release : Threads → ℕ → Threads
thread_release ts tid = on_thread (λ t. record t { running = false }) ts tid

-- From `done` on. `none` is the NULL thread that would be read; the idle threads are of process 0.
pub take_over : Cpu → Search → Option (Cpu × Threads)
take_over c s =
    if s.selected_tid == 0
    then some (record c { current_tid = 0; current_pid = 0 }, s.threads)
    else elim s.thread [
      | none ↦ none
      | some t ↦ some (
        record c {
          last_tid = s.selected_tid;
          current_tid = s.selected_tid;
          current_pid = t.process;
        },
        s.threads,
      )
    ]

pub task_shed_choose : Cpu → Threads → ℕ → ℕ → Bool → Option (Cpu × Threads)
task_shed_choose c ts thread_count ms free =
    if positive c.reshed_block
    then some (record c { should_reshed = true }, ts)
    else if free
    then take_over (record c { should_reshed = false })
        (rounds (suc thread_count)
          (record {
            threads = thread_release ts c.current_tid;
            tid = c.last_tid;
            selected_tid = 0;
            thread = thread_get ts c.current_tid;
          })
          thread_count ms)
    else some (c, ts)

pub task_reshed_disable : Bool → Cpu → Cpu
task_reshed_disable sheduler_ready c =
    if sheduler_ready then record c { reshed_block = add_int c.reshed_block 1 } else c

-- `data.1` tells whether the call yields.
pub task_reshed_enable : Bool → Cpu → Cpu × Bool
task_reshed_enable sheduler_ready c =
    if sheduler_ready
    then (
      record c { reshed_block = sub_int c.reshed_block 1 },
      if c.should_reshed then sub_int c.reshed_block 1 == 0 else false,
    )
    else (c, false)

pub task_tcan_yield : Cpu → Bool
task_tcan_yield c = c.reshed_block == 0

-- The status and the deadline of a thread that goes to sleep.
pub task_tsleep : Threads → ℕ → ℕ → ℕ → Threads
task_tsleep ts tid ms delay =
    on_thread (λ t. record t { status = sleeping; resume_after = add_size ms delay }) ts tid
