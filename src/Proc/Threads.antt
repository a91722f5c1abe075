-- ===== src/Proc/Threads.antt =====
-- proc/task.c: the table of threads. A tid is its index; `none` is a NULL thread. Each function runs
-- under `sheduler_lock` and is one step. `kzmalloc` and `krealloc` are taken to succeed.
pub mod Slots
use aexkernel.Prelude.{
  ℕ, zero, suc, Bool, true, false, Option, none, some, List, [], ◌∷◌, ltb, ◌==◌, if◌then◌else◌,
  get_or, set, add_int, sub_int,
}

-- `struct thread`, without its stacks and registers. An `int` is its 32-bit pattern.
pub record Thread : Type 0 where
  pub status : ℕ
  pub abort : Bool
  pub running : Bool
  pub busy : ℕ
  pub resume_after : ℕ
  pub process : ℕ

-- `enum thread_status`
abbrev pub created : ℕ
created = 0

abbrev pub runnable : ℕ
runnable = 1

abbrev pub sleeping : ℕ
sleeping = 2

abbrev pub blocked : ℕ
blocked = 3

abbrev pub dead : ℕ
dead = 4

-- The table of threads; `none` is a NULL thread.
abbrev pub Threads : Type 0
Threads = List (Option Thread)

unfoldable pub task_tset_status : Threads → ℕ → ℕ → Threads
task_tset_status ts tid status = elim (get_or ts tid none) [
  | none ↦ ts
  | some t ↦ set ts tid (some (record t { status = status }))
]

unfoldable pub task_tget_status : Threads → ℕ → ℕ
task_tget_status ts tid = elim (get_or ts tid none) [ none ↦ dead | some t ↦ t.status ]

-- `thread->abort > 0`
unfoldable pub task_tshould_exit : Threads → ℕ → Bool
task_tshould_exit ts tid = elim (get_or ts tid none) [ none ↦ true | some t ↦ t.abort ]

abbrev pub thread_get : Threads → ℕ → Option Thread
thread_get ts tid = get_or ts tid none

-- The first free slot is taken; without one the table grows by one.
pub thread_add : Threads → Thread → Threads × ℕ
thread_add [] t = (some t ∷ [], 0)
thread_add (none ∷ ts) t = (some t ∷ ts, 0)
thread_add (some u ∷ ts) t = let r = thread_add ts t in (some u ∷ r.0, suc r.1)

pub thread_remove : Threads → ℕ → Threads
thread_remove ts tid = set ts tid none

-- A change of a thread that is there; one that is not is left alone.
unfoldable pub on_thread : (Thread → Thread) → Threads → ℕ → Threads
on_thread f ts tid = elim (thread_get ts tid) [ none ↦ ts | some t ↦ set ts tid (some (f t)) ]

pub task_tstart : Threads → ℕ → Threads
task_tstart ts tid = on_thread (λ t. record t { status = runnable }) ts tid

pub task_prepare_tkill : Threads → ℕ → Threads
task_prepare_tkill ts tid =
    on_thread
      (λ t. record t { abort = true; status = if t.status == dead then t.status else runnable }) ts
      tid

-- `data.1` tells whether the thread may be used.
pub task_tuse : Threads → ℕ → Threads × Bool
task_tuse ts tid = elim (thread_get ts tid) [
  | none ↦ (ts, false)
  | some t ↦ (set ts tid (some (record t { busy = add_int t.busy 1 })), true)
]

-- The part of `task_trelease` under the lock, and whether the caller, if it is the thread itself, has
-- to block and yield.
pub task_trelease : Threads → ℕ → Threads × Bool
task_trelease ts tid = elim (thread_get ts tid) [
  | none ↦ (ts, false)
  | some t ↦ (
    set ts tid (some (record t { busy = sub_int t.busy 1 })),
    if sub_int t.busy 1 == 0 then t.abort else false,
  )
]

-- `none` is -EINVAL.
pub task_tprocessof : Threads → ℕ → Option ℕ
task_tprocessof ts tid = elim (thread_get ts tid) [ none ↦ none | some t ↦ some t.process ]
