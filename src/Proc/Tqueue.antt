-- ===== src/Proc/Tqueue.antt =====
-- proc/tqueue.c and kernel/event.c: queues of threads that wait, over the statuses of the threads
-- that proc/task.c keeps. A queue's chain from `first` on is a list of thread ids; `last` is only
-- used while `first` is not NULL, and is its last entry then. The locks make each function one step;
-- `event_wait` is two, before and after it yields. `kzmalloc` is taken to succeed.
mod Tests
pub mod Status
pub mod Wakeup
use aexkernel.Proc.Threads.{
  Threads, runnable, blocked, task_tset_status, task_tget_status, task_tshould_exit,
}
use aexkernel.Prelude.{
  ℕ, zero, suc, Bool, true, false, Option, none, some, List, [], ◌∷◌, ◌++◌, ltb, ◌==◌,
  if◌then◌else◌, get_or, set, add_int, minus_one,
}

-- A thread that is blocked becomes runnable.
pub wake : Threads → ℕ → Threads
wake ts tid = if task_tget_status ts tid == blocked then task_tset_status ts tid runnable else ts

pub record Waits : Type 0 where
  pub threads : Threads
  pub queue : List ℕ

-- `tid` is the thread that calls.
unfoldable pub tqueue_add : Waits → ℕ → Waits
tqueue_add s tid = record {
  threads = task_tset_status s.threads tid blocked;
  queue = s.queue ++ (tid ∷ []);
}

pub wake_first : Threads → List ℕ → Waits × Bool
wake_first ts [] = (record { threads = ts; queue = [] }, false)
wake_first ts (tid ∷ tids) = (record { threads = wake ts tid; queue = tids }, true)

pub tqueue_wakeup : Waits → Waits × Bool
tqueue_wakeup s = wake_first s.threads s.queue

-- The loop of `tqueue_wakeup_all` with its count.
unfoldable pub wake_all : Threads → List ℕ → ℕ → Threads × ℕ
wake_all ts [] count = (ts, count)
wake_all ts (tid ∷ tids) count = wake_all (wake ts tid) tids (add_int count 1)

unfoldable pub tqueue_wakeup_all : Waits → Waits × ℕ
tqueue_wakeup_all s =
    let (ts, count) = wake_all s.threads s.queue 0 in (record { threads = ts; queue = [] }, count)

pub record Event : Type 0 where
  pub counter : ℕ
  pub wait_queue : Waits

-- `event_wait` up to the yield; the result is that of a call that ends here.
unfoldable pub event_enter : Event → ℕ → Event × Option ℕ
event_enter e tid =
    if task_tshould_exit e.wait_queue.threads tid
    then (e, some minus_one)
    else (record e { wait_queue = tqueue_add e.wait_queue tid }, none)

-- `event_wait` from the yield on.
pub event_leave : Event → ℕ → ℕ
event_leave e tid = if task_tshould_exit e.wait_queue.threads tid then minus_one else 0

pub event_trigger : Event → Event
event_trigger e = record e { wait_queue = (tqueue_wakeup e.wait_queue).0 }

unfoldable pub event_trigger_all : Event → Event
event_trigger_all e = record e { wait_queue = (tqueue_wakeup_all e.wait_queue).0 }

-- Nothing reads the counter.
pub event_defunct : Event → Event
event_defunct e = record { counter = 0x7FFFFFF; wait_queue = (tqueue_wakeup_all e.wait_queue).0 }
