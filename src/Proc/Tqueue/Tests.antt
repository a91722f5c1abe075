-- ===== src/Proc/Tqueue/Tests.antt =====
-- The queues' theorems with one thread that waits.
use aexkernel.Prelude.{ℕ, false, zero, suc, ◌≡◌, none, some, [], ◌∷◌, arith}
use aexkernel.Proc.Threads.{Thread, Threads, runnable, task_tget_status}
use aexkernel.Proc.Tqueue.{Waits, tqueue_add, tqueue_wakeup_all}
use aexkernel.Proc.Tqueue.Wakeup.{tqueue_wakeup_all_lem, here, next, add, IsQueued, Reach-IsQueued}

abbrev thread_with : ℕ → Thread
thread_with n = record {
  status = n;
  abort = false;
  running = false;
  busy = 0;
  resume_after = 0;
  process = 1;
}

abbrev threads : Threads
threads = some (thread_with 1) ∷ some (thread_with 1) ∷ none ∷ []

abbrev empty : Waits
empty = record { threads = threads; queue = [] }

abbrev waiting : Waits
waiting = record {
  threads = some (thread_with 1) ∷ some (thread_with 3) ∷ none ∷ [];
  queue = 1 ∷ [];
}

tqueue_wakeup_all_lem_example :
    let (t, count) = tqueue_wakeup_all waiting in
    (task_tget_status t.threads 1 ≡ runnable) × (t.queue ≡ []) × (count ≡ 1)
unfolding task_tget_status
tqueue_wakeup_all_lem_example = tqueue_wakeup_all_lem waiting 1 (omega arith)

empty-IsQueued : IsQueued empty
unfolding task_tget_status
empty-IsQueued zero e = absurd (omega arith)
empty-IsQueued (suc zero) e = absurd (omega arith)
empty-IsQueued (suc (suc zero)) e = absurd (omega arith)
empty-IsQueued (suc (suc (suc j))) e = absurd (omega arith)

Reach-IsQueued_example : IsQueued (tqueue_add empty 1)
Reach-IsQueued_example = Reach-IsQueued (next here (add empty 1)) empty-IsQueued
