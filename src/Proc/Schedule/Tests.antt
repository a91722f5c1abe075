-- ===== src/Proc/Schedule/Tests.antt =====
-- The scheduler's theorems with three threads.
use aexkernel.Prelude.{
  ℕ, zero, suc, ◌≡◌, refl, sym, ap, Bool, true, false, Option, none, some, [], ◌∷◌,
}
use aexkernel.Proc.Threads.{Thread, Threads, on_thread}
use aexkernel.Proc.Schedule.{Cpu, thread_release, task_shed_choose}
use aexkernel.Proc.Schedule.Next.{next_ready}
use aexkernel.Proc.Schedule.Rounds.{NoneTaken}
use aexkernel.Proc.Schedule.Choice.{given, task_shed_choose_lem}

abbrev thread_with : ℕ → Bool → Thread
thread_with n b = record {
  status = n;
  abort = false;
  running = b;
  busy = 0;
  resume_after = 5;
  process = 1;
}

-- The idle thread, the current one, one that sleeps and one that is blocked.
abbrev threads : Threads
threads =
    some (thread_with 1 false)
    ∷ some (thread_with 1 true)
    ∷ some (thread_with 2 false)
    ∷ some (thread_with 3 false)
    ∷ []

abbrev cpu : Cpu
cpu = record {
  current_tid = 1;
  current_pid = 1;
  last_tid = 1;
  reshed_block = 0;
  should_reshed = true;
}

abbrev is_running : Option Thread → Bool
is_running o = elim o [ none ↦ false | some t ↦ t.running ]

released-NoneTaken : NoneTaken (thread_release threads 1) 9
unfolding thread_release on_thread
released-NoneTaken zero t e r = ap is_running (sym e)
released-NoneTaken (suc zero) t e r = ap is_running (sym e)
released-NoneTaken (suc (suc zero)) t e r = ap is_running (sym e)
released-NoneTaken (suc (suc (suc zero))) t e r = ap is_running (sym e)
released-NoneTaken (suc (suc (suc (suc j)))) t e r = ap is_running (sym e)

task_shed_choose_lem_example :
    task_shed_choose cpu threads 3 9 true
    ≡ some (given cpu (thread_release threads 1) (next_ready (thread_release threads 1) 9 3 1))
task_shed_choose_lem_example = task_shed_choose_lem cpu threads 3 9 refl released-NoneTaken
