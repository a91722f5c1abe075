-- ===== src/Proc/Threads/Slots.antt =====
-- proc/task.c: the tids that `thread_add` gives, and the counters of `task_tuse` and `task_trelease`.
use aexkernel.Prelude.{ℕ, zero, suc, ◌≡◌, ◌≢◌, refl, ap, none, some, [], ◌∷◌, get_or}
use aexkernel.Proc.Threads.{Thread, Threads, thread_get, thread_add}

-- `thread_add` gives a tid that no thread has, and adds the thread under it and no other one.
pub thread_add_lem :
    (ts : Threads) (t : Thread)
    → let (added, tid) = thread_add ts t in
      (thread_get ts tid ≡ none)
      × (thread_get added tid ≡ some t)
      × ((j : ℕ) → j ≢ tid → thread_get added j ≡ thread_get ts j)
unfolding thread_add
thread_add_lem [] t = (refl, refl, others)
  where
    others : (j : ℕ) → j ≢ 0 → get_or (some t ∷ []) j none ≡ none
    others zero n = absurd (n refl)
    others (suc j) n = refl
thread_add_lem (none ∷ ts) t = (refl, refl, others)
  where
    others : (j : ℕ) → j ≢ 0 → get_or (some t ∷ ts) j none ≡ get_or (none ∷ ts) j none
    others zero n = absurd (n refl)
    others (suc j) n = refl
thread_add_lem (some u ∷ ts) t =
    let (free, get, others) = thread_add_lem ts t in (free, get, beyond others)
  where
    beyond :
        ((j : ℕ) → j ≢ (thread_add ts t).1 → thread_get (thread_add ts t).0 j ≡ thread_get ts j)
        → (j : ℕ) → j ≢ suc (thread_add ts t).1
        → get_or (some u ∷ (thread_add ts t).0) j none ≡ get_or (some u ∷ ts) j none
    beyond f zero n = refl
    beyond f (suc j) n = f j (λ e. n (ap suc e))
