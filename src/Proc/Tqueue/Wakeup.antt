-- ===== src/Proc/Tqueue/Wakeup.antt =====
-- No thread that waits is forgotten.
use aexkernel.Prelude.{
  ℕ, ◌+◌, ◌<◌, ◌≡◌, ◌≢◌, refl, sym, ◌∙◌, ◌⊎◌, inl, inr, Bool, true, false, ◌&&◌, ◌||◌, none, List,
  [], ◌∷◌, ◌++◌, ◌==◌, if◌then◌else◌, Option-cases, get_or, length, add_int, arith,
}
use aexkernel.Proc.Threads.{Threads, runnable, blocked, task_tset_status, task_tget_status}
use aexkernel.Proc.Tqueue.{
  wake, Waits, tqueue_add, wake_first, tqueue_wakeup, wake_all, tqueue_wakeup_all,
}
use aexkernel.Proc.Tqueue.Status.{task_tget_status-set, task_tget_status-wake}

abbrev pub waits : List ℕ → ℕ → Bool
waits [] j = false
waits (x ∷ xs) j = x == j || waits xs j

wake_all_lem :
    (ts : Threads) (tids : List ℕ) (count j : ℕ)
    → count + length tids < 4294967296
    → (task_tget_status (wake_all ts tids count).0 j ≡ (
        if waits tids j && task_tget_status ts j == blocked
        then runnable
        else task_tget_status ts j))
      × ((wake_all ts tids count).1 ≡ count + length tids)
unfolding wake_all
wake_all_lem ts [] count j h = (refl, omega arith)
wake_all_lem ts (tid ∷ tids) count j h =
    let r = wake_all_lem (wake ts tid) tids (add_int count 1) j (omega arith) in
    (r.0 ∙ ground (arith, task_tget_status-wake ts tid j), omega (arith, r.1))

-- The statuses alone, however many entries there are.
pub wake_all-status :
    (ts : Threads) (tids : List ℕ) (count j : ℕ)
    → task_tget_status (wake_all ts tids count).0 j ≡ (
        if waits tids j && task_tget_status ts j == blocked
        then runnable
        else task_tget_status ts j)
unfolding wake_all
wake_all-status ts [] count j = refl
wake_all-status ts (tid ∷ tids) count j =
    wake_all-status (wake ts tid) tids (add_int count 1) j
    ∙ ground (arith, task_tget_status-wake ts tid j)

-- `tqueue_wakeup_all` makes every blocked thread of the queue runnable, changes no other status,
-- leaves the queue empty and returns the number of its entries. The entries are fewer than 2^32.
pub tqueue_wakeup_all_lem :
    (s : Waits) (j : ℕ)
    → length s.queue < 4294967296
    → let (t, count) = tqueue_wakeup_all s in
      (task_tget_status t.threads j ≡ (
        if waits s.queue j && task_tget_status s.threads j == blocked
        then runnable
        else task_tget_status s.threads j))
      × (t.queue ≡ [])
      × (count ≡ length s.queue)
unfolding tqueue_wakeup_all
tqueue_wakeup_all_lem s j h =
    let r = wake_all_lem s.threads s.queue 0 j (omega arith) in (r.0, refl, omega (arith, r.1))

-- What happens to a queue whose threads block in it only: another status is set by anyone.
pub data Step : Waits → Waits → Type 0 where
  add : (s : Waits) (tid : ℕ) → Step s (tqueue_add s tid)
  wakeup : (s : Waits) → Step s (tqueue_wakeup s).0
  wakeup_all : (s : Waits) → length s.queue < 4294967296 → Step s (tqueue_wakeup_all s).0
  set_status :
      (s : Waits) (tid v : ℕ)
      → v ≢ blocked
      → Step s (record s { threads = task_tset_status s.threads tid v })

pub data Reach (s : Waits) : Waits → Type 0 where
  here : Reach s s
  next : {t u : Waits} → Reach s t → Step t u → Reach s u

-- Every blocked thread is in the queue.
abbrev pub IsQueued : Waits → Type 0
IsQueued s = (j : ℕ) → task_tget_status s.threads j ≡ blocked → waits s.queue j ≡ true

pub waits-append : (xs : List ℕ) (tid j : ℕ) → waits (xs ++ (tid ∷ [])) j ≡ (tid == j || waits xs j)
waits-append [] tid j = refl
waits-append (x ∷ xs) tid j = ground (arith, waits-append xs tid j)

pub status-set :
    (ts : Threads) (tid v j : ℕ)
    → (task_tget_status (task_tset_status ts tid v) j
        ≡ (if tid == j then v else task_tget_status ts j))
      ⊎ (task_tget_status (task_tset_status ts tid v) j ≡ task_tget_status ts j)
unfolding task_tset_status
status-set ts tid v j = elim (Option-cases (get_or ts tid none)) [
  | inl z ↦ inr (rw (z, task_tset_status))
  | inr (t, e) ↦ inl (task_tget_status-set ts tid j v t e)
]

add-IsQueued : (s : Waits) (tid : ℕ) → IsQueued s → IsQueued (tqueue_add s tid)
unfolding tqueue_add
add-IsQueued s tid q j b = elim (status-set s.threads tid blocked j) [
  | inl e ↦ waits-append s.queue tid j ∙ ground (arith, q j)
  | inr e ↦ waits-append s.queue tid j ∙ ground (arith, q j)
]

wake_first-IsQueued :
    (ts : Threads) (tids : List ℕ)
    → IsQueued (record { threads = ts; queue = tids })
    → IsQueued (wake_first ts tids).0
unfolding wake_first
wake_first-IsQueued ts [] q j b = q j b
wake_first-IsQueued ts (tid ∷ tids) q j b = ground (arith, q j, task_tget_status-wake ts tid j)

Step-IsQueued : {s t : Waits} → Step s t → IsQueued s → IsQueued t
unfolding tqueue_wakeup
Step-IsQueued (add s tid) q j b = add-IsQueued s tid q j b
Step-IsQueued (wakeup s) q j b = wake_first-IsQueued s.threads s.queue q j b
Step-IsQueued (wakeup_all s h) q j b = absurd (none_left (q j) (tqueue_wakeup_all_lem s j h).0)
  where
    none_left :
        (task_tget_status s.threads j ≡ blocked → waits s.queue j ≡ true)
        → task_tget_status (tqueue_wakeup_all s).0.threads j ≡ (
            if waits s.queue j && task_tget_status s.threads j == blocked
            then runnable
            else task_tget_status s.threads j)
        → ⊥
    none_left f e = ground (arith, f)
Step-IsQueued (set_status s tid v n) q j b = elim (status-set s.threads tid v j) [
  | inl e ↦ ground (arith, q j)
  | inr e ↦ q j (sym e ∙ b)
]

-- Whatever the order in which threads join the queue, are woken and have their status set to
-- something else than blocked: if every blocked thread is in the queue at the start, every blocked
-- thread is in it at the end.
pub Reach-IsQueued : {s t : Waits} → Reach s t → IsQueued s → IsQueued t
Reach-IsQueued here q = q
Reach-IsQueued (next r st) q = Step-IsQueued st (Reach-IsQueued r q)
