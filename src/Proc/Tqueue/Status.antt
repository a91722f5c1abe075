-- ===== src/Proc/Tqueue/Status.antt =====
-- The statuses of threads after one is set or woken.
use aexkernel.Prelude.{
  ℕ, zero, suc, ◌<◌, ◌≡◌, refl, sym, ap, ◌∙◌, inl, inr, Bool, true, false, ◌&&◌, Option, none, some,
  [], ◌∷◌, ◌==◌, if◌then◌else◌, Bool-cases, Option-cases, ==_iff, get_or, get_or-set, set, length,
  arith,
}
use aexkernel.Proc.Threads.{
  Thread, Threads, runnable, blocked, dead, task_tset_status, task_tget_status,
}
use aexkernel.Proc.Tqueue.{wake}

in_table : (ts : Threads) (i : ℕ) (t : Thread) → get_or ts i none ≡ some t → i < length ts
in_table [] i t e = absurd (none-ne-some e)
  where
    none-ne-some : none ≡ some t → ⊥
    none-ne-some e = cc
in_table (x ∷ xs) zero t e = omega arith
in_table (x ∷ xs) (suc i) t e = omega (arith, in_table xs i t e)

status_of : Option Thread → ℕ
status_of o = elim o [ none ↦ dead | some t ↦ t.status ]

status_if :
    (b : Bool) (o p : Option Thread)
    → status_of (if b then o else p) ≡ (if b then status_of o else status_of p)
status_if true o p = refl
status_if false o p = refl

task_tget_status-get_or :
    (ts : Threads) (j : ℕ) → task_tget_status ts j ≡ status_of (get_or ts j none)
unfolding task_tget_status status_of
task_tget_status-get_or ts j = refl

-- Setting a thread's status sets that of no other one; a thread that is not there stays dead.
pub task_tget_status-set :
    (ts : Threads) (i j v : ℕ) (t : Thread)
    → get_or ts i none ≡ some t
    → task_tget_status (task_tset_status ts i v) j ≡ (if i == j then v else task_tget_status ts j)
unfolding task_tset_status status_of
task_tget_status-set ts i j v t e =
    rw (e, task_tset_status)
      (task_tget_status-get_or (set ts i (some (record t { status = v }))) j
        ∙ ap status_of slots
        ∙ status_if (i == j) (some (record t { status = v })) (get_or ts j none)
        ∙ ap (λ n. if i == j then v else n) (sym (task_tget_status-get_or ts j)))
  where
    slots :
        get_or (set ts i (some (record t { status = v }))) j none
        ≡ (if i == j then some (record t { status = v }) else get_or ts j none)
    slots =
        get_or-set ts i j (some (record t { status = v })) none (in_table ts i t e) ∙ ground arith

pub blocked-some :
    (ts : Threads) (i : ℕ)
    → task_tget_status ts i ≡ blocked
    → (t : Thread) × (get_or ts i none ≡ some t)
unfolding task_tget_status
blocked-some ts i e = elim (Option-cases (get_or ts i none)) [
  | inl z ↦ absurd (dead-ne-blocked (rw (z, task_tget_status) at e))
  | inr r ↦ r
]
  where
    dead-ne-blocked : dead ≡ blocked → ⊥
    dead-ne-blocked q = omega arith

-- Waking a thread makes it runnable if it is blocked, and changes no other status.
pub task_tget_status-wake :
    (ts : Threads) (i j : ℕ)
    → task_tget_status (wake ts i) j
      ≡ (if i == j && task_tget_status ts j == blocked then runnable else task_tget_status ts j)
unfolding wake
task_tget_status-wake ts i j = elim (Bool-cases (task_tget_status ts i == blocked)) [
  | inl b ↦
      let (t, e) = blocked-some ts i ((==_iff (task_tget_status ts i) blocked).0 b) in
      rw (b, wake) (task_tget_status-set ts i j runnable t e ∙ ground (arith, same_status))
  | inr n ↦ rw (n, wake) (ground (arith, same_status))
]
  where
    same_status : i ≡ j → task_tget_status ts i ≡ task_tget_status ts j
    same_status q = ap (task_tget_status ts) q
