-- ===== src/Proc/Schedule/Rounds.antt =====
-- proc/task.c: what a round of `task_shed_choose` does, and where its rounds end.
use aexkernel.Prelude.{
  ℕ, suc, ◌+◌, ◌-◌, ◌≤◌, ◌<◌, ◌≡◌, sym, ap, ◌∙◌, ◌⊎◌, inl, inr, Bool, true, false, Option, none,
  some, ltb, ◌==◌, Bool-cases, subst, set, arith,
}
use aexkernel.Proc.Threads.{Thread, Threads, runnable, thread_get}
use aexkernel.Proc.Schedule.{Search, skip, visit, land, round}
use aexkernel.Proc.Schedule.Next.{
  ready, is_ready, NoneReady, not_ready, try_take-free, is_ready-some, visit-ready, visit-unready,
  skip-bounds,
}

-- No ready thread runs on a CPU.
abbrev pub NoneTaken : Threads → ℕ → Type 0
NoneTaken ts ms =
    (j : ℕ) (t : Thread) → thread_get ts j ≡ some t → ready ms t ≡ true → t.running ≡ false

-- The thread that a CPU is given.
abbrev pub take_thread : Thread → Thread
take_thread t = record t { status = runnable; running = true }

pub data Outcome (s : Search) (ms thread_count : ℕ) : Search × Bool → Type 0 where
  -- Past the last thread.
  wrapped :
      (o : Option Thread)
      → NoneReady s.threads ms (suc s.tid) (suc thread_count)
      → Outcome s ms thread_count (record s { tid = 0; thread = o }, false)
  passed :
      (tid : ℕ) (o : Option Thread)
      → s.tid < tid
      → tid ≤ thread_count
      → NoneReady s.threads ms (suc s.tid) (suc tid)
      → Outcome s ms thread_count (record s { tid = tid; thread = o }, false)
  found :
      (tid : ℕ) (t : Thread)
      → s.tid < tid
      → tid ≤ thread_count
      → thread_get s.threads tid ≡ some t
      → ready ms t ≡ true
      → NoneReady s.threads ms (suc s.tid) tid
      → Outcome s ms thread_count (
        record {
          threads = set s.threads tid (some (take_thread t));
          tid = tid;
          selected_tid = tid;
          thread = some (take_thread t);
        },
        true,
      )

extend :
    (ts : Threads) (ms a b : ℕ)
    → NoneReady ts ms a b
    → is_ready ts ms b ≡ false
    → NoneReady ts ms a (suc b)
extend ts ms a b f n j l u = elim (Bool-cases (j == b)) [
  | inl e ↦ ap (is_ready ts ms) (ground (arith, e)) ∙ n
  | inr d ↦ f j l (ground (arith, d))
]

visit-Outcome :
    (s : Search) (ms thread_count tid : ℕ) (t : Thread)
    → NoneTaken s.threads ms
    → s.tid < tid
    → tid ≤ thread_count
    → thread_get s.threads tid ≡ some t
    → NoneReady s.threads ms (suc s.tid) tid
    → Outcome s ms thread_count (visit s ms tid t)
visit-Outcome s ms thread_count tid t free l u e f = elim (Bool-cases (ready ms t)) [
  | inl r ↦
      subst (Outcome s ms thread_count)
        (sym (
          visit-ready s ms tid t r
          ∙ try_take-free s tid (record t { status = runnable }) (free tid t e r)))
        (found tid t l u e r f)
  | inr n ↦ subst (Outcome s ms thread_count) (sym (visit-unready s ms tid t n)) (
      passed tid (some t) l u
        (extend s.threads ms (suc s.tid) tid f (is_ready-some s.threads ms tid t e ∙ n)))
]

land-Outcome :
    (s : Search) (ms thread_count tid : ℕ)
    → NoneTaken s.threads ms
    → s.tid < tid
    → tid ≤ suc s.tid + (thread_count - s.tid)
    → ((j : ℕ) → suc s.tid ≤ j → j < tid → thread_get s.threads j ≡ none)
    → (tid ≡ suc s.tid + (thread_count - s.tid))
      ⊎ ((t : Thread) × (thread_get s.threads tid ≡ some t))
    → Outcome s ms thread_count (land s thread_count ms tid)
unfolding land
land-Outcome s ms thread_count tid free l u f c = elim (Bool-cases (ltb thread_count tid)) [
  | inl p ↦
      rw (p, land)
        (wrapped (thread_get s.threads tid) (λ j a b. passed_over j a (ground (arith, p))))
  | inr n ↦ elim c [
    | inl e ↦ absurd (ground (arith, e, n))
    | inr (t, e) ↦
        rw (n, e, land)
          (visit-Outcome s ms thread_count tid t free l (ground (arith, n)) e passed_over)
  ]
]
  where
    passed_over : NoneReady s.threads ms (suc s.tid) tid
    passed_over j a b = not_ready s.threads ms j (f j a b)

pub round-Outcome :
    (s : Search) (ms thread_count : ℕ)
    → NoneTaken s.threads ms
    → Outcome s ms thread_count (round s thread_count ms)
unfolding round
round-Outcome s ms thread_count free =
    let (l, u, f, c) = skip-bounds s.threads (thread_count - s.tid) (suc s.tid) in
    land-Outcome s ms thread_count (skip s.threads (thread_count - s.tid) (suc s.tid)) free l u f c
