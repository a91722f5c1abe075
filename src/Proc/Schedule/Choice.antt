-- ===== src/Proc/Schedule/Choice.antt =====
-- proc/task.c: `task_shed_choose` is a round robin.
use aexkernel.Prelude.{
  ℕ, zero, suc, ◌+◌, ◌-◌, ◌≤◌, ◌<◌, ◌≡◌, refl, sym, ap, ◌∙◌, ◌⊎◌, inl, inr, Bool, true, false,
  Option, none, some, ltb, ◌==◌, if◌then◌else◌, Bool-cases, set, arith,
}
use aexkernel.Proc.Threads.{Thread, Threads, thread_get, on_thread}
use aexkernel.Proc.Schedule.{
  Cpu, Search, positive, round, rounds, thread_release, take_over, task_shed_choose,
}
use aexkernel.Proc.Schedule.Next.{is_ready, NoneReady, is_ready-some, next_ready, next_ready-cases}
use aexkernel.Proc.Schedule.Rounds.{
  NoneTaken, take_thread, Outcome, wrapped, passed, found, round-Outcome,
}

ready-ne-unready :
    (ts : Threads) (ms j : ℕ) → is_ready ts ms j ≡ true → is_ready ts ms j ≡ false → ⊥
ready-ne-unready ts ms j r n = cc

ready_ne :
    (ts : Threads) (ms a b j : ℕ)
    → is_ready ts ms j ≡ true
    → NoneReady ts ms a b
    → a ≤ j
    → j < b
    → ⊥
ready_ne ts ms a b j r f l u = ready-ne-unready ts ms j r (f j l u)

-- Without a ready thread the rounds change nothing.
rounds-none :
    (i : ℕ) (s : Search) (thread_count ms : ℕ)
    → NoneTaken s.threads ms
    → NoneReady s.threads ms 1 (suc thread_count)
    → ((rounds i s thread_count ms).threads ≡ s.threads)
      × ((rounds i s thread_count ms).selected_tid ≡ s.selected_tid)
unfolding rounds
rounds-none zero s thread_count ms free f = (refl, refl)
rounds-none (suc i) s thread_count ms free f =
    after (λ s. rounds-none i s thread_count ms) (round s thread_count ms)
      (round-Outcome s ms thread_count free)
  where
    after :
        ((s : Search)
          → NoneTaken s.threads ms
          → NoneReady s.threads ms 1 (suc thread_count)
          → ((rounds i s thread_count ms).threads ≡ s.threads)
            × ((rounds i s thread_count ms).selected_tid ≡ s.selected_tid))
        → (r : Search × Bool) → Outcome s ms thread_count r
        → let e = elim r.1 as (λ b. Search) [ true ↦ r.0 | false ↦ rounds i r.0 thread_count ms ] in
          (e.threads ≡ s.threads) × (e.selected_tid ≡ s.selected_tid)
    after again r (wrapped o n) = again (record s { tid = 0; thread = o }) free f
    after again r (passed tid o l u n) = again (record s { tid = tid; thread = o }) free f
    after again r (found tid t l u e d n) = absurd (
        ready_ne s.threads ms 1 (suc thread_count) tid (is_ready-some s.threads ms tid t e ∙ d) f
          (omega (arith, l)) (omega (arith, u)))

-- The search after the thread `a`, which is `t`, is taken.
abbrev pub taken : Search → ℕ → Thread → Search
taken s a t = record {
  threads = set s.threads a (some (take_thread t));
  tid = a;
  selected_tid = a;
  thread = some (take_thread t);
}

same_thread :
    (s : Search) (a tid : ℕ) (t : Thread)
    → tid ≡ a
    → thread_get s.threads tid ≡ some t
    → (v : Thread) × (thread_get s.threads a ≡ some v) × (taken s tid t ≡ taken s a v)
same_thread s a tid t q e = (t, ap (thread_get s.threads) (sym q) ∙ e, ap (λ j. taken s j t) q)

-- The rounds reach the first ready thread ahead of them.
rounds-first :
    (i : ℕ) (s : Search) (thread_count ms a : ℕ)
    → NoneTaken s.threads ms
    → s.tid < a
    → a ≤ thread_count
    → is_ready s.threads ms a ≡ true
    → NoneReady s.threads ms (suc s.tid) a
    → a ≤ s.tid + i
    → (t : Thread) × (thread_get s.threads a ≡ some t) × (rounds i s thread_count ms ≡ taken s a t)
unfolding rounds
rounds-first zero s thread_count ms a free l u r f b = absurd (omega arith)
rounds-first (suc i) s thread_count ms a free l u r f b =
    after (λ s. rounds-first i s thread_count ms a) (round s thread_count ms)
      (round-Outcome s ms thread_count free)
  where
    after :
        ((s : Search)
          → NoneTaken s.threads ms
          → s.tid < a
          → a ≤ thread_count
          → is_ready s.threads ms a ≡ true
          → NoneReady s.threads ms (suc s.tid) a
          → a ≤ s.tid + i
          → (t : Thread) × (thread_get s.threads a ≡ some t)
            × (rounds i s thread_count ms ≡ taken s a t))
        → (o : Search × Bool) → Outcome s ms thread_count o
        → (t : Thread) × (thread_get s.threads a ≡ some t)
          × (elim o.1 [ true ↦ o.0 | false ↦ rounds i o.0 thread_count ms ] ≡ taken s a t)
    after again q (wrapped o n) =
        absurd (ready_ne s.threads ms (suc s.tid) (suc thread_count) a r n l (omega (arith, u)))
    after again q (passed tid o l' u' n) = elim (Bool-cases (ltb tid a)) [
      | inl h ↦
          again (record s { tid = tid; thread = o }) free (ground (arith, h)) u r
            (λ j p q. f j (omega (arith, p, l')) q) (omega (arith, b, l'))
      | inr h ↦ absurd (ready_ne s.threads ms (suc s.tid) (suc tid) a r n l (ground (arith, h)))
    ]
    after again q (found tid t l' u' e d n) = elim (Bool-cases (ltb tid a)) [
      | inl h ↦ absurd (
          ready_ne s.threads ms (suc s.tid) a tid (is_ready-some s.threads ms tid t e ∙ d) f l'
            (ground (arith, h)))
      | inr h ↦ elim (Bool-cases (ltb a tid)) [
        | inl k ↦ absurd (ready_ne s.threads ms (suc s.tid) tid a r n l (ground (arith, k)))
        | inr k ↦ same_thread s a tid t (ground (arith, h, k)) e
      ]
    ]

-- Without a ready thread ahead of them the rounds start again at the first thread.
rounds-wrap :
    (i : ℕ) (s : Search) (thread_count ms : ℕ)
    → NoneTaken s.threads ms
    → NoneReady s.threads ms (suc s.tid) (suc thread_count)
    → thread_count - s.tid < i
    → (k : ℕ) × (o : Option Thread) × (i ≤ suc k + (thread_count - s.tid))
      × (rounds i s thread_count ms ≡ rounds k (record s { tid = 0; thread = o }) thread_count ms)
unfolding rounds
rounds-wrap zero s thread_count ms free f h = absurd (omega arith)
rounds-wrap (suc i) s thread_count ms free f h =
    after (λ s. rounds-wrap i s thread_count ms) (round s thread_count ms)
      (round-Outcome s ms thread_count free)
  where
    after :
        ((s : Search)
          → NoneTaken s.threads ms
          → NoneReady s.threads ms (suc s.tid) (suc thread_count)
          → thread_count - s.tid < i
          → (k : ℕ) × (o : Option Thread) × (i ≤ suc k + (thread_count - s.tid))
            × (rounds i s thread_count ms
                ≡ rounds k (record s { tid = 0; thread = o }) thread_count ms))
        → (r : Search × Bool) → Outcome s ms thread_count r
        → (k : ℕ) × (o : Option Thread) × (suc i ≤ suc k + (thread_count - s.tid))
          × (elim r.1 [ true ↦ r.0 | false ↦ rounds i r.0 thread_count ms ]
              ≡ rounds k (record s { tid = 0; thread = o }) thread_count ms)
    after again r (wrapped o n) = (i, o, omega arith, refl)
    after again r (passed tid o l u n) =
        let (k, p, b, e) =
          again (record s { tid = tid; thread = o }) free (λ j a c. f j (omega (arith, a, l)) c)
            (omega (arith, h, l, u)) in
        (k, p, omega (arith, b, l, u), e)
    after again r (found tid t l u e d n) = absurd (
        ready_ne s.threads ms (suc s.tid) (suc thread_count) tid
          (is_ready-some s.threads ms tid t e ∙ d) f l (omega (arith, u)))

-- Where the loop of `task_shed_choose` ends.
loop_lem :
    (s : Search) (thread_count ms : ℕ)
    → NoneTaken s.threads ms
    → s.selected_tid ≡ 0
    → let r = rounds (suc thread_count) s thread_count ms in
      let next = next_ready s.threads ms thread_count s.tid in
      ((next ≡ 0) × (r.threads ≡ s.threads) × (r.selected_tid ≡ 0))
      ⊎ ((0 < next) × ((t : Thread) × (thread_get s.threads next ≡ some t) × (r ≡ taken s next t)))
loop_lem s thread_count ms free z = elim (next_ready-cases s.threads ms thread_count s.tid) [
  | inl (inl (e, f, g)) ↦
      let (same, stays) =
        rounds-none (suc thread_count) s thread_count ms free (λ j a c. g j a (omega (arith, c))) in
      inl (e, same, stays ∙ z)
  | inl (inr (f, (l, u, r, g))) ↦
      let (k, o, b, e) =
        rounds-wrap (suc thread_count) s thread_count ms free (λ j a c. f j a (omega (arith, c)))
          (omega arith) in
      let (t, get, last) =
        rounds-first k (record s { tid = 0; thread = o }) thread_count ms next free
          (omega (arith, l)) (omega (arith, u)) r g (omega (arith, b, u, behind f l u r)) in
      inr (omega (arith, l), (t, get, e ∙ last))
  | inr (l, u, r, g) ↦
      let (t, get, last) =
        rounds-first (suc thread_count) s thread_count ms next free (omega (arith, l))
          (omega (arith, l, u)) r g (omega (arith, l, u)) in
      inr (omega (arith, l), (t, get, last))
]
  where
    next : ℕ
    next = next_ready s.threads ms thread_count s.tid

    behind :
        NoneReady s.threads ms (suc s.tid) (suc s.tid + (thread_count - s.tid))
        → 1 ≤ next
        → next < 1 + thread_count
        → is_ready s.threads ms next ≡ true
        → next ≤ s.tid
    behind f l u r = elim (Bool-cases (ltb s.tid next)) [
      | inl h ↦ absurd (
          ready_ne s.threads ms (suc s.tid) (suc s.tid + (thread_count - s.tid)) next r f
            (ground (arith, h)) (ground (arith, u, h)))
      | inr h ↦ ground (arith, h)
    ]

-- The state after a CPU is given the thread `tid`, or the idle thread, of process 0, when it is 0.
abbrev pub given : Cpu → Threads → ℕ → Cpu × Threads
given c ts tid =
    if tid == 0
    then (record c { current_tid = 0; current_pid = 0; should_reshed = false }, ts)
    else (
      record c {
        current_tid = tid;
        current_pid = elim (thread_get ts tid) [ none ↦ 0 | some t ↦ t.process ];
        last_tid = tid;
        should_reshed = false;
      },
      on_thread take_thread ts tid,
    )

take_over-idle :
    (c : Cpu) (s : Search)
    → s.selected_tid ≡ 0
    → take_over c s ≡ some (record c { current_tid = 0; current_pid = 0 }, s.threads)
unfolding take_over
take_over-idle c s z = rw (z, take_over)

take_over-thread :
    (c : Cpu) (s : Search) (tid : ℕ) (t : Thread)
    → 0 < tid
    → take_over c (taken s tid t)
      ≡ some (
        record c { last_tid = tid; current_tid = tid; current_pid = t.process },
        set s.threads tid (some (take_thread t)),
      )
unfolding take_over
take_over-thread c s tid t p = rw (nonzero, take_over)
  where
    nonzero : (tid == 0) ≡ false
    nonzero = ground (arith, p)

on_thread-some :
    (f : Thread → Thread) (ts : Threads) (tid : ℕ) (t : Thread)
    → thread_get ts tid ≡ some t
    → on_thread f ts tid ≡ set ts tid (some (f t))
unfolding on_thread
on_thread-some f ts tid t e = rw (e, on_thread)

given-idle :
    (c : Cpu) (ts : Threads) (r : Search) (tid : ℕ)
    → tid ≡ 0
    → r.threads ≡ ts
    → r.selected_tid ≡ 0
    → take_over (record c { should_reshed = false }) r ≡ some (given c ts tid)
given-idle c ts r tid e same idle =
    take_over-idle (record c { should_reshed = false }) r idle ∙ rw (e, same)

given-thread :
    (c : Cpu) (s : Search) (tid : ℕ) (t : Thread)
    → 0 < tid
    → thread_get s.threads tid ≡ some t
    → take_over (record c { should_reshed = false }) (taken s tid t) ≡ some (given c s.threads tid)
given-thread c s tid t p get =
    take_over-thread (record c { should_reshed = false }) s tid t p
    ∙ rw (nonzero, get, on_thread-some take_thread s.threads tid t get)
  where
    nonzero : (tid == 0) ≡ false
    nonzero = ground (arith, p)

-- When scheduling is not blocked on the CPU, the lock is free and no ready thread is running once
-- the current one is released: `task_shed_choose` reads no NULL thread, gives the CPU the next thread
-- after `last_tid`, in a circle over the tids from 1 to `thread_count`, that is runnable or asleep
-- past its deadline, marks it runnable and running and changes no other thread; it gives the idle
-- thread when no thread is ready.
pub task_shed_choose_lem :
    (c : Cpu) (ts : Threads) (thread_count ms : ℕ)
    → positive c.reshed_block ≡ false
    → NoneTaken (thread_release ts c.current_tid) ms
    → let released = thread_release ts c.current_tid in
      let next = next_ready released ms thread_count c.last_tid in
      task_shed_choose c ts thread_count ms true ≡ some (given c released next)
unfolding task_shed_choose
task_shed_choose_lem c ts thread_count ms b free =
    rw (b, task_shed_choose)
      (elim (loop_lem start thread_count ms free refl) [
        | inl (e, same, idle) ↦
            given-idle c (thread_release ts c.current_tid)
              (rounds (suc thread_count) start thread_count ms) next e same idle
        | inr (p, (t, get, last)) ↦
            ap (take_over (record c { should_reshed = false })) last
            ∙ given-thread c start next t p get
      ])
  where
    start : Search
    start = record {
      threads = thread_release ts c.current_tid;
      tid = c.last_tid;
      selected_tid = 0;
      thread = thread_get ts c.current_tid;
    }

    next : ℕ
    next = next_ready (thread_release ts c.current_tid) ms thread_count c.last_tid
