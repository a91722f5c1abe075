-- ===== src/Proc/Schedule/Next.antt =====
-- proc/task.c: where the loop of `task_shed_choose` ends, against a plain search for a ready thread.
use aexkernel.Prelude.{
  ℕ, zero, suc, ◌+◌, ◌-◌, ◌≤◌, ◌<◌, ◌≡◌, refl, ap, ◌∙◌, ◌⊎◌, inl, inr, Bool, true, false, none,
  some, ltb, leb, ◌==◌, if◌then◌else◌, Bool-cases, Option-cases, set, ==_iff, arith,
}
use aexkernel.Proc.Threads.{Thread, Threads, runnable, sleeping, thread_get}
use aexkernel.Proc.Schedule.{Search, skip, visit, try_take}

-- A thread that may run at `ms`.
abbrev pub ready : ℕ → Thread → Bool
ready ms t =
    if t.status == runnable
    then true
    else if t.status == sleeping
    then ltb t.resume_after ms
    else false

pub is_ready : Threads → ℕ → ℕ → Bool
is_ready ts ms tid = elim (thread_get ts tid) [ none ↦ false | some t ↦ ready ms t ]

-- The first ready thread of the `k` ones from `tid` on, or 0.
pub first_ready : Threads → ℕ → ℕ → ℕ → ℕ
first_ready ts ms zero tid = 0
first_ready ts ms (suc k) tid = if is_ready ts ms tid then tid else first_ready ts ms k (suc tid)

-- The next ready thread after `last_tid` of those from 1 to `thread_count`, in a circle, or 0.
pub next_ready : Threads → ℕ → ℕ → ℕ → ℕ
next_ready ts ms thread_count last_tid =
    let a = first_ready ts ms (thread_count - last_tid) (suc last_tid) in
    if a == 0 then first_ready ts ms thread_count 1 else a

-- No thread from `a` to before `b` is ready.
abbrev pub NoneReady : Threads → ℕ → ℕ → ℕ → Type 0
NoneReady ts ms a b = (j : ℕ) → a ≤ j → j < b → is_ready ts ms j ≡ false

-- `a` is the first ready thread of the `k` ones from `tid` on.
abbrev pub IsFirst : Threads → ℕ → ℕ → ℕ → ℕ → Type 0
IsFirst ts ms k tid a =
    (tid ≤ a) × (a < tid + k) × (is_ready ts ms a ≡ true) × NoneReady ts ms tid a

pub first_ready-cases :
    (ts : Threads) (ms k tid : ℕ)
    → 0 < tid
    → ((first_ready ts ms k tid ≡ 0) × NoneReady ts ms tid (tid + k))
      ⊎ IsFirst ts ms k tid (first_ready ts ms k tid)
unfolding first_ready
first_ready-cases ts ms zero tid h = inl (refl, λ j l u. absurd (omega arith))
first_ready-cases ts ms (suc k) tid h = elim (Bool-cases (is_ready ts ms tid)) [
  | inl b ↦ rw (b, first_ready) (inr (omega arith, omega arith, b, λ j l u. absurd (omega arith)))
  | inr n ↦
      rw (n, first_ready)
        (elim (first_ready-cases ts ms k (suc tid) (omega arith)) [
          | inl (e, f) ↦ inl (e, λ j l u. further n f j l (omega arith))
          | inr (l, u, r, f) ↦ inr (omega arith, omega arith, r, further n f)
        ])
]
  where
    further :
        {b : ℕ} → is_ready ts ms tid ≡ false → NoneReady ts ms (suc tid) b → NoneReady ts ms tid b
    further n f j l u = elim (Bool-cases (j == tid)) [
      | inl e ↦ ap (is_ready ts ms) (ground (arith, e)) ∙ n
      | inr d ↦ f j (ground (arith, d)) u
    ]

-- None is ready, the next one is ahead, or it is reached from the first one on.
pub next_ready-cases :
    (ts : Threads) (ms thread_count last_tid : ℕ)
    → let next = next_ready ts ms thread_count last_tid in
      let tid = suc last_tid in
      let ahead = NoneReady ts ms tid (tid + (thread_count - last_tid)) in
      (((next ≡ 0) × ahead × NoneReady ts ms 1 (1 + thread_count))
        ⊎ (ahead × IsFirst ts ms thread_count 1 next))
      ⊎ IsFirst ts ms (thread_count - last_tid) tid next
unfolding next_ready
next_ready-cases ts ms thread_count last_tid =
    elim (first_ready-cases ts ms (thread_count - last_tid) (suc last_tid) (omega arith)) [
      | inl (e, f) ↦
          rw (e, next_ready)
            (inl (elim (first_ready-cases ts ms thread_count 1 (omega arith)) [
              | inl (z, g) ↦ inl (z, f, g)
              | inr (l, u, r, g) ↦ inr (f, (l, u, r, g))
            ]))
      | inr (l, u, r, g) ↦
          rw (nonzero (first_ready ts ms (thread_count - last_tid) (suc last_tid)) l, next_ready)
            (inr (l, u, r, g))
    ]
  where
    nonzero : (a : ℕ) → suc last_tid ≤ a → (a == 0) ≡ false
    nonzero a l = ground (arith, l)

-- The inner loop stops at a thread that is there or past the last one, and what it passes is NULL.
pub skip-bounds :
    (ts : Threads) (k tid : ℕ)
    → (tid ≤ skip ts k tid)
      × (skip ts k tid ≤ tid + k)
      × ((j : ℕ) → tid ≤ j → j < skip ts k tid → thread_get ts j ≡ none)
      × ((skip ts k tid ≡ tid + k) ⊎ ((t : Thread) × (thread_get ts (skip ts k tid) ≡ some t)))
unfolding skip
skip-bounds ts zero tid =
    (omega arith, omega arith, λ j l u. absurd (omega arith), inl (omega arith))
skip-bounds ts (suc k) tid = elim (Option-cases (thread_get ts tid)) [
  | inl z ↦
      rw (z, skip)
        (let (l, u, f, c) = skip-bounds ts k (suc tid) in
          (
            omega (arith, l),
            omega (arith, u),
            further z f,
            elim c [ inl e ↦ inl (omega (arith, e)) | inr r ↦ inr r ],
          ))
  | inr (t, e) ↦ rw (e, skip) (omega arith, omega arith, λ j l u. absurd (omega arith), inr (t, e))
]
  where
    further :
        {b : ℕ}
        → thread_get ts tid ≡ none
        → ((j : ℕ) → suc tid ≤ j → j < b → thread_get ts j ≡ none)
        → (j : ℕ) → tid ≤ j
        → j < b
        → thread_get ts j ≡ none
    further z f j l u = elim (Bool-cases (j == tid)) [
      | inl e ↦ ap (thread_get ts) (ground (arith, e)) ∙ z
      | inr d ↦ f j (ground (arith, d)) u
    ]

pub not_ready : (ts : Threads) (ms j : ℕ) → thread_get ts j ≡ none → is_ready ts ms j ≡ false
unfolding is_ready
not_ready ts ms j z = rw (z, is_ready)

pub is_ready-some :
    (ts : Threads) (ms j : ℕ) (t : Thread)
    → thread_get ts j ≡ some t
    → is_ready ts ms j ≡ ready ms t
unfolding is_ready
is_ready-some ts ms j t e = rw (e, is_ready)

pub visit-ready :
    (s : Search) (ms tid : ℕ) (t : Thread)
    → ready ms t ≡ true
    → visit s ms tid t ≡ try_take s tid (record t { status = runnable })
unfolding visit
visit-ready s ms tid t r = elim (Bool-cases (t.status == runnable)) [
  | inl e ↦
      rw (e, visit)
        (ap (λ n. try_take s tid (record t { status = n })) ((==_iff t.status runnable).0 e))
  | inr n ↦ elim (Bool-cases (t.status == sleeping)) [
    | inl e ↦ elim (Bool-cases (leb ms t.resume_after)) [
      | inl l ↦ absurd (ground (arith, r))
      | inr l ↦ rw (n, e, l, visit)
    ]
    | inr e ↦ absurd (ground (arith, r))
  ]
]

pub visit-unready :
    (s : Search) (ms tid : ℕ) (t : Thread)
    → ready ms t ≡ false
    → visit s ms tid t ≡ (record s { tid = tid; thread = some t }, false)
unfolding visit
visit-unready s ms tid t r = elim (Bool-cases (t.status == runnable)) [
  | inl e ↦ absurd (ground (arith, r))
  | inr n ↦ elim (Bool-cases (t.status == sleeping)) [
    | inl e ↦ elim (Bool-cases (leb ms t.resume_after)) [
      | inl l ↦ rw (n, e, l, visit)
      | inr l ↦ absurd (ground (arith, r))
    ]
    | inr e ↦ rw (n, e, visit)
  ]
]

pub try_take-free :
    (s : Search) (tid : ℕ) (t : Thread)
    → t.running ≡ false
    → try_take s tid t ≡ (
      record {
        threads = set s.threads tid (some (record t { running = true }));
        tid = tid;
        selected_tid = tid;
        thread = some (record t { running = true });
      },
      true,
    )
unfolding try_take
try_take-free s tid t h = rw (h, try_take)
