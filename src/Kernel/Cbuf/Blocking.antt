-- ===== src/Kernel/Cbuf/Blocking.antt =====
-- A reader and a writer that block on the event of one circular buffer.
use aexkernel.Prelude.{
  ℕ, ◌+◌, ◌≤◌, ◌<◌, ◌≡◌, ◌≢◌, sym, ◌∙◌, ◌⊎◌, inl, inr, true, ◌&&◌, ◌||◌, Bool-cases, ◌==◌,
  if◌then◌else◌, ==_iff, List, [], length, sub_size, arith,
}
use aexkernel.Proc.Threads.{
  Threads, runnable, blocked, task_tset_status, task_tget_status, task_tshould_exit,
}
use aexkernel.Proc.Tqueue.{
  tqueue_add, wake_all, tqueue_wakeup_all, Event, event_enter, event_trigger_all,
}
use aexkernel.Proc.Tqueue.Wakeup.{waits, waits-append, status-set, wake_all-status}
use aexkernel.Kernel.Cbuf.{Cbuf, Pass, waiting, moved, read_pass, write_pass}
use aexkernel.Kernel.Cbuf.Ring.{IsValid, held}
use aexkernel.Kernel.Cbuf.Chunk.{Reads, Writes, read_pass-Reads, write_pass-Writes}
use aexkernel.Kernel.Cbuf.Rounds.{Shared, finished, read_round, write_round}

abbrev pub IsBlocked : Event → ℕ → Type 0
IsBlocked e tid = task_tget_status e.wait_queue.threads tid ≡ blocked

abbrev pub InQueue : Event → ℕ → Type 0
InQueue e tid = waits e.wait_queue.queue tid ≡ true

-- A thread that is blocked after one entered the queue is that thread, which is in the queue, or was
-- blocked before.
abbrev Entered : Event → ℕ → ℕ → Event → Type 0
Entered e tid j e' =
    IsBlocked e' j
    → (((tid == j) ≡ true) × InQueue e' j) ⊎ (IsBlocked e j × (InQueue e j → InQueue e' j))

event_enter-Entered : (e : Event) (tid j : ℕ) → Entered e tid j (event_enter e tid).0
unfolding event_enter tqueue_add
event_enter-Entered e tid j = elim (Bool-cases (task_tshould_exit e.wait_queue.threads tid)) [
  | inl b ↦ rw (b, event_enter) (λ h. inr (h, λ q. q))
  | inr n ↦
      rw (n, event_enter)
        (λ h. elim (status-set e.wait_queue.threads tid blocked j) [
          | inr same ↦ inr (sym same ∙ h, λ q. waits-append e.wait_queue.queue tid j ∙ kept q)
          | inl set_now ↦ elim (Bool-cases (tid == j)) [
            | inl t ↦ inl (t, waits-append e.wait_queue.queue tid j ∙ joined t)
            | inr d ↦
                inr (sym (set_now ∙ rw d) ∙ h, λ q. waits-append e.wait_queue.queue tid j ∙ kept q)
          ]
        ])
]
  where
    kept : waits e.wait_queue.queue j ≡ true → (tid == j || waits e.wait_queue.queue j) ≡ true
    kept q = ground (arith, q)

    joined : (tid == j) ≡ true → (tid == j || waits e.wait_queue.queue j) ≡ true
    joined t = ground (arith, t)

-- After a trigger no thread is blocked that was only so in the queue.
IsBlocked-event_trigger_all :
    (e : Event) (j : ℕ) → (IsBlocked e j → InQueue e j) → ¬ IsBlocked (event_trigger_all e) j
unfolding event_trigger_all tqueue_wakeup_all
IsBlocked-event_trigger_all e j q b =
    still (q) (wake_all-status e.wait_queue.threads e.wait_queue.queue 0 j) b
  where
    still :
        (task_tget_status e.wait_queue.threads j ≡ blocked → waits e.wait_queue.queue j ≡ true)
        → task_tget_status (wake_all e.wait_queue.threads e.wait_queue.queue 0).0 j ≡ (
            if waits e.wait_queue.queue j && task_tget_status e.wait_queue.threads j == blocked
            then runnable
            else task_tget_status e.wait_queue.threads j)
        → task_tget_status (wake_all e.wait_queue.threads e.wait_queue.queue 0).0 j ≡ blocked
        → ⊥
    still f e b = ground (arith, f)

-- The buffer and its event, with what a call of `cbuf_write` has left and what one of `cbuf_read` wants.
pub record Parties : Type 0 where
  pub shared : Shared
  pub src : List ℕ
  pub len : ℕ

-- The reader is thread `r`, the writer thread `w`.
module _ (r w : ℕ) where
  -- A thread that is not blocked goes round its loop while something is left, and begins a new call
  -- when nothing is; and anyone sets a status to something else than blocked.
  pub data Step : Parties → Parties → Type 0 where
    read :
        (p : Parties)
        → ¬ IsBlocked p.shared.event r
        → 0 < p.len
        → Step p (record p {
          shared = (read_round p.shared r p.len).0;
          len = sub_size p.len (length (read_round p.shared r p.len).1);
        })
    write :
        (p : Parties)
        → ¬ IsBlocked p.shared.event w
        → 0 < length p.src
        → Step p (record p {
          shared = (write_round p.shared w p.src).0;
          src = (write_round p.shared w p.src).1;
        })
    call_read : (p : Parties) (n : ℕ) → p.len ≡ 0 → Step p (record p { len = n })
    call_write : (p : Parties) (bytes : List ℕ) → p.src ≡ [] → Step p (record p { src = bytes })
    set_status :
        (p : Parties) (tid v : ℕ)
        → v ≢ blocked
        → Step p (record p {
          shared = record p.shared {
            event = record p.shared.event {
              wait_queue = record p.shared.event.wait_queue {
                threads = task_tset_status p.shared.event.wait_queue.threads tid v;
              };
            };
          };
        })

  pub data Reach (p : Parties) : Parties → Type 0 where
    here : Reach p p
    next : {q t : Parties} → Reach p q → Step q t → Reach p t

  -- A blocked reader is in the event's queue, and nothing is held; a blocked writer is in the queue,
  -- and the buffer is full.
  pub record IsAwake (s : Shared) : Type 0 where
    pub valid : IsValid s.ring
    pub big : 2 ≤ s.ring.size
    pub reader : IsBlocked s.event r → InQueue s.event r × (held s.ring ≡ 0)
    pub writer : IsBlocked s.event w → InQueue s.event w × (held s.ring + 1 ≡ s.ring.size)

  entering :
      (s : Shared) (tid : ℕ)
      → IsAwake s
      → (tid ≡ r → held s.ring ≡ 0)
      → (tid ≡ w → held s.ring + 1 ≡ s.ring.size)
      → IsAwake (record s { event = (event_enter s.event tid).0 })
  entering s tid o empty full = record {
    valid = o.valid;
    big = o.big;
    reader = λ h. elim (event_enter-Entered s.event tid r h) [
      | inl (t, q) ↦ (q, empty ((==_iff tid r).0 t))
      | inr (b, k) ↦ let (q, z) = o.reader b in (k q, z)
    ];
    writer = λ h. elim (event_enter-Entered s.event tid w h) [
      | inl (t, q) ↦ (q, full ((==_iff tid w).0 t))
      | inr (b, k) ↦ let (q, z) = o.writer b in (k q, z)
    ];
  }

  triggered :
      (s : Shared) (c : Cbuf)
      → IsAwake s
      → IsValid c
      → c.size ≡ s.ring.size
      → IsAwake (record { ring = c; event = event_trigger_all s.event })
  triggered s c o v e = record {
    valid = v;
    big = omega (arith, e, o.big);
    reader = λ h. absurd (IsBlocked-event_trigger_all s.event r (λ b. (o.reader b).0) h);
    writer = λ h. absurd (IsBlocked-event_trigger_all s.event w (λ b. (o.writer b).0) h);
  }

  module _ (differ : r ≢ w) where
    read_round-IsAwake :
        (s : Shared) (len : ℕ) → IsAwake s → 0 < len → IsAwake (read_round s r len).0
    unfolding read_round
    read_round-IsAwake s len o l = go (read_pass s.ring len) (read_pass-Reads len o.valid)
      where
        go : (p : Pass (List ℕ)) → Reads s.ring len p → IsAwake (finished s r [] p).0
        go waiting (inl z) = entering s r o (λ _. z) (λ e. absurd (differ e))
        go waiting (inr z) = absurd (omega arith)
        go (moved bytes c) (v, _, _, _, e) = triggered s c o v e

    write_round-IsAwake :
        (s : Shared) (src : List ℕ) → IsAwake s → 0 < length src → IsAwake (write_round s w src).0
    unfolding write_round
    write_round-IsAwake s src o l = go (write_pass s.ring src) (write_pass-Writes src o.valid)
      where
        go : (p : Pass (List ℕ)) → Writes s.ring src p → IsAwake (finished s w src p).0
        go waiting (inl z) = entering s w o (λ e. absurd (differ (sym e))) (λ _. z)
        go waiting (inr z) = absurd (omega arith)
        go (moved rest c) (v, _, _, e) = triggered s c o v e

    set_status-blocked :
        (ts : Threads) (tid v j : ℕ)
        → v ≢ blocked
        → task_tget_status (task_tset_status ts tid v) j ≡ blocked
        → task_tget_status ts j ≡ blocked
    set_status-blocked ts tid v j n b = elim (status-set ts tid v j) [
      | inr same ↦ sym same ∙ b
      | inl set_now ↦ ground (arith, n)
    ]

    Step-IsAwake : {p q : Parties} → Step p q → IsAwake p.shared → IsAwake q.shared
    Step-IsAwake (read p b l) o = read_round-IsAwake p.shared p.len o l
    Step-IsAwake (write p b l) o = write_round-IsAwake p.shared p.src o l
    Step-IsAwake (call_read p n e) o = o
    Step-IsAwake (call_write p bytes e) o = o
    Step-IsAwake (set_status p tid v n) o = record {
      valid = o.valid;
      big = o.big;
      reader = λ h. o.reader (set_status-blocked p.shared.event.wait_queue.threads tid v r n h);
      writer = λ h. o.writer (set_status-blocked p.shared.event.wait_queue.threads tid v w n h);
    }

    Reach-IsAwake : {p q : Parties} → Reach p q → IsAwake p.shared → IsAwake q.shared
    Reach-IsAwake here o = o
    Reach-IsAwake (next reach step) o = Step-IsAwake step (Reach-IsAwake reach o)

    wakes_reader :
        (s : Shared) (src : List ℕ)
        → IsAwake s
        → IsBlocked s.event r
        → 0 < length src
        → ¬ IsBlocked (write_round s w src).0.event r
    unfolding write_round
    wakes_reader s src o b l = go (write_pass s.ring src) (write_pass-Writes src o.valid)
      where
        go : (p : Pass (List ℕ)) → Writes s.ring src p → ¬ IsBlocked (finished s w src p).0.event r
        go waiting (inl z) = absurd (omega (arith, (o.reader b).1, z, o.big))
        go waiting (inr z) = absurd (omega arith)
        go (moved rest c) m = IsBlocked-event_trigger_all s.event r (λ b. (o.reader b).0)

    wakes_writer :
        (s : Shared) (len : ℕ)
        → IsAwake s
        → IsBlocked s.event w
        → 0 < len
        → ¬ IsBlocked (read_round s r len).0.event w
    unfolding read_round
    wakes_writer s len o b l = go (read_pass s.ring len) (read_pass-Reads len o.valid)
      where
        go : (p : Pass (List ℕ)) → Reads s.ring len p → ¬ IsBlocked (finished s r [] p).0.event w
        go waiting (inl z) = absurd (omega (arith, (o.writer b).1, z, o.big))
        go waiting (inr z) = absurd (omega arith)
        go (moved bytes c) m = IsBlocked-event_trigger_all s.event w (λ b. (o.writer b).0)

    -- Never both blocked; and who is blocked is no longer so after any round of the other one that has
    -- bytes to move.
    abbrev pub NoDeadlock : Shared → Type 0
    NoDeadlock s =
        (¬ (IsBlocked s.event r × IsBlocked s.event w))
        × (IsBlocked s.event r
            → (src : List ℕ) → 0 < length src
            → ¬ IsBlocked (write_round s w src).0.event r)
        × (IsBlocked s.event w → (len : ℕ) → 0 < len → ¬ IsBlocked (read_round s r len).0.event w)

    -- A reader and a writer, two threads that go round the loops of `cbuf_read` and `cbuf_write` on one
    -- valid buffer of at least two bytes and block nowhere but on its event, in any order, with anyone
    -- setting statuses to something else than blocked. If at the start a blocked reader is in the
    -- event's queue and nothing is held, and a blocked writer is in the queue and the buffer is
    -- full, then at the end the two are not both blocked, and one that is blocked is no longer so after
    -- the next round of the other one, if that has bytes left to write, or to read.
    pub no_deadlock : {p q : Parties} → Reach p q → IsAwake p.shared → NoDeadlock q.shared
    no_deadlock {p} {q} reach o = (
      λ (br, bw). never (after.reader br).1 (after.writer bw).1,
      λ b src l. wakes_reader q.shared src after b l,
      λ b len l. wakes_writer q.shared len after b l,
    )
      where
        after : IsAwake q.shared
        after = Reach-IsAwake reach o

        never : held q.shared.ring ≡ 0 → held q.shared.ring + 1 ≡ q.shared.ring.size → ⊥
        never z f = let b = after.big in omega (arith, b)
