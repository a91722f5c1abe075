-- ===== src/Sys/Irq/Queue.antt =====
-- The queue of interrupts between `irq_enqueue` and the workers.
use aexkernel.Prelude.{
  ℕ, suc, ◌+◌, ◌-◌, ◌%◌, ◌<◌, ◌≡◌, ap, ap₂, ◌∙◌, Bool, true, Option, none, some, List, [], ◌∷◌,
  ◌++◌, ltb, leb, ◌==◌, if◌then◌else◌, get_or, get_or-set, set, length, tabulate, tabulate_ext,
  tabulate-add, arith,
}
use aexkernel.Sys.Irq.{Irqs, queue_size, write_loop, irqq_write, irqq_read, irqq_available}

abbrev pub wrapped : ℕ → ℕ
wrapped k = if ltb k queue_size then k else k - queue_size

module _ {W : Type 0} where
  -- Both ends lie in the buffer.
  pub record IsValid (s : Irqs W) : Type 0 where
    pub storage : length s.buffer ≡ queue_size
    pub write_in : s.write_ptr < queue_size
    pub read_in : s.irq_last < queue_size

  abbrev pub held : Irqs W → ℕ
  held s =
      if leb s.irq_last s.write_ptr
      then s.write_ptr - s.irq_last
      else queue_size - s.irq_last + s.write_ptr

  -- The interrupts that the workers have still to serve, oldest first.
  abbrev pub pending : Irqs W → List ℕ
  pending s = tabulate (held s) (λ i. get_or s.buffer (wrapped (s.irq_last + i)) 0)

  pub irqq_available-held : (s : Irqs W) → IsValid s → irqq_available s s.irq_last ≡ held s
  unfolding irqq_available
  irqq_available-held s v = ground (arith, v.write_in, v.read_in)

  abbrev pub after_write : Irqs W → ℕ → ℕ → List Bool → Irqs W
  after_write s irq worker runnable = record s {
    buffer = set s.buffer s.write_ptr irq;
    write_ptr = wrapped (s.write_ptr + 1);
    irq_worker_to_use = worker;
    runnable = runnable;
  }

  -- The loop of `irqq_write` has one round.
  write_loop_one :
      (s : Irqs W) (irq : ℕ)
      → IsValid s
      → write_loop 2 s irq 1
        ≡ some (record s {
          buffer = set s.buffer s.write_ptr irq;
          write_ptr = wrapped (s.write_ptr + 1);
        })
  unfolding write_loop
  write_loop_one s irq v = ap (λ amnt. round amnt) one_byte ∙ ap (λ p. some (put p)) ptr
    where
      put : ℕ → Irqs W
      put p = record s { buffer = set s.buffer s.write_ptr irq; write_ptr = p }

      next : ℕ → ℕ
      next amnt =
          if (s.write_ptr + amnt) % 65536 == queue_size then 0 else (s.write_ptr + amnt) % 65536

      round : ℕ → Option (Irqs W)
      round amnt = if 1 - amnt == 0 then some (put (next amnt)) else none

      one_byte : (if ltb 1 (queue_size - s.write_ptr) then 1 else queue_size - s.write_ptr) ≡ 1
      one_byte = ground (arith, v.write_in)

      ptr : next 1 ≡ wrapped (s.write_ptr + 1)
      ptr = ground (arith, v.write_in)

  pub irqq_write_lem :
      (s : Irqs W) (irq : ℕ)
      → IsValid s
      → (worker : ℕ) × (runnable : List Bool) × (irqq_write s irq
          ≡ some (after_write s irq worker runnable))
  unfolding irqq_write
  irqq_write_lem s irq v =
      (worker, set s.runnable worker true, rw (write_loop_one s irq v, irqq_write))
    where
      worker : ℕ
      worker = if leb 4 s.irq_worker_to_use then 0 else s.irq_worker_to_use

  module _ (s : Irqs W) (v : IsValid s) where
    pub held-write :
        (irq worker : ℕ) (runnable : List Bool)
        → suc (held s) < queue_size
        → held (after_write s irq worker runnable) ≡ held s + 1
    held-write irq worker runnable h = ground (arith, v.write_in, v.read_in)

    pub pending-write :
        (irq worker : ℕ) (runnable : List Bool)
        → suc (held s) < queue_size
        → pending (after_write s irq worker runnable) ≡ pending s ++ (irq ∷ [])
    pending-write irq worker runnable h =
        tabulate-add (held s) 1 (held (after_write s irq worker runnable)) _
          (held-write irq worker runnable h)
        ∙ ap₂ ◌++◌ (tabulate_ext (held s) _ _ old) (ap (λ b. b ∷ []) new)
      where
        old :
            (i : ℕ)
            → i < held s
            → get_or (set s.buffer s.write_ptr irq) (wrapped (s.irq_last + i)) 0
              ≡ get_or s.buffer (wrapped (s.irq_last + i)) 0
        old i l =
            get_or-set s.buffer s.write_ptr (wrapped (s.irq_last + i)) irq 0
              (omega (arith, v.storage, v.write_in))
            ∙ ground (arith, v.write_in, v.read_in)

        new : get_or (set s.buffer s.write_ptr irq) (wrapped (s.irq_last + (held s + 0))) 0 ≡ irq
        new =
            get_or-set s.buffer s.write_ptr (wrapped (s.irq_last + (held s + 0))) irq 0
              (omega (arith, v.storage, v.write_in))
            ∙ ground (arith, v.write_in, v.read_in)

    held-read : 0 < held s → held s ≡ 1 + held (record s { irq_last = wrapped (s.irq_last + 1) })
    held-read h = ground (arith, v.write_in, v.read_in)

    pub pending-read :
        0 < held s
        → pending s
          ≡ get_or s.buffer s.irq_last 0
            ∷ pending (record s { irq_last = wrapped (s.irq_last + 1) })
    pending-read h =
        tabulate-add 1 (held (record s { irq_last = wrapped (s.irq_last + 1) })) (held s) _
          (held-read h)
        ∙ ap₂ ◌∷◌ (ap (λ j. get_or s.buffer j 0) (ground (arith, v.read_in))) (
            tabulate_ext (held (record s { irq_last = wrapped (s.irq_last + 1) })) _ _ (λ i l.
              ap (λ j. get_or s.buffer j 0) (ground (arith, held-read h, v.write_in, v.read_in))))

    -- A read gives the oldest number that is pending, and waits only if there is none.
    pub irqq_read-none : held s ≡ 0 → irqq_read s s.irq_last ≡ none
    unfolding irqq_read
    irqq_read-none h = ground (arith, v.write_in, v.read_in)

    pub irqq_read-some :
        0 < held s
        → irqq_read s s.irq_last ≡ some (get_or s.buffer s.irq_last 0, wrapped (s.irq_last + 1))
    unfolding irqq_read
    irqq_read-some h = ground (arith, v.write_in, v.read_in)
