-- ===== src/Sys/Irq/Service.antt =====
-- Interrupts that arrive, and what one arrival and one step of a worker do.
use aexkernel.Prelude.{
  ℕ, suc, ◌+◌, ◌<◌, ◌≡◌, refl, ◌∙◌, inl, inr, Bool, Option, none, some, List, [], ◌∷◌, ◌++◌, ◌==◌,
  Bool-cases, get_or, length-set, arith,
}
use aexkernel.Sys.Irq.{Irqs, queue_size, run, irq_enqueue, worker_take}
use aexkernel.Sys.Irq.Queue.{
  IsValid, held, wrapped, pending, irqq_available-held, after_write, irqq_write_lem, pending-write,
  pending-read, irqq_read-some,
}

module _ {W : Type 0} where
  -- The chains of handlers are the same.
  abbrev pub SameHandlers : Irqs W → Irqs W → Type 0
  SameHandlers s t = (t.irqs ≡ s.irqs) × (t.irqs_imm ≡ s.irqs_imm)

  module _ (func : ℕ → W → W) where
    abbrev pub Enqueued : Irqs W → ℕ → Option (Irqs W) → Type 0
    Enqueued s irq none = ⊥
    Enqueued s irq (some t) =
        IsValid t
        × (pending t ≡ pending s ++ (irq ∷ []))
        × (t.world ≡ run func (get_or s.irqs_imm irq []) s.world)
        × SameHandlers s t

    -- With room for one more interrupt `irq_enqueue` returns. It has run the immediate handlers of the
    -- interrupt in their order, and put the interrupt behind those pending; the queue stays valid.
    pub irq_enqueue-Enqueued :
        (s : Irqs W) (irq : ℕ)
        → IsValid s
        → suc (held s) < queue_size
        → Enqueued s irq (irq_enqueue func s irq)
    unfolding irq_enqueue
    irq_enqueue-Enqueued s irq v h =
        let s' : Irqs W = record s { world = run func (get_or s.irqs_imm irq []) s.world } in
        let v' : IsValid s' = record {
          storage = v.storage;
          write_in = v.write_in;
          read_in = v.read_in;
        } in
        let (worker, runnable, e) = irqq_write_lem s' irq v' in
        rw e (
          valid s'.world worker runnable,
          pending-write s' v' irq worker runnable h,
          refl,
          (refl, refl),
        )
      where
        valid :
            (w : W) (worker : ℕ) (runnable : List Bool)
            → IsValid (record (after_write s irq worker runnable) { world = w })
        valid w worker runnable = record {
          storage = length-set s.buffer s.write_ptr irq ∙ v.storage;
          write_in = ground (arith, v.write_in);
          read_in = v.read_in;
        }

  abbrev pub Takes : Irqs W → Option (ℕ × List ℕ × Irqs W) → Type 0
  Takes s none = pending s ≡ []
  Takes s (some (irq, chain, t)) =
      IsValid t
      × (pending s ≡ irq ∷ pending t)
      × (chain ≡ get_or s.irqs irq [])
      × (t.world ≡ s.world)
      × SameHandlers s t

  -- A worker waits only if no interrupt is pending. Otherwise it takes the one that is pending for the
  -- longest time, with its handlers; the queue stays valid.
  pub worker_take-Takes : (s : Irqs W) → IsValid s → Takes s (worker_take s)
  unfolding worker_take
  worker_take-Takes s v = elim (Bool-cases (held s == 0)) [
    | inl z ↦ rw (irqq_available-held s v, z) (nothing (ground arith))
    | inr n ↦
        rw (irqq_available-held s v, n, irqq_read-some s v (ground arith), worker_take)
          (valid, pending-read s v (ground arith), refl, refl, (refl, refl))
  ]
    where
      nothing : held s ≡ 0 → pending s ≡ []
      nothing e = ground arith

      valid : IsValid (record s { irq_last = wrapped (s.irq_last + 1) })
      valid = record {
        storage = v.storage;
        write_in = v.write_in;
        read_in = ground (arith, v.read_in);
      }
