-- ===== src/Sys/Irq.antt =====
-- sys/irq.c: the handlers of interrupts and the queue through which they reach the workers. A handler
-- is the address of its function, and `func` runs it on the state `W` that handlers change. Writers
-- hold the queue's lock and readers that of the workers, and each function is one step: a read at the
-- very moment of a write is left out. A worker calls its handlers without a lock, one step for each. What waits for an interrupt changes nothing and is `none`. The
-- statuses of the workers' threads are `true` for runnable.
mod Tests
pub mod Handlers
pub mod Queue
pub mod Service
pub mod History
pub mod Workers
use aexkernel.Prelude.{
  ℕ, zero, suc, ◌+◌, ◌-◌, ◌%◌, ◌^◌, Bool, true, Option, none, some, List, [], ◌∷◌, ltb, leb, ◌==◌,
  if◌then◌else◌, get_or, set, add_size, sub_size, sub_int, minus_one,
}

pub record Irqs (W : Type 0) : Type 0 where
  pub irqs : List (List ℕ)
  pub irqs_imm : List (List ℕ)
  pub buffer : List ℕ
  pub write_ptr : ℕ
  pub irq_worker_to_use : ℕ
  pub runnable : List Bool
  pub irq_last : ℕ
  pub world : W

-- `sizeof(irqq.buffer)`
abbrev pub queue_size : ℕ
queue_size = 8192

-- The chain with a function linked behind its last entry.
pub linked : List ℕ → ℕ → List ℕ
linked [] f = f ∷ []
linked (x ∷ xs) f = x ∷ linked xs f

-- The walk of `irq_install_immediate`: `none` is -1. It does not look at the last entry.
pub linked_once : List ℕ → ℕ → Option (List ℕ)
linked_once [] f = some (f ∷ [])
linked_once (x ∷ []) f = some (x ∷ f ∷ [])
linked_once (x ∷ y ∷ ys) f =
    let rest = linked_once (y ∷ ys) f in
    if x == f then none else elim rest [ none ↦ none | some zs ↦ some (x ∷ zs) ]

-- The walk of `irq_remove`: `none` is -1. It does not look at the last entry.
pub unlinked : List ℕ → ℕ → Option (List ℕ)
unlinked [] f = none
unlinked (x ∷ []) f = none
unlinked (x ∷ y ∷ ys) f =
    let rest = unlinked (y ∷ ys) f in
    if x == f then some (y ∷ ys) else elim rest [ none ↦ none | some zs ↦ some (x ∷ zs) ]

module _ {W : Type 0} where
  pub irq_install : Irqs W → ℕ → ℕ → Irqs W × ℕ
  irq_install s irq f = (record s { irqs = set s.irqs irq (linked (get_or s.irqs irq []) f) }, 0)

  pub irq_install_immediate : Irqs W → ℕ → ℕ → Irqs W × ℕ
  irq_install_immediate s irq f = elim (linked_once (get_or s.irqs_imm irq []) f) [
    | none ↦ (s, minus_one)
    | some chain ↦ (record s { irqs_imm = set s.irqs_imm irq chain }, 0)
  ]

  -- The function looks among the immediate handlers only.
  pub irq_remove : Irqs W → ℕ → ℕ → Irqs W × ℕ
  irq_remove s irq f = elim (unlinked (get_or s.irqs_imm irq []) f) [
    | none ↦ (s, minus_one)
    | some chain ↦ (record s { irqs_imm = set s.irqs_imm irq chain }, 0)
  ]

  -- The loop of `irqq_write` with `len` bytes left; `none` when the fuel runs out.
  pub write_loop : ℕ → Irqs W → ℕ → ℕ → Option (Irqs W)
  write_loop zero s irq len = none
  write_loop (suc fuel) s irq len =
      let room = queue_size - s.write_ptr in
      let amnt = if ltb len room then len else room in
      let next = (s.write_ptr + amnt) % 2 ^ 16 in
      let rest =
        write_loop fuel
          (record s {
            buffer = set s.buffer s.write_ptr irq;
            write_ptr = if next == queue_size then 0 else next;
          })
          irq (len - amnt) in
      if len == 0 then some s else rest

  -- The worker that is woken is always the same: nothing counts `irq_worker_to_use` up.
  pub irqq_write : Irqs W → ℕ → Option (Irqs W)
  irqq_write s irq = elim (write_loop 2 s irq 1) [
    | none ↦ none
    | some s' ↦
        let worker = if leb 4 s'.irq_worker_to_use then 0 else s'.irq_worker_to_use in
        some (record s' { irq_worker_to_use = worker; runnable = set s'.runnable worker true })
  ]

  -- The number read, and the new start; `none` while nothing is there.
  pub irqq_read : Irqs W → ℕ → Option (ℕ × ℕ)
  irqq_read s start =
      let w_off = if ltb s.write_ptr start then add_size s.write_ptr queue_size else s.write_ptr in
      let to_end = sub_size queue_size start in
      let held = if ltb (sub_size w_off start) to_end then sub_size w_off start else to_end in
      let possible = if ltb 1 held then 1 else held in
      let next = add_size start possible in
      if possible == 0
      then none
      else some (get_or s.buffer start 0, if next == queue_size then 0 else next)

  pub irqq_available : Irqs W → ℕ → ℕ
  irqq_available s start =
      if start == s.write_ptr
      then 0
      else if ltb s.write_ptr start
      then add_size (sub_size queue_size start) s.write_ptr
      else sub_size s.write_ptr start

  module _ (func : ℕ → W → W) where
    -- The loops over a chain of handlers.
    pub run : List ℕ → W → W
    run [] w = w
    run (f ∷ fs) w = run fs (func f w)

    pub irq_enqueue : Irqs W → ℕ → Option (Irqs W)
    irq_enqueue s irq = irqq_write (record s { world = run (get_or s.irqs_imm irq []) s.world }) irq

    -- A worker calls the first function of what is left of a chain: the function, what is left then,
    -- and the state; `none` at the end of the chain.
    pub worker_call : List ℕ → Irqs W → Option (ℕ × List ℕ × Irqs W)
    worker_call [] s = none
    worker_call (f ∷ chain) s = some (f, chain, record s { world = func f s.world })

  -- What a worker does under `irq_worker_spinlock`: the interrupt that it takes, with the chain of
  -- handlers that it calls after it has released the lock; `none` while it waits.
  pub worker_take : Irqs W → Option (ℕ × List ℕ × Irqs W)
  worker_take s = if irqq_available s s.irq_last == 0 then none else elim (irqq_read s s.irq_last) [
    | none ↦ none
    | some (irq, last) ↦ some (irq, get_or s.irqs irq [], record s { irq_last = last })
  ]
