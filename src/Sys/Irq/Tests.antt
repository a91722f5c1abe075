-- ===== src/Sys/Irq/Tests.antt =====
-- The interrupts' theorems with handlers that add their number up.
use aexkernel.Prelude.{ℕ, ◌+◌, ◌*◌, refl, false, [], ◌∷◌, ◌++◌, replicate, arith}
use aexkernel.Sys.Irq.{Irqs, irqq_read, irqq_available, run, worker_call, worker_take}
use aexkernel.Sys.Irq.Handlers.{RemoveResult, irq_remove_lem}
use aexkernel.Sys.Irq.Queue.{IsValid}
use aexkernel.Sys.Irq.Workers.{
  Service, Step, take_one, call, given, here, next, IsInOrder, Reach-IsInOrder,
}

abbrev adds : ℕ → ℕ → ℕ
adds f w = 10 * w + f

-- The queue goes round the end of its buffer, and holds interrupt 2.
abbrev state : Irqs ℕ
state = record {
  irqs = [] ∷ [] ∷ (5 ∷ 6 ∷ []) ∷ [];
  irqs_imm = [] ∷ (7 ∷ 8 ∷ []) ∷ [] ∷ [];
  buffer = 1 ∷ replicate 8190 0 ++ (2 ∷ []);
  write_ptr = 0;
  irq_worker_to_use = 0;
  runnable = replicate 4 false;
  irq_last = 8191;
  world = 0;
}

state-IsValid : IsValid state
state-IsValid = record { storage = refl; write_in = omega arith; read_in = omega arith }

irq_remove_lem_example : RemoveResult state 1 7
irq_remove_lem_example = irq_remove_lem state 1 7

abbrev started : Service ℕ
started = record { state = state; raised = 2 ∷ []; took = []; ran = []; chains = λ i. [] }

-- Worker 3 has taken the interrupt.
abbrev taken : Service ℕ
taken = record started {
  state = record state { irq_last = 0 };
  took = (4, 2) ∷ [];
  chains = given started.chains 3 (5 ∷ 6 ∷ []);
}

-- It has called the first handler.
abbrev ended : Service ℕ
ended = record taken {
  state = record state { irq_last = 0; world = 5 };
  ran = (4, 5) ∷ [];
  chains = given taken.chains 3 (6 ∷ []);
}

started-IsInOrder : IsInOrder adds state started
unfolding run
started-IsInOrder = record {
  valid = state-IsValid;
  same = (refl, refl);
  order = refl;
  world = refl;
  immediate = refl;
  served = λ i. refl;
}

take-Step : Step adds started taken
unfolding worker_take irqq_read irqq_available
take-Step = take_one started 3 2 (5 ∷ 6 ∷ []) taken.state refl refl

call-Step : Step adds taken ended
unfolding worker_call
call-Step = call taken 3 5 (6 ∷ []) ended.state refl

Reach-IsInOrder_example : IsInOrder adds state ended
Reach-IsInOrder_example =
    Reach-IsInOrder adds state (next (next here take-Step) call-Step) started-IsInOrder
