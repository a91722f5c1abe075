-- ===== src/Sys/Irq/Workers.antt =====
-- Interrupts that arrive and workers that serve them, in any order: the handlers that a worker calls
-- run without a lock, between the steps of all others.
use aexkernel.Prelude.{
  ℕ, suc, ◌<◌, ◌≡◌, refl, sym, ap, ◌∙◌, inl, inr, false, Option, none, some, List, [], ◌∷◌, ◌++◌,
  append-nil, append_assoc, ◌==◌, if◌then◌else◌, Bool-cases, ==_iff, get_or, subst, arith,
}
use aexkernel.Sys.Irq.{Irqs, queue_size, run, irq_enqueue, worker_take, worker_call}
use aexkernel.Sys.Irq.History.{
  by, things, done_by, handlers, things-append, things-done_by, by_other, by_same, handlers-one,
}
use aexkernel.Sys.Irq.Queue.{IsValid, held, pending}
use aexkernel.Sys.Irq.Service.{
  Enqueued, irq_enqueue-Enqueued, Takes, worker_take-Takes, SameHandlers,
}

-- The state with all interrupts that arrived, those that workers took, the handlers that ran, and what
-- each worker has still to call.
pub record Service (W : Type 0) : Type 0 where
  pub state : Irqs W
  pub raised : List ℕ
  pub took : List (ℕ × ℕ)
  pub ran : List (ℕ × ℕ)
  pub chains : ℕ → List ℕ

abbrev pub given : (ℕ → List ℕ) → ℕ → List ℕ → ℕ → List ℕ
given chains i chain j = if i == j then chain else chains j

module _ {W : Type 0} (func : ℕ → W → W) where
  run-append : (xs ys : List ℕ) (w : W) → run func (xs ++ ys) w ≡ run func ys (run func xs w)
  unfolding run
  run-append [] ys w = refl
  run-append (x ∷ xs) ys w = run-append xs ys (func x w)

  -- An interrupt arrives while fewer than 8191 are pending, a worker that has nothing left to call takes
  -- one, or a worker calls its next handler.
  pub data Step : Service W → Service W → Type 0 where
    raise :
        (s : Service W) (irq : ℕ) (t : Irqs W)
        → suc (held s.state) < queue_size
        → irq_enqueue func s.state irq ≡ some t
        → Step s (record s {
          state = t;
          raised = s.raised ++ (irq ∷ []);
          ran = s.ran ++ done_by 0 (get_or s.state.irqs_imm irq []);
        })
    take_one :
        (s : Service W) (i irq : ℕ) (chain : List ℕ) (t : Irqs W)
        → s.chains i ≡ []
        → ◌≡◌ {A = Option (ℕ × List ℕ × Irqs W)} (worker_take s.state) (some (irq, chain, t))
        → Step s (record s {
          state = t;
          took = s.took ++ done_by (suc i) (irq ∷ []);
          chains = given s.chains i chain;
        })
    call :
        (s : Service W) (i f : ℕ) (chain : List ℕ) (t : Irqs W)
        → ◌≡◌ {A = Option (ℕ × List ℕ × Irqs W)}
            (worker_call func (s.chains i) s.state)
            (some (f, chain, t))
        → Step s (record s {
          state = t;
          ran = s.ran ++ done_by (suc i) (f ∷ []);
          chains = given s.chains i chain;
        })

  pub data Reach (s : Service W) : Service W → Type 0 where
    here : Reach s s
    next : {t u : Service W} → Reach s t → Step t u → Reach s u

  -- Seen from the state `first` in which nothing had arrived: the interrupts taken and those pending
  -- are those that arrived, in order; the state of the handlers is what those that ran made of it, in
  -- their order; each arrival has run its immediate handlers; and what a worker called, and has still
  -- to call, are the handlers of the interrupts that it took, in order.
  pub record IsInOrder (first : Irqs W) (s : Service W) : Type 0 where
    pub valid : IsValid s.state
    pub same : SameHandlers first s.state
    pub order : s.raised ≡ things s.took ++ pending s.state
    pub world : s.state.world ≡ run func (things s.ran) first.world
    pub immediate : by 0 s.ran ≡ handlers first.irqs_imm s.raised
    pub served : (i : ℕ) → by (suc i) s.ran ++ s.chains i ≡ handlers first.irqs (by (suc i) s.took)

  world_more :
      (xs : List (ℕ × ℕ)) (who : ℕ) (ys : List ℕ) (w : W)
      → run func (things (xs ++ done_by who ys)) w ≡ run func ys (run func (things xs) w)
  world_more xs who ys w =
      ap (λ r. run func r w)
        (things-append xs (done_by who ys) ∙ ap (λ r. things xs ++ r) (things-done_by who ys))
      ∙ run-append (things xs) ys w

  raise-IsInOrder :
      (first : Irqs W) (s : Service W) (irq : ℕ) (t : Irqs W)
      → IsInOrder first s
      → Enqueued func s.state irq (some t)
      → IsInOrder first (record s {
        state = t;
        raised = s.raised ++ (irq ∷ []);
        ran = s.ran ++ done_by 0 (get_or s.state.irqs_imm irq []);
      })
  raise-IsInOrder first s irq t o (valid, queued, ran, (same, same_imm)) = record {
    valid = valid;
    same = (same ∙ o.same.0, same_imm ∙ o.same.1);
    order =
        ap (λ q. q ++ (irq ∷ [])) o.order
        ∙ append_assoc (things s.took) (pending s.state) (irq ∷ [])
        ∙ ap (λ q. things s.took ++ q) (sym queued);
    world =
        ran
        ∙ ap (run func (get_or s.state.irqs_imm irq [])) o.world
        ∙ sym (world_more s.ran 0 (get_or s.state.irqs_imm irq []) first.world);
    immediate =
        by_same 0 s.ran (get_or s.state.irqs_imm irq [])
        ∙ ap (λ q. q ++ get_or s.state.irqs_imm irq []) o.immediate
        ∙ ap (λ table. handlers first.irqs_imm s.raised ++ get_or table irq []) o.same.1
        ∙ sym (handlers-one first.irqs_imm s.raised irq);
    served = λ i.
        ap (λ q. q ++ s.chains i)
          (by_other (suc i) 0 s.ran (get_or s.state.irqs_imm irq []) (ground arith))
        ∙ o.served i;
  }

  take-IsInOrder :
      (first : Irqs W) (s : Service W) (i irq : ℕ) (chain : List ℕ) (t : Irqs W)
      → IsInOrder first s
      → s.chains i ≡ []
      → Takes s.state (some (irq, chain, t))
      → IsInOrder first (record s {
        state = t;
        took = s.took ++ done_by (suc i) (irq ∷ []);
        chains = given s.chains i chain;
      })
  take-IsInOrder first s i irq chain t o idle (valid, oldest, its, world, (same, same_imm)) =
      record {
        valid = valid;
        same = (same ∙ o.same.0, same_imm ∙ o.same.1);
        order =
            o.order
            ∙ ap (λ q. things s.took ++ q) oldest
            ∙ sym (append_assoc (things s.took) (irq ∷ []) (pending t))
            ∙ ap (λ q. q ++ pending t) (sym (things-append s.took (done_by (suc i) (irq ∷ []))));
        world = world ∙ o.world;
        immediate = o.immediate;
        served = λ j. elim (Bool-cases (i == j)) [
          | inl e ↦
              ap (λ b. by (suc j) s.ran ++ (if b then chain else s.chains j)) e
              ∙ mine j ((==_iff i j).0 e)
          | inr n ↦
              ap (λ b. by (suc j) s.ran ++ (if b then chain else s.chains j)) n
              ∙ o.served j
              ∙ ap (handlers first.irqs)
                  (sym (by_other (suc j) (suc i) s.took (irq ∷ []) (other j n)))
        ];
      }
    where
      other : (j : ℕ) → (i == j) ≡ false → (suc i == suc j) ≡ false
      other j n = ground (arith, n)

      had : by (suc i) s.ran ≡ handlers first.irqs (by (suc i) s.took)
      had =
          sym (append-nil (by (suc i) s.ran))
          ∙ ap (λ q. by (suc i) s.ran ++ q) (sym idle)
          ∙ o.served i

      now :
          by (suc i) s.ran ++ chain
          ≡ handlers first.irqs (by (suc i) (s.took ++ done_by (suc i) (irq ∷ [])))
      now =
          ap (λ q. q ++ chain) had
          ∙ ap (λ q. handlers first.irqs (by (suc i) s.took) ++ q)
              (its ∙ ap (λ table. get_or table irq []) o.same.0)
          ∙ sym (handlers-one first.irqs (by (suc i) s.took) irq)
          ∙ ap (handlers first.irqs) (sym (by_same (suc i) s.took (irq ∷ [])))

      mine :
          (j : ℕ)
          → i ≡ j
          → by (suc j) s.ran ++ chain
            ≡ handlers first.irqs (by (suc j) (s.took ++ done_by (suc i) (irq ∷ [])))
      mine j e =
          subst
            (λ k.
              by (suc k) s.ran ++ chain
              ≡ handlers first.irqs (by (suc k) (s.took ++ done_by (suc i) (irq ∷ []))))
            e now

  Calls : List ℕ → Irqs W → Option (ℕ × List ℕ × Irqs W) → Type 0
  Calls left state none = left ≡ []
  Calls left state (some (f, chain, t)) =
      (left ≡ f ∷ chain) × (t ≡ record state { world = func f state.world })

  worker_call-Calls :
      (left : List ℕ) (state : Irqs W) → Calls left state (worker_call func left state)
  unfolding Calls worker_call
  worker_call-Calls [] state = refl
  worker_call-Calls (f ∷ chain) state = (refl, refl)

  called-IsInOrder :
      (first : Irqs W) (s : Service W) (i f : ℕ) (chain : List ℕ)
      → IsInOrder first s
      → s.chains i ≡ f ∷ chain
      → IsInOrder first (record s {
        state = record s.state { world = func f s.state.world };
        ran = s.ran ++ done_by (suc i) (f ∷ []);
        chains = given s.chains i chain;
      })
  unfolding run
  called-IsInOrder first s i f chain o left = record {
    valid = record {
      storage = o.valid.storage;
      write_in = o.valid.write_in;
      read_in = o.valid.read_in;
    };
    same = o.same;
    order = o.order;
    world = ap (func f) o.world ∙ sym (world_more s.ran (suc i) (f ∷ []) first.world);
    immediate = by_other 0 (suc i) s.ran (f ∷ []) (ground arith) ∙ o.immediate;
    served = λ j. elim (Bool-cases (i == j)) [
      | inl e ↦
          ap
            (λ b.
              by (suc j) (s.ran ++ done_by (suc i) (f ∷ [])) ++ (if b then chain else s.chains j))
            e
          ∙ mine j ((==_iff i j).0 e)
      | inr n ↦
          ap
            (λ b.
              by (suc j) (s.ran ++ done_by (suc i) (f ∷ [])) ++ (if b then chain else s.chains j))
            n
          ∙ ap (λ q. q ++ s.chains j) (by_other (suc j) (suc i) s.ran (f ∷ []) (other j n))
          ∙ o.served j
    ];
  }
    where
      other : (j : ℕ) → (i == j) ≡ false → (suc i == suc j) ≡ false
      other j n = ground (arith, n)

      now :
          by (suc i) (s.ran ++ done_by (suc i) (f ∷ [])) ++ chain
          ≡ handlers first.irqs (by (suc i) s.took)
      now =
          ap (λ q. q ++ chain) (by_same (suc i) s.ran (f ∷ []))
          ∙ append_assoc (by (suc i) s.ran) (f ∷ []) chain
          ∙ ap (λ q. by (suc i) s.ran ++ q) (sym left)
          ∙ o.served i

      mine :
          (j : ℕ)
          → i ≡ j
          → by (suc j) (s.ran ++ done_by (suc i) (f ∷ [])) ++ chain
            ≡ handlers first.irqs (by (suc j) s.took)
      mine j e =
          subst
            (λ k.
              by (suc k) (s.ran ++ done_by (suc i) (f ∷ [])) ++ chain
              ≡ handlers first.irqs (by (suc k) s.took))
            e now

  call-IsInOrder :
      (first : Irqs W) (s : Service W) (i f : ℕ) (chain : List ℕ) (t : Irqs W)
      → IsInOrder first s
      → Calls (s.chains i) s.state (some (f, chain, t))
      → IsInOrder first (record s {
        state = t;
        ran = s.ran ++ done_by (suc i) (f ∷ []);
        chains = given s.chains i chain;
      })
  unfolding Calls
  call-IsInOrder first s i f chain t o (left, e) =
      subst
        (λ t. IsInOrder first (record s {
          state = t;
          ran = s.ran ++ done_by (suc i) (f ∷ []);
          chains = given s.chains i chain;
        }))
        (sym e) (called-IsInOrder first s i f chain o left)

  Step-IsInOrder :
      (first : Irqs W) {s t : Service W} → Step s t → IsInOrder first s → IsInOrder first t
  Step-IsInOrder first (raise s irq t h e) o =
      raise-IsInOrder first s irq t o
        (subst (Enqueued func s.state irq) e (irq_enqueue-Enqueued func s.state irq o.valid h))
  Step-IsInOrder first (take_one s i irq chain t idle e) o =
      take-IsInOrder first s i irq chain t o idle
        (subst (Takes s.state) e (worker_take-Takes s.state o.valid))
  Step-IsInOrder first (call s i f chain t e) o =
      call-IsInOrder first s i f chain t o
        (subst (Calls (s.chains i) s.state) e (worker_call-Calls (s.chains i) s.state))

  -- Whatever the order in which interrupts arrive at a valid queue, idle workers take them and workers
  -- call their handlers one by one, as long as none arrives while 8191 are pending and no handler is
  -- installed or removed, the service stays in order: the interrupts taken and those pending are
  -- those that arrived, in order, so that none is lost or taken twice. Each arrival has run its
  -- immediate handlers, in order; the handlers that each worker called, and those that it has still
  -- to call, are those of the interrupts that it took, in order, each once; and the state of the
  -- handlers is what these calls made of it, in the order in which they ran.
  pub Reach-IsInOrder :
      (first : Irqs W) {s t : Service W} → Reach s t → IsInOrder first s → IsInOrder first t
  Reach-IsInOrder first here o = o
  Reach-IsInOrder first (next r st) o = Step-IsInOrder first st (Reach-IsInOrder first r o)
