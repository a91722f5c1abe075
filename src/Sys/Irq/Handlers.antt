-- ===== src/Sys/Irq/Handlers.antt =====
-- What installing and removing a handler does to an interrupt.
use aexkernel.Prelude.{
  ℕ, ◌<◌, ◌≡◌, refl, ap, ◌∙◌, ◌⊎◌, inl, inr, Bool, true, false, ◌||◌, Option, none, some, List, [],
  ◌∷◌, ◌++◌, ◌==◌, if◌then◌else◌, Bool-cases, ==_iff, get_or, get_or-set, set, length, minus_one,
  arith,
}
use aexkernel.Sys.Irq.{Irqs, linked, unlinked, irq_install, irq_remove, run}

abbrev pub among : List ℕ → ℕ → Bool
among [] f = false
among (x ∷ xs) f = x == f || among xs f

-- The entries of a chain but the last.
abbrev pub but_last : List ℕ → List ℕ
but_last [] = []
but_last (x ∷ []) = []
but_last (x ∷ y ∷ ys) = x ∷ but_last (y ∷ ys)

abbrev pub Removed : List ℕ → ℕ → Option (List ℕ) → Type 0
Removed chain f none = among (but_last chain) f ≡ false
Removed chain f (some rest) =
    (pre : List ℕ) × (x : ℕ) × (post : List ℕ) × (chain ≡ pre ++ (f ∷ x ∷ post))
    × (rest ≡ pre ++ (x ∷ post))
    × (among pre f ≡ false)

unlinked-Removed : (chain : List ℕ) (f : ℕ) → Removed chain f (unlinked chain f)
unfolding unlinked
unlinked-Removed [] f = refl
unlinked-Removed (x ∷ []) f = refl
unlinked-Removed (x ∷ y ∷ ys) f = elim (Bool-cases (x == f)) [
  | inl e ↦ rw e ([], y, ys, ap (λ z. z ∷ y ∷ ys) ((==_iff x f).0 e), refl, refl)
  | inr n ↦ rw n (behind n (unlinked (y ∷ ys) f) (unlinked-Removed (y ∷ ys) f))
]
  where
    behind :
        (x == f) ≡ false
        → (o : Option (List ℕ)) → Removed (y ∷ ys) f o
        → Removed (x ∷ y ∷ ys) f (elim o [ none ↦ none | some zs ↦ some (x ∷ zs) ])
    behind n none r = rw n r
    behind n (some zs) (pre, z, post, e, q, a) =
        (x ∷ pre, z, post, ap (λ t. x ∷ t) e, ap (λ t. x ∷ t) q, rw n a)

run-linked :
    {W : Type 0} (func : ℕ → W → W) (chain : List ℕ) (f : ℕ) (w : W)
    → run func (linked chain f) w ≡ func f (run func chain w)
unfolding run linked
run-linked func [] f w = refl
run-linked func (x ∷ xs) f w = run-linked func xs f (func x w)

run_either :
    {W : Type 0} (func : ℕ → W → W) (w : W) (b : Bool) (p q : List ℕ) (u v : W)
    → (b ≡ true → run func p w ≡ u)
    → (b ≡ false → run func q w ≡ v)
    → run func (if b then p else q) w ≡ (if b then u else v)
run_either func w true p q u v f g = f refl
run_either func w false p q u v f g = g refl

-- After `irq_install` of a handler the interrupt runs the handlers that it ran before, in their order,
-- and the new one behind them; every other interrupt runs what it ran.
pub run-irq_install :
    {W : Type 0} (func : ℕ → W → W) (s : Irqs W) (irq f j : ℕ) (w : W)
    → irq < length s.irqs
    → run func (get_or (irq_install s irq f).0.irqs j []) w ≡ (
        if irq == j
        then func f (run func (get_or s.irqs j []) w)
        else run func (get_or s.irqs j []) w)
unfolding irq_install
run-irq_install func s irq f j w h =
    ap (λ c. run func c w) chains
    ∙ run_either func w (irq == j) _ _ _ _
        (λ e.
          run-linked func (get_or s.irqs irq []) f w
          ∙ ap (λ k. func f (run func (get_or s.irqs k []) w)) ((==_iff irq j).0 e))
        (λ _. refl)
  where
    chains :
        get_or (set s.irqs irq (linked (get_or s.irqs irq []) f)) j []
        ≡ (if irq == j then linked (get_or s.irqs irq []) f else get_or s.irqs j [])
    chains = get_or-set s.irqs irq j (linked (get_or s.irqs irq []) f) [] h ∙ ground arith

-- The result of `irq_remove` on a chain that it leaves, or takes the first entry with `f` out of.
abbrev pub RemoveResult : {W : Type 0} → Irqs W → ℕ → ℕ → Type 0
RemoveResult s irq f =
    ((among (but_last (get_or s.irqs_imm irq [])) f ≡ false)
      × (irq_remove s irq f ≡ (s, minus_one)))
    ⊎ ((pre : List ℕ) × (x : ℕ) × (post : List ℕ) × (get_or s.irqs_imm irq []
          ≡ pre ++ (f ∷ x ∷ post))
        × (among pre f ≡ false)
        × (irq_remove s irq f
            ≡ (record s { irqs_imm = set s.irqs_imm irq (pre ++ (x ∷ post)) }, 0)))

-- `irq_remove` takes the first entry with the function out of the interrupt's immediate handlers if
-- an entry follows it, and returns 0. It returns -1 and changes nothing if the function is at most
-- the last of them. What `irq_install` installed stays in both cases.
pub irq_remove_lem : {W : Type 0} (s : Irqs W) (irq f : ℕ) → RemoveResult s irq f
unfolding irq_remove
irq_remove_lem s irq f =
    go (unlinked (get_or s.irqs_imm irq []) f) refl (unlinked-Removed (get_or s.irqs_imm irq []) f)
  where
    go :
        (o : Option (List ℕ))
        → unlinked (get_or s.irqs_imm irq []) f ≡ o
        → Removed (get_or s.irqs_imm irq []) f o
        → RemoveResult s irq f
    go none e r = inl (r, rw (e, irq_remove))
    go (some rest) e (pre, x, post, c, q, a) = inr (
      pre,
      x,
      post,
      c,
      a,
      rw (e, irq_remove) (ap (λ t. (record s { irqs_imm = set s.irqs_imm irq t }, 0)) q),
    )
