-- ===== src/Sys/Irq/History.antt =====
-- Histories of what several parties did, and the handlers of the interrupts in them.
use aexkernel.Prelude.{
  ℕ, ◌≡◌, refl, sym, ap, ◌∙◌, inl, inr, Bool, true, false, List, [], ◌∷◌, ◌++◌, append-nil,
  append_assoc, ◌==◌, if◌then◌else◌, Bool-cases, get_or, arith,
}

-- What one party did, of a history in which each thing stands behind the one who did it: 0 for the
-- interrupts themselves, `suc i` for worker `i`.
abbrev pub by : ℕ → List (ℕ × ℕ) → List ℕ
by who [] = []
by who ((who', x) ∷ history) = if who' == who then x ∷ by who history else by who history

abbrev pub things : List (ℕ × ℕ) → List ℕ
things [] = []
things ((who, x) ∷ history) = x ∷ things history

abbrev pub done_by : ℕ → List ℕ → List (ℕ × ℕ)
done_by who [] = []
done_by who (x ∷ xs) = (who, x) ∷ done_by who xs

-- The handlers of some interrupts, one chain after the other.
abbrev pub handlers : List (List ℕ) → List ℕ → List ℕ
handlers table [] = []
handlers table (irq ∷ irqs) = get_or table irq [] ++ handlers table irqs

pub things-append : (xs ys : List (ℕ × ℕ)) → things (xs ++ ys) ≡ things xs ++ things ys
things-append [] ys = refl
things-append ((who, x) ∷ xs) ys = ap (λ r. x ∷ r) (things-append xs ys)

pub things-done_by : (who : ℕ) (xs : List ℕ) → things (done_by who xs) ≡ xs
things-done_by who [] = refl
things-done_by who (x ∷ xs) = ap (λ r. x ∷ r) (things-done_by who xs)

by-append : (who : ℕ) (xs ys : List (ℕ × ℕ)) → by who (xs ++ ys) ≡ by who xs ++ by who ys
by-append who [] ys = refl
by-append who ((who', x) ∷ xs) ys = either (who' == who) _ _ _ (by-append who xs ys)
  where
    either :
        (b : Bool) (p q r : List ℕ)
        → p ≡ q ++ r
        → (if b then x ∷ p else p) ≡ (if b then x ∷ q else q) ++ r
    either true p q r e = ap (λ r. x ∷ r) e
    either false p q r e = e

by-done_by :
    (who who' : ℕ) (xs : List ℕ) → by who (done_by who' xs) ≡ (if who' == who then xs else [])
by-done_by who who' [] = ground arith
by-done_by who who' (x ∷ xs) = elim (Bool-cases (who' == who)) [
  | inl e ↦ rw e (ap (λ r. x ∷ r) (by-done_by who who' xs ∙ rw e))
  | inr n ↦ rw n (by-done_by who who' xs ∙ rw n)
]

handlers-append :
    (table : List (List ℕ)) (xs ys : List ℕ)
    → handlers table (xs ++ ys) ≡ handlers table xs ++ handlers table ys
handlers-append table [] ys = refl
handlers-append table (x ∷ xs) ys =
    ap (λ r. get_or table x [] ++ r) (handlers-append table xs ys)
    ∙ sym (append_assoc (get_or table x []) (handlers table xs) (handlers table ys))

pub handlers-one :
    (table : List (List ℕ)) (xs : List ℕ) (irq : ℕ)
    → handlers table (xs ++ (irq ∷ [])) ≡ handlers table xs ++ get_or table irq []
handlers-one table xs irq =
    handlers-append table xs (irq ∷ []) ∙ ap (λ r. handlers table xs ++ r) (append-nil _)

by-more :
    (who who' : ℕ) (xs : List (ℕ × ℕ)) (ys : List ℕ)
    → by who (xs ++ done_by who' ys) ≡ by who xs ++ (if who' == who then ys else [])
by-more who who' xs ys =
    by-append who xs (done_by who' ys) ∙ ap (λ r. by who xs ++ r) (by-done_by who who' ys)

pub by_other :
    (who who' : ℕ) (xs : List (ℕ × ℕ)) (ys : List ℕ)
    → (who' == who) ≡ false
    → by who (xs ++ done_by who' ys) ≡ by who xs
by_other who who' xs ys n =
    by-more who who' xs ys
    ∙ ap (λ b. by who xs ++ (if b then ys else [])) n
    ∙ append-nil (by who xs)

pub by_same :
    (who : ℕ) (xs : List (ℕ × ℕ)) (ys : List ℕ) → by who (xs ++ done_by who ys) ≡ by who xs ++ ys
by_same who xs ys = by-more who who xs ys ∙ ap (λ b. by who xs ++ (if b then ys else [])) itself
  where
    itself : (who == who) ≡ true
    itself = ground arith
