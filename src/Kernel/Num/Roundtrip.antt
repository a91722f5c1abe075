-- ===== src/Kernel/Num/Roundtrip.antt =====
-- Reading back what the conversions to decimal text write.
use mathlib.Core.List.{reverse, reverse-append}
use native.Mathlib.Nat.{pow-suc, mod-eq_of_lt, add-mod_right}
use aexkernel.Prelude.{
  ℕ, zero, suc, ◌+◌, ◌-◌, ◌*◌, ◌/◌, ◌%◌, ◌^◌, ◌<◌, ◌≤◌, ◌≡◌, refl, ap, ◌∙◌, inl, inr, true, false,
  List, [], ◌∷◌, ◌++◌, leb, ◌==◌, if◌then◌else◌, Bool-cases, arith,
}
use aexkernel.Kernel.Num.{
  digit_up, digit_down, digits_loop, untoa, ntoa, of_char, aton_loop, uaton, aton,
}
use aexkernel.Kernel.Num.Reverse.{turn-reverse}

-- The bytes are decimal digits.
abbrev pub AllDigits : List ℕ → Type 0
AllDigits [] = Unit
AllDigits (x ∷ xs) = ((b'0' ≤ x) × (x ≤ b'9')) × AllDigits xs

AllDigits-append : (xs ys : List ℕ) → AllDigits xs → AllDigits ys → AllDigits (xs ++ ys)
AllDigits-append [] ys a b = b
AllDigits-append (x ∷ xs) ys a b = (a.0, AllDigits-append xs ys a.1 b)

digit_up_lem : (r : ℕ) → r < 10 → digit_up r ≡ 48 + r
digit_up_lem zero h = refl
digit_up_lem (suc zero) h = refl
digit_up_lem (suc (suc zero)) h = refl
digit_up_lem (suc (suc (suc zero))) h = refl
digit_up_lem (suc (suc (suc (suc zero)))) h = refl
digit_up_lem (suc (suc (suc (suc (suc zero))))) h = refl
digit_up_lem (suc (suc (suc (suc (suc (suc zero)))))) h = refl
digit_up_lem (suc (suc (suc (suc (suc (suc (suc zero))))))) h = refl
digit_up_lem (suc (suc (suc (suc (suc (suc (suc (suc zero)))))))) h = refl
digit_up_lem (suc (suc (suc (suc (suc (suc (suc (suc (suc zero))))))))) h = refl
digit_up_lem (suc (suc (suc (suc (suc (suc (suc (suc (suc (suc r)))))))))) h = absurd (omega arith)

digit_down_lem : (r : ℕ) → r < 10 → digit_down r ≡ 48 + r
digit_down_lem zero h = refl
digit_down_lem (suc zero) h = refl
digit_down_lem (suc (suc zero)) h = refl
digit_down_lem (suc (suc (suc zero))) h = refl
digit_down_lem (suc (suc (suc (suc zero)))) h = refl
digit_down_lem (suc (suc (suc (suc (suc zero))))) h = refl
digit_down_lem (suc (suc (suc (suc (suc (suc zero)))))) h = refl
digit_down_lem (suc (suc (suc (suc (suc (suc (suc zero))))))) h = refl
digit_down_lem (suc (suc (suc (suc (suc (suc (suc (suc zero)))))))) h = refl
digit_down_lem (suc (suc (suc (suc (suc (suc (suc (suc (suc zero))))))))) h = refl
digit_down_lem (suc (suc (suc (suc (suc (suc (suc (suc (suc (suc r)))))))))) h =
    absurd (omega arith)

module _ (w : ℕ) where
  aton_loop-snoc :
      (acc : ℕ) (xs : List ℕ) (d : ℕ)
      → AllDigits xs
      → 0 < d
      → aton_loop w acc (xs ++ (d ∷ []))
        ≡ (aton_loop w acc xs * 10 + of_char w d + 2 ^ w - 48) % 2 ^ w
  unfolding aton_loop
  aton_loop-snoc acc [] d a p = ground arith
  aton_loop-snoc acc (x ∷ xs) d a p =
      rw nonzero (aton_loop-snoc ((acc * 10 + of_char w x + 2 ^ w - 48) % 2 ^ w) xs d a.1 p)
    where
      nonzero : (x == 0) ≡ false
      nonzero = ground arith

  one_digit :
      (q r v : ℕ)
      → v ≡ q * 10 + r
      → r < 10
      → v < 2 ^ w
      → (q * 10 + of_char w (48 + r) + 2 ^ w - 48) % 2 ^ w ≡ v
  one_digit q r v e l b = ap (λ k. k % 2 ^ w) no_carry ∙ add-mod_right v (2 ^ w) ∙ mod-eq_of_lt b
    where
      no_carry : q * 10 + of_char w (48 + r) + 2 ^ w - 48 ≡ v + 2 ^ w
      no_carry = ground arith

  module _ (digit : ℕ → ℕ) (decimal : (r : ℕ) → r < 10 → digit r ≡ 48 + r) where
    abbrev rest_digits : ℕ → ℕ → List ℕ
    rest_digits f v = if v / 10 == 0 then [] else digits_loop f digit (v / 10) 10

    reverse_digits :
        (f v : ℕ)
        → reverse (digits_loop (suc f) digit v 10)
          ≡ reverse (rest_digits f v) ++ ((48 + v % 10) ∷ [])
    unfolding digits_loop
    reverse_digits f v =
        reverse-append (digit (v % 10) ∷ []) (rest_digits f v)
        ∙ ap (λ d. reverse (rest_digits f v) ++ (d ∷ [])) (decimal (v % 10) (omega arith))

    rest_read :
        (f v : ℕ)
        → AllDigits (reverse (digits_loop f digit (v / 10) 10))
          × (aton_loop w 0 (reverse (digits_loop f digit (v / 10) 10)) ≡ v / 10)
        → AllDigits (reverse (rest_digits f v))
          × (aton_loop w 0 (reverse (rest_digits f v)) ≡ v / 10)
    unfolding aton_loop
    rest_read f v ih = elim (Bool-cases (v / 10 == 0)) [
      | inl z ↦ rw z (tt, ground arith)
      | inr n ↦ rw n ih
    ]

    -- The digits of `v`, highest first, are decimal and read back as `v`.
    digits_read :
        (f v : ℕ)
        → v < 2 ^ f
        → v < 2 ^ w
        → AllDigits (reverse (digits_loop f digit v 10))
          × (aton_loop w 0 (reverse (digits_loop f digit v 10)) ≡ v)
    unfolding digits_loop aton_loop
    digits_read zero v h b = (tt, omega arith)
    digits_read (suc f) v h b =
        let higher =
          rest_read f v (digits_read f (v / 10) (omega (arith, pow-suc 2 f)) (omega arith)) in
        rw (reverse_digits f v) (
          AllDigits-append (reverse (rest_digits f v)) _ higher.0 ((omega arith, omega arith), tt),
          aton_loop-snoc 0 (reverse (rest_digits f v)) (48 + v % 10) higher.0 (omega arith)
              ∙ ap (λ q. (q * 10 + of_char w (48 + v % 10) + 2 ^ w - 48) % 2 ^ w) higher.1
              ∙ one_digit (v / 10) (v % 10) v (omega arith) (omega arith) b,
        )

-- Decimal text written for an unsigned number of `w` bits reads back as that number: `atoui` after
-- `uitoa` at 32 bits, `atoul` after `ultoa` at 64, `atouh` after `uhtoa` at 16.
pub uaton-untoa : (w v : ℕ) → v < 2 ^ w → uaton w (untoa w v 10) ≡ v
unfolding uaton untoa
uaton-untoa w v b =
    ap (aton_loop w 0) (turn-reverse (digits_loop (suc w) digit_up v 10))
    ∙ (digits_read w digit_up digit_up_lem (suc w) v (omega (arith, pow-suc 2 w)) b).1

pow_pos : (n : ℕ) → 0 < 2 ^ n
pow_pos zero = omega arith
pow_pos (suc n) = omega (arith, pow-suc 2 n, pow_pos n)

aton_digits : (w : ℕ) (xs : List ℕ) → AllDigits xs → aton w xs ≡ aton_loop w 0 xs
unfolding aton aton_loop
aton_digits w [] a = refl
aton_digits w (x ∷ xs) a = ground arith

-- Decimal text written for a signed number of `w` bits, a minus sign before the digits of a negative
-- one, reads back as that number: `atoi` after `itoa` at 32 bits, `atol` after `ltoa` at 64, `atoh`
-- after `htoa` at 16. The smallest number is included.
pub aton-ntoa : (w v : ℕ) → 0 < w → v < 2 ^ w → aton w (ntoa w v 10) ≡ v
unfolding aton ntoa
aton-ntoa w v p b = elim (Bool-cases (leb (2 ^ (w - 1)) v)) [
  | inl n ↦ rw n (
      ap (λ r. (2 ^ w - r) % 2 ^ w)
        (ap (aton_loop w 0) (turn-reverse (digits_loop (suc w) digit_down (2 ^ w - v) 10))
          ∙ (digits_read w digit_down digit_down_lem (suc w) (2 ^ w - v)
              (omega (arith, pow-suc 2 w)) (positive n)).1)
      ∙ ap (λ k. k % 2 ^ w) (omega arith)
      ∙ mod-eq_of_lt b)
  | inr n ↦
      rw n (
        ap (aton w) (turn-reverse (digits_loop (suc w) digit_up v 10))
        ∙ aton_digits w _ up.0
        ∙ up.1)
]
  where
    positive : leb (2 ^ (w - 1)) v ≡ true → 2 ^ w - v < 2 ^ w
    positive n = ground (arith, pow_pos (w - 1), pow_pos w)

    up :
        AllDigits (reverse (digits_loop (suc w) digit_up v 10))
        × (aton_loop w 0 (reverse (digits_loop (suc w) digit_up v 10)) ≡ v)
    up = digits_read w digit_up digit_up_lem (suc w) v (omega (arith, pow-suc 2 w)) b
