-- ===== src/Bits.antt =====
-- Single binary digits of numbers, and what the C operators `&`, `|` and `~` do to them.
use Prim.Native.Nat.{bit_and, bit_or, max, digits, bitwise, bit_and-bitwise, bit_or-bitwise}
use native.Mathlib.Nat.{pow-suc, mod-eq_of_lt, mul-add-mod_self_left, div-add-mod, mod-lt}
use aexkernel.Prelude.{
  ℕ, zero, suc, ◌+◌, ◌-◌, ◌*◌, ◌/◌, ◌%◌, ◌^◌, ◌<◌, ◌≤◌, min, ◌≡◌, refl, sym, ap, ◌∙◌, ◌==◌,
  if◌then◌else◌, arith,
}

-- The digit of `a` in place `k`, lowest first.
unfoldable pub bit : ℕ → ℕ → ℕ
bit a zero = a % 2
bit a (suc k) = bit (a / 2) k

-- A bitwise operation `f` on digits; `z b` is its result on 0 and `b`.
module _ (z : ℕ → ℕ) (f : ℕ → ℕ → ℕ) where
  digits-zero : (fuel b : ℕ) → digits z f fuel 0 b ≡ z b
  digits-zero zero b = refl
  digits-zero (suc fuel) b = refl

  -- Two counts of digits that both cover the first number give the same result.
  digits_enough : (k a l b : ℕ) → a ≤ k → a ≤ l → digits z f k a b ≡ digits z f l a b
  digits_enough k zero l b h h' = digits-zero k b ∙ sym (digits-zero l b)
  digits_enough zero (suc a) l b h h' = absurd (omega arith)
  digits_enough (suc k) (suc a) zero b h h' = absurd (omega arith)
  digits_enough (suc k) (suc a) (suc l) b h h' =
      let higher = digits_enough k (suc a / 2) l (b / 2) (omega arith) (omega arith) in
      ap (λ r. r * 2 + f (suc a % 2) (b % 2)) higher

  bitwise_halves :
      ((b : ℕ) → z b ≡ z (b / 2) * 2 + f 0 (b % 2))
      → (a b : ℕ) → bitwise z f a b ≡ bitwise z f (a / 2) (b / 2) * 2 + f (a % 2) (b % 2)
  bitwise_halves none_left zero b = none_left b
  bitwise_halves none_left (suc a) b =
      let higher = digits_enough a (suc a / 2) (suc a / 2) (b / 2) (omega arith) (omega arith) in
      ap (λ r. r * 2 + f (suc a % 2) (b % 2)) higher

bit_and-halves : (a b : ℕ) → min (a % 2) (b % 2) + 2 * bit_and (a / 2) (b / 2) ≡ bit_and a b
bit_and-halves a b =
    let law = bitwise_halves (λ b. 0) min (λ b. omega arith) a b in
    omega (arith, law, bit_and-bitwise a b, bit_and-bitwise (a / 2) (b / 2))

bit_or-halves : (a b : ℕ) → max (a % 2) (b % 2) + 2 * bit_or (a / 2) (b / 2) ≡ bit_or a b
bit_or-halves a b =
    let law = bitwise_halves (λ b. b) max (λ b. omega arith) a b in
    omega (arith, law, bit_or-bitwise a b, bit_or-bitwise (a / 2) (b / 2))

pub bit-le-one : (a k : ℕ) → bit a k ≤ 1
unfolding bit
bit-le-one a zero = omega arith
bit-le-one a (suc k) = bit-le-one (a / 2) k

pub bit-bit_and : (a b k : ℕ) → bit (bit_and a b) k ≡ min (bit a k) (bit b k)
unfolding bit
bit-bit_and a b zero = omega (arith, bit_and-halves a b)
bit-bit_and a b (suc k) =
    ap (λ r. bit r k) (omega (arith, bit_and-halves a b)) ∙ bit-bit_and (a / 2) (b / 2) k

pub bit-bit_or : (a b k : ℕ) → bit (bit_or a b) k ≡ max (bit a k) (bit b k)
unfolding bit
bit-bit_or a b zero = omega (arith, bit_or-halves a b)
bit-bit_or a b (suc k) =
    ap (λ r. bit r k) (omega (arith, bit_or-halves a b)) ∙ bit-bit_or (a / 2) (b / 2) k

no_digits : (bound a : ℕ) → a < bound → bit_and a 0 ≡ 0
no_digits zero a h = absurd (omega arith)
no_digits (suc bound) zero h = refl
no_digits (suc bound) (suc a) h =
    let higher = no_digits bound (suc a / 2) (omega arith) in
    omega (arith, higher, bit_and-halves (suc a) 0)

-- `a & (1 << k)` is the digit in place `k`, in that place.
pub bit_and-pow : (a k : ℕ) → bit_and a (2 ^ k) ≡ 2 ^ k * bit a k
unfolding bit
bit_and-pow a zero = omega (arith, bit_and-halves a 1, no_digits (suc a) (a / 2) (omega arith))
bit_and-pow a (suc k) =
    ap (bit_and a) (pow-suc 2 k)
    ∙ sym (bit_and-halves a (2 ^ k * 2))
    ∙ ap (λ r. min (a % 2) ((2 ^ k * 2) % 2) + 2 * bit_and (a / 2) r) (omega arith)
    ∙ ap (λ r. min (a % 2) ((2 ^ k * 2) % 2) + 2 * r) (bit_and-pow (a / 2) k)
    ∙ omega (arith, ap (λ t. t * bit (a / 2) k) (pow-suc 2 k))

bit-zero : (k : ℕ) → bit 0 k ≡ 0
unfolding bit
bit-zero zero = refl
bit-zero (suc k) = bit-zero k

pub bit-pow : (k j : ℕ) → bit (2 ^ k) j ≡ (if k == j then 1 else 0)
unfolding bit
bit-pow zero zero = refl
bit-pow zero (suc j) = bit-zero j ∙ ground arith
bit-pow (suc k) zero = let even : 2 ^ suc k % 2 ≡ 0 = omega (arith, pow-suc 2 k) in ground arith
bit-pow (suc k) (suc j) =
    ap (λ r. bit r j) (omega (arith, pow-suc 2 k)) ∙ bit-pow k j ∙ ground arith

pub pow_pos : (n : ℕ) → 0 < 2 ^ n
pow_pos zero = omega arith
pow_pos (suc n) = omega (arith, pow-suc 2 n, pow_pos n)

pow_le : (k n : ℕ) → k < n → 2 ^ k * 2 ≤ 2 ^ n
pow_le k zero h = absurd (omega arith)
pow_le zero (suc n) h = omega (arith, pow-suc 2 n, pow_pos n)
pow_le (suc k) (suc n) h =
    omega (arith, pow-suc 2 n, pow-suc 2 k, pow_pos k, pow_le k n (omega arith))

bit-ones : (n j : ℕ) → j < n → bit (2 ^ n - 1) j ≡ 1
unfolding bit
bit-ones zero j h = absurd (omega arith)
bit-ones (suc n) zero h = omega (arith, pow-suc 2 n, pow_pos n)
bit-ones (suc n) (suc j) h =
    ap (λ r. bit r j) (omega (arith, pow-suc 2 n, pow_pos n)) ∙ bit-ones n j (omega arith)

-- The digits of `~(1 << k)`, in a word of `n` bits.
pub bit-not_pow :
    (n k j : ℕ) → k < n → j < n → bit (2 ^ n - 1 - 2 ^ k) j ≡ (if k == j then 0 else 1)
unfolding bit
bit-not_pow zero k j h l = absurd (omega arith)
bit-not_pow (suc n) zero zero h l =
    let even : (2 ^ suc n - 1 - 1) % 2 ≡ 0 = omega (arith, pow-suc 2 n, pow_pos n) in even
bit-not_pow (suc n) zero (suc j) h l =
    ap (λ r. bit r j) (omega (arith, pow-suc 2 n, pow_pos n))
    ∙ bit-ones n j (omega arith)
    ∙ ground arith
bit-not_pow (suc n) (suc k) zero h l =
    let odd : (2 ^ suc n - 1 - 2 ^ suc k) % 2 ≡ 1 =
      omega (arith, pow-suc 2 n, pow-suc 2 k, pow_pos k, pow_le k n (omega arith)) in
    ground arith
bit-not_pow (suc n) (suc k) (suc j) h l =
    ap (λ r. bit r j) (omega (arith, pow-suc 2 n, pow-suc 2 k, pow_pos k, pow_le k n (omega arith)))
    ∙ bit-not_pow n k j (omega arith) (omega arith)
    ∙ ground arith

-- Halving a remainder by an even number.
half-mod : (a m : ℕ) → 0 < m → (a % (m * 2)) / 2 ≡ (a / 2) % m
half-mod a m p =
    let r = a % (m * 2) in
    let q = a / (m * 2) in
    let small : r < m * 2 = mod-lt a (omega arith) in
    let parts : a / 2 ≡ m * q + r / 2 = grind (arith, div-add-mod a (m * 2)) in
    sym (ap (λ k. k % m) parts ∙ mul-add-mod_self_left m q (r / 2) ∙ mod-eq_of_lt (omega arith))

mod-even : (a m : ℕ) → 0 < m → (a % (m * 2)) % 2 ≡ a % 2
mod-even a m p =
    let e : a ≡ m * 2 * (a / (m * 2)) + a % (m * 2) = sym (div-add-mod a (m * 2)) in omega arith

-- Cutting a number down to `n` digits leaves those digits alone.
pub bit-mod : (a n k : ℕ) → k < n → bit (a % 2 ^ n) k ≡ bit a k
unfolding bit
bit-mod a zero k h = absurd (omega arith)
bit-mod a (suc n) zero h = ap (λ m. (a % m) % 2) (pow-suc 2 n) ∙ mod-even a (2 ^ n) (pow_pos n)
bit-mod a (suc n) (suc k) h =
    ap (λ m. bit ((a % m) / 2) k) (pow-suc 2 n)
    ∙ ap (λ r. bit r k) (half-mod a (2 ^ n) (pow_pos n))
    ∙ bit-mod (a / 2) n k (omega arith)
