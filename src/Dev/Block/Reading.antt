-- ===== src/Dev/Block/Reading.antt =====
-- dev/block.c: what `dev_block_read` reads, over the bytes of the medium.
use native.Mathlib.Nat.{div-add-mod', mod-lt, add-mul}
use aexkernel.Prelude.{
  ℕ, zero, suc, ◌+◌, ◌-◌, ◌*◌, ◌/◌, ◌%◌, ◌^◌, ◌<◌, ◌≤◌, min, ◌≡◌, refl, sym, ap, ap₂, ◌∙◌, inl, inr,
  Bool, true, false, Option, some, List, [], ◌∷◌, ◌++◌, ltb, ◌==◌, if◌then◌else◌, Bool-cases,
  ==_iff, length, take, drop, append-nil, tabulate, tabulate_ext, tabulate-add, length-tabulate,
  length-append, subst, arith,
}
use aexkernel.Dev.Block.{
  Reply, Ops, Block, is_error, answer, serve, burst_of, behind, read_loop, dev_block_init,
  dev_block_read,
}

-- The `n` bytes of a medium from `a` on.
abbrev pub slice : (ℕ → ℕ) → ℕ → ℕ → List ℕ
slice disk a n = tabulate n (λ i. disk (a + i))

drop-slice : (disk : ℕ → ℕ) (a k n : ℕ) → drop k (slice disk a (k + n)) ≡ slice disk (a + k) n
drop-slice disk a k n =
    ap (drop k) (tabulate-add k n (k + n) (λ i. disk (a + i)) refl)
    ∙ drop-append k (slice disk a k) (tabulate n (λ i. disk (a + (k + i))))
        (length-tabulate k (λ i. disk (a + i)))
    ∙ tabulate_ext n (λ i. disk (a + (k + i))) (λ i. disk (a + k + i))
        (λ i l. ap disk (omega arith))
  where
    drop-append : (k : ℕ) (xs ys : List ℕ) → length xs ≡ k → drop k (xs ++ ys) ≡ ys
    drop-append zero [] ys e = refl
    drop-append zero (x ∷ xs) ys e = absurd (omega (arith, e))
    drop-append (suc k) [] ys e = absurd (omega (arith, e))
    drop-append (suc k) (x ∷ xs) ys e = drop-append k xs ys (omega (arith, e))

take-append : (k m : ℕ) (xs ys : List ℕ) → length xs ≡ k → take (k + m) (xs ++ ys) ≡ xs ++ take m ys
take-append k m [] ys e = ap (λ n. take n ys) (omega (arith, e))
take-append zero m (x ∷ xs) ys e = absurd (omega (arith, e))
take-append (suc k) m (x ∷ xs) ys e =
    ap (λ n. take n (x ∷ (xs ++ ys))) same
    ∙ ap (λ r. x ∷ r) (take-append k m xs ys (omega (arith, e)))
  where
    same : suc k + m ≡ suc (k + m)
    same = omega arith

slice-add :
    (disk : ℕ → ℕ) (a k m : ℕ) → slice disk a (k + m) ≡ slice disk a k ++ slice disk (a + k) m
slice-add disk a k m =
    tabulate-add k m (k + m) (λ i. disk (a + i)) refl
    ∙ ap (λ r. slice disk a k ++ r)
        (tabulate_ext m (λ i. disk (a + (k + i))) (λ i. disk (a + k + i))
          (λ i l. ap disk (omega arith)))

take-slice : (disk : ℕ → ℕ) (a k n : ℕ) → k ≤ n → take k (slice disk a n) ≡ slice disk a k
take-slice disk a k n h =
    ap₂ (λ i j. take i (slice disk a j)) (omega arith) (omega (arith, h))
    ∙ ap (take (k + 0)) (slice-add disk a k (n - k))
    ∙ take-append k 0 (slice disk a k) (slice disk (a + k) (n - k))
        (length-tabulate k (λ i. disk (a + i)))
    ∙ append-nil (slice disk a k)

-- The medium behind a driver, and a device that it drives: reads succeed and give the medium's bytes.
pub record IsDisk {W : Type 0} (ops : Ops W) (blk : Block) (disk : ℕ → ℕ) : Type 0 where
  pub sectors : 0 < blk.sector_size
  pub size : blk.sector_size ≤ 65536
  pub bursts : 0 < blk.burst_max
  pub ready : blk.initialized ≡ true
  pub succeeds : (sector count : ℕ) (w : W) → is_error (ops.read sector count w).0.ret ≡ false
  pub bytes :
      (sector count : ℕ) (w : W)
      → (ops.read sector count w).0.bytes
        ≡ slice disk (sector * blk.sector_size) (count * blk.sector_size)

mul_pos : (b s : ℕ) → 0 < b → s ≤ b * s
mul_pos zero s h = absurd (omega arith)
mul_pos (suc b) s h = omega (arith, ap (λ n. n * s) (one_more b), add-mul 1 b s)
  where
    one_more : (b : ℕ) → suc b ≡ 1 + b
    one_more b = omega arith

mul_mono : (a b s : ℕ) → a ≤ b → a * s ≤ b * s
mul_mono a b s h = omega (arith, ap (λ n. n * s) split, add-mul a (b - a) s)
  where
    split : b ≡ a + (b - a)
    split = omega (arith, h)

-- A request has at least one sector and no more than are left or than make 65536 bytes.
burst-bounds :
    (blk : Block) (n : ℕ)
    → 0 < blk.sector_size
    → blk.sector_size ≤ 65536
    → 0 < blk.burst_max
    → 0 < n
    → n < 65536
    → (0 < burst_of blk n) × (burst_of blk n ≤ n) × (burst_of blk n * blk.sector_size ≤ 65536)
burst-bounds blk n s t m p q = (
  omega (arith, at_least, m, p, q),
  omega (arith, p, q),
  omega (
    arith,
    whole,
    mul_mono (burst_of blk n) (65536 / blk.sector_size) blk.sector_size (omega (arith, p, q)),
  ),
)
  where
    whole : 65536 / blk.sector_size * blk.sector_size + 65536 % blk.sector_size ≡ 65536
    whole = div-add-mod' 65536 blk.sector_size

    at_least : 0 < 65536 / blk.sector_size
    at_least = elim (Bool-cases (65536 / blk.sector_size == 0)) [
      | inl z ↦ absurd (none_left ((==_iff (65536 / blk.sector_size) 0).0 z))
      | inr z ↦ ground (arith, z)
    ]
      where
        none_left : 65536 / blk.sector_size ≡ 0 → ⊥
        none_left z = omega (arith, whole, ap (λ k. k * blk.sector_size) z, mod-lt 65536 s, t, s)

-- A read that ends without an error, with at least `m` bytes, of which the first `m` are those from
-- `a` on.
abbrev pub Reads : {W : Type 0} → (ℕ → ℕ) → ℕ → ℕ → Option (Reply × W) → Type 0
Reads {W = W} disk a m o =
    (out : List ℕ) × (w : W) × (o ≡ some (record { ret = 0; bytes = out }, w))
    × (m ≤ length out)
    × (take m out ≡ slice disk a m)

take-all : (n : ℕ) (xs : List ℕ) → length xs ≤ n → take n xs ≡ xs
take-all zero [] h = refl
take-all zero (x ∷ xs) h = absurd (omega arith)
take-all (suc n) [] h = refl
take-all (suc n) (x ∷ xs) h = ap (λ r. x ∷ r) (take-all n xs (omega arith))

module _ {W : Type 0} (ops : Ops W) (blk : Block) (disk : ℕ → ℕ) (d : IsDisk ops blk disk) where
  no_sectors :
      (f sector ro len : ℕ) (w : W) → read_loop ops f blk sector 0 ro len w ≡ some (answer 0, w)
  unfolding read_loop
  no_sectors zero sector ro len w = refl
  no_sectors (suc f) sector ro len w = refl

  -- A round that reads `b` sectors.
  read_round :
      (f sector n ro len : ℕ) (w : W)
      → let b = burst_of blk n in
        0 < n
        → b * blk.sector_size ≤ 65536
        → ro ≤ b * blk.sector_size
        → sector + b < 4294967296
        → read_loop ops (suc f) blk sector n ro len w
          ≡ behind ops
              (slice disk (sector * blk.sector_size + ro) (min (b * blk.sector_size - ro) len))
              (read_loop ops f blk (sector + b) (n - b) 0 len (ops.read sector b w).1)
  unfolding read_loop serve
  read_round f sector n ro len w p small r fits =
      rw (nonzero, d.succeeds sector (burst_of blk n) w, read_loop)
        (ap₂
          (λ bs next. behind ops bs (
            read_loop ops f blk next (n - burst_of blk n) 0 len
              (ops.read sector (burst_of blk n) w).1))
          copied (omega (arith, fits)))
    where
      b : ℕ
      b = burst_of blk n

      nonzero : (n == 0) ≡ false
      nonzero = ground (arith, p)

      parts : b * blk.sector_size ≡ ro + (b * blk.sector_size - ro)
      parts = omega (arith, r)

      copied :
          take
            (min ((b * blk.sector_size + 2 ^ 32 - ro) % 2 ^ 32) len)
            (drop ro (ops.read sector b w).0.bytes)
          ≡ slice disk (sector * blk.sector_size + ro) (min (b * blk.sector_size - ro) len)
      copied =
          ap₂ (λ c xs. take c (drop ro xs)) (omega (arith, small, r)) (d.bytes sector b w)
          ∙ ap
              (λ k.
                take (min (b * blk.sector_size - ro) len)
                  (drop ro (slice disk (sector * blk.sector_size) k)))
              parts
          ∙ ap (take (min (b * blk.sector_size - ro) len))
              (drop-slice disk (sector * blk.sector_size) ro (b * blk.sector_size - ro))
          ∙ take-slice disk (sector * blk.sector_size + ro) (min (b * blk.sector_size - ro) len)
              (b * blk.sector_size - ro) (omega arith)

  -- The end: a last round whose bytes cover what is wanted.
  last_round :
      (a c m : ℕ) (w : W)
      → m ≤ c
      → Reads disk a m (behind ops (slice disk a c) (some (answer 0, w)))
  last_round a c m w h = (
    slice disk a c ++ [],
    w,
    refl,
    subst (λ xs. m ≤ length xs) (sym (append-nil (slice disk a c)))
        (omega (arith, h, length-tabulate c (λ i. disk (a + i)))),
    ap (take m) (append-nil (slice disk a c)) ∙ take-slice disk a m c h,
  )

  -- A round before others, all of whose bytes are wanted.
  full_round :
      (a t m : ℕ) (o : Option (Reply × W))
      → t ≤ m
      → Reads disk (a + t) (m - t) o
      → Reads disk a m (behind ops (slice disk a t) o)
  full_round a t m o h (out, w, e, len, same) = (
    slice disk a t ++ out,
    w,
    ap (behind ops (slice disk a t)) e,
    omega
        (arith, length-append (slice disk a t) out, length-tabulate t (λ i. disk (a + i)), len, h),
    ap (λ k. take k (slice disk a t ++ out)) parts
        ∙ take-append t (m - t) (slice disk a t) out (length-tabulate t (λ i. disk (a + i)))
        ∙ ap (λ r. slice disk a t ++ r) same
        ∙ sym (slice-add disk a t (m - t))
        ∙ ap (slice disk a) (sym parts),
  )
    where
      parts : m ≡ t + (m - t)
      parts = omega (arith, h)

  loop_lem :
      (f n sector ro m len : ℕ) (w : W)
      → n ≤ f
      → n < 65536
      → sector + n < 4294967296
      → ro < blk.sector_size
      → m + ro ≤ n * blk.sector_size
      → n * blk.sector_size < m + ro + blk.sector_size
      → m ≤ len
      → 0 < n
      → Reads disk (sector * blk.sector_size + ro) m (read_loop ops f blk sector n ro len w)
  loop_lem zero n sector ro m len w h s g r lo hi l p = absurd (omega (arith, h, p))
  loop_lem (suc f) n sector ro m len w h s g r lo hi l p =
      subst (Reads disk (sector * blk.sector_size + ro) m)
        (sym (
          read_round f sector n ro len w p bounds.2
            (omega (arith, r, mul_pos b blk.sector_size bounds.0)) (omega (arith, g, bounds.1))))
        (elim (Bool-cases (n - b == 0)) [
          | inl z ↦
              subst
                (λ k.
                  Reads disk a m
                    (behind ops (slice disk a c) (read_loop ops f blk (sector + b) k 0 len w1)))
                (sym ((==_iff (n - b) 0).0 z))
                (subst (λ o. Reads disk a m (behind ops (slice disk a c) o))
                  (sym (no_sectors f (sector + b) 0 len w1))
                  (last_round a c m w1 (covers ((==_iff (n - b) 0).0 z))))
          | inr z ↦
              subst
                (λ k.
                  Reads disk a m (
                    behind ops (slice disk a k)
                      (read_loop ops f blk (sector + b) (n - b) 0 len w1)))
                (omega (arith, wanted (left z), l))
                (full_round a t m (read_loop ops f blk (sector + b) (n - b) 0 len w1)
                  (wanted (left z))
                  (subst
                    (λ x. Reads disk x (m - t) (read_loop ops f blk (sector + b) (n - b) 0 len w1))
                    next_place
                    (loop_lem f (n - b) (sector + b) 0 (m - t) len w1 (omega (arith, h, bounds.0))
                      (omega (arith, s)) (omega (arith, g, bounds.1)) d.sectors
                      (omega (arith, lo, shares, at_offset))
                      (omega (arith, hi, shares, at_offset, wanted (left z))) (omega (arith, l))
                      (left z))))
        ])
    where
      b : ℕ
      b = burst_of blk n

      bounds : (0 < b) × (b ≤ n) × (b * blk.sector_size ≤ 65536)
      bounds = burst-bounds blk n d.sectors d.size d.bursts p s

      w1 : W
      w1 = (ops.read sector b w).1

      a : ℕ
      a = sector * blk.sector_size + ro

      t : ℕ
      t = b * blk.sector_size - ro

      c : ℕ
      c = min t len

      left : (n - b == 0) ≡ false → 0 < n - b
      left z = ground (arith, z)

      shares : n * blk.sector_size ≡ b * blk.sector_size + (n - b) * blk.sector_size
      shares = ap (λ k. k * blk.sector_size) split ∙ add-mul b (n - b) blk.sector_size
        where
          split : n ≡ b + (n - b)
          split = omega (arith, bounds.1)

      at_offset : ro ≤ b * blk.sector_size
      at_offset = omega (arith, r, mul_pos b blk.sector_size bounds.0)

      covers : n - b ≡ 0 → m ≤ c
      covers z = omega (arith, lo, l, shares, at_offset, ap (λ k. k * blk.sector_size) z)

      wanted : 0 < n - b → t ≤ m
      wanted q = omega (arith, hi, shares, at_offset, mul_pos (n - b) blk.sector_size q)

      next_place : (sector + b) * blk.sector_size + 0 ≡ a + t
      next_place = omega (arith, add-mul sector b blk.sector_size, at_offset)

  -- On an initialised device whose driver's reads succeed and give the bytes of a medium, with sectors
  -- of at most 65536 bytes: `dev_block_read` of a range that lies in fewer than 65536 sectors below
  -- sector 2^32 ends without an error, in bursts of whatever length the device allows, and the first
  -- `len` bytes that it puts into the buffer are those of the medium from `pos` on. It may put more
  -- bytes behind them.
  pub dev_block_read_lem :
      (pos len : ℕ) (w : W)
      → 0 < len
      → pos % blk.sector_size + len ≤ 65535 * blk.sector_size
      → pos / blk.sector_size < 4294901760
      → Reads disk pos len (dev_block_read ops blk pos len w)
  unfolding dev_block_read
  dev_block_read_lem pos len w p small low = subst (Reads disk pos len) (sym starts) (
      subst (λ a. Reads disk a len (read_loop ops n blk (pos / blk.sector_size) n ro len w))
        (div-add-mod' pos blk.sector_size)
        (loop_lem n n (pos / blk.sector_size) ro len len w (omega arith) few
          (omega (arith, few, low)) (mod-lt pos d.sectors) (omega (arith, whole, rest))
          (omega (arith, whole, d.sectors)) (omega arith) some_sectors))
    where
      ro : ℕ
      ro = pos % blk.sector_size

      n : ℕ
      n = (ro + len + (blk.sector_size - 1)) / blk.sector_size

      whole :
          n * blk.sector_size + (ro + len + (blk.sector_size - 1)) % blk.sector_size
          ≡ ro + len + (blk.sector_size - 1)
      whole = div-add-mod' (ro + len + (blk.sector_size - 1)) blk.sector_size

      rest : (ro + len + (blk.sector_size - 1)) % blk.sector_size < blk.sector_size
      rest = mod-lt (ro + len + (blk.sector_size - 1)) d.sectors

      few : n < 65536
      few = elim (Bool-cases (ltb n 65536)) [
        | inl b ↦ ground (arith, b)
        | inr b ↦ absurd (too_many (ground (arith, b)))
      ]
        where
          too_many : 65536 ≤ n → ⊥
          too_many h = omega (arith, mul_mono 65536 n blk.sector_size h, whole, small, d.sectors)

      some_sectors : 0 < n
      some_sectors = elim (Bool-cases (n == 0)) [
        | inl z ↦ absurd (no_bytes ((==_iff n 0).0 z))
        | inr z ↦ ground (arith, z)
      ]
        where
          no_bytes : n ≡ 0 → ⊥
          no_bytes z = omega (arith, ap (λ k. k * blk.sector_size) z, whole, rest, p, d.sectors)

      nonzero : (len == 0) ≡ false
      nonzero = ground (arith, p)

      starts :
          dev_block_read ops blk pos len w ≡ read_loop ops n blk (pos / blk.sector_size) n ro len w
      starts =
          rw (nonzero, dev_block_read)
            (ap
                (λ (r : Block × W).
                  read_loop ops (n % 2 ^ 32) r.0 (pos / blk.sector_size % 2 ^ 32) (n % 2 ^ 32) ro
                    len r.1)
                (initialized blk.initialized d.ready)
              ∙ ap₂ (λ k sector. read_loop ops k blk sector k ro len w) fits sector_fits)
        where
          fits : n % 2 ^ 32 ≡ n
          fits = omega (arith, few)

          sector_fits : pos / blk.sector_size % 2 ^ 32 ≡ pos / blk.sector_size
          sector_fits = omega (arith, low)

          initialized :
              (b : Bool)
              → b ≡ true
              → ◌≡◌ {A = Block × W}
                  (if b
                    then (blk, w)
                    else ((dev_block_init ops blk w).1, (dev_block_init ops blk w).2))
                  (blk, w)
          initialized b q = rw q
