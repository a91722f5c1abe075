-- ===== src/Kernel/Cbufm/Broadcast.antt =====
-- What a writer writes is what every reader that has kept up reads.
use aexkernel.Prelude.{
  ℕ, zero, suc, ◌+◌, ◌-◌, ◌<◌, ◌≤◌, ◌≡◌, refl, ap, ◌∙◌, ◌⊎◌, inl, inr, true, false, ◌&&◌, some,
  List, [], ◌∷◌, ltb, leb, if◌then◌else◌, Bool-cases, get_or, take, drop, length, length-take,
  length-drop, arith, sub_size,
}
use aexkernel.Kernel.Cbuf.{memcpy_to}
use aexkernel.Kernel.Cbuf.Ring.{length-memcpy_to, memcpy_to_out, memcpy_to_in}
use aexkernel.Kernel.Cbufm.{Cbufm, smaller, advance, write_loop}

pub record IsValid (c : Cbufm) : Type 0 where
  pub storage : c.size ≤ length c.buffer
  pub small : c.size < 9223372036854775808
  pub write_in : c.write_ptr < c.size

-- How far behind `p` an index lies, going round.
abbrev pub offset : ℕ → ℕ → ℕ → ℕ
offset size p j = if leb p j then j - p else size - p + j

abbrev pub wrap : ℕ → ℕ → ℕ
wrap size k = if ltb k size then k else k - size

get_or-take : (n i : ℕ) (xs : List ℕ) → i < n → get_or (take n xs) i 0 ≡ get_or xs i 0
get_or-take zero i xs h = absurd (omega arith)
get_or-take (suc n) i [] h = refl
get_or-take (suc n) zero (x ∷ xs) h = refl
get_or-take (suc n) (suc i) (x ∷ xs) h = get_or-take n i xs (omega arith)

suc_out : (n i : ℕ) → suc (n + i) ≡ suc n + i
suc_out n i = omega arith

get_or-drop : (n i : ℕ) (xs : List ℕ) → get_or (drop n xs) i 0 ≡ get_or xs (n + i) 0
get_or-drop zero i xs = ap (λ j. get_or xs j 0) (omega arith)
get_or-drop (suc n) i [] = refl
get_or-drop (suc n) i (x ∷ xs) = get_or-drop n i xs ∙ ap (λ j. get_or (x ∷ xs) j 0) (suc_out n i)

-- The bytes after a copy of the first `n` of `src`.
get_or-memcpy_to :
    (dst : List ℕ) (off n j : ℕ) (src : List ℕ)
    → off + n ≤ length dst
    → n ≤ length src
    → get_or (memcpy_to dst off (take n src)) j 0
      ≡ (if leb off j && ltb j (off + n) then get_or src (j - off) 0 else get_or dst j 0)
get_or-memcpy_to dst off n j src h l = elim (Bool-cases (leb off j && ltb j (off + n))) [
  | inl b ↦ rw b (
      memcpy_to_in dst off (take n src) (j - off) j (omega (arith, chunk)) (inside b) (back b)
      ∙ get_or-take n (j - off) src (below b))
  | inr b ↦ rw b (memcpy_to_out dst off (take n src) j (omega (arith, chunk)) (beside b))
]
  where
    chunk : length (take n src) ≡ n
    chunk = omega (arith, length-take n src)

    below : (leb off j && ltb j (off + n)) ≡ true → j - off < n
    below b = ground arith

    inside : (leb off j && ltb j (off + n)) ≡ true → j - off < length (take n src)
    inside b = omega (arith, chunk, below b)

    back : (leb off j && ltb j (off + n)) ≡ true → j ≡ off + (j - off)
    back b = ground arith

    beside : (leb off j && ltb j (off + n)) ≡ false → (j < off) ⊎ (off + length (take n src) ≤ j)
    beside b = ground (arith, chunk)

-- After a write of at most `size` bytes the buffer holds them from the old `write_ptr` on, going
-- round, and its other bytes as before.
abbrev pub Written : Cbufm → List ℕ → Cbufm → Type 0
Written c src c' =
    IsValid c'
    × (c'.size ≡ c.size)
    × (c'.write_ptr ≡ wrap c.size (c.write_ptr + length src))
    × ((j : ℕ)
        → j < c.size
        → get_or c'.buffer j 0 ≡ (
            if ltb (offset c.size c.write_ptr j) (length src)
            then get_or src (offset c.size c.write_ptr j) 0
            else get_or c.buffer j 0))

pub advance_lem :
    (size p n : ℕ)
    → p + n ≤ size
    → 0 < size
    → size < 9223372036854775808
    → advance size p n ≡ wrap size (p + n)
unfolding advance
advance_lem size p n h z b = ground arith

-- What one round of the loop of `cbufm_write` moves.
record Round (c : Cbufm) (k n : ℕ) : Type 0 where
  some_bytes : 0 < n
  in_block : c.write_ptr + n ≤ c.size
  in_request : n ≤ k
  whole : (n ≡ k) ⊎ (c.write_ptr + n ≡ c.size)

smaller-Round :
    (c : Cbufm) (k : ℕ) → IsValid c → 0 < k → Round c k (smaller (sub_size c.size c.write_ptr) k)
unfolding smaller
smaller-Round c k v h = ground (arith, v.write_in, v.small)

module _ (c : Cbufm) (src : List ℕ) (n : ℕ) (v : IsValid c) (r : Round c (length src) n)
    (h : length src ≤ c.size) where
  abbrev after : Cbufm
  after = record c {
    write_ptr = advance c.size c.write_ptr n;
    buffer = memcpy_to c.buffer c.write_ptr (take n src);
  }

  moved_on : after.write_ptr ≡ wrap c.size (c.write_ptr + n)
  moved_on = advance_lem c.size c.write_ptr n r.in_block (omega (arith, v.write_in)) v.small

  after-IsValid : IsValid after
  after-IsValid = record {
    storage = omega (arith, length-memcpy_to c.buffer c.write_ptr (take n src), v.storage);
    small = v.small;
    write_in = ground (arith, moved_on, r.in_block, v.write_in, r.some_bytes);
  }

  left : length (drop n src) ≡ length src - n
  left = length-drop n src

  after-Written : (c' : Cbufm) → Written after (drop n src) c' → Written c src c'
  after-Written c' (v', same, ptr, law) = (v', same, ptr', law')
    where
      o : ℕ → ℕ
      o j = offset c.size c.write_ptr j

      o1 : ℕ → ℕ
      o1 j = offset c.size after.write_ptr j

      copied :
          (j : ℕ)
          → j < c.size
          → (leb c.write_ptr j && ltb j (c.write_ptr + n)) ≡ true
          → (o j ≡ j - c.write_ptr) × (o j < length src) × (length src ≤ o1 j + n)
      copied j l b = ground (arith, moved_on, r.in_block, r.in_request, v.write_in, h)

      kept :
          (j : ℕ)
          → j < c.size
          → (leb c.write_ptr j && ltb j (c.write_ptr + n)) ≡ false
          → n + o1 j ≡ o j
      kept j l b = ground (arith, moved_on, r.in_block, r.some_bytes, v.write_in)

      Joined : ℕ → Type 0
      Joined j =
          (if ltb (o1 j) (length (drop n src))
            then get_or (drop n src) (o1 j) 0
            else get_or after.buffer j 0)
          ≡ (if ltb (o j) (length src) then get_or src (o j) 0 else get_or c.buffer j 0)

      Copied : ℕ → Type 0
      Copied j = get_or after.buffer j 0 ≡ (
          if leb c.write_ptr j && ltb j (c.write_ptr + n)
          then get_or src (j - c.write_ptr) 0
          else get_or c.buffer j 0)

      now :
          (j : ℕ)
          → (o j ≡ j - c.write_ptr) × (o j < length src) × (length src ≤ o1 j + n)
          → Copied j
          → (leb c.write_ptr j && ltb j (c.write_ptr + n)) ≡ true
          → Joined j
      now j (e, p, q) w b = let same = ap (λ k. get_or src k 0) e in ground (arith, left)

      later :
          (j : ℕ)
          → n + o1 j ≡ o j
          → get_or (drop n src) (o1 j) 0 ≡ get_or src (n + o1 j) 0
          → Copied j
          → (leb c.write_ptr j && ltb j (c.write_ptr + n)) ≡ false
          → Joined j
      later j e d w b = let same = ap (λ k. get_or src k 0) e in ground (arith, left)

      ptr' : c'.write_ptr ≡ wrap c.size (c.write_ptr + length src)
      ptr' = ptr ∙ ground (arith, moved_on, left, r.in_block, r.in_request, r.whole, v.write_in, h)

      law' :
          (j : ℕ)
          → j < c.size
          → get_or c'.buffer j 0 ≡ (
              if ltb (offset c.size c.write_ptr j) (length src)
              then get_or src (offset c.size c.write_ptr j) 0
              else get_or c.buffer j 0)
      law' j l = law j l ∙ elim (Bool-cases (leb c.write_ptr j && ltb j (c.write_ptr + n))) [
        | inl b ↦
            now j (copied j l b)
              (get_or-memcpy_to c.buffer c.write_ptr n j src (omega (arith, r.in_block, v.storage))
                r.in_request)
              b
        | inr b ↦
            later j (kept j l b) (get_or-drop n (o1 j) src)
              (get_or-memcpy_to c.buffer c.write_ptr n j src (omega (arith, r.in_block, v.storage))
                r.in_request)
              b
      ]

pub write_loop_lem :
    (fuel : ℕ) (c : Cbufm) (src : List ℕ)
    → IsValid c
    → length src ≤ c.size
    → length src < fuel
    → (c' : Cbufm) × (write_loop fuel c src ≡ some c') × Written c src c'
unfolding write_loop
write_loop_lem zero c src v h f = absurd (omega arith)
write_loop_lem (suc fuel) c [] v h f =
    (c, refl, (v, refl, ground (arith, v.write_in), λ j l. ground arith))
write_loop_lem (suc fuel) c (x ∷ src) v h f =
    let n = smaller (sub_size c.size c.write_ptr) (length (x ∷ src)) in
    let r = smaller-Round c (length (x ∷ src)) v (omega arith) in
    let (c', e, w) =
      write_loop_lem fuel (after c (x ∷ src) n v r h) (drop n (x ∷ src))
        (after-IsValid c (x ∷ src) n v r h) (omega (arith, left c (x ∷ src) n v r h))
        (omega (arith, left c (x ∷ src) n v r h, r.some_bytes)) in
    (c', e, after-Written c (x ∷ src) n v r h c' w)
