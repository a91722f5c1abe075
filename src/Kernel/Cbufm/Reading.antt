-- ===== src/Kernel/Cbufm/Reading.antt =====
-- A reader that has kept up reads what is written next.
use aexkernel.Prelude.{
  ℕ, zero, suc, ◌+◌, ◌-◌, ◌<◌, ◌≤◌, ◌≡◌, refl, sym, ap, ap₂, ◌∙◌, Bool, true, false, none, some,
  List, [], ◌∷◌, ◌++◌, ltb, leb, ◌==◌, if◌then◌else◌, get_or, take, length, tabulate, tabulate_ext,
  tabulate-add, tabulate-get_or, arith, sub_size,
}
use aexkernel.Kernel.Cbuf.{memcpy_from}
use aexkernel.Kernel.Cbuf.Ring.{memcpy_from-tabulate}
use aexkernel.Kernel.Cbufm.{
  Cbufm, smaller, advance, read_possible, behind, read_loop, cbufm_read, cbufm_write, cbufm_sync,
}
use aexkernel.Kernel.Cbufm.Broadcast.{IsValid, offset, wrap, advance_lem, write_loop_lem}

-- The number of bytes from a reader's position to the writer's.
abbrev pub ahead : Cbufm → ℕ → ℕ
ahead c start = if leb start c.write_ptr then c.write_ptr - start else c.size - start + c.write_ptr

record Round (c : Cbufm) (start len n : ℕ) : Type 0 where
  some_bytes : 0 < n
  in_block : start + n ≤ c.size
  in_request : n ≤ len

read_possible-Round :
    (c : Cbufm) (start len : ℕ)
    → IsValid c
    → start < c.size
    → 0 < len
    → len ≤ ahead c start
    → Round c start len (read_possible c start len)
unfolding read_possible smaller
read_possible-Round c start len v l p h = ground (arith, v.write_in, v.small)

abbrev bytes_from : Cbufm → ℕ → ℕ → List ℕ
bytes_from c start len = tabulate len (λ i. get_or c.buffer (wrap c.size (start + i)) 0)

if_false : {A : Type 0} (b : Bool) (x y : A) → b ≡ false → (if b then x else y) ≡ y
if_false true x y e = absurd (true-ne-false e)
  where
    true-ne-false : true ≡ false → ⊥
    true-ne-false e = cc
if_false false x y e = refl

module _ (c : Cbufm) (v : IsValid c) where
  joined :
      (start len n : ℕ)
      → Round c start len n
      → start < c.size
      → len ≤ ahead c start
      → memcpy_from c.buffer start n ++ bytes_from c (wrap c.size (start + n)) (len - n)
        ≡ bytes_from c start len
  joined start len n r l h =
      ap (λ b. b ++ bytes_from c (wrap c.size (start + n)) (len - n))
        (memcpy_from-tabulate c.buffer start n
          ∙ tabulate_ext n _ _ (λ i p. ap (λ j. get_or c.buffer j 0) (straight i p)))
      ∙ sym (
          tabulate-add n (len - n) len _ (omega (arith, r.in_request))
          ∙ ap (λ b. tabulate n (λ i. get_or c.buffer (wrap c.size (start + i)) 0) ++ b)
              (tabulate_ext (len - n) _ _ (λ i p. ap (λ j. get_or c.buffer j 0) (round i p))))
    where
      straight : (i : ℕ) → i < n → start + i ≡ wrap c.size (start + i)
      straight i p = ground (arith, r.in_block)

      round :
          (i : ℕ)
          → i < len - n
          → wrap c.size (start + (n + i)) ≡ wrap c.size (wrap c.size (start + n) + i)
      round i p = ground (arith, r.in_block, r.some_bytes, h, l, v.write_in)

  read_loop_lem :
      (fuel start len : ℕ)
      → start < c.size
      → len ≤ ahead c start
      → len < fuel
      → read_loop fuel c start len ≡ some (bytes_from c start len, wrap c.size (start + len))
  unfolding read_loop
  read_loop_lem zero start len l h f = absurd (omega arith)
  read_loop_lem (suc fuel) start zero l h f = ap (λ s. some ([], s)) (ground arith)
  read_loop_lem (suc fuel) start (suc len) l h f =
      let n = read_possible c start (suc len) in
      let r = read_possible-Round c start (suc len) v l (omega arith) h in
      if_false (n == 0) none
        (behind (memcpy_from c.buffer start n)
          (read_loop fuel c (advance c.size start n) (sub_size (suc len) n)))
        (not_none n r)
      ∙ ap (behind (memcpy_from c.buffer start n)) (
          ap₂ (read_loop fuel c) (moved_on n r) (rest_len n r)
          ∙ read_loop_lem fuel (wrap c.size (start + n)) (suc len - n) (in_range n r) (still n r)
              (less n r))
      ∙ ap₂ (λ b s. some (b, s)) (joined start (suc len) n r l h) (goal_ptr n r)
    where
      not_none : (n : ℕ) → Round c start (suc len) n → (n == 0) ≡ false
      not_none n r = ground (arith, r.some_bytes)

      moved_on :
          (n : ℕ) → Round c start (suc len) n → advance c.size start n ≡ wrap c.size (start + n)
      moved_on n r = advance_lem c.size start n r.in_block (omega (arith, v.write_in)) v.small

      rest_len : (n : ℕ) → Round c start (suc len) n → sub_size (suc len) n ≡ suc len - n
      rest_len n r = ground (arith, r.in_request, h, v.small, v.write_in)

      in_range : (n : ℕ) → Round c start (suc len) n → wrap c.size (start + n) < c.size
      in_range n r = ground (arith, r.in_block, v.write_in)

      still : (n : ℕ) → Round c start (suc len) n → suc len - n ≤ ahead c (wrap c.size (start + n))
      still n r = ground (arith, r.in_block, r.in_request, r.some_bytes, h, l, v.write_in)

      less : (n : ℕ) → Round c start (suc len) n → suc len - n < fuel
      less n r = omega (arith, r.some_bytes, f)

      goal_ptr :
          (n : ℕ)
          → Round c start (suc len) n
          → wrap c.size (wrap c.size (start + n) + (suc len - n)) ≡ wrap c.size (start + suc len)
      goal_ptr n r = ground (arith, r.in_block, r.in_request, v.write_in, l)

-- The buffer after a write of fewer bytes than its size, and what a reader that was at the writer's
-- position then reads.
abbrev pub Broadcast : Cbufm → List ℕ → Type 0
Broadcast c src =
    (c' : Cbufm) × (cbufm_write c src ≡ some c')
    × IsValid c'
    × (cbufm_read c' (cbufm_sync c) (length src) ≡ some (src, cbufm_sync c'))

take_all : (xs : List ℕ) → take (length xs) xs ≡ xs
take_all [] = refl
take_all (x ∷ xs) = ap (λ r. x ∷ r) (take_all xs)

-- `cbufm_write` of fewer bytes than the buffer's size ends and leaves a valid buffer. A reader that
-- took its position by `cbufm_sync` before then reads just the bytes written, in their order, without
-- waiting, and its new position is the writer's.
pub cbufm_read-cbufm_write :
    (c : Cbufm) (src : List ℕ) → IsValid c → length src < c.size → Broadcast c src
unfolding cbufm_read cbufm_write cbufm_sync
cbufm_read-cbufm_write c src v h =
    let (c', e, (v', same, ptr, law)) =
      write_loop_lem (suc (length src)) c src v (omega arith) (omega arith) in
    (
      c',
      e,
      v',
      read_loop_lem c' v' (suc (length src)) c.write_ptr (length src)
            (omega (arith, same, v.write_in)) (ground (arith, same, ptr, h, v.write_in))
            (omega arith)
          ∙ ap₂ (λ b s. some (b, s)) (read_back c' same law)
              (sym (ptr ∙ ap (λ z. wrap z (c.write_ptr + length src)) (sym same))),
    )
  where
    read_back :
        (c' : Cbufm)
        → c'.size ≡ c.size
        → ((j : ℕ)
            → j < c.size
            → get_or c'.buffer j 0 ≡ (
                if ltb (offset c.size c.write_ptr j) (length src)
                then get_or src (offset c.size c.write_ptr j) 0
                else get_or c.buffer j 0))
        → bytes_from c' c.write_ptr (length src) ≡ src
    read_back c' same law =
        tabulate_ext (length src) _ _ (λ i l. written i l)
        ∙ tabulate-get_or (length src) src 0 (omega arith)
        ∙ take_all src
      where
        back :
            (i : ℕ) → i < length src → offset c.size c.write_ptr (wrap c.size (c.write_ptr + i)) ≡ i
        back i l = ground (arith, v.write_in, h)

        written :
            (i : ℕ)
            → i < length src
            → get_or c'.buffer (wrap c'.size (c.write_ptr + i)) 0 ≡ get_or src i 0
        written i l =
            ap (λ z. get_or c'.buffer (wrap z (c.write_ptr + i)) 0) same
            ∙ law (wrap c.size (c.write_ptr + i)) (ground (arith, v.write_in, h))
            ∙ ap
                (λ o.
                  if ltb o (length src)
                  then get_or src o 0
                  else get_or c.buffer (wrap c.size (c.write_ptr + i)) 0)
                (back i l)
            ∙ ground arith
