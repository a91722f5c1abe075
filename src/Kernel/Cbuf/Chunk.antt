-- ===== src/Kernel/Cbuf/Chunk.antt =====
-- One pass of `cbuf_read` takes the front of the bytes held, one of `cbuf_write` adds behind them.
use aexkernel.Prelude.{
  ℕ, zero, suc, ◌+◌, ◌≤◌, ◌<◌, ◌≡◌, refl, sym, ap, ap₂, ◌∙◌, ◌⊎◌, inl, inr, Bool-cases, List, [],
  ◌∷◌, ◌++◌, ◌==◌, get_or, take, length, length-take, length-drop, take-append-drop, append_assoc,
  tabulate_ext, tabulate-add, tabulate-get_or, arith,
}
use aexkernel.Kernel.Cbuf.{
  Cbuf, Pass, waiting, moved, memcpy_to, memcpy_from, read_possible, write_possible, advance,
  read_pass, write_pass,
}
use aexkernel.Kernel.Cbuf.Ring.{
  IsValid, wrap, held, contents, memcpy_from-tabulate, length-memcpy_to, memcpy_to_out,
  memcpy_to_in,
}

-- `possible` of a read: it fits the bytes held, the way to the end of the block and the request,
-- and is zero only where nothing is held or wanted.
record ReadBound (c : Cbuf) (len n : ℕ) : Type 0 where
  in_held : n ≤ held c
  in_block : c.read_ptr + n ≤ c.size
  in_request : n ≤ len
  progress : n ≡ 0 → (held c ≡ 0) ⊎ (len ≡ 0)

read_possible-ReadBound : {c : Cbuf} (len : ℕ) → IsValid c → ReadBound c len (read_possible c len)
unfolding read_possible
read_possible-ReadBound len v = ground arith

record WriteBound (c : Cbuf) (len n : ℕ) : Type 0 where
  in_room : held c + n < c.size
  in_block : c.write_ptr + n ≤ c.size
  in_request : n ≤ len
  progress : n ≡ 0 → (held c + 1 ≡ c.size) ⊎ (len ≡ 0)

write_possible-WriteBound :
    {c : Cbuf} (len : ℕ) → IsValid c → WriteBound c len (write_possible c len)
unfolding write_possible
write_possible-WriteBound len v = ground arith

advance_in :
    (size p n : ℕ)
    → p + n ≤ size
    → 0 < size
    → size < 9223372036854775808
    → (advance size p n ≡ wrap size (p + n)) × (advance size p n < size)
unfolding advance
advance_in size p n h z b = ground arith

take_all : (n : ℕ) (xs : List ℕ) → length xs ≡ n → take n xs ≡ xs
take_all zero [] e = refl
take_all zero (x ∷ xs) e = absurd (omega arith)
take_all (suc n) [] e = refl
take_all (suc n) (x ∷ xs) e = ap (λ r. x ∷ r) (take_all n xs (omega arith))

module _ {c : Cbuf} (v : IsValid c) (n : ℕ) where
  abbrev after_read : Cbuf
  after_read = record c { read_ptr = advance c.size c.read_ptr n }

  module _ (h : n ≤ held c) (b : c.read_ptr + n ≤ c.size) where
    after_read-IsValid : IsValid after_read
    after_read-IsValid = omega (arith, advance_in c.size c.read_ptr n b (omega arith) v.small)

    held-after_read : held c ≡ n + held after_read
    unfolding advance
    held-after_read = ground arith

    contents-after_read : contents c ≡ memcpy_from c.buffer c.read_ptr n ++ contents after_read
    unfolding advance
    contents-after_read =
        tabulate-add n (held after_read) (held c) _ held-after_read
        ∙ ap₂ ◌++◌
            (tabulate_ext n _ _ (λ i l. ap (λ j. get_or c.buffer j 0) (ground arith))
              ∙ sym (memcpy_from-tabulate c.buffer c.read_ptr n))
            (tabulate_ext (held after_read) _ _
              (λ i l. ap (λ j. get_or c.buffer j 0) (ground (arith, held-after_read))))

module _ {c : Cbuf} (v : IsValid c) (n : ℕ) (src : List ℕ) where
  abbrev after_write : Cbuf
  after_write = record c {
    write_ptr = advance c.size c.write_ptr n;
    buffer = memcpy_to c.buffer c.write_ptr (take n src);
  }

  module _ (h : held c + n < c.size) (b : c.write_ptr + n ≤ c.size) (l : n ≤ length src) where
    length-chunk : length (take n src) ≡ n
    length-chunk = omega (arith, length-take n src)

    after_write-IsValid : IsValid after_write
    after_write-IsValid = omega (
      arith,
      advance_in c.size c.write_ptr n b (omega arith) v.small,
      length-memcpy_to c.buffer c.write_ptr (take n src),
    )

    held-after_write : held after_write ≡ held c + n
    unfolding advance
    held-after_write = ground arith

    old_byte :
        (i : ℕ)
        → i < held c
        → get_or after_write.buffer (wrap c.size (c.read_ptr + i)) 0
          ≡ get_or c.buffer (wrap c.size (c.read_ptr + i)) 0
    old_byte i p =
        memcpy_to_out c.buffer c.write_ptr (take n src) (wrap c.size (c.read_ptr + i))
          (omega (arith, length-chunk)) (ground (arith, length-chunk))

    new_byte :
        (i : ℕ)
        → i < n
        → get_or after_write.buffer (wrap c.size (c.read_ptr + (held c + i))) 0
          ≡ get_or (take n src) i 0
    new_byte i p =
        memcpy_to_in c.buffer c.write_ptr (take n src) i (wrap c.size (c.read_ptr + (held c + i)))
          (omega (arith, length-chunk)) (omega (arith, length-chunk)) (ground arith)

    contents-after_write : contents after_write ≡ contents c ++ take n src
    contents-after_write =
        tabulate-add (held c) n (held after_write) _ held-after_write
        ∙ ap₂ ◌++◌ (tabulate_ext (held c) _ _ old_byte) (
            tabulate_ext n _ _ new_byte
            ∙ tabulate-get_or n (take n src) 0 (omega (arith, length-chunk))
            ∙ take_all n (take n src) length-chunk)

length-memcpy_from : (src : List ℕ) (off n : ℕ) → length (memcpy_from src off n) ≡ n
unfolding memcpy_from
length-memcpy_from src off zero = refl
length-memcpy_from src off (suc n) = ap suc (length-memcpy_from src (suc off) n)

-- What one pass of the reading loop may do with a request for `len` bytes.
abbrev pub Reads : Cbuf → ℕ → Pass (List ℕ) → Type 0
Reads c len waiting = (held c ≡ 0) ⊎ (len ≡ 0)
Reads c len (moved bytes c') =
    IsValid c'
    × (contents c ≡ bytes ++ contents c')
    × (0 < length bytes)
    × (length bytes ≤ len)
    × (c'.size ≡ c.size)

-- A pass of `cbuf_read` on a valid buffer waits only if nothing is held or nothing is wanted.
-- Otherwise it delivers at least one and at most `len` bytes, the oldest ones in their order, and
-- leaves a valid buffer of the same size that holds the rest.
pub read_pass-Reads : {c : Cbuf} (len : ℕ) → IsValid c → Reads c len (read_pass c len)
unfolding read_pass
read_pass-Reads {c} len v = elim (Bool-cases (n == 0)) [
  | inl z ↦ rw z (bound.progress (ground arith))
  | inr p ↦ rw p (
    after_read-IsValid v n bound.in_held bound.in_block,
    contents-after_read v n bound.in_held bound.in_block,
    ground (arith, length-memcpy_from c.buffer c.read_ptr n),
    omega (arith, length-memcpy_from c.buffer c.read_ptr n, bound.in_request),
    refl,
  )
]
  where
    n : ℕ
    n = read_possible c len

    bound : ReadBound c len n
    bound = read_possible-ReadBound len v

abbrev pub Writes : Cbuf → List ℕ → Pass (List ℕ) → Type 0
Writes c src waiting = (held c + 1 ≡ c.size) ⊎ (length src ≡ 0)
Writes c src (moved rest c') =
    IsValid c'
    × (contents c' ++ rest ≡ contents c ++ src)
    × (length rest < length src)
    × (c'.size ≡ c.size)

-- A pass of `cbuf_write` on a valid buffer waits only if all but one byte of it is held or nothing
-- is left to write. Otherwise it puts at least one byte behind those held, the first ones of the
-- source in their order, and leaves a valid buffer of the same size and the rest of the source.
pub write_pass-Writes : {c : Cbuf} (src : List ℕ) → IsValid c → Writes c src (write_pass c src)
unfolding write_pass
write_pass-Writes {c} src v = elim (Bool-cases (n == 0)) [
  | inl z ↦ rw z (bound.progress (ground arith))
  | inr p ↦ rw p (
    after_write-IsValid v n src bound.in_room bound.in_block bound.in_request,
    (rw (contents-after_write v n src bound.in_room bound.in_block bound.in_request, append_assoc)
        (ap (λ r. contents c ++ r) (take-append-drop n src))),
    ground (arith, length-drop n src, bound.in_request),
    refl,
  )
]
  where
    n : ℕ
    n = write_possible c (length src)

    bound : WriteBound c (length src) n
    bound = write_possible-WriteBound (length src) v
