-- ===== src/Mem/Pool/Setting.antt =====
-- mem/pool.c: what `set_pieces` makes of the bitmap.
use Prim.Native.Nat.{bit_or}
use aexkernel.Prelude.{
  ℕ, zero, suc, ◌+◌, ◌-◌, ◌*◌, ◌/◌, ◌%◌, ◌^◌, ◌<◌, ◌≤◌, ◌≡◌, refl, sym, ap, ◌∙◌, inl, inr, Bool,
  true, false, not, none, some, List, ltb, leb, ◌&&◌, ◌==◌, if◌then◌else◌, Bool-cases, ==_iff,
  get_or, get_or-set_if, set, set-get_or, length, length-set, subst, arith,
}
use aexkernel.Bits.{bit, bit-le-one, bit-bit_and, bit-bit_or, bit-pow, bit-not_pow, bit-mod}
use aexkernel.Mem.Pool.{Cursor, put, put_bit, write_back, set_loop, set_pieces}

-- Whether the bitmap has the bit of piece `i`.
abbrev pub has : List ℕ → ℕ → Bool
has bitmap i = bit (get_or bitmap (i / 32) 0) (i % 32) == 1

bit-put_bit :
    (b : Bool) (w k j : ℕ)
    → k < 32
    → j < 32
    → (bit (put_bit b w k) j == 1) ≡ (if k == j then b else bit w j == 1)
bit-put_bit true w k j h l =
    ground (
      arith,
      bit-mod (bit_or w (2 ^ k)) 32 j l,
      bit-bit_or w (2 ^ k) j,
      bit-pow k j,
      bit-le-one w j,
    )
bit-put_bit false w k j h l = ground (
  arith,
  bit-bit_and w (2 ^ 64 - 1 - 2 ^ k) j,
  bit-not_pow 64 k j (omega arith) (omega arith),
  bit-le-one w j,
)

-- The bitmap once the word at hand is written back.
abbrev flushed : List ℕ → Cursor → List ℕ
flushed bitmap c = set bitmap c.current_index c.bitmap_piece

record At (bitmap : List ℕ) (c : Cursor) (i : ℕ) : Type 0 where
  in_map : c.current_index < length bitmap
  in_word : c.bit_index ≤ 32
  place : i ≡ c.current_index * 32 + c.bit_index

abbrev Ready : List ℕ × Cursor → List ℕ → ℕ → Type 0
Ready s bitmap i =
    At s.0 s.1 i × (s.1.bit_index < 32) × (flushed s.0 s.1 ≡ bitmap) × (length s.0 ≡ length bitmap)

write_back-Ready :
    (bitmap : List ℕ) (c : Cursor) (i : ℕ)
    → At bitmap c i
    → i < 32 * length bitmap
    → Ready (write_back bitmap c) (flushed bitmap c) i
unfolding write_back
write_back-Ready bitmap c i a h = elim (Bool-cases (leb 32 c.bit_index)) [
  | inl b ↦
      rw (b, write_back)
        (
          record {
            in_map =
                ground (
                  arith,
                  length-set bitmap c.current_index c.bitmap_piece,
                  a.place,
                  a.in_word,
                  b,
                  h,
                );
            in_word = omega arith;
            place = ground (arith, a.place, a.in_word, b);
          },
          omega arith,
          set-get_or (flushed bitmap c) (suc c.current_index) 0,
          refl,
        )
  | inr n ↦
      rw (n, write_back)
        (a, ground (arith, n), refl, sym (length-set bitmap c.current_index c.bitmap_piece))
]

-- The bits of the bitmap with another word at hand.
has-flushed :
    (bitmap : List ℕ) (c : Cursor) (i j : ℕ)
    → At bitmap c i
    → has (flushed bitmap c) j
      ≡ (if c.current_index == j / 32 then bit c.bitmap_piece (j % 32) == 1 else has bitmap j)
has-flushed bitmap c i j a =
    ap (λ w. bit w (j % 32) == 1)
      (get_or-set_if bitmap c.current_index (j / 32) c.bitmap_piece 0 a.in_map)
    ∙ either (c.current_index == j / 32)
  where
    either :
        (b : Bool)
        → (bit (if b then c.bitmap_piece else get_or bitmap (j / 32) 0) (j % 32) == 1)
          ≡ (if b then bit c.bitmap_piece (j % 32) == 1 else has bitmap j)
    either true = refl
    either false = refl

put-At :
    (bitmap : List ℕ) (b : Bool) (c : Cursor) (i : ℕ)
    → At bitmap c i
    → c.bit_index < 32
    → At bitmap (put b c) (suc i)
put-At bitmap b c i a l = record {
  in_map = a.in_map;
  in_word = omega (arith, l);
  place = omega (arith, a.place);
}

has-put :
    (bitmap : List ℕ) (b : Bool) (c : Cursor) (i j : ℕ)
    → At bitmap c i
    → c.bit_index < 32
    → has (flushed bitmap (put b c)) j ≡ (if i == j then b else has (flushed bitmap c) j)
has-put bitmap b c i j a l =
    has-flushed bitmap (put b c) (suc i) j (put-At bitmap b c i a l)
    ∙ ground (
      arith,
      a.place,
      l,
      bit-put_bit b c.bitmap_piece c.bit_index (j % 32) l (omega arith),
      has-flushed bitmap c i j a,
    )

has-here :
    (bitmap : List ℕ) (c : Cursor) (i : ℕ)
    → At bitmap c i
    → c.bit_index < 32
    → (bit c.bitmap_piece c.bit_index == 1) ≡ has (flushed bitmap c) i
has-here bitmap c i a l = sym (
    has-flushed bitmap c i i a
    ∙ ap (λ b. if b then bit c.bitmap_piece (i % 32) == 1 else has bitmap i) index
    ∙ ap (λ k. bit c.bitmap_piece k == 1) offset)
  where
    offset : i % 32 ≡ c.bit_index
    offset = omega (arith, a.place, l)

    index : (c.current_index == i / 32) ≡ true
    index = (==_iff c.current_index (i / 32)).1 (omega (arith, a.place, l))

-- The bitmap has the bits from `s` on, `n` of them, as `b`, and the others as before.
abbrev pub Changed : List ℕ → ℕ → ℕ → Bool → List ℕ → Type 0
Changed bitmap s n b changed =
    (length changed ≡ length bitmap)
    × ((j : ℕ) → has changed j ≡ (if leb s j && ltb j (s + n) then b else has bitmap j))

abbrev differs : Bool → Bool → Bool
differs b is_set = if b then is_set else not is_set

not-differs : (b x : Bool) → x ≡ not b → differs b x ≡ false
not-differs true x e = e
not-differs false x e = ap not e

-- One bit more: from the bitmap `whole` before it was made to the one after it.
module _ (words whole : List ℕ) (c : Cursor) (i : ℕ) (a : At words c i) (l : c.bit_index < 32)
    (same : flushed words c ≡ whole) where
  has-next :
      (b : Bool) (j : ℕ) → has (flushed words (put b c)) j ≡ (if i == j then b else has whole j)
  has-next b j = has-put words b c i j a l ∙ ap (λ w. if i == j then b else has w j) same

  still :
      (b : Bool) (j : ℕ) → suc i ≤ j → has whole j ≡ not b → has (flushed words (put b c)) j ≡ not b
  still b j h e = has-next b j ∙ rw (ne) e
    where
      ne : (i == j) ≡ false
      ne = ground (arith, h)

  extended :
      (n : ℕ) (b : Bool) (r : List ℕ)
      → Changed (flushed words (put b c)) (suc i) n b r
      → Changed whole i (suc n) b r
  extended n b r (len, bits) =
      (len ∙ length-set words _ _ ∙ size, λ j. bits j ∙ joined j (has-next b j))
    where
      size : length words ≡ length whole
      size = sym (length-set words c.current_index c.bitmap_piece) ∙ ap length same

      joined :
          (j : ℕ)
          → has (flushed words (put b c)) j ≡ (if i == j then b else has whole j)
          → (if leb (suc i) j && ltb j (suc i + n) then b else has (flushed words (put b c)) j)
            ≡ (if leb i j && ltb j (i + suc n) then b else has whole j)
      joined j e = ground (arith, e)

  test : (b : Bool) → has whole i ≡ not b → differs b (bit c.bitmap_piece c.bit_index == 1) ≡ false
  test b e =
      not-differs b (bit c.bitmap_piece c.bit_index == 1)
        (has-here words c i a l ∙ ap (λ w. has w i) same ∙ e)

set_loop-suc :
    (bitmap : List ℕ) (c : Cursor) (n : ℕ) (b : Bool)
    → let (words, at) = write_back bitmap c in
      differs b (bit at.bitmap_piece at.bit_index == 1) ≡ false
      → set_loop bitmap c (suc n) b ≡ set_loop words (put b at) n b
unfolding set_loop
set_loop-suc bitmap c n b e =
    ap
      (λ d.
        if d then none else set_loop (write_back bitmap c).0 (put b (write_back bitmap c).1) n b)
      e

set_loop_lem :
    (n i : ℕ) (bitmap : List ℕ) (c : Cursor) (b : Bool)
    → At bitmap c i
    → i + n ≤ 32 * length bitmap
    → ((j : ℕ) → i ≤ j → j < i + n → has (flushed bitmap c) j ≡ not b)
    → (r : List ℕ) × (set_loop bitmap c n b ≡ some r) × Changed (flushed bitmap c) i n b r
unfolding set_loop
set_loop_lem zero i bitmap c b a h f = (flushed bitmap c, refl, (refl, λ j. ground arith))
set_loop_lem (suc n) i bitmap c b a h f =
    let (at, l, same, size) = write_back-Ready bitmap c i a (omega (arith, h)) in
    let words = (write_back bitmap c).0 in
    let here = (write_back bitmap c).1 in
    let (r, e, changed) =
      set_loop_lem n (suc i) words (put b here) b (put-At words b here i at l)
        (omega (arith, h, size, length-set bitmap c.current_index c.bitmap_piece))
        (λ j g k.
          still words (flushed bitmap c) here i at l same b j g
            (f j (omega (arith, g)) (omega (arith, k)))) in
    (
      r,
      set_loop-suc bitmap c n b
            (test words (flushed bitmap c) here i at l same b (f i (omega arith) (omega arith)))
          ∙ e,
      extended words (flushed bitmap c) here i at l same n b r changed,
    )

-- `set_pieces` of pieces that are in the bitmap and all still the other way: it does not panic, and
-- makes those pieces as asked, and no other.
pub set_pieces_lem :
    (bitmap : List ℕ) (s n : ℕ) (b : Bool)
    → s + n ≤ 32 * length bitmap
    → ((j : ℕ) → s ≤ j → j < s + n → has bitmap j ≡ not b)
    → (r : List ℕ) × (set_pieces bitmap s n b ≡ some r) × Changed bitmap s n b r
unfolding set_pieces
set_pieces_lem bitmap s zero b h f = (bitmap, refl, (refl, λ j. ground arith))
set_pieces_lem bitmap s (suc n) b h f =
    rw (nonzero n, set_pieces)
      (subst
        (λ w. (r : List ℕ) × (set_loop bitmap start (suc n) b ≡ some r) × Changed w s (suc n) b r)
        whole
        (set_loop_lem (suc n) s bitmap start b
          (record { in_map = omega (arith, h); in_word = omega arith; place = omega arith }) h
          (λ j g k. ap (λ w. has w j) whole ∙ f j g k)))
  where
    nonzero : (n : ℕ) → (suc n == 0) ≡ false
    nonzero n = ground arith

    start : Cursor
    start = record {
      current_index = s / 32;
      bit_index = s % 32;
      bitmap_piece = get_or bitmap (s / 32) 0;
    }

    whole : flushed bitmap start ≡ bitmap
    whole = set-get_or bitmap (s / 32) 0
