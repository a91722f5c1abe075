-- ===== src/Mem/Frame/Table.antt =====
-- The table of frames that the pieces' bitmaps make up.
use Prim.Native.Nat.{bit_and, bit_or}
use aexkernel.Prelude.{
  ℕ, zero, suc, ◌+◌, ◌-◌, ◌*◌, ◌/◌, ◌%◌, ◌^◌, ◌<◌, ◌≤◌, ◌≡◌, refl, ap, ◌∙◌, inl, inr, Bool, true,
  false, not, List, [], ◌∷◌, ltb, ◌==◌, if◌then◌else◌, Bool-cases, get_or, get_or-set, set, length,
  arith,
}
use aexkernel.Bits.{
  bit, bit-le-one, bit-bit_and, bit-bit_or, bit_and-pow, bit-pow, bit-not_pow, bit-mod, pow_pos,
}
use aexkernel.Mem.Frame.{Piece, ok, marked, mark, unmark, locate, frame_addr}

-- Whether the bitmap of a piece has the digit of its frame `i`.
abbrev pub has_bit : Piece → ℕ → Bool
has_bit p i = bit (get_or p.bitmap (i / 32) 0) (i % 32) == 1

marked-has_bit : (p : Piece) (i : ℕ) → marked p i ≡ has_bit p i
unfolding marked
marked-has_bit p i =
    ap (λ r. not (r == 0)) (bit_and-pow (get_or p.bitmap (i / 32) 0) (i % 32))
    ∙ digit_test (2 ^ (i % 32)) (bit (get_or p.bitmap (i / 32) 0) (i % 32)) (pow_pos (i % 32))
        (bit-le-one (get_or p.bitmap (i / 32) 0) (i % 32))
  where
    digit_test : (p b : ℕ) → 0 < p → b ≤ 1 → not (p * b == 0) ≡ (b == 1)
    digit_test p zero l h = ground arith
    digit_test p (suc zero) l h = ground arith
    digit_test p (suc (suc b)) l h = absurd (omega arith)

-- The digits of one word after `mark` and after `unmark`.
marked_word :
    (w k j : ℕ)
    → k < 32
    → j < 32
    → (bit (bit_or w (2 ^ k) % 2 ^ 32) j == 1) ≡ (if k == j then true else bit w j == 1)
marked_word w k j h l =
    ground (
      arith,
      bit-mod (bit_or w (2 ^ k)) 32 j l,
      bit-bit_or w (2 ^ k) j,
      bit-pow k j,
      bit-le-one w j,
    )

unmarked_word :
    (w k j : ℕ)
    → k < 32
    → j < 32
    → (bit (bit_and w (2 ^ 64 - 1 - 2 ^ k)) j == 1) ≡ (if k == j then false else bit w j == 1)
unmarked_word w k j h l = ground (
  arith,
  bit-bit_and w (2 ^ 64 - 1 - 2 ^ k) j,
  bit-not_pow 64 k j (omega arith) (omega arith),
  bit-le-one w j,
)

changed_word :
    (p : Piece) (i j w : ℕ) (b : Bool)
    → i / 32 < length p.bitmap
    → (bit w (j % 32) == 1)
      ≡ (if i % 32 == j % 32 then b else bit (get_or p.bitmap (i / 32) 0) (j % 32) == 1)
    → has_bit (record p { bitmap = set p.bitmap (i / 32) w }) j
      ≡ (if i == j then b else has_bit p j)
changed_word p i j w b h e =
    ap (λ v. bit v (j % 32) == 1) (get_or-set p.bitmap (i / 32) (j / 32) w 0 h)
    ∙ ground (arith, word_at)
  where
    word_at : i / 32 ≡ j / 32 → get_or p.bitmap (i / 32) 0 ≡ get_or p.bitmap (j / 32) 0
    word_at q = ap (λ k. get_or p.bitmap k 0) q

pub has_bit-mark :
    (p : Piece) (i j : ℕ)
    → i / 32 < length p.bitmap
    → has_bit (mark p i) j ≡ (if i == j then true else has_bit p j)
unfolding mark
has_bit-mark p i j h =
    changed_word p i j _ true h
      (marked_word (get_or p.bitmap (i / 32) 0) (i % 32) (j % 32) (omega arith) (omega arith))

pub has_bit-unmark :
    (p : Piece) (i j : ℕ)
    → i / 32 < length p.bitmap
    → has_bit (unmark p i) j ≡ (if i == j then false else has_bit p j)
unfolding unmark
has_bit-unmark p i j h =
    changed_word p i j _ false h
      (unmarked_word (get_or p.bitmap (i / 32) 0) (i % 32) (j % 32) (omega arith) (omega arith))

-- Every usable frame has its digit.
abbrev pub AllSized : List Piece → Type 0
AllSized [] = Unit
AllSized (p ∷ ps) = (p.usable ≤ 32 * length p.bitmap) × AllSized ps

abbrev pub total : List Piece → ℕ
total [] = 0
total (p ∷ ps) = p.usable + total ps

-- Whether the frame with an id is taken; an id behind the last is not.
abbrev pub taken : List Piece → ℕ → Bool
taken [] id = false
taken (p ∷ ps) id = if ltb id p.usable then has_bit p id else taken ps (id - p.usable)

-- The address of a frame.
abbrev pub address : List Piece → ℕ → ℕ
address [] id = 0
address (p ∷ ps) id = if ltb id p.usable then frame_addr p id else address ps (id - p.usable)

-- A function on an id reaches every id below the total, if the limit is not below it.
pub locate-taken :
    (possible : ℕ) (ps : List Piece) (id : ℕ)
    → id < total ps
    → id ≤ possible
    → (locate marked possible ps id ≡ ok (taken ps id))
      × (locate (λ p i. not (marked p i)) possible ps id ≡ ok (not (taken ps id)))
      × (locate {A = Bool × ℕ} (λ p i. (marked p i, frame_addr p i)) possible ps id
          ≡ ok (taken ps id, address ps id))
      × (locate frame_addr possible ps id ≡ ok (address ps id))
unfolding locate
locate-taken possible [] id h l = absurd (omega arith)
locate-taken possible (p ∷ ps) id h l = elim (Bool-cases (ltb id p.usable)) [
  | inl here ↦ rw (here, marked-has_bit p id) (refl, refl, refl, refl)
  | inr there ↦
      let r = locate-taken possible ps (id - p.usable) (ground arith) (omega arith) in
      rw (there, within there) r
]
  where
    within : ltb id p.usable ≡ false → ltb possible (id - p.usable) ≡ false
    within t = ground arith
