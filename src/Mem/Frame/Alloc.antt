-- ===== src/Mem/Frame/Alloc.antt =====
-- Taking and giving back one frame.
use aexkernel.Prelude.{
  ℕ, zero, suc, ◌+◌, ◌-◌, ◌*◌, ◌/◌, ◌<◌, ◌≤◌, ◌≡◌, refl, ap, ap₂, ◌∙◌, inl, inr, Bool, true, false,
  not, List, [], ◌∷◌, ltb, ◌==◌, if◌then◌else◌, Bool-cases, ==_iff, length, length-set, add_size,
  sub_size, arith,
}
use aexkernel.Mem.Frame.{Piece, Frames, ok, mark, unmark, change, kfalloc, kffree, kfisfree}
use aexkernel.Mem.Frame.Table.{
  has_bit, has_bit-mark, has_bit-unmark, AllSized, total, taken, address, locate-taken,
}

-- A change of one piece that puts `b` for one frame, and leaves the size of the piece.
abbrev Puts : Bool → (Piece → ℕ → Piece) → Type 0
Puts b f =
    (p : Piece) (i : ℕ)
    → i / 32 < length p.bitmap
    → ((j : ℕ) → has_bit (f p i) j ≡ (if i == j then b else has_bit p j))
      × ((f p i).usable ≡ p.usable)
      × (length (f p i).bitmap ≡ length p.bitmap)

mark-Puts : Puts true mark
unfolding mark
mark-Puts p i h = (λ j. has_bit-mark p i j h, refl, length-set p.bitmap (i / 32) _)

unmark-Puts : Puts false unmark
unfolding unmark
unmark-Puts p i h = (λ j. has_bit-unmark p i j h, refl, length-set p.bitmap (i / 32) _)

module _ (b : Bool) (f : Piece → ℕ → Piece) (puts : Puts b f) where
  -- The table after a change: `b` for the frame, the old state of every other one.
  taken-change :
      (ps : List Piece) (id j : ℕ)
      → AllSized ps
      → id < total ps
      → taken (change f ps id) j ≡ (if id == j then b else taken ps j)
  unfolding change
  taken-change [] id j s h = absurd (omega arith)
  taken-change (p ∷ ps) id j s h = elim (Bool-cases (ltb id p.usable)) [
    | inl here ↦ rw here (
        let law = puts p id (ground arith) in
        ap (λ u. if ltb j u then has_bit (f p id) j else taken ps (j - u)) law.1
        ∙ ground (arith, law.0 j))
    | inr there ↦ rw there (
        ap (λ t. if ltb j p.usable then has_bit p j else t)
          (taken-change ps (id - p.usable) (j - p.usable) s.1 (ground arith))
        ∙ ground arith)
  ]

  sized-change :
      (ps : List Piece) (id : ℕ)
      → AllSized ps
      → id < total ps
      → AllSized (change f ps id) × (total (change f ps id) ≡ total ps)
  unfolding change
  sized-change [] id s h = absurd (omega arith)
  sized-change (p ∷ ps) id s h = elim (Bool-cases (ltb id p.usable)) [
    | inl here ↦ rw here (
        let law = puts p id (ground arith) in
        ((omega (arith, law.1, law.2), s.1), omega (arith, law.1)))
    | inr there ↦ rw there (
        let r = sized-change ps (id - p.usable) s.1 (ground arith) in
        ((s.0, r.0), omega (arith, r.1)))
  ]

-- How many of the ids below `n` a table has.
abbrev pub count_below : ℕ → (ℕ → Bool) → ℕ
count_below zero t = 0
count_below (suc n) t = (if t n then 1 else 0) + count_below n t

count_same :
    (n : ℕ) (t u : ℕ → Bool) → ((j : ℕ) → j < n → t j ≡ u j) → count_below n t ≡ count_below n u
count_same zero t u h = refl
count_same (suc n) t u h =
    ap₂ (λ a b. (if a then 1 else 0) + b) (h n (omega arith))
      (count_same n t u (λ j l. h j (omega arith)))

count_put :
    (n id : ℕ) (b : Bool) (t u : ℕ → Bool)
    → id < n
    → ((j : ℕ) → u j ≡ (if id == j then b else t j))
    → count_below n u + (if t id then 1 else 0) ≡ count_below n t + (if b then 1 else 0)
count_put zero id b t u l h = absurd (omega arith)
count_put (suc n) id b t u l h = elim (Bool-cases (id == n)) [
  | inl e ↦
      ground (arith, ap t ((==_iff id n).0 e), h n, count_same n u t (λ j q. h j ∙ untouched e j q))
  | inr d ↦ ground (arith, h n, count_put n id b t u (ground arith) h)
]
  where
    untouched : (id == n) ≡ true → (j : ℕ) → j < n → (if id == j then b else t j) ≡ t j
    untouched e j q = ground arith

-- Every usable frame has a digit, all ids are known to `frames_possible`, and `frames_used` counts the
-- frames that are taken.
pub record IsValid (fr : Frames) : Type 0 where
  pub sized : AllSized fr.pieces
  pub all : total fr.pieces ≡ fr.frames_possible
  pub small : fr.frames_possible < 4294967295
  pub counted : fr.frames_used ≡ count_below fr.frames_possible (taken fr.pieces)

-- A table in which one frame's state is put, and the count with it.
abbrev pub Put : Bool → Frames → ℕ → Frames → Type 0
Put b fr id fr' =
    IsValid fr'
    × ((j : ℕ) → taken fr'.pieces j ≡ (if id == j then b else taken fr.pieces j))
    × (fr'.frames_possible ≡ fr.frames_possible)

abbrev used_after : Bool → Bool → ℕ → ℕ
used_after true was n = if was then n else add_size n 1
used_after false was n = if was then sub_size n 1 else n

count-le : (n : ℕ) (t : ℕ → Bool) → count_below n t ≤ n
count-le zero t = omega arith
count-le (suc n) t = ground (arith, count-le n t)

used_count :
    (b was : Bool) (n c c' : ℕ)
    → n ≡ c
    → c' + (if was then 1 else 0) ≡ c + (if b then 1 else 0)
    → c < 4294967295
    → used_after b was n ≡ c'
used_count true true n c c' e q l = omega arith
used_count true false n c c' e q l = omega arith
used_count false true n c c' e q l = omega arith
used_count false false n c c' e q l = omega arith

module _ (b : Bool) (f : Piece → ℕ → Piece) (puts : Puts b f) where
  change-Put :
      (fr : Frames) (id : ℕ)
      → IsValid fr
      → id < fr.frames_possible
      → Put b fr id (record fr {
        pieces = change f fr.pieces id;
        frames_used = used_after b (taken fr.pieces id) fr.frames_used;
      })
  change-Put fr id v h = (
    record {
      sized = sizes.0;
      all = sizes.1 ∙ v.all;
      small = v.small;
      counted =
          used_count b (taken fr.pieces id) fr.frames_used
            (count_below fr.frames_possible (taken fr.pieces))
            (count_below fr.frames_possible (taken (change f fr.pieces id))) v.counted
            (count_put fr.frames_possible id b (taken fr.pieces) (taken (change f fr.pieces id)) h
              law)
            (omega (arith, count-le fr.frames_possible (taken fr.pieces), v.small));
    },
    law,
    refl,
  )
    where
      in_total : id < total fr.pieces
      in_total = omega (arith, v.all)

      sizes : AllSized (change f fr.pieces id) × (total (change f fr.pieces id) ≡ total fr.pieces)
      sizes = sized-change b f puts fr.pieces id v.sized in_total

      law : (j : ℕ) → taken (change f fr.pieces id) j ≡ (if id == j then b else taken fr.pieces j)
      law j = taken-change b f puts fr.pieces id j v.sized in_total

pub kfalloc-Put :
    (fr : Frames) (id : ℕ)
    → IsValid fr
    → id < fr.frames_possible
    → (fr' : Frames) × (kfalloc fr id ≡ ok (address fr.pieces id, fr')) × Put true fr id fr'
unfolding kfalloc
kfalloc-Put fr id v h = (
  _,
  rw ((locate-taken fr.frames_possible fr.pieces id (omega (arith, v.all)) (omega arith)).2),
  change-Put true mark mark-Puts fr id v h,
)

-- The bytes of each piece are below 2^32, and lie below the end of the address space.
abbrev pub IsAddressed : List Piece → Type 0
IsAddressed [] = Unit
IsAddressed (p ∷ ps) =
    ((p.usable ≤ 1048576) × (p.start + p.usable * 4096 ≤ 18446744073709551616)) × IsAddressed ps

-- Frames of 4096 bytes follow each other from the start of their piece on, piece by piece.
abbrev pub frame_place : List Piece → ℕ → ℕ
frame_place [] id = 0
frame_place (p ∷ ps) id =
    if ltb id p.usable then p.start + 4096 * id else frame_place ps (id - p.usable)

address-place :
    (ps : List Piece) (id : ℕ) → IsAddressed ps → id < total ps → address ps id ≡ frame_place ps id
address-place [] id a h = absurd (omega arith)
address-place (p ∷ ps) id ((few, fits), a) h = elim (Bool-cases (ltb id p.usable)) [
  | inl here ↦ rw here (omega (arith, few, fits, here_lt here))
  | inr there ↦ rw there (address-place ps (id - p.usable) a (ground arith))
]
  where
    here_lt : ltb id p.usable ≡ true → id < p.usable
    here_lt e = ground arith

-- `kfalloc` of an id below `frames_possible`, in a table whose pieces have at most 2^20 frames each and
-- end inside the address space, never panics. It gives the address of the frame: frames of 4096 bytes
-- follow each other from the start of their piece on. The frame is taken after it, every other one as
-- before. The table stays valid, so `frames_used` still counts the taken frames, whether the frame was
-- free before or not.
pub kfalloc_lem :
    (fr : Frames) (id : ℕ)
    → IsValid fr
    → IsAddressed fr.pieces
    → id < fr.frames_possible
    → (fr' : Frames) × (kfalloc fr id ≡ ok (frame_place fr.pieces id, fr')) × Put true fr id fr'
kfalloc_lem fr id v a h =
    let (fr', e, put) = kfalloc-Put fr id v h in
    (fr', e ∙ ap (λ x. ok (x, fr')) (address-place fr.pieces id a (omega (arith, v.all))), put)

-- `kffree` of an id below `frames_possible` never panics and returns true: the frame is free after
-- it, every other one as before. The table stays valid, so `frames_used` still counts the taken
-- frames, whether the frame was taken before or not.
pub kffree_lem :
    (fr : Frames) (id : ℕ)
    → IsValid fr
    → id < fr.frames_possible
    → (fr' : Frames) × (kffree fr id ≡ ok (true, fr')) × Put false fr id fr'
unfolding kffree
kffree_lem fr id v h = (
  _,
  rw ((locate-taken fr.frames_possible fr.pieces id (omega (arith, v.all)) (omega arith)).0),
  change-Put false unmark unmark-Puts fr id v h,
)

pub kfisfree_lem :
    (fr : Frames) (id : ℕ)
    → IsValid fr
    → id < fr.frames_possible
    → kfisfree fr id ≡ ok (not (taken fr.pieces id))
unfolding kfisfree
kfisfree_lem fr id v h =
    (locate-taken fr.frames_possible fr.pieces id (omega (arith, v.all)) (omega arith)).1
