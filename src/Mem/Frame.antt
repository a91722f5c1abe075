-- ===== src/Mem/Frame.antt =====
-- mem/frame.c: the bitmap allocator of physical frames. The chain of pieces from
-- `memfr_alloc_piece0` on is a list, which is never empty; a frame's id counts through the pieces.
-- The functions run under `fr_spinlock`: each is one step. `kpanic` halts the kernel.
use Prim.Native.Nat.{bit_and, bit_or}
mod Tests
pub mod Table
pub mod Alloc
pub mod Scan
use aexkernel.Prelude.{
  ℕ, zero, suc, ◌+◌, ◌-◌, ◌*◌, ◌/◌, ◌%◌, ◌^◌, Bool, true, false, not, List, [], ◌∷◌, ◌&&◌, ltb, leb,
  ◌==◌, if◌then◌else◌, get_or, set, add_size, sub_size, add_int,
}

pub record Piece : Type 0 where
  pub start : ℕ
  pub usable : ℕ
  pub bitmap : List ℕ

pub record Frames : Type 0 where
  pub pieces : List Piece
  pub frames_used : ℕ
  pub frames_possible : ℕ

pub data Result {ℓ} (A : Type ℓ) : Type ℓ where
  ok : A → Result A
  panic : Result A

abbrev pub and_then {ℓ κ} : {A : Type ℓ} {B : Type κ} → Result A → (A → Result B) → Result B
and_then (ok a) f = f a
and_then panic f = panic

-- `1UL << (id % FRAMES_PER_INT)`
abbrev pub mask : ℕ → ℕ
mask id = 2 ^ (id % 32)

-- `piece->bitmap[id / FRAMES_PER_INT] & (1UL << (id % FRAMES_PER_INT))`, as a truth value.
pub marked : Piece → ℕ → Bool
marked p id = not (bit_and (get_or p.bitmap (id / 32) 0) (mask id) == 0)

pub mark : Piece → ℕ → Piece
mark p id = record p {
  bitmap = set p.bitmap (id / 32) (bit_or (get_or p.bitmap (id / 32) 0) (mask id) % 2 ^ 32);
}

pub unmark : Piece → ℕ → Piece
unmark p id = record p {
  bitmap = set p.bitmap (id / 32) (bit_and (get_or p.bitmap (id / 32) 0) (2 ^ 64 - 1 - mask id));
}

-- `(phys_addr) piece->start + id * CPU_PAGE_SIZE`: the product is a `uint32_t`.
abbrev pub frame_addr : Piece → ℕ → ℕ
frame_addr p id = add_size p.start (id * 4096 % 2 ^ 32)

-- The loop that all functions on an id share: `found` at the piece that holds it, a panic where the
-- chain or the ids end.
pub locate {ℓ} : {A : Type ℓ} → (Piece → ℕ → A) → ℕ → List Piece → ℕ → Result A
locate found possible [] id = panic
locate found possible (p ∷ ps) id =
    let rest = locate found possible ps (id - p.usable) in
    if ltb id p.usable
    then ok (found p id)
    else if ltb possible (id - p.usable)
    then panic
    else rest

-- The pieces after a change of the piece that holds the id.
pub change : (Piece → ℕ → Piece) → List Piece → ℕ → List Piece
change f [] id = []
change f (p ∷ ps) id =
    let rest = change f ps (id - p.usable) in if ltb id p.usable then f p id ∷ ps else p ∷ rest

-- `memfr_alloc_internal`, and `kfalloc`, which adds the lock.
pub kfalloc : Frames → ℕ → Result (ℕ × Frames)
kfalloc fr id =
    and_then {A = Bool × ℕ}
      (locate (λ p i. (marked p i, frame_addr p i)) fr.frames_possible fr.pieces id)
      (λ r. ok (
        r.1,
        record fr {
          pieces = change mark fr.pieces id;
          frames_used = if r.0 then fr.frames_used else add_size fr.frames_used 1;
        },
      ))

pub kffree : Frames → ℕ → Result (Bool × Frames)
kffree fr id = and_then (locate marked fr.frames_possible fr.pieces id) (λ was. ok (
  true,
  record fr {
    pieces = change unmark fr.pieces id;
    frames_used = if was then sub_size fr.frames_used 1 else fr.frames_used;
  },
))

pub kfisfree : Frames → ℕ → Result Bool
kfisfree fr id = locate (λ p i. not (marked p i)) fr.frames_possible fr.pieces id

pub kfpaddrof : Frames → ℕ → Result ℕ
kfpaddrof fr id = locate frame_addr fr.frames_possible fr.pieces id

-- The loop of `kfindexof`: the index is that inside the piece.
pub kfindexof : List Piece → ℕ → Result ℕ
kfindexof [] addr = panic
kfindexof (p ∷ ps) addr =
    let rest = kfindexof ps addr in
    if leb p.start addr && ltb addr (add_size p.start (p.usable * 4096 % 2 ^ 32))
    then ok ((addr - p.start) / 4096 % 2 ^ 32)
    else rest

abbrev pub no_start : ℕ
no_start = 0xFFFF_FFFF

-- The loop of `kfcalloc` with `n` rounds left, at frame `i`: the first id of the run found.
pub scan : Frames → ℕ → ℕ → ℕ → ℕ → ℕ → Result ℕ
scan fr amount zero i start_id combo = panic
scan fr amount (suc n) i start_id combo = and_then (kfisfree fr i) (λ free.
    let start' = if start_id == no_start && free then i else start_id in
    let go_on = scan fr amount n (add_int i 1) start' (add_int combo 1) in
    let afresh = scan fr amount n (add_int i 1) no_start 0 in
    if not free then afresh else if add_int combo 1 == amount then ok start' else go_on)

-- The inner loop: the frames of the run are taken one by one.
pub alloc_run : ℕ → Frames → ℕ → Result Frames
alloc_run zero fr id = ok fr
alloc_run (suc n) fr id = and_then (kfalloc fr id) (λ r. alloc_run n r.1 (add_int id 1))

pub kfcalloc : Frames → ℕ → Result (ℕ × Frames)
kfcalloc fr amount =
    if amount == 0
    then ok (0, fr)
    else and_then (scan fr amount fr.frames_possible 0 no_start 0)
        (λ start_id. and_then (alloc_run amount fr start_id) (λ fr'. ok (start_id, fr')))
