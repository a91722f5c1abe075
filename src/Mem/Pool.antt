-- ===== src/Mem/Pool.antt =====
-- mem/pool.c: the pieces of a pool of the heap, their search, and what `_kmalloc` and `_kfree` do to
-- the pools of a chain, which is a list. The words of the bitmap have 32 bits, and so has
-- `free_pieces`. `mem` gives the byte at an address. The headers of the blocks, the creation of a pool
-- behind the chain and the pools' locks are left out.
mod Tests
pub mod Search
pub mod Setting
pub mod Blocks
pub mod Chain
use Prim.Native.Nat.{bit_and, bit_or}
use aexkernel.Prelude.{
  ℕ, zero, suc, ◌+◌, ◌-◌, ◌*◌, ◌/◌, Bool, true, false, Option, none, some, List, [], ◌∷◌, ltb, leb,
  ◌==◌, if◌then◌else◌, ◌&&◌, not, get_or, set, ◌%◌, ◌^◌, add_size, sub_size,
}
use aexkernel.Bits.{bit}

-- `struct mem_pool`; `start` is the address of its first piece.
pub record Pool : Type 0 where
  pub start : ℕ
  pub pieces : ℕ
  pub free_pieces : ℕ
  pub bitmap : List ℕ

-- `current_index`, `bit` and the word `bitmap_piece` that is being looked at.
pub record Cursor : Type 0 where
  pub current_index : ℕ
  pub bit_index : ℕ
  pub bitmap_piece : ℕ

-- The next word is read when all bits of one were looked at.
pub reload : Pool → Cursor → Cursor
reload pool c =
    if leb 32 c.bit_index
    then record {
      current_index = suc c.current_index;
      bit_index = 0;
      bitmap_piece = get_or pool.bitmap (suc c.current_index) 0;
    }
    else c

abbrev pub next_bit : Cursor → Cursor
next_bit c = record c { bit_index = suc c.bit_index }

-- `start` after a free piece; -1 is `none`.
abbrev pub started : Option ℕ → ℕ → Option ℕ
started none i = some i
started (some s) i = some s

-- The loop of `find_space` with `remaining` pieces to look at; `none` is -1.
pub find_loop : Pool → ℕ → ℕ → Cursor → Option ℕ → ℕ → Option ℕ
find_loop pool piece_amount zero c start combo = none
find_loop pool piece_amount (suc remaining) c start combo =
    let at = reload pool c in
    let start' = started start (at.current_index * 32 + at.bit_index) in
    let occupied = find_loop pool piece_amount remaining (next_bit at) none 0 in
    let free = find_loop pool piece_amount remaining (next_bit at) start' (suc combo) in
    if bit at.bitmap_piece at.bit_index == 1
    then occupied
    else if suc combo == piece_amount
    then start'
    else free

pub find_space : Pool → ℕ → Option ℕ
find_space pool piece_amount =
    if piece_amount == 0
    then none
    else find_loop pool piece_amount pool.pieces
        (record { current_index = 0; bit_index = 0; bitmap_piece = get_or pool.bitmap 0 0 }) none 0

-- `bitmap_piece |= (1 << bit)` and `bitmap_piece &= ~(1 << bit)`.
abbrev pub put_bit : Bool → ℕ → ℕ → ℕ
put_bit occupied word k =
    if occupied then bit_or word (2 ^ k) % 2 ^ 32 else bit_and word (2 ^ 64 - 1 - 2 ^ k)

-- The word is written back, and the next one read, when all its bits were changed.
pub write_back : List ℕ → Cursor → List ℕ × Cursor
write_back bitmap c =
    let written = set bitmap c.current_index c.bitmap_piece in
    if leb 32 c.bit_index
    then (
      written,
      record {
        current_index = suc c.current_index;
        bit_index = 0;
        bitmap_piece = get_or written (suc c.current_index) 0;
      },
    )
    else (bitmap, c)

-- The bit at hand is made so, and the next one is at hand.
abbrev pub put : Bool → Cursor → Cursor
put occupied c = record {
  current_index = c.current_index;
  bit_index = suc c.bit_index;
  bitmap_piece = put_bit occupied c.bitmap_piece c.bit_index;
}

-- The loops of `set_pieces`, one for each value of `occupied`; `none` is the panic at a piece that is
-- as it is to be made.
pub set_loop : List ℕ → Cursor → ℕ → Bool → Option (List ℕ)
set_loop bitmap c zero occupied = some (set bitmap c.current_index c.bitmap_piece)
set_loop bitmap c (suc amount) occupied =
    let (words, at) = write_back bitmap c in
    let is_set = bit at.bitmap_piece at.bit_index == 1 in
    let rest = set_loop words (put occupied at) amount occupied in
    if (if occupied then is_set else not is_set) then none else rest

pub set_pieces : List ℕ → ℕ → ℕ → Bool → Option (List ℕ)
set_pieces bitmap starting_piece amount occupied =
    if amount == 0
    then some bitmap
    else set_loop bitmap
        (record {
          current_index = starting_piece / 32;
          bit_index = starting_piece % 32;
          bitmap_piece = get_or bitmap (starting_piece / 32) 0;
        })
        amount occupied

-- The sizes that `_kmalloc` and `_kfree` compute.
pub floor_to_alignment : ℕ → ℕ
floor_to_alignment n = n / 16 * 16

pub ceil_to_alignment : ℕ → ℕ
ceil_to_alignment n = (n + 15) / 16 * 16

-- The pieces that `_kmalloc` takes for `size` bytes: the header's and the block's.
pub pieces_for : ℕ → ℕ
pieces_for size = ceil_to_alignment size / 16 + ceil_to_alignment 12 / 16

pub addr_to_piece : Pool → ℕ → ℕ
addr_to_piece pool addr = (addr - pool.start) / 16

-- The first pool of the chain, an id in the list, that holds an address.
pub find_parent : ℕ → List Pool → Option Pool
find_parent addr [] = none
find_parent addr (pool ∷ pools) =
    let rest = find_parent addr pools in
    if leb (addr - pool.start) (pool.pieces * 16) && leb pool.start addr then some pool else rest

-- What a round of the loop of `_kmalloc` comes to: the loop goes on with the next pool, the kernel
-- halts, or a block is taken, at an address.
pub data Round : Type 0 where
  next_pool : Round
  panic : Round
  taken : ℕ → Pool → Round

-- The test that `n` bytes from an address on are zero.
pub blank : (ℕ → ℕ) → ℕ → ℕ → Bool
blank mem addr zero = true
blank mem addr (suc n) = let rest = blank mem (suc addr) n in if mem addr == 0 then rest else false

-- A round from `find_space` on, and the test of the block that it took.
pub alloc_in : (ℕ → ℕ) → Pool → ℕ → Round
alloc_in mem pool pieces = elim (find_space pool pieces) [
  | none ↦ next_pool
  | some starting_piece ↦ elim (set_pieces pool.bitmap starting_piece pieces true) [
    | none ↦ panic
    | some bitmap ↦
        let addr = pool.start + (starting_piece + 1) * 16 in
        if blank mem (floor_to_alignment addr - 16) (pieces * 16)
        then taken addr (record pool {
          bitmap = bitmap;
          free_pieces = sub_size pool.free_pieces pieces % 2 ^ 32;
        })
        else panic
  ]
]

-- What `_kmalloc` gives: NULL, a block and the pools after it, a halt of the kernel, or the end of the
-- chain, behind which the source creates a pool.
pub data Allocation : Type 0 where
  null : Allocation
  given : ℕ → List Pool → Allocation
  halted : Allocation
  at_end : Allocation

abbrev pub behind : Pool → Allocation → Allocation
behind pool (given addr pools) = given addr (pool ∷ pools)
behind pool null = null
behind pool halted = halted
behind pool at_end = at_end

-- The rounds from a pool on.
pub alloc_from : (ℕ → ℕ) → List Pool → ℕ → Allocation
alloc_from mem [] pieces = at_end
alloc_from mem (pool ∷ pools) pieces =
    let rest = alloc_from mem pools pieces in
    elim (alloc_in mem pool pieces) [
      | next_pool ↦ behind pool rest
      | panic ↦ halted
      | taken addr pool' ↦ given addr (pool' ∷ pools)
    ]

-- `_kmalloc`. The count of free pieces is only looked at in the first pool: the loop goes on with
-- `find_space` in the pool that it moves to.
pub kmalloc_in : (ℕ → ℕ) → List Pool → ℕ → Allocation
kmalloc_in mem [] size = if size == 0 then null else at_end
kmalloc_in mem (pool ∷ pools) size =
    let pieces = pieces_for size in
    if size == 0
    then null
    else if ltb pool.free_pieces pieces
    then behind pool (alloc_from mem pools pieces)
    else alloc_from mem (pool ∷ pools) pieces

-- `_kfree` in the pool that holds the block: `addr` is the address that was given out, and `pieces`
-- what the block's header says. `none` is the panic.
pub free_in : Pool → ℕ → ℕ → Option Pool
free_in pool addr pieces =
    elim (set_pieces pool.bitmap (addr_to_piece pool (floor_to_alignment addr - 16)) (pieces + 1)
      false) [
        | none ↦ none
        | some bitmap ↦ some (record pool {
          bitmap = bitmap;
          free_pieces = add_size pool.free_pieces (pieces + 1) % 2 ^ 32;
        })
      ]
