-- ===== src/Mem/Pool/Tests.antt =====
-- A pool of 64 pieces, the first three of which are occupied.
use aexkernel.Prelude.{ℕ, ◌<◌, ◌≡◌, ◌⊎◌, refl, none, some, [], ◌∷◌, arith}
use aexkernel.Bits.{bit}
use aexkernel.Mem.Pool.{
  Pool, find_space, find_loop, reload, set_pieces, set_loop, write_back, blank, taken, alloc_in,
  free_in,
}
use aexkernel.Mem.Pool.Search.{FreeRun, find_space_lem}
use aexkernel.Mem.Pool.Blocks.{IsValid, SamePieces, free_in-alloc_in}

abbrev pool : Pool
pool = record { start = 4096; pieces = 64; free_pieces = 61; bitmap = 7 ∷ 0 ∷ [] }

pool-IsValid : IsValid pool
pool-IsValid = record { in_map = omega arith; aligned = refl; small = omega arith }

abbrev zeros : ℕ → ℕ
zeros addr = 0

find_space_lem_example :
    ((s : ℕ) × (find_space pool 30 ≡ some s)
      × FreeRun pool 30 s
      × ((r : ℕ) → r < s → ¬ FreeRun pool 30 r))
    ⊎ ((find_space pool 30 ≡ none) × ((r : ℕ) → ¬ FreeRun pool 30 r))
find_space_lem_example = find_space_lem pool 30 (omega arith)

across_words : find_space pool 30 ≡ some 3
unfolding find_space find_loop reload bit
across_words = refl

abbrev after : Pool
after = record { start = 4096; pieces = 64; free_pieces = 31; bitmap = 4294967295 ∷ 1 ∷ [] }

takes : alloc_in zeros pool 30 ≡ taken 4160 after
unfolding alloc_in find_space find_loop reload bit set_pieces set_loop write_back blank
takes = refl

free_in-alloc_in_example :
    (pool'' : Pool) × (free_in after 4160 29 ≡ some pool'') × SamePieces pool pool''
free_in-alloc_in_example =
    free_in-alloc_in zeros pool 29 4160 after pool-IsValid (omega arith) takes

-- The first pool has two pieces, both taken.
abbrev full : Pool
full = record { start = 512; pieces = 2; free_pieces = 0; bitmap = 3 ∷ [] }

abbrev wanted : ℕ
wanted = 40
