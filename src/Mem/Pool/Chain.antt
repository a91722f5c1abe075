-- ===== src/Mem/Pool/Chain.antt =====
-- mem/pool.c: `_kmalloc` on the chain of pools.
use aexkernel.Prelude.{ℕ, ◌+◌, ◌*◌, ◌<◌, ◌≤◌, ◌≡◌, ◌⊎◌, List, [], ◌∷◌, ◌++◌}
use aexkernel.Mem.Pool.{Pool, Allocation, given, at_end}
use aexkernel.Mem.Pool.Search.{FreeRun}
use aexkernel.Mem.Pool.Blocks.{IsValid, IsBlank, Taken}

-- Every pool is valid, and its free pieces are blank.
abbrev pub AllReady : (ℕ → ℕ) → List Pool → Type 0
AllReady mem [] = Unit
AllReady mem (pool ∷ pools) = (IsValid pool × IsBlank mem pool) × AllReady mem pools

-- No pool has so many free pieces in a row.
abbrev pub NoneFree : ℕ → List Pool → Type 0
NoneFree n [] = Unit
NoneFree n (pool ∷ pools) = ((r : ℕ) → ¬ FreeRun pool n r) × NoneFree n pools

-- The first run of `n` free pieces in the first pool that has one is taken, and no other pool changed.
pub record Given (pools : List Pool) (n : ℕ) (result : Allocation) : Type 0 where
  pub before : List Pool
  pub pool : Pool
  pub after : List Pool
  pub pool' : Pool
  pub place : ℕ
  pub chain : pools ≡ before ++ (pool ∷ after)
  pub answer : result ≡ given (pool.start + (place + 1) * 16) (before ++ (pool' ∷ after))
  pub none_before : NoneFree n before
  pub free : FreeRun pool n place
  pub first : (r : ℕ) → r < place → ¬ FreeRun pool n r
  pub changed : Taken pool n place pool'

abbrev Found : List Pool → ℕ → Allocation → Type 0
Found pools n result = Given pools n result ⊎ ((result ≡ at_end) × NoneFree n pools)

-- No run of free pieces in the first pool of the chain is longer than its count says.
abbrev pub IsCounted : List Pool → Type 0
IsCounted [] = Unit
IsCounted (pool ∷ pools) = (n s : ℕ) → FreeRun pool n s → n ≤ pool.free_pieces
