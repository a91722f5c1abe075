-- ===== src/Kernel/Hook/Names.antt =====
-- The names that hooks are kept under.
use aexkernel.Prelude.{ℕ, ◌≤◌, ◌≡◌, false, List, ltb, replicate, arith}
use aexkernel.Kernel.Str.{strlen}
use aexkernel.Kernel.Str.Compare.{text_at}
use aexkernel.Kernel.Str.Copy.{text_at-strcpy}
use aexkernel.Kernel.Hook.{kept_name}

-- A name of at most 47 bytes is kept as it is.
pub kept_name-text_at : (name : List ℕ) → strlen name ≤ 47 → text_at (kept_name name) ≡ text_at name
unfolding kept_name
kept_name-text_at name h = rw short (text_at-strcpy (replicate 48 0) name 0 (omega arith))
  where
    short : ltb 47 (strlen name) ≡ false
    short = ground arith
