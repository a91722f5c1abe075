-- ===== src/Kernel/Str/Tests.antt =====
-- The string functions' theorems at short texts and ranges that overlap.
use aexkernel.Prelude.{ℕ, ◌≡◌, List, [], ◌∷◌, get_or, arith}
use aexkernel.Kernel.Str.{memmove, strlen}
use aexkernel.Kernel.Str.Compare.{strlen-text_at}
use aexkernel.Kernel.Str.Move.{get_or-memmove}

abbrev ab : List ℕ
ab = b'a' ∷ b'b' ∷ 0 ∷ 7 ∷ []

abbrev ab' : List ℕ
ab' = b'a' ∷ b'b' ∷ 0 ∷ 8 ∷ []

strlen-text_at_example : strlen ab ≡ 2
strlen-text_at_example = strlen-text_at ab

get_or-memmove_example : get_or (memmove (1 ∷ 2 ∷ 3 ∷ 4 ∷ []) 1 0 3) 3 0 ≡ 3
get_or-memmove_example = get_or-memmove (1 ∷ 2 ∷ 3 ∷ 4 ∷ []) 1 0 3 3 (omega arith)
