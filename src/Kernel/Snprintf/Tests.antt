-- ===== src/Kernel/Snprintf/Tests.antt =====
-- Formatted printing on small formats.
use aexkernel.Prelude.{ℕ, ◌≡◌, refl, some, List, [], ◌∷◌, ◌++◌, arith}
use aexkernel.Kernel.Num.{codes, aton}
use aexkernel.Kernel.Snprintf.{
  Argument, number, text, directive, digits_of, convert, print_directive, pad_loop, copy_loop,
  snprintf_common, format_loop, snprintf,
}
use aexkernel.Kernel.Snprintf.Truncation.{expand, truncated, snprintf_lem}

abbrev format : List ℕ
format = codes "a%03iX%s"

abbrev args : List Argument
args = number 5 ∷ text (codes "bcd") ∷ []

snprintf_lem_example : snprintf 8 format args ≡ truncated 8 (expand format 0 args)
snprintf_lem_example = snprintf_lem 8 format args (omega arith) (omega arith)

cut_text : snprintf 5 (codes "a%s") (text (codes "bcde") ∷ []) ≡ some (codes "abcd" ++ (0 ∷ []), 4)
unfolding snprintf format_loop print_directive directive digits_of convert snprintf_common pad_loop
    copy_loop aton
cut_text = refl
