-- ===== src/Kernel/Snprintf.antt =====
-- kernel/snprintf.c: formatted printing. A format, a `%s` argument and what is written are lists of
-- bytes, the first two without their terminator. `none` is a read past the end of the format or of the
-- arguments, an argument of the other kind, or a width that does not fit into `buffer`.

mod Tests
pub mod Truncation
use aexkernel.Prelude.{
  ℕ, zero, suc, ◌+◌, ◌-◌, ◌%◌, ◌^◌, Bool, true, false, ◌&&◌, ◌||◌, Option, none, some, List, [],
  ◌∷◌, ◌++◌, map, ltb, leb, ◌==◌, if◌then◌else◌, length, take, drop, replicate, sub_int,
}
use aexkernel.Kernel.Num.{ntoa, untoa, aton}
use aexkernel.Kernel.Str.{toupper}

-- A variadic argument: a number as a pattern of at most 64 bits, or a string.
pub data Argument : Type 0 where
  number : ℕ → Argument
  text : List ℕ → Argument

-- The first loop of `snprintf_common`, for `len2` characters: what it writes and what remains.
pub pad_loop : ℕ → ℕ → ℕ → List ℕ × ℕ
pad_loop zero pad_char remaining = ([], remaining)
pad_loop (suc len2) pad_char remaining =
    let r = pad_loop len2 pad_char (remaining - 1) in
    if remaining == 0 then ([], remaining) else (pad_char ∷ r.0, r.1)

-- The second loop.
pub copy_loop : List ℕ → ℕ → List ℕ × ℕ
copy_loop [] remaining = ([], remaining)
copy_loop (x ∷ buffer) remaining =
    let r = copy_loop buffer (remaining - 1) in
    if remaining == 0 then ([], remaining) else (x ∷ r.0, r.1)

-- The characters of padding: none for a negative `len2`. `pad_len` is its low 32 bits, which are all
-- that counts.
abbrev pub pad_count : ℕ → List ℕ → ℕ
pad_count pad_len buffer =
    let len2 = sub_int pad_len (length buffer % 2 ^ 32) in
    if pad_len == 0 then 0 else if ltb len2 2147483648 then len2 else 0

pub snprintf_common : ℕ → List ℕ → ℕ → ℕ → List ℕ × ℕ
snprintf_common remaining buffer pad_char pad_len =
    let padded = pad_loop (pad_count pad_len buffer) pad_char remaining in
    let copied = copy_loop buffer padded.1 in (padded.0 ++ copied.0, copied.1)

-- What the characters after a `%` say; `used` is their number, that of the type included.
pub record Directive : Type 0 where
  pub pad_with : ℕ
  pub digits : List ℕ
  pub leng : ℕ
  pub type : ℕ
  pub used : ℕ

abbrev pub is_digit : ℕ → Bool
is_digit c = leb b'0' c && leb c b'9'

pub digits_of : List ℕ → List ℕ
digits_of [] = []
digits_of (c ∷ cs) = let rest = digits_of cs in if is_digit c then c ∷ rest else []

-- `*format`, which is 0 at the end.
abbrev pub head : List ℕ → ℕ
head [] = 0
head (c ∷ cs) = c

pub directive : List ℕ → Directive
directive format =
    let zeroed = head format == b'0' in
    let after_flag = if zeroed then drop 1 format else format in
    let digits = digits_of after_flag in
    let after_digits = drop (length digits) after_flag in
    let sized = head after_digits == b'l' || head after_digits == b'h' in
    let after_leng = if sized then drop 1 after_digits else after_digits in
    record {
      pad_with = if zeroed then b'0' else b' ';
      digits = digits;
      leng = if sized then head after_digits else 0;
      type = head after_leng;
      used = (if zeroed then 1 else 0) + length digits + (if sized then 1 else 0) + 1;
    }

abbrev pub width_of : ℕ → ℕ
width_of leng = if leng == b'h' then 16 else if leng == b'l' then 64 else 32

-- The number and the remaining arguments.
abbrev pub take_number : List Argument → (ℕ → List ℕ) → Option (List ℕ × List Argument)
take_number [] f = none
take_number (number n ∷ args) f = some (f n, args)
take_number (text t ∷ args) f = none

abbrev pub take_text : List Argument → Option (List ℕ × List Argument)
take_text [] = none
take_text (number n ∷ args) = none
take_text (text t ∷ args) = some (t, args)

-- What a type prints, before it is padded.
pub convert : Directive → List Argument → Option (List ℕ × List Argument)
convert d args =
    let w = width_of d.leng in
    if d.type == b'i'
    then take_number args (λ n. ntoa w (n % 2 ^ w) 10)
    else if d.type == b'u'
    then take_number args (λ n. untoa w (n % 2 ^ w) 10)
    else if d.type == b'x'
    then take_number args (λ n. untoa w (n % 2 ^ w) 16)
    else if d.type == b'X'
    then take_number args (λ n. map toupper (untoa w (n % 2 ^ w) 16))
    else if d.type == b'p'
    then take_number args (λ n. untoa 64 (n % 2 ^ 64) 16)
    else if d.type == b'P'
    then take_number args (λ n. map toupper (untoa 64 (n % 2 ^ 64) 16))
    else take_text args

abbrev pub is_type : ℕ → Bool
is_type c = c == b'i' || c == b'u' || c == b'x' || c == b'X' || c == b'p' || c == b'P' || c == b's'

abbrev pub pad_char_of : Directive → ℕ
pad_char_of d = if d.type == b'p' || d.type == b'P' then b'0' else d.pad_with

-- The default case of the switch, for the character at `format`.
abbrev pub put_char : ℕ → ℕ → List ℕ × ℕ
put_char c size = if size == 0 then ([], size) else (c ∷ [], size - 1)

-- A directive that is read, padding included; `none` also for the end of the format in its place,
-- past which the loop would read on.
pub print_directive : Directive → List Argument → ℕ → Option ((List ℕ × ℕ) × List Argument)
print_directive d args size =
    if ltb 71 (length d.digits) || d.type == 0
    then none
    else if is_type d.type
    then elim (convert d args) [
      | none ↦ none
      | some (buffer, rest) ↦
          some (snprintf_common size buffer (pad_char_of d) (aton 32 d.digits), rest)
    ]
    else some (put_char d.type size, args)

abbrev pub after : (List ℕ × ℕ) → Option (List ℕ × ℕ) → Option (List ℕ × ℕ)
after w none = none
after w (some r) = some (w.0 ++ r.0, r.1)

-- The loop over the format; `skip` characters were read with the directive before.
pub format_loop : List ℕ → ℕ → List Argument → ℕ → Option (List ℕ × ℕ)
format_loop [] skip args size = some ([], size)
format_loop (c ∷ format) (suc skip) args size = format_loop format skip args size
format_loop (c ∷ format) zero args size = elim (c == b'%') [
  | true ↦ elim (print_directive (directive format) args size) [
    | none ↦ none
    | some (w, rest) ↦ after w (format_loop format (directive format).used rest w.1)
  ]
  | false ↦ after (put_char c size) (format_loop format 0 args (put_char c size).1)
]

-- What is written to `dst`, and the result.
pub snprintf : ℕ → List ℕ → List Argument → Option (List ℕ × ℕ)
snprintf size format args =
    if size == 0 then some ([], 0) else elim (format_loop format 0 args (size - 1)) [
      | none ↦ none
      | some (written, left) ↦ some (written ++ (0 ∷ []), (size - 1 - left) % 2 ^ 32)
    ]
