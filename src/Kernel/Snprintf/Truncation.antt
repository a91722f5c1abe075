-- ===== src/Kernel/Snprintf/Truncation.antt =====
-- kernel/snprintf.c: what is printed into a bounded buffer, against printing without a bound.
use aexkernel.Prelude.{
  ℕ, zero, suc, ◌-◌, ◌%◌, ◌^◌, ◌≤◌, ◌<◌, min, ◌≡◌, refl, sym, ap, ap₂, ◌∙◌, Bool, true, false, ◌||◌,
  Option, none, some, List, [], ◌∷◌, ◌++◌, ltb, ◌==◌, if◌then◌else◌, length, length-append, take,
  replicate, arith,
}
use aexkernel.Kernel.Num.{aton}
use aexkernel.Kernel.Snprintf.{
  Argument, Directive, directive, pad_loop, copy_loop, pad_count, snprintf_common, convert, is_type,
  pad_char_of, put_char, print_directive, after, format_loop, snprintf,
}

suc_ne : (n : ℕ) → (suc n == 0) ≡ false
suc_ne n = ground arith

-- What a directive prints, with its padding.
pub render : Directive → List Argument → Option (List ℕ × List Argument)
render d args =
    if ltb 71 (length d.digits) || d.type == 0
    then none
    else if is_type d.type
    then elim (convert d args) [
      | none ↦ none
      | some (buffer, rest) ↦
          some (replicate (pad_count (aton 32 d.digits) buffer) (pad_char_of d) ++ buffer, rest)
    ]
    else some (d.type ∷ [], args)

abbrev pub preceded : List ℕ → Option (List ℕ) → Option (List ℕ)
preceded w none = none
preceded w (some t) = some (w ++ t)

-- The whole text of a format, however long it is.
pub expand : List ℕ → ℕ → List Argument → Option (List ℕ)
expand [] skip args = some []
expand (c ∷ format) (suc skip) args = expand format skip args
expand (c ∷ format) zero args = elim (c == b'%') [
  | true ↦ elim (render (directive format) args) [
    | none ↦ none
    | some (w, rest) ↦ preceded w (expand format (directive format).used rest)
  ]
  | false ↦ preceded (c ∷ []) (expand format 0 args)
]

-- A text as far as it fits, and the room that is left.
abbrev pub fit : ℕ → List ℕ → List ℕ × ℕ
fit size t = (take size t, size - length t)

take-nil : (n : ℕ) → take {A = ℕ} n [] ≡ []
take-nil zero = refl
take-nil (suc n) = refl

take-append : (n : ℕ) (a b : List ℕ) → take n (a ++ b) ≡ take n a ++ take (n - length a) b
take-append n [] b = ap (λ k. take k b) same ∙ ap (λ r. r ++ take (n - 0) b) (sym (take-nil n))
  where
    same : n ≡ n - 0
    same = omega arith
take-append zero (x ∷ a) b = ap (λ k. take k b) same
  where
    same : 0 ≡ 0 - suc (length a)
    same = omega arith
take-append (suc n) (x ∷ a) b =
    ap (λ r. x ∷ r) (take-append n a b ∙ ap (λ k. take n a ++ take k b) same)
  where
    same : n - length a ≡ suc n - suc (length a)
    same = omega arith

fit-append :
    (size : ℕ) (a b : List ℕ)
    → fit size (a ++ b) ≡ ((fit size a).0 ++ (fit (fit size a).1 b).0, (fit (fit size a).1 b).1)
fit-append size a b = ap₂ (λ t n. (t, n)) (take-append size a b) (omega (arith, length-append a b))

copy_loop_lem :
    (buffer : List ℕ) (remaining : ℕ) → copy_loop buffer remaining ≡ fit remaining buffer
unfolding copy_loop
copy_loop_lem [] n = ap₂ (λ t k. (t, k)) (sym (take-nil n)) (omega arith)
copy_loop_lem (x ∷ buffer) zero = ap (λ k. ([], k)) (omega arith)
copy_loop_lem (x ∷ buffer) (suc n) =
    ap (λ r. if suc n == 0 then ([], suc n) else (x ∷ r.0, r.1))
      (ap (copy_loop buffer) (omega arith) ∙ copy_loop_lem buffer n)
    ∙ rw (suc_ne n) (ap (λ k. (x ∷ take n buffer, k)) (omega arith))

pad_loop_lem :
    (len2 pad_char remaining : ℕ)
    → pad_loop len2 pad_char remaining ≡ fit remaining (replicate len2 pad_char)
unfolding pad_loop
pad_loop_lem zero pad n = ap₂ (λ t k. (t, k)) (sym (take-nil n)) (omega arith)
pad_loop_lem (suc m) pad zero = ap (λ k. ([], k)) (omega arith)
pad_loop_lem (suc m) pad (suc n) =
    ap (λ r. if suc n == 0 then ([], suc n) else (pad ∷ r.0, r.1))
      (ap (pad_loop m pad) (omega arith) ∙ pad_loop_lem m pad n)
    ∙ rw (suc_ne n) (ap (λ k. (pad ∷ take n (replicate m pad), k)) (omega arith))

snprintf_common_lem :
    (remaining : ℕ) (buffer : List ℕ) (pad_char pad_len : ℕ)
    → snprintf_common remaining buffer pad_char pad_len
      ≡ fit remaining (replicate (pad_count pad_len buffer) pad_char ++ buffer)
unfolding snprintf_common
snprintf_common_lem n buffer pad len =
    ap (λ p. (p.0 ++ (copy_loop buffer p.1).0, (copy_loop buffer p.1).1))
      (pad_loop_lem (pad_count len buffer) pad n)
    ∙ ap (λ c. ((fit n padding).0 ++ c.0, c.1)) (copy_loop_lem buffer (fit n padding).1)
    ∙ sym (fit-append n padding buffer)
  where
    padding : List ℕ
    padding = replicate (pad_count len buffer) pad

put_char-fit : (c size : ℕ) → put_char c size ≡ fit size (c ∷ [])
put_char-fit c zero = ap (λ k. ([], k)) (omega arith)
put_char-fit c (suc n) = rw (suc_ne n) (ap₂ (λ t k. (c ∷ t, k)) (sym (take-nil n)) (omega arith))

abbrev fitted : ℕ → Option (List ℕ × List Argument) → Option ((List ℕ × ℕ) × List Argument)
fitted size none = none
fitted size (some (w, rest)) = some (fit size w, rest)

print_directive-fit :
    (d : Directive) (args : List Argument) (size : ℕ)
    → print_directive d args size ≡ fitted size (render d args)
unfolding print_directive render
print_directive-fit d args size =
    chosen (ltb 71 (length d.digits) || d.type == 0) (is_type d.type) (convert d args)
  where
    converted :
        (o : Option (List ℕ × List Argument))
        → elim o as (λ x. Option ((List ℕ × ℕ) × List Argument)) [
          | none ↦ none
          | some (buffer, rest) ↦
              some (snprintf_common size buffer (pad_char_of d) (aton 32 d.digits), rest)
        ]
          ≡ fitted size (elim o [
            | none ↦ none
            | some (buffer, rest) ↦
                some
                  (replicate (pad_count (aton 32 d.digits) buffer) (pad_char_of d) ++ buffer, rest)
          ])
    converted none = refl
    converted (some (buffer, rest)) =
        ap (λ w. some (w, rest))
          (snprintf_common_lem size buffer (pad_char_of d) (aton 32 d.digits))

    chosen :
        (b c : Bool) (o : Option (List ℕ × List Argument))
        → ◌≡◌ {A = Option ((List ℕ × ℕ) × List Argument)}
            (if b
              then none
              else if c
              then elim o [
                | none ↦ none
                | some (buffer, rest) ↦
                    some (snprintf_common size buffer (pad_char_of d) (aton 32 d.digits), rest)
              ]
              else some (put_char d.type size, args))
            (fitted size (
              if b
              then none
              else if c
              then elim o [
                | none ↦ none
                | some (buffer, rest) ↦ some (
                  replicate (pad_count (aton 32 d.digits) buffer) (pad_char_of d) ++ buffer,
                  rest,
                )
              ]
              else some (d.type ∷ [], args)))
    chosen true c o = refl
    chosen false true o = converted o
    chosen false false o = ap (λ w. some (w, args)) (put_char-fit d.type size)

abbrev pub fitting : ℕ → Option (List ℕ) → Option (List ℕ × ℕ)
fitting size none = none
fitting size (some t) = some (fit size t)

after-fit :
    (size : ℕ) (w : List ℕ) (o : Option (List ℕ))
    → after (fit size w) (fitting (fit size w).1 o) ≡ fitting size (preceded w o)
after-fit size w none = refl
after-fit size w (some t) = ap some (sym (fit-append size w t))

format_loop-fit :
    (format : List ℕ) (skip : ℕ) (args : List Argument) (size : ℕ)
    → format_loop format skip args size ≡ fitting size (expand format skip args)
unfolding format_loop expand
format_loop-fit [] skip args size =
    ap some (ap₂ (λ t k. (t, k)) (sym (take-nil size)) (omega arith))
format_loop-fit (c ∷ format) (suc skip) args size = format_loop-fit format skip args size
format_loop-fit (c ∷ format) zero args size = char (format_loop-fit format) (c == b'%')
  where
    directed :
        ((skip : ℕ) (args : List Argument) (size : ℕ)
          → format_loop format skip args size ≡ fitting size (expand format skip args))
        → (o : Option (List ℕ × List Argument))
        → elim (fitted size o) as (λ x. Option (List ℕ × ℕ)) [
          | none ↦ none
          | some (w, rest) ↦ after w (format_loop format (directive format).used rest w.1)
        ]
          ≡ fitting size (elim o [
            | none ↦ none
            | some (w, rest) ↦ preceded w (expand format (directive format).used rest)
          ])
    directed again none = refl
    directed again (some (w, rest)) =
        ap (after (fit size w)) (again (directive format).used rest (fit size w).1)
        ∙ after-fit size w (expand format (directive format).used rest)

    char :
        ((skip : ℕ) (args : List Argument) (size : ℕ)
          → format_loop format skip args size ≡ fitting size (expand format skip args))
        → (b : Bool)
        → elim b as (λ b. Option (List ℕ × ℕ)) [
          | true ↦ elim (print_directive (directive format) args size) [
            | none ↦ none
            | some (w, rest) ↦ after w (format_loop format (directive format).used rest w.1)
          ]
          | false ↦ after (put_char c size) (format_loop format 0 args (put_char c size).1)
        ]
          ≡ fitting size (elim b [
            | true ↦ elim (render (directive format) args) [
              | none ↦ none
              | some (w, rest) ↦ preceded w (expand format (directive format).used rest)
            ]
            | false ↦ preceded (c ∷ []) (expand format 0 args)
          ])
    char again true =
        ap
          (λ o. elim o as (λ x. Option (List ℕ × ℕ)) [
            | none ↦ none
            | some (w, rest) ↦ after w (format_loop format (directive format).used rest w.1)
          ])
          (print_directive-fit (directive format) args size)
        ∙ directed again (render (directive format) args)
    char again false =
        ap (λ w. after w (format_loop format 0 args w.1)) (put_char-fit c size)
        ∙ ap (after (fit size (c ∷ []))) (again 0 args (fit size (c ∷ [])).1)
        ∙ after-fit size (c ∷ []) (expand format 0 args)

-- What `snprintf` writes and returns when the whole text is `t`.
abbrev pub truncated : ℕ → Option (List ℕ) → Option (List ℕ × ℕ)
truncated size none = none
truncated size (some t) = some (take (size - 1) t ++ (0 ∷ []), min (size - 1) (length t))

-- With a buffer of 1 to 2^31 bytes, `snprintf` writes the text that the format and the arguments
-- stand for, whatever its length, cut off after `size - 1` bytes, and then a terminator; it returns
-- the number of bytes before the terminator. It faults only where printing without a bound does.
pub snprintf_lem :
    (size : ℕ) (format : List ℕ) (args : List Argument)
    → 0 < size
    → size ≤ 2147483648
    → snprintf size format args ≡ truncated size (expand format 0 args)
unfolding snprintf
snprintf_lem size format args p b =
    rw (nonzero, format_loop-fit format 0 args (size - 1), snprintf) (cut (expand format 0 args))
  where
    nonzero : (size == 0) ≡ false
    nonzero = ground (arith, p)

    cut :
        (o : Option (List ℕ))
        → elim (fitting (size - 1) o) as (λ x. Option (List ℕ × ℕ)) [
          | none ↦ none
          | some (written, left) ↦ some (written ++ (0 ∷ []), (size - 1 - left) % 2 ^ 32)
        ]
          ≡ truncated size o
    cut none = refl
    cut (some t) = ap (λ n. some (take (size - 1) t ++ (0 ∷ []), n)) (omega (arith, b))
