-- ===== src/Fs/Path/Writing.antt =====
-- fs/fs.c: writing text into the block of a path.
use aexkernel.Prelude.{
  ℕ, zero, suc, ◌+◌, ◌<◌, ◌≡◌, refl, sym, ap, ◌∙◌, List, [], ◌∷◌, ◌++◌, append-nil, append_assoc,
  get_or, set, length, length-append, length-set, take, arith,
}
use aexkernel.Fs.Path.{Canon, put_text}

take-set : (p : ℕ) (mem : List ℕ) (v : ℕ) → take p (set mem p v) ≡ take p mem
take-set zero mem v = refl
take-set (suc p) [] v = refl
take-set (suc p) (x ∷ mem) v = ap (λ r. x ∷ r) (take-set p mem v)

take_one_more :
    (p : ℕ) (mem : List ℕ) (v : ℕ)
    → p < length mem
    → take (suc p) (set mem p v) ≡ take p mem ++ (v ∷ [])
take_one_more zero [] v h = absurd (omega arith)
take_one_more zero (x ∷ mem) v h = refl
take_one_more (suc p) [] v h = absurd (omega arith)
take_one_more (suc p) (x ∷ mem) v h = ap (λ r. x ∷ r) (take_one_more p mem v (omega arith))

get_or-set_self : (p : ℕ) (mem : List ℕ) (v d : ℕ) → p < length mem → get_or (set mem p v) p d ≡ v
get_or-set_self p [] v d h = absurd (omega arith)
get_or-set_self zero (x ∷ mem) v d h = refl
get_or-set_self (suc p) (x ∷ mem) v d h = get_or-set_self p mem v d (omega arith)

pub length-put_text : (mem : List ℕ) (p : ℕ) (xs : List ℕ) → length (put_text mem p xs) ≡ length mem
unfolding put_text
length-put_text mem p [] = length-set mem p 0
length-put_text mem p (x ∷ xs) = length-put_text (set mem p x) (suc p) xs ∙ length-set mem p x

put_text-kept :
    (mem : List ℕ) (p : ℕ) (xs : List ℕ)
    → p + length xs < length mem
    → take (p + length xs) (put_text mem p xs) ≡ take p mem ++ xs
unfolding put_text
put_text-kept mem p [] h =
    ap (λ n. take n (set mem p 0)) (omega arith) ∙ take-set p mem 0 ∙ sym (append-nil (take p mem))
put_text-kept mem p (x ∷ xs) h =
    ap (λ n. take n (put_text (set mem p x) (suc p) xs)) same
    ∙ put_text-kept (set mem p x) (suc p) xs (omega (arith, h, length-set mem p x))
    ∙ ap (λ r. r ++ xs) (take_one_more p mem x (omega (arith, h)))
    ∙ append_assoc (take p mem) (x ∷ []) xs
  where
    same : p + length (x ∷ xs) ≡ suc p + length xs
    same = omega arith

put_text-closed :
    (mem : List ℕ) (p : ℕ) (xs : List ℕ)
    → p + length xs < length mem
    → get_or (put_text mem p xs) (p + length xs) 1 ≡ 0
unfolding put_text
put_text-closed mem p [] h =
    ap (λ n. get_or (set mem p 0) n 1) same ∙ get_or-set_self p mem 0 1 (omega (arith, h))
  where
    same : p + length {A = ℕ} [] ≡ p
    same = omega arith
put_text-closed mem p (x ∷ xs) h =
    ap (λ n. get_or (put_text (set mem p x) (suc p) xs) n 1) same
    ∙ put_text-closed (set mem p x) (suc p) xs (omega (arith, h, length-set mem p x))
  where
    same : p + length (x ∷ xs) ≡ suc p + length xs
    same = omega arith

-- The block holds `t` up to `ptr`, and a terminator behind it once something is written.
pub record Holds (c : Canon) (t : List ℕ) : Type 0 where
  pub place : c.ptr ≡ length t
  pub kept : take (length t) c.path ≡ t
  pub closed : 0 < length t → get_or c.path (length t) 1 ≡ 0

pub put_text-Holds :
    (c : Canon) (t xs : List ℕ)
    → Holds c t
    → length t + length xs < length c.path
    → Holds (record { path = put_text c.path c.ptr xs; ptr = c.ptr + length xs }) (t ++ xs)
put_text-Holds c t xs h b = record {
  place = omega (arith, h.place, length-append t xs);
  kept =
      ap (λ n. take n (put_text c.path c.ptr xs)) end
      ∙ put_text-kept c.path c.ptr xs room
      ∙ ap (λ r. r ++ xs) (ap (λ n. take n c.path) h.place ∙ h.kept);
  closed = λ p.
      ap (λ n. get_or (put_text c.path c.ptr xs) n 1) end ∙ put_text-closed c.path c.ptr xs room;
}
  where
    end : length (t ++ xs) ≡ c.ptr + length xs
    end = omega (arith, h.place, length-append t xs)

    room : c.ptr + length xs < length c.path
    room = omega (arith, h.place, b)
