-- ===== src/Fs/Path/Canonical.antt =====
-- fs/fs.c: the path that `fs_to_absolute_path` makes of one without `..`.
use aexkernel.Prelude.{
  ℕ, suc, ◌<◌, ◌≡◌, refl, sym, ap, ◌∙◌, inl, inr, true, false, Option, List, [], ◌∷◌, ◌++◌, map,
  append-nil, append_assoc, ◌==◌, if◌then◌else◌, Bool-cases, ==_iff, get_or, length, take, subst,
  arith,
}
use aexkernel.Fs.Path.{
  end_segment, segments_from, path_walk, ends_in_slash, joined_path, fs_to_absolute_path,
}
use aexkernel.Fs.Path.Walked.{
  joined, no_up, slash_if, segments_from-slash, segments_from-other, walked_path,
}

-- The path up to its first slash, and what stands between its slashes from there on.
abbrev split : List ℕ → List ℕ × List (List ℕ)
split [] = ([], [])
split (c ∷ path) =
    let (part, parts) = split path in if c == b'/' then ([], part ∷ parts) else (c ∷ part, parts)

abbrev pub not_empty : List (List ℕ) → List (List ℕ)
not_empty [] = []
not_empty ([] ∷ parts) = not_empty parts
not_empty ((c ∷ part) ∷ parts) = (c ∷ part) ∷ not_empty parts

-- The names between the slashes of a path, each cut to 255 bytes.
abbrev pub names : List ℕ → List (List ℕ)
names path = let (part, parts) = split path in map (take 255) (not_empty (part ∷ parts))

-- The names of the path that are not a dot, each behind one slash, and a slash at the end when the path
-- has one.
abbrev pub canonical : List ℕ → List ℕ
canonical path = joined (names path) ++ slash_if (ends_in_slash path)

end_segment-not_empty :
    (segment : List ℕ) (parts : List (List ℕ))
    → end_segment segment (not_empty parts) ≡ not_empty (segment ∷ parts)
end_segment-not_empty [] parts = refl
end_segment-not_empty (c ∷ segment) parts = refl

segments_from-split :
    (segment path : List ℕ)
    → segments_from segment path ≡ not_empty ((segment ++ (split path).0) ∷ (split path).1)
unfolding segments_from
segments_from-split segment [] =
    end_segment-not_empty segment [] ∙ ap (λ s. not_empty (s ∷ [])) (sym (append-nil segment))
segments_from-split segment (c ∷ path) = elim (Bool-cases (c == b'/')) [
  | inl b ↦
      segments_from-slash segment c path b
      ∙ ap (end_segment segment) (segments_from-split [] path)
      ∙ end_segment-not_empty segment ((split path).0 ∷ (split path).1)
      ∙ ap (λ s. not_empty (s ∷ ((split path).0 ∷ (split path).1))) (sym (append-nil segment))
      ∙ ap (λ t. not_empty ((segment ++ t.0) ∷ t.1)) (sym (at_slash b))
  | inr n ↦
      segments_from-other segment c path n
      ∙ segments_from-split (segment ++ (c ∷ [])) path
      ∙ ap (λ s. not_empty (s ∷ (split path).1)) (append_assoc segment (c ∷ []) (split path).0)
      ∙ ap (λ t. not_empty ((segment ++ t.0) ∷ t.1)) (sym (at_name n))
]
  where
    at_slash :
        (c == b'/') ≡ true
        → ◌≡◌ {A = List ℕ × List (List ℕ)} (split (c ∷ path)) ([], (split path).0 ∷ (split path).1)
    at_slash b = rw b

    at_name :
        (c == b'/') ≡ false
        → ◌≡◌ {A = List ℕ × List (List ℕ)} (split (c ∷ path)) (c ∷ (split path).0, (split path).1)
    at_name n = rw n

path_walk-names : (path : List ℕ) → get_or path 0 0 ≡ b'/' → path_walk path ≡ names path
unfolding path_walk
path_walk-names [] e = absurd (omega (arith, e))
path_walk-names (c ∷ path) e =
    ap (map (take 255)) (segments_from-split [] path)
    ∙ ap (λ t. map (take 255) (not_empty (t.0 ∷ t.1))) (sym first)
  where
    first :
        ◌≡◌ {A = List ℕ × List (List ℕ)} (split (c ∷ path)) ([], (split path).0 ∷ (split path).1)
    first = rw ((==_iff c b'/').1 e)

path_walk-some : (path : List ℕ) → get_or path 0 0 ≡ b'/' → 0 < length path
path_walk-some [] e = absurd (omega (arith, e))
path_walk-some (c ∷ path) e = omega arith

-- For a path, behind `base` when it does not start with a slash, that then starts with a slash, has no
-- name `..` and has something left: the block that `fs_to_absolute_path` returns, one byte longer than
-- the path, holds the names between the path's slashes that are not a dot, each cut to 255 bytes and
-- behind one slash, a slash at the end when the path has one, and the terminator.
pub fs_to_absolute_path_lem :
    (local : List ℕ) (base : Option (List ℕ)) (heap : List ℕ)
    → let path = joined_path local base in
      let block = fs_to_absolute_path local base heap in
      get_or path 0 0 ≡ b'/'
      → length heap ≡ suc (length path)
      → no_up (names path) ≡ true
      → 0 < length (canonical path)
      → (take (length (canonical path)) block ≡ canonical path)
        × (get_or block (length (canonical path)) 1 ≡ 0)
fs_to_absolute_path_lem local base heap begins size u p =
    subst
      (λ w.
        no_up w ≡ true
        → 0 < length (text w)
        → (take (length (text w)) (fs_to_absolute_path local base heap) ≡ text w)
          × (get_or (fs_to_absolute_path local base heap) (length (text w)) 1 ≡ 0))
      (path_walk-names (joined_path local base) begins)
      (walked_path local base heap (path_walk-some (joined_path local base) begins) size) u p
  where
    text : List (List ℕ) → List ℕ
    text w = joined w ++ slash_if (ends_in_slash (joined_path local base))
