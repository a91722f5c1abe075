-- ===== src/Fs/Path/Walked.antt =====
-- fs/fs.c: what the walk over the segments makes of a path without `..`.
use aexkernel.Prelude.{
  ℕ, suc, ◌+◌, ◌-◌, ◌≤◌, ◌<◌, ◌≡◌, refl, sym, ap, ◌∙◌, inl, inr, Bool, true, false, Option, List,
  [], ◌∷◌, ◌++◌, map, append-nil, append_assoc, ◌==◌, if◌then◌else◌, Bool-cases, get_or, length,
  length-append, length-take, take, subst, arith,
}
use aexkernel.Kernel.Str.{strcmp}
use aexkernel.Fs.Path.{
  Canon, dot, dot_dot, put_text, end_segment, segments_from, path_walk, walk_segment, walk_segments,
  ends_in_slash, finish, joined_path, fs_to_absolute_path,
}
use aexkernel.Fs.Path.Writing.{Holds, length-put_text, put_text-Holds}

-- Each segment behind a slash, those that are a dot left out.
unfoldable pub joined : List (List ℕ) → List ℕ
joined [] = []
joined (segment ∷ segments) =
    if strcmp segment dot == 0 then joined segments else b'/' ∷ (segment ++ joined segments)

unfoldable pub no_up : List (List ℕ) → Bool
no_up [] = true
no_up (segment ∷ segments) = if strcmp segment dot_dot == 0 then false else no_up segments

abbrev pub slash_if : Bool → List ℕ
slash_if true = b'/' ∷ []
slash_if false = []

-- What the walk makes of the path.
abbrev pub walked : List ℕ → List ℕ
walked path = joined (path_walk path) ++ slash_if (ends_in_slash path)

walk_segment-dot :
    (c : Canon) (segment : List ℕ)
    → (strcmp segment dot_dot == 0) ≡ false
    → (strcmp segment dot == 0) ≡ true
    → walk_segment c segment ≡ c
unfolding walk_segment
walk_segment-dot c segment u d = rw (u, d, walk_segment)

walk_segment-name :
    (c : Canon) (segment : List ℕ)
    → (strcmp segment dot_dot == 0) ≡ false
    → (strcmp segment dot == 0) ≡ false
    → walk_segment c segment ≡ record {
      path = put_text c.path c.ptr (b'/' ∷ segment);
      ptr = c.ptr + length (b'/' ∷ segment);
    }
unfolding walk_segment put_text
walk_segment-name c segment u d =
    rw (u, d, walk_segment)
      (ap (λ n. record { path = put_text c.path c.ptr (b'/' ∷ segment); ptr = n }) same)
  where
    same : suc c.ptr + length segment ≡ c.ptr + length (b'/' ∷ segment)
    same = omega arith

abbrev Walked : Canon → List ℕ → ℕ → Type 0
Walked c t n = Holds c t × (length c.path ≡ n)

walk_segments-Holds :
    (segments : List (List ℕ)) (c : Canon) (t : List ℕ)
    → no_up segments ≡ true
    → Holds c t
    → length t + length (joined segments) < length c.path
    → Walked (walk_segments c segments) (t ++ joined segments) (length c.path)
unfolding walk_segments joined no_up
walk_segments-Holds [] c t u h b = (subst (Holds c) (sym (append-nil t)) h, refl)
walk_segments-Holds (segment ∷ segments) c t u h b =
    elim (Bool-cases (strcmp segment dot_dot == 0)) [
      | inl up ↦ absurd (refused up)
      | inr n ↦ elim (Bool-cases (strcmp segment dot == 0)) [
        | inl d ↦
            moved c (joined segments) (walk_segment-dot c segment n d) (as_dot d)
              (walk_segments-Holds segments c t (later n) h (shorter d))
        | inr d ↦
            moved c' (b'/' ∷ (segment ++ joined segments)) (walk_segment-name c segment n d)
              (as_name d)
              (subst (λ r. Walked (walk_segments c' segments) r (length c.path))
                (append_assoc t (b'/' ∷ segment) (joined segments))
                (subst
                  (Walked (walk_segments c' segments) ((t ++ (b'/' ∷ segment)) ++ joined segments))
                  (length-put_text c.path c.ptr (b'/' ∷ segment))
                  (walk_segments-Holds segments c' (t ++ (b'/' ∷ segment)) (later n)
                    (put_text-Holds c t (b'/' ∷ segment) h (omega (arith, room d)))
                    (omega (
                      arith,
                      room d,
                      length-append t (b'/' ∷ segment),
                      length-put_text c.path c.ptr (b'/' ∷ segment),
                    )))))
      ]
    ]
  where
    c' : Canon
    c' = record {
      path = put_text c.path c.ptr (b'/' ∷ segment);
      ptr = c.ptr + length (b'/' ∷ segment);
    }

    moved :
        (d : Canon) (r : List ℕ)
        → walk_segment c segment ≡ d
        → joined (segment ∷ segments) ≡ r
        → Walked (walk_segments d segments) (t ++ r) (length c.path)
        → Walked
            (walk_segments c (segment ∷ segments))
            (t ++ joined (segment ∷ segments))
            (length c.path)
    moved d r e q w =
        subst
          (λ d.
            Walked (walk_segments d segments) (t ++ joined (segment ∷ segments)) (length c.path))
          (sym e)
          (subst (λ r. Walked (walk_segments d segments) (t ++ r) (length c.path)) (sym q) w)

    refused : (strcmp segment dot_dot == 0) ≡ true → ⊥
    refused e = true-ne-false (sym u ∙ rw e)
      where
        true-ne-false : true ≡ false → ⊥
        true-ne-false e = cc

    later : (strcmp segment dot_dot == 0) ≡ false → no_up segments ≡ true
    later n = ap (λ b. if b then false else no_up segments) (sym n) ∙ u

    as_dot : (strcmp segment dot == 0) ≡ true → joined (segment ∷ segments) ≡ joined segments
    as_dot d = rw d

    as_name :
        (strcmp segment dot == 0) ≡ false
        → joined (segment ∷ segments) ≡ b'/' ∷ (segment ++ joined segments)
    as_name d = rw d

    shorter : (strcmp segment dot == 0) ≡ true → length t + length (joined segments) < length c.path
    shorter d = subst (λ r. length t + length r < length c.path) (as_dot d) b

    room :
        (strcmp segment dot == 0) ≡ false
        → length t + suc (length segment + length (joined segments)) < length c.path
    room d =
        subst (λ n. length t + suc n < length c.path) (length-append segment (joined segments))
          (subst (λ r. length t + length r < length c.path) (as_name d) b)

joined-length :
    (segment : List ℕ) (segments : List (List ℕ))
    → length (joined (take 255 segment ∷ segments))
      ≤ suc (length segment) + length (joined segments)
unfolding joined
joined-length segment segments = elim (Bool-cases (strcmp (take 255 segment) dot == 0)) [
  | inl b ↦ rw b (omega arith)
  | inr n ↦
      rw n
        (omega (arith, length-append (take 255 segment) (joined segments), length-take 255 segment))
]

end_segment-length :
    (segment : List ℕ) (rest : List (List ℕ))
    → length (joined (map (take 255) (end_segment segment rest)))
      ≤ suc (length segment) + length (joined (map (take 255) rest))
end_segment-length [] rest = omega arith
end_segment-length (c ∷ segment) rest = joined-length (c ∷ segment) (map (take 255) rest)

abbrev needed : List ℕ → List ℕ → ℕ
needed segment local = length (joined (map (take 255) (segments_from segment local)))

slash_if-length : (b : Bool) → length (slash_if b) ≤ 1
slash_if-length true = omega arith
slash_if-length false = omega arith

pub segments_from-slash :
    (segment : List ℕ) (c : ℕ) (local : List ℕ)
    → (c == b'/') ≡ true
    → segments_from segment (c ∷ local) ≡ end_segment segment (segments_from [] local)
unfolding segments_from
segments_from-slash segment c local b = rw (b, segments_from)

pub segments_from-other :
    (segment : List ℕ) (c : ℕ) (local : List ℕ)
    → (c == b'/') ≡ false
    → segments_from segment (c ∷ local) ≡ segments_from (segment ++ (c ∷ [])) local
unfolding segments_from
segments_from-other segment c local n = rw (n, segments_from)

abbrev space : List (List ℕ) → ℕ
space segments = length (joined (map (take 255) segments))

needed-slash :
    (segment : List ℕ) (c : ℕ) (local : List ℕ)
    → (c == b'/') ≡ true
    → needed segment (c ∷ local) ≤ suc (length segment) + needed [] local
needed-slash segment c local b =
    subst (λ s. space s ≤ suc (length segment) + needed [] local)
      (sym (segments_from-slash segment c local b))
      (end_segment-length segment (segments_from [] local))

needed-other :
    (segment : List ℕ) (c : ℕ) (local : List ℕ)
    → (c == b'/') ≡ false
    → needed segment (c ∷ local) ≡ needed (segment ++ (c ∷ [])) local
needed-other segment c local n = ap space (segments_from-other segment c local n)

needed-end : (segment : List ℕ) → needed segment [] ≤ suc (length segment)
unfolding segments_from joined
needed-end segment = omega (arith, end_segment-length segment [])

needed-empty : needed [] [] ≡ 0
unfolding segments_from joined
needed-empty = refl

ends-cons : (c d : ℕ) (local : List ℕ) → ends_in_slash (c ∷ d ∷ local) ≡ ends_in_slash (d ∷ local)
ends-cons c d local = ap (λ x. x == b'/') (ap (λ n. get_or (c ∷ d ∷ local) n 0) same)
  where
    same : suc (suc (length local)) - 1 ≡ suc (suc (length local) - 1)
    same = omega arith

-- What the segments need is no longer than the path.
segments-length :
    (local segment : List ℕ)
    → needed segment local + length (slash_if (ends_in_slash local))
      ≤ 1 + length segment + length local
segments-length [] segment = omega (arith, needed-end segment)
segments-length (c ∷ []) segment = elim (Bool-cases (c == b'/')) [
  | inl b ↦ omega (arith, needed-slash segment c [] b, needed-empty, slash_if-length (c == b'/'))
  | inr n ↦ rw (n) (
      omega (
        arith,
        needed-other segment c [] n,
        needed-end (segment ++ (c ∷ [])),
        length-append segment (c ∷ []),
      ))
]
segments-length (c ∷ d ∷ local) segment = elim (Bool-cases (c == b'/')) [
  | inl b ↦
      rw (ends-cons c d local)
        (omega (arith, needed-slash segment c (d ∷ local) b, segments-length (d ∷ local) []))
  | inr n ↦ rw (ends-cons c d local) (
      omega (
        arith,
        needed-other segment c (d ∷ local) n,
        segments-length (d ∷ local) (segment ++ (c ∷ [])),
        length-append segment (c ∷ []),
      ))
]

walked-length : (path : List ℕ) → 0 < length path → length (walked path) ≤ length path
unfolding path_walk
walked-length [] h = absurd (omega arith)
walked-length (c ∷ []) h = omega (
  arith,
  length-append (joined (path_walk (c ∷ []))) (slash_if (c == b'/')),
  needed-empty,
  slash_if-length (c == b'/'),
)
walked-length (c ∷ d ∷ path) h =
    subst (λ b. length (joined (path_walk (c ∷ d ∷ path)) ++ slash_if b) ≤ length (c ∷ d ∷ path))
      (sym (ends-cons c d path))
      (omega (
        arith,
        length-append (joined (path_walk (c ∷ d ∷ path))) (slash_if (ends_in_slash (d ∷ path))),
        segments-length (d ∷ path) [],
      ))

finish-Holds :
    (c : Canon) (t : List ℕ) (b : Bool)
    → Holds c t
    → length (t ++ slash_if b) < length c.path
    → 0 < length (t ++ slash_if b)
    → (take (length (t ++ slash_if b)) (finish c b) ≡ t ++ slash_if b)
      × (get_or (finish c b) (length (t ++ slash_if b)) 1 ≡ 0)
finish-Holds c t true h b p =
    let r = put_text-Holds c t (b'/' ∷ []) h (omega (arith, b, length-append t (b'/' ∷ []))) in
    (r.kept, r.closed p)
finish-Holds c t false h b p =
    subst (λ r. (take (length r) c.path ≡ r) × (get_or c.path (length r) 1 ≡ 0))
      (sym (append-nil t)) (h.kept, h.closed (subst (λ r. 0 < length r) (append-nil t) p))

pub walked_path :
    (local : List ℕ) (base : Option (List ℕ)) (heap : List ℕ)
    → let path = joined_path local base in
      let block = fs_to_absolute_path local base heap in
      0 < length path
      → length heap ≡ suc (length path)
      → no_up (path_walk path) ≡ true
      → 0 < length (walked path)
      → (take (length (walked path)) block ≡ walked path)
        × (get_or block (length (walked path)) 1 ≡ 0)
unfolding fs_to_absolute_path
walked_path local base heap h size u p =
    let (held, same) =
      walk_segments-Holds (path_walk path) start [] u begin
        (omega (arith, size, walked-length path h, parts)) in
    finish-Holds (walk_segments start (path_walk path)) (joined (path_walk path))
      (ends_in_slash path) held (omega (arith, same, size, walked-length path h)) p
  where
    path : List ℕ
    path = joined_path local base

    start : Canon
    start = record { path = heap; ptr = 0 }

    begin : Holds start []
    begin = record { place = refl; kept = refl; closed = λ q. absurd (omega (arith, q)) }

    parts :
        length (walked path)
        ≡ length (joined (path_walk path)) + length (slash_if (ends_in_slash path))
    parts = length-append (joined (path_walk path)) (slash_if (ends_in_slash path))
