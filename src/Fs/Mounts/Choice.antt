-- ===== src/Fs/Mounts/Choice.antt =====
-- fs_get_mount picks a mount with the longest path that is a prefix of the path asked for.
use aexkernel.Prelude.{
  ℕ, zero, suc, ◌+◌, ◌<◌, ◌≤◌, ◌≡◌, refl, ap, ◌∙◌, ◌⊎◌, inl, inr, ◌↔◌, true, false, ◌&&◌, Option,
  none, some, List, [], ◌∷◌, leb, ◌==◌, if◌then◌else◌, Bool-cases, get_or, drop, subst, arith,
}
use aexkernel.Kernel.Str.{memcmp, strlen}
use aexkernel.Kernel.Str.Compare.{memcmp_iff}
use aexkernel.Rc.Array.{Cell, slot}
use aexkernel.Fs.Types.{Mount, ok}
use aexkernel.Fs.Mounts.{
  Best, path_len, covers, consider, choose, slash, new_path, answer, fs_get_mount,
}

-- Mounts are only ever added, so every slot of the table holds one.
abbrev pub AllPresent : List (Option (Cell Mount)) → Type 0
AllPresent [] = Unit
AllPresent (none ∷ xs) = ⊥
AllPresent (some c ∷ xs) = (c.present ≡ true) × AllPresent xs

-- The mount's path is not empty, and less its last slash it is a prefix of the path.
abbrev pub Covers : Mount → List ℕ → Type 0
Covers m path =
    (0 < strlen m.path) × ((k : ℕ) → k < path_len m → get_or m.path k 0 ≡ get_or path k 0)

module _ (path : List ℕ) where
  -- Nothing was chosen, and no mount from here on could be.
  abbrev Unchanged : List (Option (Cell Mount)) → Best → Best → Type 0
  Unchanged xs best best' =
      (best' ≡ best)
      × ((i : ℕ) (c : Cell Mount)
          → slot xs i ≡ some c
          → covers c.value path ≡ true
          → path_len c.value < best.spec_len)

  -- The mount in slot `i` from here on was chosen last, and no covering one is longer.
  abbrev Chosen : List (Option (Cell Mount)) → ℕ → Best → Best → Type 0
  Chosen xs id best best' =
      (i : ℕ) × (c : Cell Mount) × (best'
        ≡ record { sel_id = some (id + i); spec_len = path_len c.value })
      × (slot xs i ≡ some c)
      × (covers c.value path ≡ true)
      × (best.spec_len ≤ path_len c.value)
      × ((j : ℕ) (d : Cell Mount)
          → slot xs j ≡ some d
          → covers d.value path ≡ true
          → path_len d.value ≤ path_len c.value)

  same_mount : (c d : Cell Mount) → some c ≡ some d → c ≡ d
  same_mount c d e = ground arith

  -- A slot of `some c ∷ xs` is the first or one of `xs`.
  slot_cases :
      (xs : List (Option (Cell Mount))) (c : Cell Mount) (P : Cell Mount → Type 0)
      → P c
      → ((j : ℕ) (d : Cell Mount) → slot xs j ≡ some d → P d)
      → (j : ℕ) (d : Cell Mount) → slot (some c ∷ xs) j ≡ some d
      → P d
  slot_cases xs c P p q zero d e = subst P (same_mount c d e) p
  slot_cases xs c P p q (suc j) d e = q j d e

  taken :
      (xs : List (Option (Cell Mount))) (c : Cell Mount) (id : ℕ) (best best' : Best)
      → covers c.value path ≡ true
      → best.spec_len ≤ path_len c.value
      → Unchanged xs (record { sel_id = some id; spec_len = path_len c.value }) best'
        ⊎ Chosen xs (suc id) (record { sel_id = some id; spec_len = path_len c.value }) best'
      → Chosen (some c ∷ xs) id best best'
  taken xs c id best best' v l (inl (e, u)) = (
    0,
    c,
    e ∙ ap (λ n. record { sel_id = some n; spec_len = path_len c.value }) (omega arith),
    refl,
    v,
    l,
    slot_cases xs c (λ d. covers d.value path ≡ true → path_len d.value ≤ path_len c.value)
        (λ _. omega arith) (λ j d q w. omega (arith, u j d q w)),
  )
  taken xs c id best best' v l (inr (i, d, e, s, w, m, longest)) = (
    suc i,
    d,
    e ∙ ap (λ n. record { sel_id = some n; spec_len = path_len d.value }) (omega arith),
    s,
    w,
    omega arith,
    slot_cases xs c (λ x. covers x.value path ≡ true → path_len x.value ≤ path_len d.value) (λ _. m)
        longest,
  )

  skipped :
      (xs : List (Option (Cell Mount))) (c : Cell Mount) (id : ℕ) (best best' : Best)
      → (covers c.value path ≡ true → path_len c.value < best.spec_len)
      → Unchanged xs best best' ⊎ Chosen xs (suc id) best best'
      → Unchanged (some c ∷ xs) best best' ⊎ Chosen (some c ∷ xs) id best best'
  skipped xs c id best best' f (inl (e, u)) =
      inl (
        e,
        slot_cases xs c (λ d. covers d.value path ≡ true → path_len d.value < best.spec_len) f u,
      )
  skipped xs c id best best' f (inr (i, d, e, s, w, m, longest)) = inr (
    suc i,
    d,
    e ∙ ap (λ n. record { sel_id = some n; spec_len = path_len d.value }) (omega arith),
    s,
    w,
    m,
    slot_cases xs c (λ x. covers x.value path ≡ true → path_len x.value ≤ path_len d.value)
        (λ v. omega (arith, f v)) longest,
  )

  choose_lem :
      (xs : List (Option (Cell Mount))) (id : ℕ) (best : Best)
      → AllPresent xs
      → (best' : Best) × (choose xs path id best ≡ ok best')
        × (Unchanged xs best best' ⊎ Chosen xs id best best')
  unfolding choose consider
  choose_lem [] id best a = (best, refl, inl (refl, λ i c e. absurd (no_slot c e)))
    where
      no_slot : (c : Cell Mount) → none ≡ some c → ⊥
      no_slot c e = cc
  choose_lem (none ∷ xs) id best a = absurd a
  choose_lem (some c ∷ xs) id best a =
      elim (Bool-cases (covers c.value path && leb best.spec_len (path_len c.value))) [
        | inl t ↦
            let best_c : Best = record { sel_id = some id; spec_len = path_len c.value } in
            let (best', e, r) = choose_lem xs (suc id) best_c a.1 in
            (best', rw (a.0, t) e, inr (taken xs c id best best' (left t) (right t) r))
        | inr f ↦
            let (best', e, r) = choose_lem xs (suc id) best a.1 in
            (best', rw (a.0, f) e, skipped xs c id best best' (too_short f) r)
      ]
    where
      left :
          (covers c.value path && leb best.spec_len (path_len c.value)) ≡ true
          → covers c.value path ≡ true
      left t = ground arith

      right :
          (covers c.value path && leb best.spec_len (path_len c.value)) ≡ true
          → best.spec_len ≤ path_len c.value
      right t = ground arith

      too_short :
          (covers c.value path && leb best.spec_len (path_len c.value)) ≡ false
          → covers c.value path ≡ true
          → path_len c.value < best.spec_len
      too_short f v = ground arith

covers_iff : (m : Mount) (path : List ℕ) → (covers m path ≡ true) ↔ Covers m path
covers_iff m path = (
  λ h. (long_of h, (memcmp_iff m.path path (path_len m)).0 (zero_of h)),
  λ (l, h). test_of l ((memcmp_iff m.path path (path_len m)).1 h),
)
  where
    long_of : covers m path ≡ true → 0 < strlen m.path
    long_of h = ground arith

    zero_of : covers m path ≡ true → memcmp m.path path (path_len m) ≡ 0
    zero_of h = ground arith

    test_of : 0 < strlen m.path → memcmp m.path path (path_len m) ≡ 0 → covers m path ≡ true
    test_of l h = ground arith

-- What `fs_get_mount` may answer for a table of present mounts.
abbrev pub NoMount : List (Option (Cell Mount)) → List ℕ → Type 0
NoMount mounts path =
    (fs_get_mount mounts path ≡ ok none)
    × ((i : ℕ) (c : Cell Mount) → slot mounts i ≡ some c → ¬ Covers c.value path)

abbrev pub BestMount : List (Option (Cell Mount)) → List ℕ → Type 0
BestMount mounts path =
    (i : ℕ) × (c : Cell Mount) × (fs_get_mount mounts path
      ≡ ok (
          some (
            i,
            (if get_or path (path_len c.value) 0 == b'/'
                then drop (path_len c.value) path
                else slash),
          )))
    × (slot mounts i ≡ some c)
    × Covers c.value path
    × ((j : ℕ) (d : Cell Mount)
        → slot mounts j ≡ some d
        → Covers d.value path
        → path_len d.value ≤ path_len c.value)

-- For a table whose slots all hold mounts `fs_get_mount` answers. It gives -ENOENT if no mount has a
-- path that is not empty and, less its last slash, is a prefix of the path. Else it gives a mount whose path is such a prefix and
-- at least as long as any other, with the rest of the path if that begins with a slash, and the
-- mount's root if it does not, also where the path goes on in the middle of a name.
pub fs_get_mount-longest :
    (mounts : List (Option (Cell Mount))) (path : List ℕ)
    → AllPresent mounts
    → NoMount mounts path ⊎ BestMount mounts path
unfolding fs_get_mount answer new_path
fs_get_mount-longest mounts path a = go (choose_lem path mounts 0 start a)
  where
    start : Best
    start = record { sel_id = none; spec_len = 0 }

    go :
        (best' : Best) × (choose mounts path 0 start ≡ ok best')
          × (Unchanged path mounts start best' ⊎ Chosen path mounts 0 start best')
        → NoMount mounts path ⊎ BestMount mounts path
    go (best', e, inl (q, u)) =
        inl (rw (e, q), λ i c s v. omega (arith, u i c s ((covers_iff c.value path).1 v)))
    go (best', e, inr (i, c, q, s, v, l, longest)) = inr (
      i,
      c,
      rw (e, q) (ap (λ n. ok (some (n, new_path path (path_len c.value)))) (omega arith)),
      s,
      (covers_iff c.value path).0 v,
      λ j d t w. longest j d t ((covers_iff d.value path).1 w),
    )
