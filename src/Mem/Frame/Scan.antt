-- ===== src/Mem/Frame/Scan.antt =====
-- Taking a run of frames that follow one another.
use aexkernel.Prelude.{
  ℕ, zero, suc, ◌+◌, ◌-◌, ◌<◌, ◌≤◌, ◌≡◌, ◌≢◌, refl, ap, ap₂, ◌∙◌, ◌⊎◌, inl, inr, Bool, true, false,
  ◌&&◌, ltb, leb, ◌==◌, if◌then◌else◌, Bool-cases, ==_iff, subst, add_int, arith,
}
use aexkernel.Mem.Run.{run, run-le, free_in_run, run_of_free, run_reaches}
use aexkernel.Mem.Frame.{Frames, Result, ok, panic, no_start, scan, alloc_run, kfcalloc}
use aexkernel.Mem.Frame.Table.{taken}
use aexkernel.Mem.Frame.Alloc.{IsValid, kfalloc-Put, kfisfree_lem}

-- What the scan finds from frame `i` on.
module _ (fr : Frames) (v : IsValid fr) (amount : ℕ) (some_amount : 0 < amount) where
  abbrev t : ℕ → Bool
  t = taken fr.pieces

  abbrev Found : ℕ → Result ℕ → Type 0
  Found i r =
      (k : ℕ) × (i ≤ k)
      × (k < fr.frames_possible)
      × (run t (suc k) ≡ amount)
      × (r ≡ ok (suc k - amount))

  abbrev NotFound : ℕ → Result ℕ → Type 0
  NotFound i r = (r ≡ panic) × ((k : ℕ) → i ≤ k → k < fr.frames_possible → run t (suc k) ≢ amount)

  abbrev start_of : ℕ → ℕ → ℕ
  start_of i combo = if combo == 0 then no_start else i - combo

  next_start :
      (i : ℕ)
      → i < fr.frames_possible
      → (if start_of i (run t i) == no_start && true then i else start_of i (run t i))
        ≡ start_of (suc i) (suc (run t i))
  next_start i l = ground (arith, run-le t i, v.small)

  step_taken :
      (n i s c : ℕ)
      → i < fr.frames_possible
      → t i ≡ true
      → scan fr amount (suc n) i s c ≡ scan fr amount n (suc i) no_start 0
  unfolding scan
  step_taken n i s c l b =
      rw (kfisfree_lem fr i v l)
        (rw b (ap (λ j. scan fr amount n j no_start 0) (omega (arith, v.small))))

  step_free :
      (n i : ℕ)
      → i < fr.frames_possible
      → t i ≡ false
      → scan fr amount (suc n) i (start_of i (run t i)) (run t i) ≡ (
          if suc (run t i) == amount
          then ok (start_of (suc i) (suc (run t i)))
          else scan fr amount n (suc i) (start_of (suc i) (suc (run t i))) (suc (run t i)))
  unfolding scan
  step_free n i l b = rw (kfisfree_lem fr i v l) (
      rw b (
        ap
          (λ s.
            if add_int (run t i) 1 == amount
            then ok s
            else scan fr amount n (add_int i 1) s (add_int (run t i) 1))
          (next_start i l)
        ∙ ap₂
            (λ c j.
              if c == amount
              then ok (start_of (suc i) (suc (run t i)))
              else scan fr amount n j (start_of (suc i) (suc (run t i))) c)
            (omega (arith, v.small, run-le t i)) (omega (arith, v.small))))

  later :
      (i : ℕ) (r : Result ℕ)
      → run t (suc i) ≢ amount
      → Found (suc i) r ⊎ NotFound (suc i) r
      → Found i r ⊎ NotFound i r
  later i r ne (inl (k, l, m, e, q)) = inl (k, omega arith, m, e, q)
  later i r ne (inr (q, none_at)) = inr (
    q,
    λ k l m e. elim (Bool-cases (i == k)) [
      | inl same ↦ ne (ap (λ j. run t (suc j)) ((==_iff i k).0 same) ∙ e)
      | inr other ↦ none_at k (ground arith) m e
    ],
  )

  run_taken : (i : ℕ) → t i ≡ true → run t (suc i) ≡ 0
  run_taken i b = rw b

  run_free : (i : ℕ) → t i ≡ false → run t (suc i) ≡ suc (run t i)
  run_free i b = rw b

  other_length : (i : ℕ) → t i ≡ false → (suc (run t i) == amount) ≡ false → run t (suc i) ≢ amount
  other_length i f q = ground (arith, run_free i f)

  abbrev Scanned : ℕ → ℕ → ℕ → Type 0
  Scanned n i c =
      Found (suc i) (scan fr amount n (suc i) (start_of (suc i) c) c)
      ⊎ NotFound (suc i) (scan fr amount n (suc i) (start_of (suc i) c) c)

  scan_lem :
      (n i : ℕ)
      → i + n ≡ fr.frames_possible
      → Found i (scan fr amount n i (start_of i (run t i)) (run t i))
        ⊎ NotFound i (scan fr amount n i (start_of i (run t i)) (run t i))
  unfolding scan
  scan_lem zero i e = inr (refl, λ k p q _. absurd (omega arith))
  scan_lem (suc n) i e = elim (Bool-cases (t i)) [
    | inl b ↦ rw (step_taken n i (start_of i (run t i)) (run t i) (omega arith) b) (
        later i (scan fr amount n (suc i) no_start 0) (omega (arith, run_taken i b))
          (subst (Scanned n i) (run_taken i b) (scan_lem n (suc i) (omega arith))))
    | inr f ↦ rw (step_free n i (omega arith) f) (elim (Bool-cases (suc (run t i) == amount)) [
      | inl q ↦ rw q (
          inl (
            i,
            omega arith,
            omega arith,
            run_free i f ∙ (==_iff _ amount).0 q,
            ap ok (ground arith),
          ))
      | inr q ↦ rw q (
          later i (scan fr amount n (suc i) (start_of (suc i) (suc (run t i))) (suc (run t i)))
            (other_length i f q)
            (subst (Scanned n i) (run_free i f) (scan_lem n (suc i) (omega arith))))
    ])
  ]

  -- The run that the scan starts with is in range and free; the scan fails only without such a run.
  abbrev FreeRun : ℕ → Type 0
  FreeRun s = (j : ℕ) → s ≤ j → j < s + amount → t j ≡ false

  scan_finds :
      ((s : ℕ) × (scan fr amount fr.frames_possible 0 no_start 0 ≡ ok s)
        × (s + amount ≤ fr.frames_possible)
        × FreeRun s)
      ⊎ ((scan fr amount fr.frames_possible 0 no_start 0 ≡ panic)
          × ((s : ℕ) → s + amount ≤ fr.frames_possible → ¬ FreeRun s))
  scan_finds = go (scan_lem fr.frames_possible 0 (omega arith))
    where
      go :
          Found 0 (scan fr amount fr.frames_possible 0 no_start 0)
            ⊎ NotFound 0 (scan fr amount fr.frames_possible 0 no_start 0)
          → ((s : ℕ) × (scan fr amount fr.frames_possible 0 no_start 0 ≡ ok s)
              × (s + amount ≤ fr.frames_possible)
              × FreeRun s)
            ⊎ ((scan fr amount fr.frames_possible 0 no_start 0 ≡ panic)
                × ((s : ℕ) → s + amount ≤ fr.frames_possible → ¬ FreeRun s))
      go (inl (k, l, m, e, q)) = inl (
        suc k - amount,
        q,
        omega (arith, run-le t (suc k)),
        λ j g h. free_in_run t (suc k) j (omega (arith, run-le t (suc k))) (omega arith),
      )
      go (inr (q, none_at)) = inr (
        q,
        λ s b free.
            let (i, l, e) =
              run_reaches t amount (s + amount) some_amount
                (run_of_free t amount s (s + amount) refl free) in
            none_at i (omega arith) (omega arith) e,
      )

-- After a run was taken: its frames are taken, every other one is as it was.
abbrev pub RunTaken : Frames → ℕ → ℕ → Frames → Type 0
RunTaken fr id n fr' =
    IsValid fr'
    × ((j : ℕ)
        → taken fr'.pieces j ≡ (if leb id j && ltb j (id + n) then true else taken fr.pieces j))

alloc_run_lem :
    (n : ℕ) (fr : Frames) (id : ℕ)
    → IsValid fr
    → id + n ≤ fr.frames_possible
    → (fr' : Frames) × (alloc_run n fr id ≡ ok fr') × RunTaken fr id n fr'
unfolding alloc_run
alloc_run_lem zero fr id v h = (fr, refl, (v, λ j. ground arith))
alloc_run_lem (suc n) fr id v h =
    let (fr1, e1, put1) = kfalloc-Put fr id v (omega arith) in
    let (fr2, e2, r2) = alloc_run_lem n fr1 (suc id) put1.0 (omega (arith, put1.2)) in
    (
      fr2,
      rw e1 (ap (alloc_run n fr1) (omega (arith, v.small)) ∙ e2),
      (r2.0, λ j. joined fr1 fr2 j (put1.1 j) (r2.1 j)),
    )
  where
    joined :
        (fr1 fr2 : Frames) (j : ℕ)
        → taken fr1.pieces j ≡ (if id == j then true else taken fr.pieces j)
        → taken fr2.pieces j
          ≡ (if leb (suc id) j && ltb j (suc id + n) then true else taken fr1.pieces j)
        → taken fr2.pieces j ≡ (if leb id j && ltb j (id + suc n) then true else taken fr.pieces j)
    joined fr1 fr2 j p q = q ∙ ground (arith, p)

-- What `kfcalloc` did: a run of free frames in range was taken, and nothing else.
abbrev pub Allocated : Frames → ℕ → Type 0
Allocated fr amount =
    (s : ℕ) × (fr' : Frames) × (kfcalloc fr amount ≡ ok (s, fr'))
    × (s + amount ≤ fr.frames_possible)
    × ((j : ℕ) → s ≤ j → j < s + amount → taken fr.pieces j ≡ false)
    × RunTaken fr s amount fr'

abbrev pub NoRun : Frames → ℕ → Type 0
NoRun fr amount =
    (kfcalloc fr amount ≡ panic)
    × ((s : ℕ)
        → s + amount ≤ fr.frames_possible
        → ¬ ((j : ℕ) → s ≤ j → j < s + amount → taken fr.pieces j ≡ false))

-- On a valid table `kfcalloc` of at least one frame gives the first id of a run of `amount` frames in
-- range that were all free; they are taken after it, every other frame is as it was, and the table is
-- valid. It panics only if there is no such run.
pub kfcalloc_lem :
    (fr : Frames) (amount : ℕ) → IsValid fr → 0 < amount → Allocated fr amount ⊎ NoRun fr amount
unfolding kfcalloc
kfcalloc_lem fr amount v p = go (scan_finds fr v amount p)
  where
    some_frames : (amount == 0) ≡ false
    some_frames = ground arith

    go :
        ((s : ℕ) × (scan fr amount fr.frames_possible 0 no_start 0 ≡ ok s)
            × (s + amount ≤ fr.frames_possible)
            × FreeRun fr v amount p s)
          ⊎ ((scan fr amount fr.frames_possible 0 no_start 0 ≡ panic)
              × ((s : ℕ) → s + amount ≤ fr.frames_possible → ¬ FreeRun fr v amount p s))
        → Allocated fr amount ⊎ NoRun fr amount
    go (inl (s, e, b, free)) =
        let (fr', q, r) = alloc_run_lem amount fr s v b in
        inl (s, fr', rw (some_frames, e, q), b, free, r)
    go (inr (e, none_at)) = inr (rw (some_frames, e), none_at)
