-- ===== src/Mem/Pool/Search.antt =====
-- mem/pool.c: `find_space` takes the first run of free pieces that is long enough.
use aexkernel.Prelude.{
  ℕ, zero, suc, ◌+◌, ◌-◌, ◌*◌, ◌/◌, ◌%◌, ◌<◌, ◌≤◌, ◌≡◌, ◌≢◌, refl, sym, ap, ap₂, ◌∙◌, ◌⊎◌, inl, inr,
  Bool, true, false, Option, none, some, leb, ◌==◌, if◌then◌else◌, Bool-cases, ==_iff, get_or,
  subst, arith,
}
use aexkernel.Bits.{bit}
use aexkernel.Mem.Run.{run, run-le, free_in_run, run_of_free, run_reaches}
use aexkernel.Mem.Pool.{Pool, Cursor, reload, next_bit, started, find_loop, find_space}

-- Whether a piece is occupied: its bit in its word.
abbrev pub occupied : Pool → ℕ → Bool
occupied pool i = bit (get_or pool.bitmap (i / 32) 0) (i % 32) == 1

-- The cursor stands at piece `i`, or behind the last bit of the word before it.
record At (pool : Pool) (c : Cursor) (i : ℕ) : Type 0 where
  word : c.bitmap_piece ≡ get_or pool.bitmap c.current_index 0
  in_word : c.bit_index ≤ 32
  place : i ≡ c.current_index * 32 + c.bit_index

reload-At :
    (pool : Pool) (c : Cursor) (i : ℕ)
    → At pool c i
    → At pool (reload pool c) i × ((reload pool c).bit_index < 32)
unfolding reload
reload-At pool c i a = elim (Bool-cases (leb 32 c.bit_index)) [
  | inl b ↦
      rw (b, reload)
        (
          record {
            word = refl;
            in_word = omega arith;
            place = ground (arith, a.place, a.in_word, b);
          },
          omega arith,
        )
  | inr n ↦ rw (n, reload) (a, ground (arith, n))
]

next-At :
    (pool : Pool) (c : Cursor) (i : ℕ)
    → At pool c i
    → c.bit_index < 32
    → At pool (next_bit c) (suc i)
next-At pool c i a l = record {
  word = a.word;
  in_word = omega (arith, l);
  place = omega (arith, a.place);
}

occupied-At :
    (pool : Pool) (c : Cursor) (i : ℕ)
    → At pool c i
    → c.bit_index < 32
    → (bit c.bitmap_piece c.bit_index == 1) ≡ occupied pool i
occupied-At pool c i a l =
    ap (λ w. bit w c.bit_index == 1) (a.word ∙ ap (λ n. get_or pool.bitmap n 0) index)
    ∙ ap (λ b. bit (get_or pool.bitmap (i / 32) 0) b == 1) offset
  where
    index : c.current_index ≡ i / 32
    index = omega (arith, a.place, l)

    offset : c.bit_index ≡ i % 32
    offset = omega (arith, a.place, l)

module _ (pool : Pool) (amount : ℕ) (some_amount : 0 < amount) where
  abbrev length_at : ℕ → ℕ
  length_at i = run (occupied pool) i

  abbrev start_of : ℕ → ℕ → Option ℕ
  start_of i combo = if combo == 0 then none else some (i - combo)

  abbrev NoneBefore : ℕ → Type 0
  NoneBefore k = (j : ℕ) → j < k → length_at (suc j) ≢ amount

  abbrev Found : Option ℕ → Type 0
  Found r =
      (k : ℕ) × (k < pool.pieces)
      × (length_at (suc k) ≡ amount)
      × NoneBefore k
      × (r ≡ some (suc k - amount))

  abbrev NotFound : Option ℕ → Type 0
  NotFound r = (r ≡ none) × NoneBefore pool.pieces

  next_start : (i : ℕ) → started (start_of i (length_at i)) i ≡ start_of (suc i) (suc (length_at i))
  next_start i = elim (Bool-cases (length_at i == 0)) [
    | inl z ↦ rw (z, nonzero (length_at i)) (ap some (same z))
    | inr n ↦ rw (n, nonzero (length_at i)) (ap some (omega (arith, run-le (occupied pool) i)))
  ]
    where
      nonzero : (m : ℕ) → (suc m == 0) ≡ false
      nonzero m = ground arith

      same : (length_at i == 0) ≡ true → i ≡ suc i - suc (length_at i)
      same z = ground (arith, z)

  none_before : (i : ℕ) → NoneBefore i → length_at (suc i) ≢ amount → NoneBefore (suc i)
  none_before i f n j l = elim (Bool-cases (j == i)) [
    | inl e ↦ λ q. n (ap (λ m. length_at (suc m)) (sym ((==_iff j i).0 e)) ∙ q)
    | inr d ↦ f j (ground (arith, d, l))
  ]

  abbrev go : ℕ → Cursor → ℕ → ℕ → Option ℕ
  go n c i combo = find_loop pool amount n c (start_of i combo) combo

  step :
      (n i : ℕ) (c : Cursor)
      → At pool c i
      → let at = next_bit (reload pool c) in
        go (suc n) c i (length_at i) ≡ (
          if occupied pool i
          then go n at (suc i) 0
          else if suc (length_at i) == amount
          then start_of (suc i) (suc (length_at i))
          else go n at (suc i) (suc (length_at i)))
  unfolding find_loop
  step n i c a =
      let (at, l) = reload-At pool c i a in
      ap₂
        (λ b s.
          if b
          then find_loop pool amount n (next_bit (reload pool c)) none 0
          else if suc (length_at i) == amount
          then s
          else find_loop pool amount n (next_bit (reload pool c)) s (suc (length_at i)))
        (occupied-At pool (reload pool c) i at l)
        (ap (started (start_of i (length_at i))) (sym at.place) ∙ next_start i)

  run_taken : (i : ℕ) → occupied pool i ≡ true → length_at (suc i) ≡ 0
  run_taken i b = rw b

  run_free : (i : ℕ) → occupied pool i ≡ false → length_at (suc i) ≡ suc (length_at i)
  run_free i b = rw b

  start_of-suc : (i m : ℕ) → start_of i (suc m) ≡ some (i - suc m)
  start_of-suc i m = rw (nonzero m)
    where
      nonzero : (m : ℕ) → (suc m == 0) ≡ false
      nonzero m = ground arith

  abbrev Outcome : Option ℕ → Type 0
  Outcome r = Found r ⊎ NotFound r

  loop_lem :
      (n i : ℕ) (c : Cursor)
      → At pool c i
      → i + n ≡ pool.pieces
      → NoneBefore i
      → Outcome (go n c i (length_at i))
  unfolding find_loop
  loop_lem zero i c a e f = inr (refl, λ j l. f j (omega (arith, l, e)))
  loop_lem (suc n) i c a e f =
      let at = next-At pool (reload pool c) i (reload-At pool c i a).0 (reload-At pool c i a).1 in
      subst Outcome (sym (step n i c a)) (elim (Bool-cases (occupied pool i)) [
        | inl b ↦ rw b (
            subst (λ m. Outcome (go n (next_bit (reload pool c)) (suc i) m)) (run_taken i b)
              (loop_lem n (suc i) (next_bit (reload pool c)) at (omega (arith, e))
                (none_before i f (differs b))))
        | inr b ↦ rw b (elim (Bool-cases (suc (length_at i) == amount)) [
          | inl q ↦ rw q (
              inl (
                i,
                omega (arith, e),
                run_free i b ∙ (==_iff (suc (length_at i)) amount).0 q,
                f,
                start_of-suc (suc i) (length_at i)
                    ∙ ap (λ m. some (suc i - m)) ((==_iff (suc (length_at i)) amount).0 q),
              ))
          | inr q ↦ rw q (
              subst (λ m. Outcome (go n (next_bit (reload pool c)) (suc i) m)) (run_free i b)
                (loop_lem n (suc i) (next_bit (reload pool c)) at (omega (arith, e))
                  (none_before i f (other_length b q))))
        ])
      ])
    where
      differs : occupied pool i ≡ true → length_at (suc i) ≢ amount
      differs b q = omega (arith, run_taken i b, q, some_amount)

      other_length :
          occupied pool i ≡ false
          → (suc (length_at i) == amount) ≡ false
          → length_at (suc i) ≢ amount
      other_length b q r = ground (arith, run_free i b, q, r)

-- The pieces from `s` on, `amount` of them, are in the pool and free.
abbrev pub FreeRun : Pool → ℕ → ℕ → Type 0
FreeRun pool amount s =
    (s + amount ≤ pool.pieces) × ((j : ℕ) → s ≤ j → j < s + amount → occupied pool j ≡ false)

-- `find_space` for at least one piece gives the first place of the pool from which on so many pieces
-- are free, in the pool and in a row; it gives -1 only if there is no such place.
pub find_space_lem :
    (pool : Pool) (amount : ℕ)
    → 0 < amount
    → ((s : ℕ) × (find_space pool amount ≡ some s)
        × FreeRun pool amount s
        × ((r : ℕ) → r < s → ¬ FreeRun pool amount r))
      ⊎ ((find_space pool amount ≡ none) × ((r : ℕ) → ¬ FreeRun pool amount r))
unfolding find_space
find_space_lem pool amount p =
    rw (nonzero, find_space)
      (found (
        loop_lem pool amount p pool.pieces 0 start begin (omega arith)
          (λ j l. absurd (omega (arith, l)))))
  where
    nonzero : (amount == 0) ≡ false
    nonzero = ground (arith, p)

    start : Cursor
    start = record { current_index = 0; bit_index = 0; bitmap_piece = get_or pool.bitmap 0 0 }

    begin : At pool start 0
    begin = record { word = refl; in_word = omega arith; place = omega arith }

    none_at :
        (k r : ℕ)
        → NoneBefore pool amount p k
        → r + amount ≤ k
        → ¬ ((j : ℕ) → r ≤ j → j < r + amount → occupied pool j ≡ false)
    none_at k r f b free =
        let (i, l, e) =
          run_reaches (occupied pool) amount (r + amount) p
            (run_of_free (occupied pool) amount r (r + amount) refl free) in
        f i (omega (arith, l, b)) e

    found :
        {o : Option ℕ}
        → Outcome pool amount p o
        → ((s : ℕ) × (o ≡ some s)
            × FreeRun pool amount s
            × ((r : ℕ) → r < s → ¬ FreeRun pool amount r))
          ⊎ ((o ≡ none) × ((r : ℕ) → ¬ FreeRun pool amount r))
    found (inl (k, l, e, f, q)) = inl (
      suc k - amount,
      q,
      (
        omega (arith, l, e, run-le (occupied pool) (suc k)),
        λ j g h.
            free_in_run (occupied pool) (suc k) j
              (omega (arith, h, e, run-le (occupied pool) (suc k))) (omega (arith, g, e)),
      ),
      λ r b fr. none_at k r f (omega (arith, b)) fr.1,
    )
    found (inr (q, f)) = inr (q, λ r fr. none_at pool.pieces r f fr.0 fr.1)
