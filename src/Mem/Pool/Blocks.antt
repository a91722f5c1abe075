-- ===== src/Mem/Pool/Blocks.antt =====
-- mem/pool.c: taking the pieces of a block, and giving them back.
use aexkernel.Prelude.{
  ℕ, suc, ◌+◌, ◌-◌, ◌*◌, ◌%◌, ◌^◌, ◌<◌, ◌≤◌, ◌≡◌, refl, sym, ap, ◌∙◌, ◌⊎◌, inl, inr, true, false,
  Bool-cases, some, List, length, sub_size, add_size, subst, arith,
}
use aexkernel.Mem.Pool.{
  Pool, set_pieces, floor_to_alignment, addr_to_piece, next_pool, panic, taken, blank, alloc_in,
  free_in,
}
use aexkernel.Mem.Pool.Search.{occupied, FreeRun, find_space_lem}
use aexkernel.Mem.Pool.Setting.{Changed, set_pieces_lem}

pub record IsValid (pool : Pool) : Type 0 where
  pub in_map : pool.pieces ≤ 32 * length pool.bitmap
  pub aligned : pool.start % 16 ≡ 0
  pub small : pool.free_pieces < 4294967296

-- The bytes of every free piece are zero.
abbrev pub IsBlank : (ℕ → ℕ) → Pool → Type 0
IsBlank mem pool = (i k : ℕ) → occupied pool i ≡ false → k < 16 → mem (pool.start + i * 16 + k) ≡ 0

-- The pool after its pieces from `s` on, `n` of them, were taken.
abbrev pub Taken : Pool → ℕ → ℕ → Pool → Type 0
Taken pool n s pool' =
    (pool'.start ≡ pool.start)
    × (pool'.pieces ≡ pool.pieces)
    × (pool'.free_pieces ≡ sub_size pool.free_pieces n % 2 ^ 32)
    × Changed pool.bitmap s n true pool'.bitmap

abbrev Takes : (ℕ → ℕ) → Pool → ℕ → Type 0
Takes mem pool n =
    (s : ℕ) × (pool' : Pool) × (alloc_in mem pool n ≡ taken (pool.start + (s + 1) * 16) pool')
    × FreeRun pool n s
    × ((r : ℕ) → r < s → ¬ FreeRun pool n r)
    × Taken pool n s pool'

-- A round in any contents of the memory; it halts only at a free run that is not blank.
alloc_in-cases :
    (mem : ℕ → ℕ) (pool : Pool) (n : ℕ)
    → IsValid pool
    → 0 < n
    → Takes mem pool n
      ⊎ (((s : ℕ) × (alloc_in mem pool n ≡ panic)
            × FreeRun pool n s
            × (blank mem (floor_to_alignment (pool.start + (s + 1) * 16) - 16) (n * 16) ≡ false))
          ⊎ ((alloc_in mem pool n ≡ next_pool) × ((r : ℕ) → ¬ FreeRun pool n r)))
unfolding alloc_in
alloc_in-cases mem pool n v p = elim (find_space_lem pool n p) [
  | inl (s, e, free, first) ↦
      let (r, q, changed) =
        set_pieces_lem pool.bitmap s n true (omega (arith, free.0, v.in_map)) free.1 in
      elim (Bool-cases (blank mem (floor_to_alignment (pool.start + (s + 1) * 16) - 16) (n * 16))) [
        | inl b ↦ inl (
          s,
          record pool { bitmap = r; free_pieces = sub_size pool.free_pieces n % 2 ^ 32 },
          rw (e, q, b, alloc_in),
          free,
          first,
          (refl, refl, refl, changed),
        )
        | inr d ↦ inr (inl (s, rw (e, q, d, alloc_in), free, d))
      ]
  | inr (e, none_at) ↦ inr (inr (rw (e, alloc_in), none_at))
]

place_of :
    (pool : Pool) (s : ℕ)
    → pool.start % 16 ≡ 0
    → addr_to_piece pool (floor_to_alignment (pool.start + (s + 1) * 16) - 16) ≡ s
unfolding addr_to_piece floor_to_alignment
place_of pool s a = omega (arith, a)

free_in-some :
    (pool : Pool) (s n : ℕ) (r : List ℕ)
    → pool.start % 16 ≡ 0
    → set_pieces pool.bitmap s (suc n) false ≡ some r
    → free_in pool (pool.start + (s + 1) * 16) n
      ≡ some (record pool { bitmap = r; free_pieces = add_size pool.free_pieces (n + 1) % 2 ^ 32 })
unfolding free_in
free_in-some pool s n r a q =
    rw (place_of pool s a, ap (λ m. set_pieces pool.bitmap s m false) one_more ∙ q, free_in)
  where
    one_more : n + 1 ≡ suc n
    one_more = omega arith

-- The pool with the pieces given back.
abbrev pub SamePieces : Pool → Pool → Type 0
SamePieces pool pool' =
    ((j : ℕ) → occupied pool' j ≡ occupied pool j) × (pool'.free_pieces ≡ pool.free_pieces)

-- When a round of `_kmalloc` takes a block of `n` pieces and its header from a valid pool with so many
-- free ones, `_kfree` of the address, with the pieces that the header says, does not panic, and every
-- piece is free or occupied as before both.
pub free_in-alloc_in :
    (mem : ℕ → ℕ) (pool : Pool) (n addr : ℕ) (pool' : Pool)
    → IsValid pool
    → suc n ≤ pool.free_pieces
    → alloc_in mem pool (suc n) ≡ taken addr pool'
    → (pool'' : Pool) × (free_in pool' addr n ≡ some pool'') × SamePieces pool pool''
free_in-alloc_in mem pool n addr pool' v room e =
    elim (alloc_in-cases mem pool (suc n) v (omega arith)) [
      | inl (s, after, q, free, first, t) ↦
          subst {A = ℕ × Pool}
            (λ r. (pool'' : Pool) × (free_in r.1 r.0 n ≡ some pool'') × SamePieces pool pool'')
            (same (pool.start + (s + 1) * 16) after (sym q ∙ e)) (given_back s after free t)
      | inr (inl (s, q, free, d)) ↦ absurd (panic-ne-taken (sym q ∙ e))
      | inr (inr (q, none_at)) ↦ absurd (next_pool-ne-taken (sym q ∙ e))
    ]
  where
    same :
        (x : ℕ) (after : Pool)
        → taken x after ≡ taken addr pool'
        → ◌≡◌ {A = ℕ × Pool} (x, after) (addr, pool')
    same x after e =
        ap (λ o. elim o [ next_pool ↦ (x, after) | panic ↦ (x, after) | taken a p ↦ (a, p) ]) e

    panic-ne-taken : panic ≡ taken addr pool' → ⊥
    panic-ne-taken e = cc

    next_pool-ne-taken : next_pool ≡ taken addr pool' → ⊥
    next_pool-ne-taken e = cc

    given_back :
        (s : ℕ) (after : Pool)
        → FreeRun pool (suc n) s
        → Taken pool (suc n) s after
        → (pool'' : Pool) × (free_in after (pool.start + (s + 1) * 16) n ≡ some pool'')
          × SamePieces pool pool''
    given_back s after free (start, pieces, left, (len, bits)) =
        let (r, q, (len', bits')) =
          set_pieces_lem after.bitmap s (suc n) false (omega (arith, free.0, v.in_map, len))
            (λ j g h. bits j ∙ ground (arith, g, h)) in
        (
          record after { bitmap = r; free_pieces = add_size after.free_pieces (n + 1) % 2 ^ 32 },
          subst
              (λ x.
                free_in after (x + (s + 1) * 16) n
                ≡ some (record after {
                  bitmap = r;
                  free_pieces = add_size after.free_pieces (n + 1) % 2 ^ 32;
                }))
              start (free_in-some after s n r (subst (λ x. x % 16 ≡ 0) (sym start) v.aligned) q),
          ((λ j. bits' j ∙ ground (arith, bits j, free.1 j)), omega (arith, left, room, v.small)),
        )
