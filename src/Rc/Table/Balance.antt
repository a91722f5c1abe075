-- ===== src/Rc/Table/Balance.antt =====
-- include/aex/rcptable.h: a reference that is taken and given back.
use aexkernel.Prelude.{
  ℕ, ◌%◌, ◌<◌, ◌≡◌, refl, sym, ap, ◌∙◌, Bool, true, false, Option, none, some, [], ◌==◌,
  if◌then◌else◌, ==_iff, set, length, length-set, set-get_or, set-set, add_int, sub_int, subst,
  arith,
}
use aexkernel.Rc.Table.{
  Entry, Segment, Table, segment, with_segment, find, put, rcptable_get, drop_ref, rcptable_unref,
  write_value,
}
use aexkernel.Rc.Table.Segment.{find-put, id_of_found, put-put, put-put_last, put-find, put-Unique}
use aexkernel.Rc.Table.Refines.{IsValid, lookup, segment-with, with-IsValid}

module _ {ℓ} {A : Type ℓ} where
  -- An entry that can be got, with a count that can go up.
  pub record IsLive (e : Entry A) : Type 0 where
    pub here : e.present ≡ true
    pub counted : 0 < e.refs
    pub room : e.refs < 2147483647

  abbrev pub one_more : Entry A → Entry A
  one_more e = record e { refs = add_int e.refs 1 }

  pub rcptable_get-live :
      (t : Table A) (id : ℕ) (e : Entry A)
      → lookup t id ≡ some e
      → IsLive e
      → rcptable_get t id
        ≡ (with_segment t id (put (segment t id) id (some (one_more e))), some e.value)
  unfolding rcptable_get
  rcptable_get-live t id e h l = rw (h, rcptable_get) (chosen e.present l.here)
    where
      chosen :
          (b : Bool)
          → b ≡ true
          → ◌≡◌ {A = Table A × Option A}
              (if b
                then (with_segment t id (put (segment t id) id (some (one_more e))), some e.value)
                else (t, none))
              (with_segment t id (put (segment t id) id (some (one_more e))), some e.value)
      chosen b q = rw q

  drop_ref-one_more : (e : Entry A) → IsLive e → drop_ref (one_more e) ≡ (some e, none)
  drop_ref-one_more e l =
      ap (λ n. if n == 0 then (none, some e.value) else (some (record e { refs = n }), none)) back
      ∙ rw nonzero
    where
      back : sub_int (add_int e.refs 1) 1 ≡ e.refs
      back = omega (arith, l.counted, l.room)

      nonzero : (e.refs == 0) ≡ false
      nonzero = ground (arith, l.counted)

  segment-with_self :
      (t : Table A) (id : ℕ) (s : Segment A)
      → 0 < length t.table
      → segment (with_segment t id s) id ≡ s
  segment-with_self t id s h =
      segment-with t id id s h ∙ rw ((==_iff (id % length t.table) (id % length t.table)).1 refl)

  with_segment-with :
      (t : Table A) (id : ℕ) (s r : Segment A)
      → r ≡ segment t id
      → with_segment (with_segment t id s) id r ≡ t
  with_segment-with t id s r e =
      ap (λ xs. record t { table = xs })
        (ap (λ n. set (set t.table (id % length t.table) s) (id % n) r)
            (length-set t.table (id % length t.table) s)
          ∙ set-set t.table (id % length t.table) s r
          ∙ ap (set t.table (id % length t.table)) e
          ∙ set-get_or t.table (id % length t.table) [])

  rcptable_unref-found :
      (t : Table A) (id : ℕ) (e : Entry A)
      → lookup t id ≡ some e
      → rcptable_unref t id
        ≡ (with_segment t id (put (segment t id) id (drop_ref e).0), (drop_ref e).1)
  unfolding rcptable_unref
  rcptable_unref-found t id e h = rw (h, rcptable_unref)

  -- Getting an entry that can be got and giving it back leaves the table as it was, and cleans
  -- nothing up.
  pub unref-get :
      (t : Table A) (id : ℕ) (e : Entry A)
      → IsValid t
      → lookup t id ≡ some e
      → IsLive e
      → rcptable_unref (rcptable_get t id).0 id ≡ (t, none)
  unref-get t id e v h l =
      ap (λ r. rcptable_unref r.0 id) (rcptable_get-live t id e h l)
      ∙ rcptable_unref-found got id (one_more e) found
      ∙ ap (λ d. (with_segment got id (put (segment got id) id d.0), d.1)) (drop_ref-one_more e l)
      ∙ ap (λ s. (with_segment got id (put s id (some e)), none))
          (segment-with_self t id (put (segment t id) id (some (one_more e))) v.segments)
      ∙ ap (λ r. (r, none))
          (with_segment-with t id _ _ (put-put (segment t id) id (one_more e) e h same))
    where
      same : e.id ≡ id
      same = id_of_found (segment t id) id e h

      got : Table A
      got = with_segment t id (put (segment t id) id (some (one_more e)))

      found : lookup got id ≡ some (one_more e)
      found =
          ap (λ s. find s id)
            (segment-with_self t id (put (segment t id) id (some (one_more e))) v.segments)
          ∙ find-put (segment t id) id (some (one_more e)) e id h (v.unique id)
              (λ d q. ap (λ o. elim o [ none ↦ 0 | some c ↦ c.id ]) (sym q) ∙ same)
          ∙ rw ((==_iff id id).1 refl)

  with_segment-last :
      (t : Table A) (id : ℕ) (s r : Segment A)
      → with_segment (with_segment t id s) id r ≡ with_segment t id r
  with_segment-last t id s r =
      ap (λ xs. record t { table = xs })
        (ap (λ n. set (set t.table (id % length t.table) s) (id % n) r)
            (length-set t.table (id % length t.table) s)
          ∙ set-set t.table (id % length t.table) s r)

  -- The entry that a write of an entry with the id leaves.
  lookup-put :
      (t : Table A) (id : ℕ) (e c : Entry A)
      → IsValid t
      → lookup t id ≡ some e
      → c.id ≡ id
      → lookup (with_segment t id (put (segment t id) id (some c))) id ≡ some c
  lookup-put t id e c v h k =
      ap (λ s. find s id) (segment-with_self t id (put (segment t id) id (some c)) v.segments)
      ∙ find-put (segment t id) id (some c) e id h (v.unique id)
          (λ d q. ap (λ o. elim o [ none ↦ 0 | some c ↦ c.id ]) (sym q) ∙ k)
      ∙ rw ((==_iff id id).1 refl)

  write_value-found :
      (t : Table A) (id : ℕ) (e : Entry A) (f : A → A)
      → lookup t id ≡ some e
      → write_value t id f
        ≡ with_segment t id (put (segment t id) id (some (record e { value = f e.value })))
  unfolding write_value
  write_value-found t id e f h = rw (h, write_value)

  -- A write to the segment after one of an entry with the id.
  put-with :
      (t : Table A) (id : ℕ) (c : Entry A) (o : Option (Entry A))
      → IsValid t
      → c.id ≡ id
      → let u = with_segment t id (put (segment t id) id (some c)) in
        with_segment u id (put (segment u id) id o) ≡ with_segment t id (put (segment t id) id o)
  put-with t id c o v k =
      ap (λ s. with_segment (with_segment t id (put (segment t id) id (some c))) id (put s id o))
        (segment-with_self t id (put (segment t id) id (some c)) v.segments)
      ∙ with_segment-last t id (put (segment t id) id (some c))
          (put (put (segment t id) id (some c)) id o)
      ∙ ap (with_segment t id) (put-put_last (segment t id) id c o k)

  -- What is written through the pointer between getting an entry and giving it back is all that
  -- changes.
  pub unref-write_value :
      (t : Table A) (id : ℕ) (e : Entry A) (f : A → A)
      → IsValid t
      → lookup t id ≡ some e
      → IsLive e
      → rcptable_unref (write_value (rcptable_get t id).0 id f) id ≡ (write_value t id f, none)
  unref-write_value t id e f v h l =
      ap (λ u. rcptable_unref u id) (written ∙ sym again)
      ∙ unref-get changed id e' valid found
          (record { here = l.here; counted = l.counted; room = l.room })
      ∙ ap (λ u. (u, none)) (sym (write_value-found t id e f h))
    where
      e' : Entry A
      e' = record e { value = f e.value }

      changed : Table A
      changed = with_segment t id (put (segment t id) id (some e'))

      got : Table A
      got = with_segment t id (put (segment t id) id (some (one_more e)))

      same : e.id ≡ id
      same = id_of_found (segment t id) id e h

      found : lookup changed id ≡ some e'
      found = lookup-put t id e e' v h same

      valid : IsValid changed
      valid = with-IsValid t id (put (segment t id) id (some e')) v (
          put-Unique (segment t id) id (some e') e h (v.unique id)
            (λ d q. ap (λ o. elim o [ none ↦ 0 | some c ↦ c.id ]) (sym q) ∙ same))

      written :
          write_value (rcptable_get t id).0 id f
          ≡ with_segment t id (put (segment t id) id (some (one_more e')))
      written =
          ap (λ r. write_value r.0 id f) (rcptable_get-live t id e h l)
          ∙ write_value-found got id (one_more e) f (lookup-put t id e (one_more e) v h same)
          ∙ put-with t id (one_more e) (some (one_more e')) v same

      again :
          (rcptable_get changed id).0
          ≡ with_segment t id (put (segment t id) id (some (one_more e')))
      again =
          ap (λ r. r.0)
            (rcptable_get-live changed id e' found
              (record { here = l.here; counted = l.counted; room = l.room }))
          ∙ put-with t id e' (some (one_more e')) v same

  -- A write of the value that is there already changes nothing.
  pub write_value-same :
      (t : Table A) (id : ℕ) (e : Entry A) (f : A → A)
      → lookup t id ≡ some e
      → f e.value ≡ e.value
      → write_value t id f ≡ t
  write_value-same t id e f h k =
      write_value-found t id e f h
      ∙ ap (λ w. with_segment t id (put (segment t id) id (some (record e { value = w })))) k
      ∙ ap (λ xs. record t { table = xs })
          (ap (set t.table (id % length t.table)) (put-find (segment t id) id e h)
            ∙ set-get_or t.table (id % length t.table) [])

  pub rcptable_get-value :
      (t : Table A) (id : ℕ) (e : Entry A)
      → lookup t id ≡ some e
      → IsLive e
      → (rcptable_get t id).1 ≡ some e.value
  rcptable_get-value t id e h l = ap (λ r. r.1) (rcptable_get-live t id e h l)

  -- An entry after its value is written.
  pub lookup-write_value :
      (t : Table A) (id : ℕ) (e : Entry A) (f : A → A)
      → IsValid t
      → lookup t id ≡ some e
      → lookup (write_value t id f) id ≡ some (record e { value = f e.value })
  lookup-write_value t id e f v h =
      ap (λ u. lookup u id) (write_value-found t id e f h)
      ∙ lookup-put t id e (record e { value = f e.value }) v h (id_of_found (segment t id) id e h)

  pub write_value-IsValid :
      (t : Table A) (id : ℕ) (e : Entry A) (f : A → A)
      → IsValid t
      → lookup t id ≡ some e
      → IsValid (write_value t id f)
  write_value-IsValid t id e f v h = subst IsValid (sym (write_value-found t id e f h)) (
      with-IsValid t id (put (segment t id) id (some (record e { value = f e.value }))) v (
        put-Unique (segment t id) id (some (record e { value = f e.value })) e h (v.unique id)
          (λ d q.
            ap (λ o. elim o [ none ↦ 0 | some c ↦ c.id ]) (sym q)
            ∙ id_of_found (segment t id) id e h)))

  pub write_value-write_value :
      (t : Table A) (id : ℕ) (e : Entry A) (f g : A → A)
      → IsValid t
      → lookup t id ≡ some e
      → write_value (write_value t id f) id g ≡ write_value t id (λ a. g (f a))
  write_value-write_value t id e f g v h =
      ap (λ u. write_value u id g) (write_value-found t id e f h)
      ∙ write_value-found (with_segment t id (put (segment t id) id (some changed))) id changed g
          (lookup-put t id e changed v h same)
      ∙ put-with t id changed (some (record e { value = g (f e.value) })) v same
      ∙ sym (write_value-found t id e (λ a. g (f a)) h)
    where
      changed : Entry A
      changed = record e { value = f e.value }

      same : e.id ≡ id
      same = id_of_found (segment t id) id e h
