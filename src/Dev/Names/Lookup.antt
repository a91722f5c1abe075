-- ===== src/Dev/Names/Lookup.antt =====
-- dev/name.c and dev/dev.c: looking a device up.
use aexkernel.Prelude.{ℕ, ◌≡◌, ap, ◌∙◌, ◌⊎◌, inl, inr, true, some, List}
use aexkernel.Rc.Array.{Cell, slot, rcparray_unref}
use aexkernel.Rc.Array.Laws.{IsLive, unref-get, get_live_value}
use aexkernel.Rc.Array.Find.{Meets, NoneMeets, rcparray_find_lem}
use aexkernel.Dev.Names.{Device, Devices, has_name, enodev, dev_type, dev_name2id}

module _ {ℓ} {A : Type ℓ} where
  -- Every present device has a count in range that can go up by one.
  abbrev pub IsUsable : Devices A → Type ℓ
  IsUsable devices =
      (i : ℕ) (c : Cell (Device A)) → slot devices i ≡ some c → c.present ≡ true → IsLive c

  type_of_live :
      (devices : Devices A) (id : ℕ) (c : Cell (Device A))
      → slot devices id ≡ some c
      → IsLive c
      → dev_type devices id ≡ (devices, c.value.type)
  unfolding dev_type
  type_of_live devices id c at live =
      rw (get_live_value devices id c at live, dev_type)
        (ap (λ d. (d, c.value.type)) (unref-get devices id c at live))

  -- `dev_name2id` in a table whose present devices can all be got gives their table back as it was.
  -- It returns the id of a present device with that name, whose type `dev_type` then returns, or
  -- `-ENODEV` when no present device has that name.
  pub dev_name2id_lem :
      (devices : Devices A) (name : List ℕ)
      → IsUsable devices
      → ((id : ℕ) × (c : Cell (Device A)) × (dev_name2id devices name ≡ (devices, id))
          × Meets (has_name name) devices id c
          × (dev_type devices id ≡ (devices, c.value.type)))
        ⊎ ((dev_name2id devices name ≡ (devices, enodev)) × NoneMeets (has_name name) devices)
  unfolding dev_name2id
  dev_name2id_lem devices name usable = elim (rcparray_find_lem (has_name name) devices usable) [
    | inl (id, c, e, m, live) ↦ inl (
      id,
      c,
      rw (ap (λ r. r.1) e, dev_name2id)
          (ap (λ r. (rcparray_unref r.0 id, id)) e
            ∙ ap (λ d. (d, id)) (unref-get devices id c m.at live)),
      m,
      type_of_live devices id c m.at live,
    )
    | inr (e, f) ↦ inr (rw (ap (λ r. r.1) e, dev_name2id) (ap (λ r. (r.0, enodev)) e), f)
  ]
