-- ===== src/Dev/Names.antt =====
-- dev/dev.c and dev/name.c: the table of devices, and the way from a name to an id and back.
-- `type_specific` is a pointer of the driver's own, of any type.
mod Tests
pub mod Lookup
use aexkernel.Prelude.{
  ℕ, Bool, true, false, Option, none, some, List, ◌==◌, if◌then◌else◌, minus_one, take, drop, ◌++◌,
}
use aexkernel.Kernel.Str.{strcmp}
use aexkernel.Rc.Array.{Cell, rcparray_add, rcparray_get, rcparray_find, rcparray_unref}

pub record Device {ℓ} (A : Type ℓ) : Type ℓ where
  pub name : List ℕ
  pub type : ℕ
  pub type_specific : A

-- `-ENODEV`
abbrev pub enodev : ℕ
enodev = 4294967286

abbrev pub Devices {ℓ} : Type ℓ → Type ℓ
Devices A = List (Option (Cell (Device A)))

module _ {ℓ} {A : Type ℓ} where
  pub dev_register : Devices A → Device A → Devices A × ℕ
  dev_register devices dev = rcparray_add devices dev

  pub dev_exists : Devices A → ℕ → Devices A × Bool
  dev_exists devices id =
      let (got, dev) = rcparray_get devices id in
      elim dev [ none ↦ (got, false) | some d ↦ (rcparray_unref got id, true) ]

  pub dev_type : Devices A → ℕ → Devices A × ℕ
  dev_type devices id =
      let (got, dev) = rcparray_get devices id in
      elim dev [ none ↦ (got, minus_one) | some d ↦ (rcparray_unref got id, d.type) ]

  -- The condition of the search in `dev_name2id`.
  abbrev pub has_name : List ℕ → Device A → Bool
  has_name name dev = strcmp dev.name name == 0

  pub dev_name2id : Devices A → List ℕ → Devices A × ℕ
  dev_name2id devices name =
      let (found, result) = rcparray_find (has_name name) devices in
      elim result [ none ↦ (found, enodev) | some r ↦ (rcparray_unref found r.0, r.0) ]

  -- The table, what `buffer` holds afterwards, and the value returned.
  pub dev_id2name : Devices A → ℕ → List ℕ → Devices A × List ℕ × ℕ
  dev_id2name devices id buffer =
      let (got, dev) = rcparray_get devices id in
      elim dev [
        | none ↦ (got, buffer, minus_one)
        | some d ↦ (rcparray_unref got id, take 32 d.name ++ drop 32 buffer, 0)
      ]
