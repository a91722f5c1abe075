-- ===== src/Dev/Names/Tests.antt =====
-- Two devices, with a slot between them that is free.
use aexkernel.Prelude.{ℕ, zero, suc, ◌≡◌, ap, ◌⊎◌, refl, false, some, none, [], ◌∷◌, subst, arith}
use aexkernel.Kernel.Num.{codes}
use aexkernel.Kernel.Str.{strcmp}
use aexkernel.Rc.Array.{
  Cell, fresh, rcparray_get, rcparray_find, find_id, rcparray_unref, rcparray_add,
}
use aexkernel.Rc.Array.Laws.{IsLive}
use aexkernel.Rc.Array.Find.{Meets, NoneMeets}
use aexkernel.Dev.Names.{
  Device, Devices, has_name, enodev, dev_register, dev_exists, dev_type, dev_name2id, dev_id2name,
}
use aexkernel.Dev.Names.Lookup.{IsUsable, dev_name2id_lem}

abbrev tty : Device ℕ
tty = record { name = codes "tty0"; type = 1; type_specific = 40 }

abbrev disk : Device ℕ
disk = record { name = codes "sda"; type = 2; type_specific = 41 }

abbrev devices : Devices ℕ
devices = some (fresh tty) ∷ none ∷ some (fresh disk) ∷ []

fresh-IsLive : (d : Device ℕ) → IsLive (fresh d)
fresh-IsLive d = record { here = refl; counted = omega arith; room = omega arith }

from_slot : (d c : Cell (Device ℕ)) → some d ≡ some c → d ≡ c
from_slot d c e = ap (λ o. elim o as (λ _. Cell (Device ℕ)) [ none ↦ d | some x ↦ x ]) e

devices-IsUsable : IsUsable devices
devices-IsUsable zero c e p = subst IsLive (from_slot _ c e) (fresh-IsLive tty)
devices-IsUsable (suc zero) c e p = cc
devices-IsUsable (suc (suc zero)) c e p = subst IsLive (from_slot _ c e) (fresh-IsLive disk)
devices-IsUsable (suc (suc (suc i))) c e p = cc

dev_name2id_lem_example :
    ((id : ℕ) × (c : Cell (Device ℕ)) × (dev_name2id devices (codes "sda") ≡ (devices, id))
      × Meets (has_name (codes "sda")) devices id c
      × (dev_type devices id ≡ (devices, c.value.type)))
    ⊎ ((dev_name2id devices (codes "sda") ≡ (devices, enodev))
        × NoneMeets (has_name (codes "sda")) devices)
dev_name2id_lem_example = dev_name2id_lem devices (codes "sda") devices-IsUsable

finds_disk : dev_name2id devices (codes "sda") ≡ (devices, 2)
unfolding dev_name2id rcparray_find find_id rcparray_unref strcmp
finds_disk = refl

finds_nothing : dev_name2id devices (codes "sdb") ≡ (devices, enodev)
unfolding dev_name2id rcparray_find find_id rcparray_unref strcmp
finds_nothing = refl

takes_free_slot : (dev_register devices tty).1 ≡ 1
unfolding dev_register rcparray_add
takes_free_slot = refl

free_slot_gone : (dev_exists devices 1).1 ≡ false
unfolding dev_exists rcparray_get
free_slot_gone = refl

fills_buffer : dev_id2name devices 5 (codes "x") ≡ (devices, codes "x", 4294967295)
unfolding dev_id2name rcparray_get
fills_buffer = refl
