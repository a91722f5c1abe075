-- ===== src/Dev/Char/Tests.antt =====
-- A terminal that counts the bytes it is given, and a disk that is no character device.
use aexkernel.Prelude.{ℕ, zero, suc, ◌+◌, ◌≡◌, ap, refl, some, none, [], ◌∷◌, subst, arith, length}
use aexkernel.Rc.Array.{Cell, fresh, slot, rcparray_get, rcparray_unref}
use aexkernel.Rc.Array.Laws.{IsLive}
use aexkernel.Dev.Names.{Device, Devices, enodev}
use aexkernel.Dev.Names.Lookup.{IsUsable}
use aexkernel.Dev.Char.{
  CharOps, CharDevice, plain, enosys, dev_char_get, with_char, dev_char_read, dev_char_write,
}
use aexkernel.Dev.Char.Calls.{write_call, char_of, answer_of, dev_char_call, dev_char_call_lem}

abbrev tty_ops : CharOps ℕ
tty_ops = record {
  open_op = λ fd dfd w. (plain 0 dfd, w);
  read_op = none;
  write_op = some (λ fd dfd buffer w. (plain (length buffer) dfd, w + length buffer));
  close_op = λ fd dfd w. (dfd, w);
  ioctl_op = none;
}

abbrev tty : Device (CharDevice ℕ)
tty = record {
  name = 116 ∷ [];
  type = 1;
  type_specific = record { internal_id = 0; char_ops = tty_ops };
}

abbrev disk : Device (CharDevice ℕ)
disk = record tty { name = 115 ∷ []; type = 2 }

abbrev devices : Devices (CharDevice ℕ)
devices = some (fresh disk) ∷ some (fresh tty) ∷ []

abbrev cast : CharDevice ℕ → CharDevice ℕ
cast d = d

fresh-IsLive : (d : Device (CharDevice ℕ)) → IsLive (fresh d)
fresh-IsLive d = record { here = refl; counted = omega arith; room = omega arith }

from_slot : (d c : Cell (Device (CharDevice ℕ))) → some d ≡ some c → d ≡ c
from_slot d c e =
    ap (λ o. elim o as (λ _. Cell (Device (CharDevice ℕ))) [ none ↦ d | some x ↦ x ]) e

devices-IsUsable : IsUsable devices
devices-IsUsable zero c e p = subst IsLive (from_slot _ c e) (fresh-IsLive disk)
devices-IsUsable (suc zero) c e p = subst IsLive (from_slot _ c e) (fresh-IsLive tty)
devices-IsUsable (suc (suc i)) c e p = cc

dev_char_call_lem_example :
    dev_char_call cast (write_call (1 ∷ 2 ∷ [])) devices 1 7 5
    ≡ (devices, answer_of (write_call (1 ∷ 2 ∷ [])) (char_of cast (slot devices 1)) 7 5)
dev_char_call_lem_example =
    dev_char_call_lem cast (write_call (1 ∷ 2 ∷ [])) devices 1 7 5 devices-IsUsable

writes_two : dev_char_write cast devices 1 7 (1 ∷ 2 ∷ []) 5 ≡ (devices, (plain 2 7, 7))
unfolding dev_char_write with_char dev_char_get rcparray_get rcparray_unref
writes_two = refl

reads_nothing : dev_char_read cast devices 1 7 2 5 ≡ (devices, (plain enosys 7, 5))
unfolding dev_char_read with_char dev_char_get rcparray_get rcparray_unref
reads_nothing = refl

wrong_type : dev_char_read cast devices 0 7 2 5 ≡ (devices, (plain enodev 7, 5))
unfolding dev_char_read with_char dev_char_get rcparray_get rcparray_unref
wrong_type = refl
