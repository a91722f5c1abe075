-- ===== src/Dev/Char.antt =====
-- dev/char.c: calls on character devices. The driver's functions are parameters in `CharOps`: a call
-- may change what the driver keeps and what `dfd->data` holds, and fills the buffer with `bytes`.
-- `cast` reads what `type_specific` points to as a `dev_char_t`. Registration is left out.
mod Tests
pub mod Calls
use aexkernel.Prelude.{ℕ, Bool, true, false, Option, none, some, List, [], ◌==◌, if◌then◌else◌}
use aexkernel.Rc.Array.{rcparray_get, rcparray_unref}
use aexkernel.Dev.Names.{Device, Devices, enodev}

pub record Answer : Type 0 where
  pub ret : ℕ
  pub dfd_data : ℕ
  pub bytes : List ℕ

-- The functions take `fd`, `dfd->data` and further arguments; `close` returns nothing, so only the
-- new `dfd->data` is given. NULL is `none`.
pub record CharOps {ℓ} (W : Type ℓ) : Type ℓ where
  pub open_op : ℕ → ℕ → W → Answer × W
  pub read_op : Option (ℕ → ℕ → ℕ → W → Answer × W)
  pub write_op : Option (ℕ → ℕ → List ℕ → W → Answer × W)
  pub close_op : ℕ → ℕ → W → ℕ × W
  pub ioctl_op : Option (ℕ → ℕ → ℕ → ℕ → W → Answer × W)

pub record CharDevice {ℓ} (W : Type ℓ) : Type ℓ where
  pub internal_id : ℕ
  pub char_ops : CharOps W

-- `-ENOSYS` of an `int`, and `-ENODEV` and `-ENOSYS` of a `long`.
abbrev pub enosys : ℕ
enosys = 4294967287

abbrev pub enodev_64 : ℕ
enodev_64 = 18446744073709551606

abbrev pub enosys_64 : ℕ
enosys_64 = 18446744073709551607

-- A return that fills no buffer.
abbrev pub plain : ℕ → ℕ → Answer
plain code dfd = record { ret = code; dfd_data = dfd; bytes = [] }

-- `r` for NULL.
abbrev pub or_else {ℓ κ} : {F : Type ℓ} {R : Type κ} → Option F → R → (F → R) → R
or_else none r k = r
or_else (some f) r k = k f

module _ {ℓ κ} {A : Type ℓ} {W : Type κ} (cast : A → CharDevice W) where
  pub dev_char_get : Devices A → ℕ → Devices A × Option (CharDevice W)
  dev_char_get devices id =
      let (got, dev) = rcparray_get devices id in
      elim dev [
        | none ↦ (got, none)
        | some d ↦
            if d.type == 1
            then (got, some (cast d.type_specific))
            else (rcparray_unref got id, none)
      ]

  abbrev pub dev_char_unref : Devices A → ℕ → Devices A
  dev_char_unref devices id = rcparray_unref devices id

  -- What the five calls share: the device is got, used and given back.
  pub with_char :
      Devices A
      → ℕ
      → (W → Answer × W)
      → (CharDevice W → W → Answer × W)
      → W
      → Devices A × (Answer × W)
  with_char devices id missing use_char w =
      let (got, found) = dev_char_get devices id in
      elim found [ none ↦ (got, missing w) | some d ↦ (dev_char_unref got id, use_char d w) ]

  pub dev_char_open : Devices A → ℕ → ℕ → W → Devices A × (Answer × W)
  dev_char_open devices id dfd w =
      with_char devices id (λ w. (plain enodev dfd, w))
        (λ d w. d.char_ops.open_op d.internal_id dfd w) w

  pub dev_char_read : Devices A → ℕ → ℕ → ℕ → W → Devices A × (Answer × W)
  dev_char_read devices id dfd len w =
      with_char devices id (λ w. (plain enodev dfd, w))
        (λ d w. or_else d.char_ops.read_op (plain enosys dfd, w) (λ f. f d.internal_id dfd len w)) w

  pub dev_char_write : Devices A → ℕ → ℕ → List ℕ → W → Devices A × (Answer × W)
  dev_char_write devices id dfd buffer w =
      with_char devices id (λ w. (plain enodev dfd, w))
        (λ d w.
          or_else d.char_ops.write_op (plain enosys dfd, w) (λ f. f d.internal_id dfd buffer w))
        w

  pub dev_char_close : Devices A → ℕ → ℕ → W → Devices A × (Answer × W)
  dev_char_close devices id dfd w =
      with_char devices id (λ w. (plain enodev dfd, w))
        (λ d w. let (dfd, ended) = d.char_ops.close_op d.internal_id dfd w in (plain 0 dfd, ended))
        w

  pub dev_char_ioctl : Devices A → ℕ → ℕ → ℕ → ℕ → W → Devices A × (Answer × W)
  dev_char_ioctl devices id dfd code mem w =
      with_char devices id (λ w. (plain enodev_64 dfd, w))
        (λ d w.
          or_else d.char_ops.ioctl_op (plain enosys_64 dfd, w)
            (λ f. f d.internal_id dfd code mem w))
        w
