-- ===== src/Dev/Char/Calls.antt =====
-- dev/char.c: what a call on a character device answers.
use aexkernel.Prelude.{
  ℕ, ◌≡◌, sym, subst, Option-cases, ap, ◌∙◌, ◌⊎◌, inl, inr, Bool, true, false, Option, none, some,
  List, Bool-cases, ◌==◌, if◌then◌else◌,
}
use aexkernel.Rc.Array.{Cell, slot, rcparray_get, rcparray_unref}
use aexkernel.Rc.Array.Laws.{
  IsLive, IsGone, unref-get, get_live_value, get_gone_array, get_gone_value,
}
use aexkernel.Dev.Names.{Device, Devices, enodev}
use aexkernel.Dev.Names.Lookup.{IsUsable}
use aexkernel.Dev.Char.{
  Answer, CharDevice, enosys, enodev_64, enosys_64, plain, or_else, dev_char_get, with_char,
  dev_char_open, dev_char_read, dev_char_write, dev_char_close, dev_char_ioctl,
}

-- The character device of a slot that holds a present device of that type.
abbrev pub char_of {ℓ κ} :
    {A : Type ℓ} {W : Type κ}
    → (A → CharDevice W)
    → Option (Cell (Device A))
    → Option (CharDevice W)
char_of cast none = none
char_of cast (some c) =
    if c.present
    then (if c.value.type == 1 then some (cast c.value.type_specific) else none)
    else none

pub data Call : Type 0 where
  open_call : Call
  read_call : ℕ → Call
  write_call : List ℕ → Call
  close_call : Call
  ioctl_call : ℕ → ℕ → Call

module _ {ℓ κ} {A : Type ℓ} {W : Type κ} (cast : A → CharDevice W) where
  abbrev pub dev_char_call : Call → Devices A → ℕ → ℕ → W → Devices A × (Answer × W)
  dev_char_call open_call devices id dfd w = dev_char_open cast devices id dfd w
  dev_char_call (read_call len) devices id dfd w = dev_char_read cast devices id dfd len w
  dev_char_call (write_call buffer) devices id dfd w = dev_char_write cast devices id dfd buffer w
  dev_char_call close_call devices id dfd w = dev_char_close cast devices id dfd w
  dev_char_call (ioctl_call code mem) devices id dfd w =
      dev_char_ioctl cast devices id dfd code mem w

-- What a call answers: nothing is run without a device, or without the driver's function for it.
abbrev pub answer_of {κ} : {W : Type κ} → Call → Option (CharDevice W) → ℕ → W → Answer × W
answer_of (ioctl_call code mem) none dfd w = (plain enodev_64 dfd, w)
answer_of open_call none dfd w = (plain enodev dfd, w)
answer_of (read_call len) none dfd w = (plain enodev dfd, w)
answer_of (write_call buffer) none dfd w = (plain enodev dfd, w)
answer_of close_call none dfd w = (plain enodev dfd, w)
answer_of open_call (some d) dfd w = d.char_ops.open_op d.internal_id dfd w
answer_of (read_call len) (some d) dfd w =
    or_else d.char_ops.read_op (plain enosys dfd, w) (λ f. f d.internal_id dfd len w)
answer_of (write_call buffer) (some d) dfd w =
    or_else d.char_ops.write_op (plain enosys dfd, w) (λ f. f d.internal_id dfd buffer w)
answer_of close_call (some d) dfd w =
    let (dfd, ended) = d.char_ops.close_op d.internal_id dfd w in (plain 0 dfd, ended)
answer_of (ioctl_call code mem) (some d) dfd w =
    or_else d.char_ops.ioctl_op (plain enosys_64 dfd, w) (λ f. f d.internal_id dfd code mem w)

module _ {ℓ κ} {A : Type ℓ} {W : Type κ} (cast : A → CharDevice W) where
  -- Either no character device is there and nothing changes, or it is found with one reference more.
  Got : Devices A → ℕ → Type (ℓ ⊔ κ)
  Got devices id =
      ((char_of cast (slot devices id) ≡ none) × (dev_char_get cast devices id ≡ (devices, none)))
      ⊎ ((d : CharDevice W) × (char_of cast (slot devices id) ≡ some d)
          × (dev_char_get cast devices id ≡ ((rcparray_get devices id).0, some d))
          × (rcparray_unref (rcparray_get devices id).0 id ≡ devices))

  got_gone :
      (devices : Devices A) (id : ℕ)
      → IsGone (slot devices id)
      → dev_char_get cast devices id ≡ (devices, none)
  unfolding dev_char_get
  got_gone devices id gone =
      rw (get_gone_value devices id gone, dev_char_get)
        (ap (λ xs. (xs, none)) (get_gone_array devices id gone))

  got_other :
      (devices : Devices A) (id : ℕ) (c : Cell (Device A))
      → slot devices id ≡ some c
      → IsLive c
      → (c.value.type == 1) ≡ false
      → dev_char_get cast devices id ≡ (devices, none)
  unfolding dev_char_get
  got_other devices id c at live n =
      rw (get_live_value devices id c at live, n, dev_char_get)
        (ap (λ xs. (xs, none)) (unref-get devices id c at live))

  got_char :
      (devices : Devices A) (id : ℕ) (c : Cell (Device A))
      → slot devices id ≡ some c
      → IsLive c
      → (c.value.type == 1) ≡ true
      → dev_char_get cast devices id
        ≡ ((rcparray_get devices id).0, some (cast c.value.type_specific))
  unfolding dev_char_get
  got_char devices id c at live b = rw (get_live_value devices id c at live, b, dev_char_get)

  char_of_live :
      (o : Option (Cell (Device A))) (c : Cell (Device A)) (b : Bool)
      → o ≡ some c
      → c.present ≡ true
      → (c.value.type == 1) ≡ b
      → char_of cast o ≡ (if b then some (cast c.value.type_specific) else none)
  char_of_live o c b at here e =
      ap (char_of cast) at
      ∙ rw (here) (ap (λ t. if t then some (cast c.value.type_specific) else none) e)

  got : (devices : Devices A) (id : ℕ) → IsUsable devices → Got devices id
  unfolding Got
  got devices id usable = elim (Option-cases (slot devices id)) [
    | inl z ↦ inl (ap (char_of cast) z, got_gone devices id (subst IsGone (sym z) tt))
    | inr (c, at) ↦ elim (Bool-cases c.present) [
      | inr n ↦ inl (ap (char_of cast) at ∙ rw (n), got_gone devices id (subst IsGone (sym at) n))
      | inl here ↦ elim (Bool-cases (c.value.type == 1)) [
        | inl b ↦ inr (
          cast c.value.type_specific,
          char_of_live (slot devices id) c true at here b,
          got_char devices id c at (usable id c at here) b,
          unref-get devices id c at (usable id c at here),
        )
        | inr n ↦ inl (
          char_of_live (slot devices id) c false at here n,
          got_other devices id c at (usable id c at here) n,
        )
      ]
    ]
  ]

  with_char_lem :
      (devices : Devices A) (id : ℕ) (missing : W → Answer × W)
      (use_char : CharDevice W → W → Answer × W) (w : W)
      → IsUsable devices
      → with_char cast devices id missing use_char w
        ≡ (devices, or_else (char_of cast (slot devices id)) (missing w) (λ d. use_char d w))
  unfolding with_char Got
  with_char_lem devices id missing use_char w usable = elim (got devices id usable) [
    | inl (z, e) ↦
        rw (ap (λ r. r.1) e, with_char)
          (ap (λ r. (r.0, missing w)) e
            ∙ ap (λ o. (devices, or_else o (missing w) (λ d. use_char d w))) (sym z))
    | inr (d, s, e, back) ↦
        rw (ap (λ r. r.1) e, with_char)
          (ap (λ r. (rcparray_unref r.0 id, use_char d w)) e
            ∙ ap (λ xs. (xs, use_char d w)) back
            ∙ ap (λ o. (devices, or_else o (missing w) (λ d. use_char d w))) (sym s))
  ]

  -- A call on a character device, in a table whose present devices can all be got, gives its reference
  -- back: the table is as it was. It answers what the driver's function answers for a present
  -- character device, `-ENOSYS` when the driver has none for a read, a write or an ioctl, and
  -- `-ENODEV` without such a device; in both errors nothing is run. A close answers 0.
  pub dev_char_call_lem :
      (call : Call) (devices : Devices A) (id dfd : ℕ) (w : W)
      → IsUsable devices
      → dev_char_call cast call devices id dfd w
        ≡ (devices, answer_of call (char_of cast (slot devices id)) dfd w)
  unfolding dev_char_open dev_char_read dev_char_write dev_char_close dev_char_ioctl
  dev_char_call_lem open_call devices id dfd w usable =
      with_char_lem devices id _ _ w usable
      ∙ ap (λ r. (devices, r))
          (elim (Option-cases (char_of cast (slot devices id))) [
            | inl z ↦ rw (z)
            | inr (d, e) ↦ rw (e)
          ])
  dev_char_call_lem (read_call len) devices id dfd w usable =
      with_char_lem devices id _ _ w usable
      ∙ ap (λ r. (devices, r))
          (elim (Option-cases (char_of cast (slot devices id))) [
            | inl z ↦ rw (z)
            | inr (d, e) ↦ rw (e)
          ])
  dev_char_call_lem (write_call buffer) devices id dfd w usable =
      with_char_lem devices id _ _ w usable
      ∙ ap (λ r. (devices, r))
          (elim (Option-cases (char_of cast (slot devices id))) [
            | inl z ↦ rw (z)
            | inr (d, e) ↦ rw (e)
          ])
  dev_char_call_lem close_call devices id dfd w usable =
      with_char_lem devices id _ _ w usable
      ∙ ap (λ r. (devices, r))
          (elim (Option-cases (char_of cast (slot devices id))) [
            | inl z ↦ rw (z)
            | inr (d, e) ↦ rw (e)
          ])
  dev_char_call_lem (ioctl_call code mem) devices id dfd w usable =
      with_char_lem devices id _ _ w usable
      ∙ ap (λ r. (devices, r))
          (elim (Option-cases (char_of cast (slot devices id))) [
            | inl z ↦ rw (z)
            | inr (d, e) ↦ rw (e)
          ])
