-- ===== src/Fs/Vfs/Open.antt =====
-- Opening files and directories.
use aexkernel.Prelude.{
  ℕ, ◌==◌, if◌then◌else◌, refl, ◌≡◌, ap, ◌∙◌, ◌⊎◌, inl, inr, true, false, Option, none, some, List,
  Bool-cases,
}
use aexkernel.Rc.Array.{Cell, slot, fresh, rcparray_add}
use aexkernel.Rc.Array.Laws.{IsLive, get_live_value, unref-get, slot-rcparray_add}
use aexkernel.Fs.Types.{Mount, FileOps, Driver, Vfs, ok, and_then, is_error}
use aexkernel.Fs.Mounts.{fs_get_mount}
use aexkernel.Fs.Vfs.{fd_add, use_mount, opened, open_with, fs_open}

module _ {W : Type 0} (drivers : ℕ → Driver W) where
  -- A path that resolves to a mount that is there.
  pub record Resolves (v : Vfs W) (path : List ℕ) (i : ℕ) (inner : List ℕ) (c : Cell Mount)
      : Type 0 where
    pub answer : fs_get_mount v.mounts path ≡ ok (some (i, inner))
    pub mount_slot : slot v.mounts i ≡ some c
    pub mount_live : IsLive c

  use_mount_lem {ℓ} :
      {R : Type ℓ} (f : Mount → W → R × W) (v : Vfs W) (i : ℕ) (c : Cell Mount)
      → slot v.mounts i ≡ some c
      → IsLive c
      → use_mount drivers f i v
        ≡ ok (c.value, (f c.value v.world).0, record v { world = (f c.value v.world).1 })
  unfolding use_mount
  use_mount_lem f v i c e l =
      rw (get_live_value v.mounts i c e l, unref-get v.mounts i c e l, use_mount)

  open_with_lem :
      (ops : FileOps) (f : Mount → List ℕ → W → ℕ × W) (v : Vfs W) (path : List ℕ) (i : ℕ)
      (inner : List ℕ) (c : Cell Mount)
      → Resolves v path i inner c
      → let (ret, w) = f c.value inner v.world in
        open_with drivers ops f path v
        ≡ ok (opened drivers ops c.value ret (record v { world = w }))
  unfolding open_with
  open_with_lem ops f v path i inner c r = rw r.answer (
      ap (λ a. and_then {A = Mount × ℕ × Vfs W} a (λ q. ok (opened drivers ops q.0 q.1 q.2)))
        (use_mount_lem (λ mount w. f mount inner w) v i c r.mount_slot r.mount_live))

  -- A table with one slot more in use: slot `i` was free and holds `a` with one reference, and every
  -- other slot is as it was.
  abbrev pub Added : {A : Type 0} → List (Option (Cell A)) → ℕ → A → List (Option (Cell A)) → Type 0
  Added xs i a ys =
      (slot xs i ≡ none) × ((j : ℕ) → slot ys j ≡ (if i == j then some (fresh a) else slot xs j))

  -- The state after an opening that the driver answered with `ret` and the state `w`: a descriptor
  -- where none was, of a handle where none was, of the driver's file `ret` on the mount, each with one
  -- reference. Every other descriptor and handle is as before, and the mounts are.
  abbrev pub Opened : FileOps → Mount → ℕ → W → ℕ → Vfs W → Vfs W → Type 0
  Opened ops mount ret w fd v v' =
      ((i : ℕ) × Added v.fds fd (record { ifd = i; ops = ops }) v'.fds
        × Added v.handles i (record { ifd = ret; mount = mount }) v'.handles)
      × (v'.mounts ≡ v.mounts)
      × (v'.world ≡ w)

  opened-Opened :
      (ops : FileOps) (mount : Mount) (ret : ℕ) (v : Vfs W) (w : W)
      → is_error ret ≡ false
      → let (fd, v') = opened drivers ops mount ret (record v { world = w }) in
        Opened ops mount ret w fd v v'
  unfolding opened fd_add
  opened-Opened ops mount ret v w good =
      rw (good, opened)
        (
          (
            (rcparray_add v.handles (record { ifd = ret; mount = mount })).1,
            slot-rcparray_add v.fds (record {
              ifd = (rcparray_add v.handles (record { ifd = ret; mount = mount })).1;
              ops = ops;
            }),
            slot-rcparray_add v.handles (record { ifd = ret; mount = mount }),
          ),
          refl,
          refl,
        )

  opened_error :
      (ops : FileOps) (mount : Mount) (ret : ℕ) (v : Vfs W)
      → is_error ret ≡ true
      → opened drivers ops mount ret v ≡ (ret, v)
  unfolding opened
  opened_error ops mount ret v e = rw (e, opened)

  -- `fs_open` of a path that resolves to a mount asks the mount's driver once, with the path inside
  -- the mount. If the driver gives an error it is returned and no table is changed. Else the result is a
  -- descriptor in a slot that was free, of a handle in a slot that was free, of the file that the
  -- driver opened, each with one reference; every other descriptor and handle and all mounts are as
  -- they were, and the drivers' state is what the call left.
  pub fs_open_lem :
      (v : Vfs W) (path : List ℕ) (mode i : ℕ) (inner : List ℕ) (c : Cell Mount)
      → Resolves v path i inner c
      → let (ret, w) = (drivers c.value.fs).open_file c.value inner mode v.world in
        ((is_error ret ≡ true) × (fs_open drivers path mode v ≡ ok (ret, record v { world = w })))
        ⊎ ((fd : ℕ) × (v' : Vfs W) × (fs_open drivers path mode v ≡ ok (fd, v'))
            × Opened (record { has_write = true; has_dup = true }) c.value ret w fd v v')
  unfolding fs_open
  fs_open_lem v path mode i inner c r =
      elim (Bool-cases (is_error ((drivers c.value.fs).open_file c.value inner mode v.world).0)) [
        | inl e ↦ inl (e, law ∙ ap ok (opened_error ops c.value answer.0 after e))
        | inr n ↦ inr (_, _, law, opened-Opened ops c.value answer.0 v answer.1 n)
      ]
    where
      ops : FileOps
      ops = record { has_write = true; has_dup = true }

      answer : ℕ × W
      answer = (drivers c.value.fs).open_file c.value inner mode v.world

      after : Vfs W
      after = record v { world = answer.1 }

      law : fs_open drivers path mode v ≡ ok (opened drivers ops c.value answer.0 after)
      law =
          open_with_lem ops (λ mount p w. (drivers mount.fs).open_file mount p mode w) v path i
            inner c r
