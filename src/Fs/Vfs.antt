-- ===== src/Fs/Vfs.antt =====
-- fs/fs.c and fs/fd.c: opening, using, duplicating and closing files. Each function is one step:
-- the tables' locks, and `close_lock` in `fd_close`, order what different threads do.
pub mod Tests
pub mod Calls
pub mod Close
pub mod Open
use aexkernel.Prelude.{ℕ, ◌==◌, Bool, true, false, Option, none, some, List, [], if◌then◌else◌}
use aexkernel.Rc.Array.{rcparray_add, rcparray_get, rcparray_unref, rcparray_remove}
use aexkernel.Fs.Types.{
  Mount, Handle, FileOps, FileDescriptor, Call, Reply, Driver, Vfs, Out, ok, fault, and_then, ebadf,
  ebadf_64, enoent, is_error,
}
use aexkernel.Fs.Mounts.{fs_get_mount}

-- The result of a call on what is not open: `readdir` returns an `int`.
abbrev pub bad_fd : Call → ℕ
bad_fd Call.readdir = ebadf
bad_fd _ = ebadf_64

module _ {W : Type 0} (drivers : ℕ → Driver W) where
  abbrev pub driver : Handle → Driver W
  driver h = drivers h.mount.fs

  -- `_fs_read`, `_fs_write`, `_fs_seek`, `_fs_ioctl` and `_fs_readdir` are one text but for the
  -- driver's function that they call.
  pub handle_call : Call → ℕ → Vfs W → Reply × Vfs W
  handle_call c fd v =
      let (hs, found) = rcparray_get v.handles fd in
      elim found [
        | none ↦ (record { ret = bad_fd c; bytes = [] }, record v { handles = hs })
        | some h ↦
            let (reply, w) = (driver h).request h.mount h.ifd c v.world in
            (reply, record v { handles = rcparray_unref hs fd; world = w })
      ]

  pub handle_close : ℕ → Vfs W → ℕ × Vfs W
  handle_close fd v =
      let (hs, found) = rcparray_get v.handles fd in
      elim found [
        | none ↦ (ebadf, record v { handles = hs })
        | some copy ↦
            let (hs', refs) = rcparray_remove (rcparray_unref hs fd) fd in
            let (ret, w) = (driver copy).close_file copy.mount copy.ifd v.world in
            (ret, record v { handles = hs'; world = w })
      ]

  -- The new handle gets the old handle's `ifd`, and not what the driver's `dup` returned.
  pub handle_dup : ℕ → Vfs W → Out (ℕ × Vfs W)
  handle_dup fd v =
      let (hs, found) = rcparray_get v.handles fd in
      elim found [
        | none ↦ ok (ebadf, record v { handles = hs })
        | some h ↦ elim (driver h).dup_file [
          | none ↦ fault
          | some dup ↦
              let (ret, w) = dup h.mount h.ifd v.world in
              let (hs', fd_new) = rcparray_add hs (record { ifd = h.ifd; mount = h.mount }) in
              if is_error ret
              then ok (ret, record v { handles = rcparray_unref hs fd; world = w })
              else ok (fd_new, record v { handles = rcparray_unref hs' fd; world = w })
        ]
      ]

  pub fd_add : FileDescriptor → Vfs W → ℕ × Vfs W
  fd_add fd v = let (fds, id) = rcparray_add v.fds fd in (id, record v { fds = fds })

  -- Whether the function that a call goes through is there.
  abbrev pub has_op : FileOps → Call → Bool
  has_op ops (Call.write bytes) = ops.has_write
  has_op ops _ = true

  -- `fd_read`, `fd_write`, `fd_seek`, `fd_ioctl` and `fd_readdir`. A missing function is only warned
  -- of, and called.
  pub fd_call : Call → ℕ → Vfs W → Out (Reply × Vfs W)
  fd_call c fd v =
      let (fds, found) = rcparray_get v.fds fd in
      elim found [
        | none ↦ ok (record { ret = bad_fd c; bytes = [] }, record v { fds = fds })
        | some d ↦
            let (reply, v') = handle_call c d.ifd (record v { fds = fds }) in
            if has_op d.ops c
            then ok (reply, record v' { fds = rcparray_unref v'.fds fd })
            else fault
      ]

  pub fd_close : ℕ → Vfs W → ℕ × Vfs W
  fd_close fd v =
      let (fds, found) = rcparray_get v.fds fd in
      elim found [
        | none ↦ (ebadf, record v { fds = fds })
        | some copy ↦
            let (fds', refs) = rcparray_remove (rcparray_unref fds fd) fd in
            handle_close copy.ifd (record v { fds = fds' })
      ]

  pub fd_dup : ℕ → Vfs W → Out (ℕ × Vfs W)
  fd_dup fd v =
      let (fds, found) = rcparray_get v.fds fd in
      elim found [
        | none ↦ ok (ebadf, record v { fds = fds })
        | some d ↦
            if d.ops.has_dup
            then and_then {A = ℕ × Vfs W} (handle_dup d.ifd (record v { fds = fds })) (λ r.
              let (ret', v'') = fd_add (record { ifd = r.0; ops = d.ops }) r.1 in
              if is_error r.0
              then ok (r.0, record r.1 { fds = rcparray_unref r.1.fds fd })
              else ok (ret', record v'' { fds = rcparray_unref v''.fds fd }))
            else fault
      ]

  -- The mount that `fs_get_mount` gave is taken, a function of its driver called, and the mount given
  -- back; the mount, the function's result and the state.
  use_mount {ℓ} : {R : Type ℓ} → (Mount → W → R × W) → ℕ → Vfs W → Out (Mount × R × Vfs W)
  use_mount f id v =
      let (ms, found) = rcparray_get v.mounts id in
      elim found [
        | none ↦ fault
        | some mount ↦
            let (ret, w) = f mount v.world in
            ok (mount, ret, record v { mounts = rcparray_unref ms id; world = w })
      ]

  -- What `fs_open` and `fs_opendir` do with the driver's result: what the driver opened gets a handle
  -- and a descriptor.
  opened : FileOps → Mount → ℕ → Vfs W → ℕ × Vfs W
  opened ops mount ret v =
      let (hs, fs_fd) = rcparray_add v.handles (record { ifd = ret; mount = mount }) in
      if is_error ret
      then (ret, v)
      else fd_add (record { ifd = fs_fd; ops = ops }) (record v { handles = hs })

  open_with : FileOps → (Mount → List ℕ → W → ℕ × W) → List ℕ → Vfs W → Out (ℕ × Vfs W)
  open_with ops f path v = and_then (fs_get_mount v.mounts path) λ answer. elim answer [
    | none ↦ ok (enoent, v)
    | some (mount_id, new_path) ↦
        and_then {A = Mount × ℕ × Vfs W} (use_mount (λ mount w. f mount new_path w) mount_id v)
          (λ r. ok (opened ops r.0 r.1 r.2))
  ]

  pub fs_open : List ℕ → ℕ → Vfs W → Out (ℕ × Vfs W)
  fs_open path mode =
      open_with (record { has_write = true; has_dup = true })
        (λ mount new_path w. (drivers mount.fs).open_file mount new_path mode w) path

  pub fs_opendir : List ℕ → Vfs W → Out (ℕ × Vfs W)
  fs_opendir path =
      open_with (record { has_write = false; has_dup = false })
        (λ mount new_path w. (drivers mount.fs).open_dir mount new_path w) path

  -- The reply's bytes are what the driver put into `finfo`; a result that is no error becomes 0.
  pub fs_finfo : List ℕ → Vfs W → Out (Reply × Vfs W)
  fs_finfo path v = and_then (fs_get_mount v.mounts path) λ answer. elim answer [
    | none ↦ ok (record { ret = enoent; bytes = [] }, v)
    | some (mount_id, new_path) ↦
        and_then {A = Mount × Reply × Vfs W}
          (use_mount (λ mount w. (drivers mount.fs).file_info mount new_path w) mount_id v)
          (λ r. ok (if is_error r.1.ret then r.1 else record r.1 { ret = 0 }, r.2))
  ]

  pub fs_exists : List ℕ → Vfs W → Out (Bool × Vfs W)
  fs_exists path v = and_then {A = Reply × Vfs W} (fs_finfo path v) (λ r. ok (r.0.ret == 0, r.1))
