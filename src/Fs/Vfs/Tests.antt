-- ===== src/Fs/Vfs/Tests.antt =====
-- The descriptors' theorems with a driver that counts its calls.
use aexkernel.Prelude.{ℕ, ◌+◌, ◌≡◌, ◌⊎◌, refl, true, false, some, [], ◌∷◌, arith}
use aexkernel.Rc.Array.{Cell, fresh}
use aexkernel.Fs.Types.{Mount, Handle, FileDescriptor, Call, Driver, Vfs, ok, fault, ebadf}
use aexkernel.Fs.Mounts.Tests.{at_root}
use aexkernel.Fs.Vfs.{fd_call, fd_close, fs_open}
use aexkernel.Fs.Vfs.Calls.{IsOpen, fd_call_lem}
use aexkernel.Fs.Vfs.Close.{fd_close_once}
use aexkernel.Fs.Vfs.Open.{Resolves, Opened, fs_open_lem}

abbrev pub counting : ℕ → Driver ℕ
counting fs = record {
  open_file = λ m path mode w. (w, w + 1);
  open_dir = λ m path w. (w, w + 1);
  file_info = λ m path w. (record { ret = 0; bytes = [] }, w + 1);
  request = λ m ifd c w. (record { ret = ifd; bytes = b'x' ∷ [] }, w + 1);
  close_file = λ m ifd w. (0, w + 1);
  dup_file = some (λ m ifd w. (w, w + 1));
}

abbrev pub root : Mount
root = record { path = b'/' ∷ []; dev_id = 0; private_data = 0; fs = 0 }

abbrev pub handle : Cell Handle
handle = fresh (record { ifd = 9; mount = root })

abbrev pub file : Cell FileDescriptor
file = fresh (record { ifd = 0; ops = record { has_write = true; has_dup = true } })

abbrev directory : Cell FileDescriptor
directory = fresh (record { ifd = 0; ops = record { has_write = false; has_dup = false } })

abbrev pub state : Cell FileDescriptor → Vfs ℕ
state d = record {
  mounts = some (fresh root) ∷ [];
  handles = some handle ∷ [];
  fds = some d ∷ [];
  world = 20;
}

pub file-IsOpen : IsOpen counting (state file) 0 file handle
file-IsOpen = record {
  fd_slot = refl;
  fd_live = record { here = refl; counted = omega arith; room = omega arith };
  handle_slot = refl;
  handle_live = record { here = refl; counted = omega arith; room = omega arith };
}

directory-IsOpen : IsOpen counting (state directory) 0 directory handle
directory-IsOpen = record {
  fd_slot = refl;
  fd_live = record { here = refl; counted = omega arith; room = omega arith };
  handle_slot = refl;
  handle_live = record { here = refl; counted = omega arith; room = omega arith };
}

fd_call_lem_example : fd_call counting (Call.write (1 ∷ [])) 0 (state directory) ≡ fault
fd_call_lem_example =
    fd_call_lem counting (Call.write (1 ∷ [])) (state directory) 0 directory handle directory-IsOpen

fd_close_once_example :
    let v' = (fd_close counting 0 (state file)).1 in
    (fd_close counting 0 v' ≡ (ebadf, v'))
    × (fd_call counting Call.readdir 0 v' ≡ ok (record { ret = ebadf; bytes = [] }, v'))
fd_close_once_example = fd_close_once counting (state file) 0 file handle Call.readdir file-IsOpen

resolved : Resolves counting (state file) (b'/' ∷ b'a' ∷ []) 0 (b'/' ∷ b'a' ∷ []) (fresh root)
resolved = record {
  answer = at_root;
  mount_slot = refl;
  mount_live = record { here = refl; counted = omega arith; room = omega arith };
}

fs_open_lem_example :
    ((false ≡ true)
      × (fs_open counting (b'/' ∷ b'a' ∷ []) 1 (state file)
          ≡ ok (20, record (state file) { world = 21 })))
    ⊎ ((fd : ℕ) × (v' : Vfs ℕ) × (fs_open counting (b'/' ∷ b'a' ∷ []) 1 (state file) ≡ ok (fd, v'))
        × Opened counting
            (record { has_write = true; has_dup = true })
            root
            20
            21
            fd
            (state file)
            v')
fs_open_lem_example =
    fs_open_lem counting (state file) (b'/' ∷ b'a' ∷ []) 1 0 (b'/' ∷ b'a' ∷ []) (fresh root)
      resolved
