-- ===== src/Fs/Types.antt =====
-- include/aex/fs: the records of the virtual file system, and a file system's driver as an interface.
-- Paths are C strings. Results of type `int` are 32-bit patterns, those of type `int64_t` 64-bit ones.
use aexkernel.Prelude.{ℕ, Bool, List, leb, Option}
use aexkernel.Rc.Array.{Cell}

pub record Mount : Type 0 where
  pub path : List ℕ
  pub dev_id : ℕ
  pub private_data : ℕ
  pub fs : ℕ

-- `struct fs_handle`; a mount is never removed, so its pointer is the mount.
pub record Handle : Type 0 where
  pub ifd : ℕ
  pub mount : Mount

-- `struct file_ops`. The only functions that are put there are the `_fs_*` of fs.c: what a record of
-- operations can differ in is which of `write` and `dup` it has.
pub record FileOps : Type 0 where
  pub has_write : Bool
  pub has_dup : Bool

pub record FileDescriptor : Type 0 where
  pub ifd : ℕ
  pub ops : FileOps

-- The operations on an open file that hand a request to the driver and change no table.
pub data Call : Type 0 where
  read : ℕ → Call
  write : List ℕ → Call
  seek : ℕ → ℕ → Call
  ioctl : ℕ → ℕ → Call
  readdir : Call

-- What a driver answers: the result, and the bytes that it put into the caller's buffer.
pub record Reply : Type 0 where
  pub ret : ℕ
  pub bytes : List ℕ

-- `filesystem_t`: the functions of a driver, over the state `W` of all drivers and devices. A driver may
-- lack `dup`; the other functions are taken to be there.
pub record Driver (W : Type 0) : Type 0 where
  pub open_file : Mount → List ℕ → ℕ → W → ℕ × W
  pub open_dir : Mount → List ℕ → W → ℕ × W
  pub file_info : Mount → List ℕ → W → Reply × W
  pub request : Mount → ℕ → Call → W → Reply × W
  pub close_file : Mount → ℕ → W → ℕ × W
  pub dup_file : Option (Mount → ℕ → W → ℕ × W)

-- The state of fs.c and fd.c, with that of the drivers.
pub record Vfs (W : Type 0) : Type 0 where
  pub mounts : List (Option (Cell Mount))
  pub handles : List (Option (Cell Handle))
  pub fds : List (Option (Cell FileDescriptor))
  pub world : W

-- `fault` is a read or a call through NULL.
pub data Out {ℓ} (A : Type ℓ) : Type ℓ where
  ok : A → Out A
  fault : Out A

abbrev pub and_then {ℓ κ} : {A : Type ℓ} {B : Type κ} → Out A → (A → Out B) → Out B
and_then (ok a) f = f a
and_then fault f = fault

-- `-EBADF` and `-ENOENT`.
abbrev pub ebadf : ℕ
ebadf = 4294967289

abbrev pub ebadf_64 : ℕ
ebadf_64 = 18446744073709551609

abbrev pub enoent : ℕ
enoent = 4294967294

-- `ret < 0` for an `int`.
abbrev pub is_error : ℕ → Bool
is_error r = leb 2147483648 r
