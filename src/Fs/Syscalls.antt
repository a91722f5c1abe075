-- ===== src/Fs/Syscalls.antt =====
-- fs/syscalls_fs.c: the system calls on files, over the processes and the virtual file system. Each
-- call is one step; `pid` is the process that calls. `heap` is what the block of a path holds before.
mod Tests
pub mod Opened
use aexkernel.Prelude.{
  ℕ, ◌+◌, ◌-◌, Option, none, some, List, [], leb, if◌then◌else◌, length, take, replicate,
}
use aexkernel.Kernel.Str.{strlen}
use aexkernel.Rc.Array.{rcparray_add, rcparray_get, rcparray_unref, rcparray_remove}
use aexkernel.Rc.Table.{rcptable_get, rcptable_unref, write_value}
use aexkernel.Proc.Processes.{Process, Processes}
use aexkernel.Fs.Types.{Call, Reply, Driver, Vfs, Out, ok, fault, and_then, ebadf_64, is_error}
use aexkernel.Fs.Path.{fs_to_absolute_path}
use aexkernel.Fs.Vfs.{fd_call, fd_close, fs_open, fs_opendir, fs_finfo}

-- `-EINTR` as an `int64_t`.
abbrev pub eintr_64 : ℕ
eintr_64 = 18446744073709551612

-- An `int` as an `int64_t`.
abbrev pub sign_extend : ℕ → ℕ
sign_extend r = if leb 2147483648 r then r + 18446744069414584320 else r

-- The C string in a block.
abbrev pub string_in : List ℕ → List ℕ
string_in block = take (strlen block) block

pub record State (W : Type 0) : Type 0 where
  pub processes : Processes
  pub vfs : Vfs W

module _ {W : Type 0} (drivers : ℕ → Driver W) where
  -- The end of a call that has got its process.
  abbrev pub leave : State W → Processes → ℕ → State W
  leave s ps pid = record s { processes = (rcptable_unref ps pid).0 }

  -- `syscall_fread`, `syscall_fwrite`, `syscall_fseek`, `syscall_ioctl` and `syscall_readdir` are one
  -- text but for the function of fd.c that they call.
  pub syscall_call : Call → ℕ → ℕ → State W → Out (Reply × State W)
  syscall_call c pid lfd s =
      let (ps, found) = rcptable_get s.processes pid in
      elim found [
        | none ↦ ok (record { ret = eintr_64; bytes = [] }, record s { processes = ps })
        | some process ↦
            let (fiddies, fd) = rcparray_get process.fiddies lfd in
            elim fd [
              | none ↦ ok (record { ret = ebadf_64; bytes = [] }, leave s ps pid)
              | some fd ↦
                  let given_back =
                    write_value ps pid (λ p. record p { fiddies = rcparray_unref fiddies lfd }) in
                  and_then {A = Reply × Vfs W} (fd_call drivers c fd s.vfs)
                    (λ r. ok (r.0, leave (record s { vfs = r.1 }) given_back pid))
            ]
      ]

  pub syscall_fclose : ℕ → ℕ → State W → ℕ × State W
  syscall_fclose pid lfd s =
      let (ps, found) = rcptable_get s.processes pid in
      elim found [
        | none ↦ (eintr_64, record s { processes = ps })
        | some process ↦
            let (fiddies, fd) = rcparray_get process.fiddies lfd in
            elim fd [
              | none ↦ (ebadf_64, leave s ps pid)
              | some fd ↦
                  let removed = write_value ps pid (λ p. record p {
                    fiddies = (rcparray_remove (rcparray_unref fiddies lfd) lfd).0;
                  }) in
                  let (ret, vfs) = fd_close drivers fd s.vfs in
                  (sign_extend ret, leave (record s { vfs = vfs }) removed pid)
            ]
      ]

  -- `syscall_fopen` and `syscall_opendir` are one text but for the function of fs.c.
  pub syscall_open :
      (List ℕ → Vfs W → Out (ℕ × Vfs W)) → ℕ → List ℕ → List ℕ → State W → Out (ℕ × State W)
  syscall_open opener pid path heap s =
      let (ps, found) = rcptable_get s.processes pid in
      elim found [
        | none ↦ ok (eintr_64, record s { processes = ps })
        | some process ↦
            and_then {A = ℕ × Vfs W}
              (opener (string_in (fs_to_absolute_path path process.cwd heap)) s.vfs)
              (λ r.
                let (fiddies, lfd) = rcparray_add process.fiddies r.0 in
                let added = write_value ps pid (λ p. record p { fiddies = fiddies }) in
                if is_error r.0
                then ok (sign_extend r.0, leave (record s { vfs = r.1 }) ps pid)
                else ok (sign_extend lfd, leave (record s { vfs = r.1 }) added pid))
      ]

  pub syscall_fopen : ℕ → List ℕ → ℕ → List ℕ → State W → Out (ℕ × State W)
  syscall_fopen pid path mode = syscall_open (λ p. fs_open drivers p mode) pid path

  pub syscall_opendir : ℕ → List ℕ → List ℕ → State W → Out (ℕ × State W)
  syscall_opendir = syscall_open (fs_opendir drivers)

  pub syscall_finfo : ℕ → List ℕ → List ℕ → State W → Out (Reply × State W)
  syscall_finfo pid path heap s =
      let (ps, found) = rcptable_get s.processes pid in
      elim found [
        | none ↦ ok (record { ret = eintr_64; bytes = [] }, record s { processes = ps })
        | some process ↦
            and_then {A = Reply × Vfs W}
              (fs_finfo drivers (string_in (fs_to_absolute_path path process.cwd heap)) s.vfs)
              (λ r.
                ok
                  (record r.0 { ret = sign_extend r.0.ret }, leave (record s { vfs = r.1 }) ps pid))
      ]
