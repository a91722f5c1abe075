-- ===== src/Fs/Syscalls/Opened.antt =====
-- System calls on a descriptor of the process that calls.
use aexkernel.Prelude.{ℕ, ◌≡◌, sym, ap, some, [], subst}
use aexkernel.Rc.Array.{Cell, slot, rcparray_remove}
use aexkernel.Rc.Array.Laws.{
  IsLive, IsGone, get_live_value, get_gone_value, unref-get, remove-IsGone,
}
use aexkernel.Rc.Table.{Entry, write_value}
use aexkernel.Rc.Table.Balance.{rcptable_get-value, unref-write_value}
use aexkernel.Rc.Table.Balance
use aexkernel.Proc.Processes.{Process, Processes}
use aexkernel.Proc.Processes.Balance.{IsProcess, write_value-IsProcess}
use aexkernel.Fs.Types.{Handle, FileDescriptor, Call, Driver, Vfs, ok, ebadf_64}
use aexkernel.Fs.Vfs.{fd_close}
use aexkernel.Fs.Vfs.Calls.{IsOpen}
use aexkernel.Fs.Syscalls.{State, sign_extend, syscall_call, syscall_fclose}

module _ {W : Type 0} (drivers : ℕ → Driver W) where
  -- The process `pid` is there, and its descriptor `lfd` is a descriptor of fd.c that is open.
  pub record IsHeld (s : State W) (pid lfd : ℕ) (e : Entry Process) (l : Cell ℕ)
      (d : Cell FileDescriptor) (h : Cell Handle) : Type 0 where
    pub process : IsProcess s.processes pid e
    pub lfd_slot : slot e.value.fiddies lfd ≡ some l
    pub lfd_live : IsLive l
    pub opened : IsOpen drivers s.vfs l.value d h

  -- Closing a descriptor that the calling process has open takes it out of the process's table and
  -- closes the descriptor of fd.c, whose result it returns; no other process is changed.
  syscall_fclose_lem :
      (s : State W) (pid lfd : ℕ) (e : Entry Process) (l : Cell ℕ)
      → IsProcess s.processes pid e
      → slot e.value.fiddies lfd ≡ some l
      → IsLive l
      → syscall_fclose drivers pid lfd s ≡ (
        sign_extend (fd_close drivers l.value s.vfs).0,
        record {
          processes =
              write_value s.processes pid
                (λ p. record p { fiddies = (rcparray_remove e.value.fiddies lfd).0 });
          vfs = (fd_close drivers l.value s.vfs).1;
        },
      )
  unfolding syscall_fclose
  syscall_fclose_lem s pid lfd e l p k live = rw (
    rcptable_get-value s.processes pid e p.entry p.live,
    get_live_value e.value.fiddies lfd l k live,
    unref-get e.value.fiddies lfd l k live,
    unref-write_value s.processes pid e
        (λ p. record p { fiddies = (rcparray_remove e.value.fiddies lfd).0 }) p.valid p.entry
        p.live,
    syscall_fclose,
  )

  -- A call on a descriptor that the process does not have is refused and changes nothing.
  syscall_call_gone :
      (c : Call) (s : State W) (pid lfd : ℕ) (e : Entry Process)
      → IsProcess s.processes pid e
      → IsGone (slot e.value.fiddies lfd)
      → syscall_call drivers c pid lfd s ≡ ok (record { ret = ebadf_64; bytes = [] }, s)
  unfolding syscall_call
  syscall_call_gone c s pid lfd e p g = rw (
    rcptable_get-value s.processes pid e p.entry p.live,
    get_gone_value e.value.fiddies lfd g,
    Balance.unref-get s.processes pid e p.valid p.entry p.live,
    syscall_call,
  )

  syscall_fclose_gone :
      (s : State W) (pid lfd : ℕ) (e : Entry Process)
      → IsProcess s.processes pid e
      → IsGone (slot e.value.fiddies lfd)
      → syscall_fclose drivers pid lfd s ≡ (ebadf_64, s)
  unfolding syscall_fclose
  syscall_fclose_gone s pid lfd e p g = rw (
    rcptable_get-value s.processes pid e p.entry p.live,
    get_gone_value e.value.fiddies lfd g,
    Balance.unref-get s.processes pid e p.valid p.entry p.live,
    syscall_fclose,
  )

  -- After `syscall_fclose` of a descriptor of the calling process, whatever fd.c answered: a second
  -- `syscall_fclose` of it and every read, write, seek, ioctl or directory read on it by the process
  -- is refused with -EBADF and changes nothing, neither in the process nor in the file system.
  pub syscall_fclose_once :
      (c : Call) (s : State W) (pid lfd : ℕ) (e : Entry Process) (l : Cell ℕ)
      → IsProcess s.processes pid e
      → slot e.value.fiddies lfd ≡ some l
      → IsLive l
      → let closed = (syscall_fclose drivers pid lfd s).1 in
        (syscall_fclose drivers pid lfd closed ≡ (ebadf_64, closed))
        × (syscall_call drivers c pid lfd closed
            ≡ ok (record { ret = ebadf_64; bytes = [] }, closed))
  syscall_fclose_once c s pid lfd e l p k live =
      subst
        (λ t.
          (syscall_fclose drivers pid lfd t ≡ (ebadf_64, t))
          × (syscall_call drivers c pid lfd t ≡ ok (record { ret = ebadf_64; bytes = [] }, t)))
        (sym (ap (λ r. r.1) (syscall_fclose_lem s pid lfd e l p k live)))
        (
          syscall_fclose_gone after pid lfd changed there gone,
          syscall_call_gone c after pid lfd changed there gone,
        )
    where
      take_out : Process → Process
      take_out p = record p { fiddies = (rcparray_remove e.value.fiddies lfd).0 }

      after : State W
      after = record {
        processes = write_value s.processes pid take_out;
        vfs = (fd_close drivers l.value s.vfs).1;
      }

      changed : Entry Process
      changed = record e { value = take_out e.value }

      there : IsProcess after.processes pid changed
      there = write_value-IsProcess s.processes pid e take_out p

      gone : IsGone (slot changed.value.fiddies lfd)
      gone = remove-IsGone e.value.fiddies lfd l k
