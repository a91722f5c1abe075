-- ===== src/Fs/Syscalls/Tests.antt =====
-- System calls of a process with one open file.
use aexkernel.Prelude.{ℕ, ◌≡◌, refl, [], arith}
use aexkernel.Rc.Array.{fresh}
use aexkernel.Rc.Array.Laws.{IsLive}
use aexkernel.Proc.Processes.Tests.{entry, processes, process-IsProcess}
use aexkernel.Fs.Types.{Call, ok, ebadf_64}
use aexkernel.Fs.Vfs.Tests.{counting, file}
use aexkernel.Fs.Vfs.Tests
use aexkernel.Fs.Syscalls.{State, syscall_call, syscall_fclose}
use aexkernel.Fs.Syscalls.Opened.{syscall_fclose_once}

abbrev state : State ℕ
state = record { processes = processes; vfs = Tests.state file }

fresh-IsLive : IsLive {A = ℕ} (fresh 0)
fresh-IsLive = record { here = refl; counted = omega arith; room = omega arith }

syscall_fclose_once_example :
    let closed = (syscall_fclose counting 3 0 state).1 in
    (syscall_fclose counting 3 0 closed ≡ (ebadf_64, closed))
    × (syscall_call counting Call.readdir 3 0 closed
        ≡ ok (record { ret = ebadf_64; bytes = [] }, closed))
syscall_fclose_once_example =
    syscall_fclose_once counting Call.readdir state 3 0 entry (fresh 0) process-IsProcess refl
      fresh-IsLive
