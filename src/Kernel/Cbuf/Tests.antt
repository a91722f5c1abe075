-- ===== src/Kernel/Cbuf/Tests.antt =====
-- The circular buffer's theorems at a buffer of four bytes that goes round its end.
use aexkernel.Prelude.{ℕ, ◌≡◌, ◌≢◌, refl, some, false, [], ◌∷◌, arith}
use aexkernel.Proc.Threads.{Thread, task_tset_status, task_tget_status, task_tshould_exit}
use aexkernel.Proc.Tqueue.{event_enter, tqueue_add}
use aexkernel.Kernel.Cbuf.{Cbuf, read_possible, read_pass, write_pass}
use aexkernel.Kernel.Cbuf.Rounds.{read_round}
use aexkernel.Kernel.Cbuf.Blocking.{IsBlocked, Parties, read, IsAwake, NoDeadlock, no_deadlock}
use aexkernel.Kernel.Cbuf.Blocking
use aexkernel.Kernel.Cbuf.Ring.{IsValid, contents}
use aexkernel.Kernel.Cbuf.Chunk.{Reads, Writes, read_pass-Reads, write_pass-Writes}
use aexkernel.Kernel.Cbuf.Stream.{Stream, Reach, here, next, call_write, IsFifo, Reach-IsFifo}

abbrev ring : Cbuf
ring = record { write_ptr = 1; read_ptr = 3; size = 4; buffer = 11 ∷ 12 ∷ 13 ∷ 14 ∷ [] }

ring-IsValid : IsValid ring
ring-IsValid = record {
  storage = omega arith;
  small = omega arith;
  write_in = omega arith;
  read_in = omega arith;
}

ring-contents : contents ring ≡ 14 ∷ 11 ∷ []
ring-contents = refl

write_pass-Writes_example : Writes ring (21 ∷ 22 ∷ []) (write_pass ring (21 ∷ 22 ∷ []))
write_pass-Writes_example = write_pass-Writes (21 ∷ 22 ∷ []) ring-IsValid

read_pass-Reads_example : Reads ring 3 (read_pass ring 3)
read_pass-Reads_example = read_pass-Reads 3 ring-IsValid

abbrev idle : Stream
idle = record { ring = ring; src = []; len = 2; sent = 14 ∷ 11 ∷ []; received = [] }

abbrev busy : Stream
busy = record { ring = ring; src = 21 ∷ []; len = 2; sent = 14 ∷ 11 ∷ 21 ∷ []; received = [] }

idle-IsFifo : IsFifo idle
idle-IsFifo = record { valid = ring-IsValid; fits = omega arith; order = refl }

busy-Reach : Reach idle busy
busy-Reach = next here (call_write idle (21 ∷ []) refl)

Reach-IsFifo_example : IsFifo busy
Reach-IsFifo_example = Reach-IsFifo busy-Reach idle-IsFifo

busy-IsFifo : IsFifo busy
busy-IsFifo = record { valid = ring-IsValid; fits = omega arith; order = refl }

abbrev thread : Thread
thread = record {
  status = 1;
  abort = false;
  running = false;
  busy = 0;
  resume_after = 0;
  process = 1;
}

-- Thread 0 reads and thread 1 writes; nothing is held.
abbrev fresh : Parties
fresh = record {
  shared = record {
    ring = record { write_ptr = 0; read_ptr = 0; size = 4; buffer = 0 ∷ 0 ∷ 0 ∷ 0 ∷ [] };
    event = record {
      counter = 0;
      wait_queue = record { threads = some thread ∷ some thread ∷ []; queue = [] };
    };
  };
  src = 21 ∷ [];
  len = 2;
}

fresh-IsAwake : IsAwake 0 1 fresh.shared
unfolding task_tget_status
fresh-IsAwake = record {
  valid = record {
    storage = omega arith;
    small = omega arith;
    write_in = omega arith;
    read_in = omega arith;
  };
  big = omega arith;
  reader = λ h. absurd (omega (arith, h));
  writer = λ h. absurd (omega (arith, h));
}

reader_runs : ¬ IsBlocked fresh.shared.event 0
unfolding task_tget_status
reader_runs h = omega (arith, h)

-- The reader blocks.
reader_blocks : IsBlocked (read_round fresh.shared 0 2).0.event 0
unfolding read_round read_pass read_possible event_enter tqueue_add task_tset_status
    task_tget_status task_tshould_exit
reader_blocks = refl

zero-ne-one : ◌≢◌ {A = ℕ} 0 1
zero-ne-one e = omega (arith, e)

no_deadlock_example : NoDeadlock 0 1 zero-ne-one (read_round fresh.shared 0 2).0
no_deadlock_example =
    no_deadlock 0 1 zero-ne-one (Blocking.next Blocking.here (read fresh reader_runs (omega arith)))
      fresh-IsAwake
