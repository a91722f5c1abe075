-- ===== src/Kernel/Cbuf/Rounds.antt =====
-- kernel/cbuf.c: the rounds of the loops of `cbuf_read` and `cbuf_write`, each from taking the spinlock
-- to giving it back, with the event on which a thread waits that finds nothing to move, and which
-- every move of bytes triggers. A thread does not yield while it holds a spinlock, so `event_wait`
-- there comes to its first part. A thread that is to exit does not wait, and goes round the loop.
use aexkernel.Prelude.{ℕ, List, []}
use aexkernel.Proc.Tqueue.{Event, event_enter, event_trigger_all}
use aexkernel.Kernel.Cbuf.{Cbuf, Pass, waiting, moved, read_pass, write_pass}

pub record Shared : Type 0 where
  pub ring : Cbuf
  pub event : Event

-- What a round of thread `tid` makes of a pass: it waits for a trigger, or triggers.
abbrev pub finished : Shared → ℕ → List ℕ → Pass (List ℕ) → Shared × List ℕ
finished s tid idle waiting = (record s { event = (event_enter s.event tid).0 }, idle)
finished s tid idle (moved bytes c) =
    (record { ring = c; event = event_trigger_all s.event }, bytes)

-- A round of thread `tid`, which still wants `len` bytes, and the bytes that it delivers.
unfoldable pub read_round : Shared → ℕ → ℕ → Shared × List ℕ
read_round s tid len = finished s tid [] (read_pass s.ring len)

-- A round of thread `tid`, which still has the bytes `src` to write, and what is left of them.
unfoldable pub write_round : Shared → ℕ → List ℕ → Shared × List ℕ
write_round s tid src = finished s tid src (write_pass s.ring src)
