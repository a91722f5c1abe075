-- ===== src/Kernel/Cbuf/Stream.antt =====
-- `cbuf_write` and `cbuf_read` on one buffer in two threads: their passes in any order.
use aexkernel.Prelude.{
  ℕ, ◌<◌, ◌≡◌, sym, ap, ◌∙◌, List, [], ◌++◌, append_assoc, append-nil, length, sub_size, arith,
}
use aexkernel.Kernel.Cbuf.{Cbuf, moved, read_pass, write_pass}
use aexkernel.Kernel.Cbuf.Ring.{IsValid, contents}
use aexkernel.Kernel.Cbuf.Chunk.{Reads, Writes, read_pass-Reads, write_pass-Writes}

-- The buffer with the bytes that a call of `cbuf_write` has left, the bytes that a call of
-- `cbuf_read` still wants, all bytes handed to `cbuf_write` and all that `cbuf_read` delivered.
pub record Stream : Type 0 where
  pub ring : Cbuf
  pub src : List ℕ
  pub len : ℕ
  pub sent : List ℕ
  pub received : List ℕ

-- The loops run while something is left; a pass that waits changes nothing and is no step. A new
-- call begins when the last one of its side is over.
pub data Step : Stream → Stream → Type 0 where
  call_write :
      (s : Stream) (bytes : List ℕ)
      → s.src ≡ []
      → Step s (record s { src = bytes; sent = s.sent ++ bytes })
  call_read :
      (s : Stream) (n : ℕ) → s.len ≡ 0 → n < 18446744073709551616 → Step s (record s { len = n })
  write :
      (s : Stream) (rest : List ℕ) (c : Cbuf)
      → 0 < length s.src
      → write_pass s.ring s.src ≡ moved rest c
      → Step s (record s { ring = c; src = rest })
  read :
      (s : Stream) (bytes : List ℕ) (c : Cbuf)
      → 0 < s.len
      → read_pass s.ring s.len ≡ moved bytes c
      → Step s (record s {
        ring = c;
        len = sub_size s.len (length bytes);
        received = s.received ++ bytes;
      })

pub data Reach (s : Stream) : Stream → Type 0 where
  here : Reach s s
  next : {t u : Stream} → Reach s t → Step t u → Reach s u

pub record IsFifo (s : Stream) : Type 0 where
  pub valid : IsValid s.ring
  pub fits : s.len < 18446744073709551616
  pub order : s.sent ≡ s.received ++ (contents s.ring ++ s.src)

reads :
    (c : Cbuf) (len : ℕ) (bytes : List ℕ) (c' : Cbuf)
    → IsValid c
    → read_pass c len ≡ moved bytes c'
    → Reads c len (moved bytes c')
reads c len bytes c' v e = rw e at (read_pass-Reads len v)

writes :
    (c : Cbuf) (src rest : List ℕ) (c' : Cbuf)
    → IsValid c
    → write_pass c src ≡ moved rest c'
    → Writes c src (moved rest c')
writes c src rest c' v e = rw e at (write_pass-Writes src v)

Step-IsFifo : {s t : Stream} → Step s t → IsFifo s → IsFifo t
Step-IsFifo (call_write s bytes e) i = record {
  valid = i.valid;
  fits = i.fits;
  order =
      ap (λ r. r ++ bytes) (i.order ∙ ap (λ r. s.received ++ (contents s.ring ++ r)) e)
      ∙ append_assoc s.received (contents s.ring ++ []) bytes
      ∙ ap (λ r. s.received ++ (r ++ bytes)) (append-nil (contents s.ring));
}
Step-IsFifo (call_read s n e b) i = record { valid = i.valid; fits = b; order = i.order }
Step-IsFifo (write s rest c p e) i =
    let w = writes s.ring s.src rest c i.valid e in
    record { valid = w.0; fits = i.fits; order = i.order ∙ ap (λ r. s.received ++ r) (sym w.1) }
Step-IsFifo (read s bytes c p e) i =
    let r = reads s.ring s.len bytes c i.valid e in
    record {
      valid = r.0;
      fits = omega arith;
      order =
          i.order
          ∙ ap (λ q. s.received ++ (q ++ s.src)) r.1
          ∙ ap (λ q. s.received ++ q) (append_assoc bytes (contents c) s.src)
          ∙ sym (append_assoc s.received bytes (contents c ++ s.src));
    }

-- Whatever the order in which the passes of a writer and a reader of one valid buffer run: if the
-- bytes received, those held and those still to be written make up the bytes sent, in order, at
-- the start, they do so at the end, and the buffer is valid. No byte is lost, doubled or moved.
pub Reach-IsFifo : {s t : Stream} → Reach s t → IsFifo s → IsFifo t
Reach-IsFifo here i = i
Reach-IsFifo (next r st) i = Step-IsFifo st (Reach-IsFifo r i)
