-- ===== src/Pipe/Fifo.antt =====
-- Every step of a pipe keeps the invariant.
use mathlib.Core.List.{append_assoc}
use jos_kernel.Base.{
  ==_false, ==_self, List, [], ap, arith, false, length, refl, sym, ℕ, ◌%◌, ◌++◌, ◌+◌, ◌<◌, ◌^◌,
  ◌∙◌, ◌∷◌, ◌≡◌, ◌≤◌, length-snoc,
}
use jos_kernel.Pipe.{
  Pipe, advance_read, advance_write, is_empty, is_full, next_byte, pipe_size, store_byte,
}
use jos_kernel.Pipe.Inv.{
  Inv, IsShort, ReaderKnows, ReaderKnows-advance_write, ReaderKnows-store_byte, WriterKnows,
  WriterKnows-advance_read, contents-advance_read, contents-advance_write, contents-store_byte,
}
use jos_kernel.Pipe.Steps.{
  Reach, Read, Reader, Step, System, Write, Writer, by_reader, by_writer, closed, end_of_file,
  initial, later, no_more, put_byte, read_done, read_head, read_ready, read_took, some_data,
  some_room, start, take_byte, write_done, write_head, write_ready, write_stored,
}
use jos_kernel.Pipe.Window.{contents}

-- The state of one process changes, and what it knows then holds.
module _ {s : System} (v : Inv s) where
  reader_moves : (r : Reader) → ReaderKnows s.pipe r → Inv (record s { reader = r })
  reader_moves r h = record {
    order = v.order;
    room = v.room;
    counted = v.counted;
    fifo = v.fifo;
    reader = h;
    writer = v.writer;
  }

  writer_moves : (w : Writer) → WriterKnows s.pipe w → Inv (record s { writer = w })
  writer_moves w h = record {
    order = v.order;
    room = v.room;
    counted = v.counted;
    fifo = v.fifo;
    reader = v.reader;
    writer = h;
  }

  byte_received :
      (n i b : ℕ)
      → (s.pipe.p_rpos < s.pipe.p_wpos) × (b ≡ next_byte s.pipe)
      → IsShort s
      → Inv (record s {
        reader = read_head n (i + 1);
        pipe = advance_read s.pipe;
        received = s.received ++ (b ∷ []);
      })
  byte_received n i b (h, e) short = record {
    order = omega (arith, v.counted);
    room = omega (arith, v.counted, v.room);
    counted = v.counted;
    fifo =
        v.fifo
        ∙ ap (λ l. s.received ++ l)
            (contents-advance_read s.pipe h (omega (arith, v.counted))
              ∙ ap (λ x. x ∷ contents (advance_read s.pipe)) (sym e))
        ∙ sym (append_assoc s.received (b ∷ []) (contents (advance_read s.pipe)));
    reader = tt;
    writer = WriterKnows-advance_read s.pipe s.writer (omega (arith, v.counted)) v.writer;
  }

  byte_stored :
      (b i : ℕ) (rest : List ℕ)
      → s.pipe.p_wpos < s.pipe.p_rpos + pipe_size
      → Inv (record s { writer = write_stored b rest i; pipe = store_byte b s.pipe })
  byte_stored b i rest h = record {
    order = v.order;
    room = v.room;
    counted = v.counted;
    fifo = v.fifo ∙ ap (λ l. s.received ++ l) (sym (contents-store_byte s.pipe b v.order h));
    reader = ReaderKnows-store_byte s.pipe s.reader b h v.reader;
    writer = (h, rw (==_self (s.pipe.p_wpos % pipe_size)) refl);
  }

  byte_sent :
      (b i : ℕ) (rest : List ℕ)
      → (s.pipe.p_wpos < s.pipe.p_rpos + pipe_size) × (s.pipe.p_buf (s.pipe.p_wpos % pipe_size) ≡ b)
      → IsShort s
      → Inv (record s {
        writer = write_head rest (i + 1);
        pipe = advance_write s.pipe;
        sent = s.sent ++ (b ∷ []);
      })
  byte_sent b i rest (h, e) short = record {
    order = omega (arith, v.counted, v.order);
    room = omega (arith, v.counted);
    counted = omega (arith, v.counted, length-snoc s.sent b);
    fifo =
        ap (λ l. l ++ (b ∷ [])) v.fifo
        ∙ append_assoc s.received (contents s.pipe) (b ∷ [])
        ∙ ap (λ l. s.received ++ l)
            (sym (contents-advance_write s.pipe b v.order (omega (arith, v.counted)) e));
    reader = ReaderKnows-advance_write s.pipe s.reader (omega (arith, v.counted)) v.reader;
    writer = tt;
  }

not_empty : (p : Pipe) → p.p_rpos ≤ p.p_wpos → is_empty p ≡ false → p.p_rpos < p.p_wpos
not_empty p h e = let ne = ==_false p.p_rpos p.p_wpos e in omega arith

not_full : (p : Pipe) → p.p_rpos < 2 ^ 31 → is_full p ≡ false → p.p_wpos < p.p_rpos + pipe_size
not_full p h e = ground arith

pub Read-Inv :
    {s t : System} {r : Reader} → Inv s → ReaderKnows s.pipe r → IsShort s → Read s r t → Inv t
Read-Inv v h short (Read.call {c} {n}) = reader_moves v (read_head n 0) tt
Read-Inv v h short (Read.complete {n} {i} _) = reader_moves v (read_done i) tt
Read-Inv {s} v h short (some_data {n} {i} _ e) =
    reader_moves v (read_ready n i) (not_empty s.pipe v.order e)
Read-Inv v h short (no_more {n} {i} _ _ _) = reader_moves v (read_done i) tt
Read-Inv v h short (end_of_file {n} {i} _ _ _) = reader_moves v (read_done 0) tt
Read-Inv v h short (Read.wait {n} {i} _ _ _) = reader_moves v (read_head n i) tt
Read-Inv {s} v h short (take_byte {n} {i}) =
    reader_moves v (read_took n i (next_byte s.pipe)) (h, refl)
Read-Inv v h short (Read.advance {n} {i} {b}) = byte_received v n i b h short

pub Write-Inv :
    {s t : System} {w : Writer} → Inv s → WriterKnows s.pipe w → IsShort s → Write s w t → Inv t
Write-Inv v h short (Write.call {c} {bytes}) = writer_moves v (write_head bytes 0) tt
Write-Inv v h short (Write.complete {i}) = writer_moves v (write_done i) tt
Write-Inv {s} v h short (some_room {b} {i} {rest} e) =
    writer_moves v (write_ready b rest i) (not_full s.pipe (omega (arith, v.counted, v.order)) e)
Write-Inv v h short (closed {b} {i} {rest} _) = writer_moves v (write_done 0) tt
Write-Inv v h short (Write.wait {b} {i} {rest} _) = writer_moves v (write_head (b ∷ rest) i) tt
Write-Inv v h short (put_byte {b} {i} {rest}) = byte_stored v b i rest h
Write-Inv v h short (Write.advance {b} {i} {rest}) = byte_sent v b i rest h short

pub Step-Inv : {s t : System} → Inv s → IsShort s → Step s t → Inv t
Step-Inv v short (by_reader m) = Read-Inv v v.reader short m
Step-Inv v short (by_writer m) = Write-Inv v v.writer short m

Inv-initial : Inv initial
Inv-initial = record {
  order = omega arith;
  room = omega arith;
  counted = refl;
  fifo = refl;
  reader = tt;
  writer = tt;
}

-- The bytes sent never get fewer.
Read-grows : {s t : System} {r : Reader} → Read s r t → length s.sent ≤ length t.sent
Read-grows Read.call = omega arith
Read-grows (Read.complete _) = omega arith
Read-grows (some_data _ _) = omega arith
Read-grows (no_more _ _ _) = omega arith
Read-grows (end_of_file _ _ _) = omega arith
Read-grows (Read.wait _ _ _) = omega arith
Read-grows take_byte = omega arith
Read-grows Read.advance = omega arith

Write-grows : {s t : System} {w : Writer} → Write s w t → length s.sent ≤ length t.sent
Write-grows Write.call = omega arith
Write-grows Write.complete = omega arith
Write-grows (some_room _) = omega arith
Write-grows (closed _) = omega arith
Write-grows (Write.wait _) = omega arith
Write-grows put_byte = omega arith
Write-grows {s} (Write.advance {b}) = omega (arith, length-snoc s.sent b)

Step-grows : {s t : System} → Step s t → length s.sent ≤ length t.sent
Step-grows (by_reader m) = Read-grows m
Step-grows (by_writer m) = Write-grows m

-- Whatever the interleaving, as long as fewer than 2 ^ 31 bytes have been sent: at most PIPEBUFSIZ
-- bytes are in the pipe, and the bytes sent are those received followed by those in the pipe.
pub Reach-Inv : (s : System) → Reach s → IsShort s → Inv s
Reach-Inv s start short = Inv-initial
Reach-Inv t (later {s} r st) short =
    let before : IsShort s = omega (arith, Step-grows st) in
    Step-Inv (Reach-Inv s r before) before st
