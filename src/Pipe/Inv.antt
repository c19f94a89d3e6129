-- ===== src/Pipe/Inv.antt =====
-- The invariant of a pipe under every interleaving of its reader and its writer.
use jos_kernel.Base.{
  ==_ne, [], ap, arith, length, refl, suc, sym, ℕ, ◌%◌, ◌++◌, ◌+◌, ◌-◌, ◌<◌, ◌^◌, ◌∙◌, ◌∷◌, ◌≡◌,
  ◌≢◌, ◌≤◌,
}
use jos_kernel.Kernel.Layout.{u32_mod}
use jos_kernel.Pipe.{Pipe, advance_read, advance_write, next_byte, pipe_size, store_byte}
use jos_kernel.Pipe.Steps.{
  Reader, System, Writer, read_done, read_head, read_ready, read_took, write_done, write_head,
  write_ready, write_stored,
}
use jos_kernel.Pipe.Window.{contents, window, window-update, window_more}

-- What the reader knows while it is between its test and its update.
abbrev pub ReaderKnows : Pipe → Reader → Type 0
ReaderKnows p (read_ready n i) = p.p_rpos < p.p_wpos
ReaderKnows p (read_took n i b) = (p.p_rpos < p.p_wpos) × (b ≡ next_byte p)
ReaderKnows p _ = Unit

abbrev pub WriterKnows : Pipe → Writer → Type 0
WriterKnows p (write_ready b rest i) = p.p_wpos < p.p_rpos + pipe_size
WriterKnows p (write_stored b rest i) =
    (p.p_wpos < p.p_rpos + pipe_size) × (p.p_buf (p.p_wpos % pipe_size) ≡ b)
WriterKnows p _ = Unit

-- At most PIPEBUFSIZ bytes are in the pipe; they are those sent and not yet received, in order.
pub record Inv (s : System) : Type 0 where
  pub order : s.pipe.p_rpos ≤ s.pipe.p_wpos
  pub room : s.pipe.p_wpos ≤ s.pipe.p_rpos + pipe_size
  pub counted : s.pipe.p_wpos ≡ length s.sent
  pub fifo : s.sent ≡ s.received ++ contents s.pipe
  pub reader : ReaderKnows s.pipe s.reader
  pub writer : WriterKnows s.pipe s.writer

-- The positions have not overflowed: fewer than 2 ^ 31 bytes have been sent.
abbrev pub IsShort : System → Type 0
IsShort s = length s.sent < 2 ^ 31

-- What the writer knows when the reader has taken a byte away.
pub WriterKnows-advance_read :
    (p : Pipe) (w : Writer) → p.p_rpos < 2 ^ 31 → WriterKnows p w → WriterKnows (advance_read p) w
WriterKnows-advance_read p (write_done c) b h = tt
WriterKnows-advance_read p (write_head l i) b h = tt
WriterKnows-advance_read p (write_ready c l i) b h = omega arith
WriterKnows-advance_read p (write_stored c l i) b (h, e) = (omega arith, e)

-- What the reader knows when the writer has stored a byte behind the contents, and published it.
pub ReaderKnows-store_byte :
    (p : Pipe) (r : Reader) (x : ℕ)
    → p.p_wpos < p.p_rpos + pipe_size
    → ReaderKnows p r
    → ReaderKnows (store_byte x p) r
ReaderKnows-store_byte p (read_done c) x b h = tt
ReaderKnows-store_byte p (read_head n i) x b h = tt
ReaderKnows-store_byte p (read_ready n i) x b h = h
ReaderKnows-store_byte p (read_took n i c) x b (h, e) =
    let ne : p.p_rpos % pipe_size ≢ p.p_wpos % pipe_size = λ q. omega arith in
    (h, e ∙ rw (==_ne (p.p_rpos % pipe_size) (p.p_wpos % pipe_size) ne) refl)

pub ReaderKnows-advance_write :
    (p : Pipe) (r : Reader) → p.p_wpos < 2 ^ 31 → ReaderKnows p r → ReaderKnows (advance_write p) r
ReaderKnows-advance_write p (read_done c) b h = tt
ReaderKnows-advance_write p (read_head n i) b h = tt
ReaderKnows-advance_write p (read_ready n i) b h = omega arith
ReaderKnows-advance_write p (read_took n i c) b (h, e) = (omega arith, e)

-- The contents around the two updates.
pub contents-advance_read :
    (p : Pipe)
    → p.p_rpos < p.p_wpos
    → p.p_wpos < 2 ^ 31
    → contents p ≡ next_byte p ∷ contents (advance_read p)
contents-advance_read p a b =
    let n : p.p_wpos - p.p_rpos ≡ suc (p.p_wpos - (p.p_rpos + 1)) = omega arith in
    let r : (p.p_rpos + 1) % u32_mod ≡ p.p_rpos + 1 = omega arith in
    ap (window p.p_buf p.p_rpos) n ∙ ap (λ x. next_byte p ∷ window p.p_buf x (p.p_wpos - x)) (sym r)

pub contents-store_byte :
    (p : Pipe) (x : ℕ)
    → p.p_rpos ≤ p.p_wpos
    → p.p_wpos < p.p_rpos + pipe_size
    → contents (store_byte x p) ≡ contents p
contents-store_byte p x a b =
    window-update p.p_buf x p.p_wpos (p.p_wpos - p.p_rpos) p.p_rpos (omega arith) b

pub contents-advance_write :
    (p : Pipe) (x : ℕ)
    → p.p_rpos ≤ p.p_wpos
    → p.p_wpos < 2 ^ 31
    → p.p_buf (p.p_wpos % pipe_size) ≡ x
    → contents (advance_write p) ≡ contents p ++ (x ∷ [])
contents-advance_write p x a b h =
    let n : (p.p_wpos + 1) % u32_mod - p.p_rpos ≡ suc (p.p_wpos - p.p_rpos) = omega arith in
    let at : p.p_rpos + (p.p_wpos - p.p_rpos) ≡ p.p_wpos = omega arith in
    ap (window p.p_buf p.p_rpos) n
    ∙ window_more p.p_buf p.p_rpos (p.p_wpos - p.p_rpos) x
        (ap (λ i. p.p_buf (i % pipe_size)) at ∙ h)
