-- ===== src/Pipe.antt =====
-- lib/pipe.c: the buffer that the reader and the writer of a pipe share, devpipe_read and
-- devpipe_write, as steps that interleave.
pub mod Window
pub mod Steps
pub mod Inv
pub mod Fifo
pub mod Refine
mod Tests
use jos_kernel.Base.{Bool, leb, update, ℕ, ◌%◌, ◌+◌, ◌-◌, ◌==◌}
use jos_kernel.Kernel.Layout.{u32_mod}

-- PIPEBUFSIZ
abbrev pub pipe_size : ℕ
pipe_size = 32

-- struct Pipe. The positions are of type off_t, and an index `pos % PIPEBUFSIZ` is that of a
-- position that is not negative.
pub record Pipe : Type 0 where
  pub p_rpos : ℕ
  pub p_wpos : ℕ
  pub p_buf : ℕ → ℕ

-- `p->p_rpos == p->p_wpos`
abbrev pub is_empty : Pipe → Bool
is_empty p = p.p_rpos == p.p_wpos

-- `p->p_wpos >= p->p_rpos + sizeof(p->p_buf)`, a test of unsigned numbers
abbrev pub is_full : Pipe → Bool
is_full p = leb ((p.p_rpos + pipe_size) % u32_mod) p.p_wpos

-- `p->p_buf[p->p_rpos % PIPEBUFSIZ]`
abbrev pub next_byte : Pipe → ℕ
next_byte p = p.p_buf (p.p_rpos % pipe_size)

abbrev pub advance_read : Pipe → Pipe
advance_read p = record p { p_rpos = (p.p_rpos + 1) % u32_mod }

abbrev pub store_byte : ℕ → Pipe → Pipe
store_byte b p = record p { p_buf = update p.p_buf (p.p_wpos % pipe_size) b }

abbrev pub advance_write : Pipe → Pipe
advance_write p = record p { p_wpos = (p.p_wpos + 1) % u32_mod }

-- st_size of devpipe_stat
abbrev pub stat_size : Pipe → ℕ
stat_size p = p.p_wpos - p.p_rpos
