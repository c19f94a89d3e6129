-- ===== src/Console/Screen.antt =====
-- An endless paper, of which the screen of kern/console.c shows a window.
pub mod Window
use jos_kernel.Base.{
  List, [], if◌then◌else◌, leb, update, ℕ, ◌%◌, ◌+◌, ◌-◌, ◌<◌, ◌==◌, ◌^◌, ◌∷◌, ◌≡◌, ◌≤◌,
}
use jos_kernel.Console.{Crt, blank, crt_cols, crt_size, with_attribute}

-- The paper: its cells, the position of the next character, and the first cell on the screen.
pub record Paper : Type 0 where
  pub cells : ℕ → ℕ
  pub pos : ℕ
  pub top : ℕ

abbrev pub paper_write : ℕ → Paper → Paper
paper_write c p = record p { cells = update p.cells p.pos (c % 2 ^ 16); pos = p.pos + 1 }

-- The window moves down by a line when the position has left it.
abbrev pub paper_turn : Paper → Paper
paper_turn p = if leb (p.top + crt_size) p.pos then record p { top = p.top + crt_cols } else p

abbrev pub paper_backspace : ℕ → Paper → Paper
paper_backspace c p = if p.pos == p.top then p else record p {
  pos = p.pos - 1;
  cells = update p.cells (p.pos - 1) ((c - c % 256 + b' ') % 2 ^ 16);
}

abbrev pub paper_return : Paper → Paper
paper_return p = record p { pos = p.pos - p.pos % crt_cols }

abbrev pub paper_space : Paper → Paper
paper_space p = paper_turn (paper_write blank p)

abbrev pub paper_putc : ℕ → Paper → Paper
paper_putc ch p =
    let c : ℕ = with_attribute ch in
    if c % 256 == 8
    then paper_turn (paper_backspace c p)
    else if c % 256 == 10
    then paper_turn (paper_return (record p { pos = p.pos + crt_cols }))
    else if c % 256 == 13
    then paper_turn (paper_return p)
    else if c % 256 == 9
    then paper_turn (paper_space (paper_space (paper_space (paper_space (paper_space p)))))
    else paper_turn (paper_write c p)

abbrev pub paper_puts : List ℕ → Paper → Paper
paper_puts [] p = p
paper_puts (c ∷ l) p = paper_puts l (paper_putc c p)

-- The screen `s`, which has `m` behind it, shows the window of the paper, whose cells behind the window are
-- blank. The position may be as far as a line behind the screen.
pub record Near (m : ℕ → ℕ) (s : Crt) (p : Paper) : Type 0 where
  pub at_pos : p.pos ≡ p.top + s.crt_pos
  pub whole_rows : p.top % crt_cols ≡ 0
  pub window : (i : ℕ) → i < crt_size → s.crt_buf i ≡ p.cells (p.top + i)
  pub blank_behind : (a : ℕ) → p.top + crt_size ≤ a → p.cells a ≡ blank
  pub outside : (a : ℕ) → crt_size ≤ a → s.crt_buf a ≡ m a

-- It shows it, with the position on the screen.
pub record Shows (m : ℕ → ℕ) (s : Crt) (p : Paper) : Type 0 where
  pub near : Near m s p
  pub on_screen : s.crt_pos < crt_size
