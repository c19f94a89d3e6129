-- ===== src/Console.antt =====
-- kern/console.c: the ring of input characters, and cga_putc. What a device's `proc` returns before it
-- returns -1 is a list; the ports of the screen's cursor are left out.
pub mod Input
pub mod Screen
mod Tests
use jos_kernel.Base.{
  List, [], if◌then◌else◌, leb, ltb, update, ℕ, ◌%◌, ◌*◌, ◌+◌, ◌-◌, ◌==◌, ◌^◌, ◌∷◌,
}

abbrev pub consbufsize : ℕ
consbufsize = 512

-- cons
pub record Cons : Type 0 where
  pub buf : ℕ → ℕ
  pub rpos : ℕ
  pub wpos : ℕ

abbrev pub next_pos : ℕ → ℕ
next_pos p = if p + 1 == consbufsize then 0 else p + 1

-- A character other than 0 is stored.
unfoldable pub store_char : ℕ → Cons → Cons
store_char c s =
    if c == 0 then s else record s { buf = update s.buf s.wpos (c % 256); wpos = next_pos s.wpos }

unfoldable pub cons_intr : List ℕ → Cons → Cons
unfolding store_char
cons_intr [] s = s
cons_intr (c ∷ l) s = cons_intr l (store_char c s)

-- The next character, or 0.
unfoldable pub next_char : Cons → ℕ × Cons
next_char s =
    if s.rpos == s.wpos then (0, s) else (s.buf s.rpos, record s { rpos = next_pos s.rpos })

-- What the serial port and the keyboard have is read first.
unfoldable pub cons_getc : List ℕ → List ℕ → Cons → ℕ × Cons
unfolding cons_intr next_char
cons_getc serial kbd s = next_char (cons_intr kbd (cons_intr serial s))

abbrev pub crt_cols : ℕ
crt_cols = 80

abbrev pub crt_size : ℕ
crt_size = 25 * crt_cols

-- A space in grey on black.
abbrev pub blank : ℕ
blank = 0x700 + b' '

pub record Crt : Type 0 where
  pub crt_buf : ℕ → ℕ
  pub crt_pos : ℕ

-- `c`, with an attribute.
abbrev pub with_attribute : ℕ → ℕ
with_attribute c = if c - c % 256 == 0 then c + 0x700 else c

abbrev pub backspace : ℕ → Crt → Crt
backspace c s = if s.crt_pos == 0 then s else record s {
  crt_pos = s.crt_pos - 1;
  crt_buf = update s.crt_buf (s.crt_pos - 1) ((c - c % 256 + b' ') % 2 ^ 16);
}

abbrev pub carriage_return : Crt → Crt
carriage_return s = record s { crt_pos = s.crt_pos - s.crt_pos % crt_cols }

-- Up by a line.
abbrev pub scrolled : (ℕ → ℕ) → ℕ → ℕ
scrolled m i =
    if ltb i (crt_size - crt_cols) then m (i + crt_cols) else if ltb i crt_size then blank else m i

abbrev pub scroll : Crt → Crt
scroll s =
    if leb crt_size s.crt_pos
    then record s { crt_buf = scrolled s.crt_buf; crt_pos = s.crt_pos - crt_cols }
    else s

abbrev pub write_char : ℕ → Crt → Crt
write_char c s = record s {
  crt_buf = update s.crt_buf s.crt_pos (c % 2 ^ 16);
  crt_pos = s.crt_pos + 1;
}

-- cga_putc of a space.
unfoldable pub put_space : Crt → Crt
put_space s = scroll (write_char (with_attribute b' ') s)

-- A tab is put as five spaces by cons_putc.
unfoldable pub cga_putc : ℕ → Crt → Crt
unfolding put_space
cga_putc ch s =
    let c : ℕ = with_attribute ch in
    if c % 256 == 8
    then scroll (backspace c s)
    else if c % 256 == 10
    then scroll (carriage_return (record s { crt_pos = s.crt_pos + crt_cols }))
    else if c % 256 == 13
    then scroll (carriage_return s)
    else if c % 256 == 9
    then scroll (put_space (put_space (put_space (put_space (put_space s)))))
    else scroll (write_char c s)

unfoldable pub cga_puts : List ℕ → Crt → Crt
unfolding cga_putc
cga_puts [] s = s
cga_puts (c ∷ l) s = cga_puts l (cga_putc c s)
