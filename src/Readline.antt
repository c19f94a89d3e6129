-- ===== src/Readline.antt =====
-- lib/readline.c on a console: what getchar returns, one call after the other, is a list of 32-bit words. The
-- prompt and the message of a read error, which cprintf puts out, are left out.
pub mod Edit
mod Tests
use jos_kernel.Base.{
  Bool, List, [], if◌then◌else◌, leb, ltb, not, update, ℕ, ◌%◌, ◌&&◌, ◌+◌, ◌-◌, ◌==◌, ◌^◌, ◌||◌,
  ◌∷◌,
}

abbrev pub buflen : ℕ
buflen = 1024

-- A character below ' ' but for these three is ignored.
abbrev pub is_erase : ℕ → Bool
is_erase c = c == 8 || c == 127

abbrev pub is_enter : ℕ → Bool
is_enter c = c == 10 || c == 13

-- buf and i, and the characters that were echoed, the last of them first.
pub record Line : Type 0 where
  pub buf : ℕ → ℕ
  pub i : ℕ
  pub echo : List ℕ

-- Another character is waited for, or the call has returned NULL, or buf.
pub data Progress : Type 0 where
  waiting : Line → Progress
  failed : ℕ → Line → Progress
  entered : Line → Progress

abbrev pub cputchar : ℕ → Line → Line
cputchar c s = record s { echo = c ∷ s.echo }

abbrev pub erase : Line → Line
erase s = record (cputchar 8 s) { i = s.i - 1 }

abbrev pub type_char : ℕ → Line → Line
type_char c s = record (cputchar c s) { buf = update s.buf s.i (c % 256); i = s.i + 1 }

abbrev pub enter : Line → Line
enter s = record (cputchar 10 s) { buf = update s.buf s.i 0 }

-- A round, for a character.
unfoldable pub read_char : ℕ → Line → Progress
read_char c s =
    if leb (2 ^ 31) c
    then failed c s
    else if is_erase c && not (s.i == 0)
    then waiting (erase s)
    else if leb b' ' c && ltb s.i (buflen - 1)
    then waiting (type_char c s)
    else if is_enter c
    then entered (enter s)
    else waiting s

-- The characters are read up to the one that ends the call; what is behind it is left.
abbrev pub and_then : (Line → Progress × List ℕ) → Progress → List ℕ → Progress × List ℕ
and_then go (waiting s) l = go s
and_then go (failed c s) l = (failed c s, l)
and_then go (entered s) l = (entered s, l)

unfoldable pub read_chars : List ℕ → Line → Progress × List ℕ
unfolding read_char
read_chars [] s = (waiting s, [])
read_chars (c ∷ l) s = and_then (read_chars l) (read_char c s) l

unfoldable pub readline : List ℕ → (ℕ → ℕ) → Progress × List ℕ
unfolding read_chars
readline l m = read_chars l (record { buf = m; i = 0; echo = [] })
