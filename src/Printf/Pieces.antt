-- ===== src/Printf/Pieces.antt =====
-- A format made of pieces, and the text that vprintfmt puts out for it.
pub mod Fields
pub mod Text
use jos_kernel.Base.{
  List, [], if◌then◌else◌, length, suc, zero, ℕ, ◌++◌, ◌+◌, ◌-◌, ◌<◌, ◌^◌, ◌∷◌, ◌≡◌, ◌≢◌, ◌≤◌,
}
use jos_kernel.Kernel.Layout.{u32_mod}
use jos_kernel.Number.{padding}
use jos_kernel.Printf.{is_negative}
use jos_kernel.Printf.Conversions.{digits_of}
use jos_kernel.Str.Length.{IsString}

pub data Flag : Type 0 where
  no_flag : Flag
  minus_flag : Flag
  zero_flag : Flag

pub data Radix : Type 0 where
  signed : Radix
  decimal : Radix
  hexadecimal : Radix

-- A piece of a format, with its argument: a character, "%%", "%c", "%s" of a string of so many bytes at
-- an address, and a number with a flag and a width of one digit, which is left out when it is 0.
pub data Piece : Type 0 where
  plain_char : ℕ → Piece
  percent : Piece
  char_arg : ℕ → Piece
  string_arg : ℕ → ℕ → Piece
  number_arg : Flag → ℕ → Radix → ℕ → Piece

abbrev pub flag_text : Flag → List ℕ → List ℕ
flag_text no_flag fmt = fmt
flag_text minus_flag fmt = b'-' ∷ fmt
flag_text zero_flag fmt = b'0' ∷ fmt

abbrev pub width_text : ℕ → List ℕ → List ℕ
width_text zero fmt = fmt
width_text (suc w) fmt = (b'0' + suc w) ∷ fmt

abbrev pub radix_char : Radix → ℕ
radix_char signed = b'd'
radix_char decimal = b'u'
radix_char hexadecimal = b'x'

-- The format of the pieces.
abbrev pub format_of : List Piece → List ℕ
format_of [] = []
format_of (plain_char c ∷ ps) = c ∷ format_of ps
format_of (percent ∷ ps) = b'%' ∷ (b'%' ∷ format_of ps)
format_of (char_arg c ∷ ps) = b'%' ∷ (b'c' ∷ format_of ps)
format_of (string_arg p n ∷ ps) = b'%' ∷ (b's' ∷ format_of ps)
format_of (number_arg f w k x ∷ ps) =
    b'%' ∷ flag_text f (width_text w (radix_char k ∷ format_of ps))

abbrev pub pad_char : Flag → ℕ
pad_char no_flag = b' '
pad_char minus_flag = b'-'
pad_char zero_flag = b'0'

-- The digits behind the padding, whatever the flag.
abbrev pub field_of : Flag → ℕ → ℕ → ℕ → List ℕ
field_of f w base num =
    let l = digits_of (suc num) num base in padding (w - length l) (pad_char f) ++ l

abbrev pub number_text : Flag → ℕ → Radix → ℕ → List ℕ
number_text f w signed x =
    if is_negative x then b'-' ∷ field_of f w 10 (u32_mod - x) else field_of f w 10 x
number_text f w decimal x = field_of f w 10 x
number_text f w hexadecimal x = field_of f w 16 x

-- `n` bytes from `p` on.
abbrev pub bytes : (ℕ → ℕ) → ℕ → ℕ → List ℕ
bytes m p zero = []
bytes m p (suc n) = m p ∷ bytes m (p + 1) n

module _ (m stack : ℕ → ℕ) where
  abbrev pub text_of : List Piece → List ℕ
  text_of [] = []
  text_of (plain_char c ∷ ps) = c ∷ text_of ps
  text_of (percent ∷ ps) = b'%' ∷ text_of ps
  text_of (char_arg c ∷ ps) = c ∷ text_of ps
  text_of (string_arg p n ∷ ps) = bytes m p n ++ text_of ps
  text_of (number_arg f w k x ∷ ps) = number_text f w k x ++ text_of ps

  -- The arguments from `va` on are those of the pieces.
  abbrev pub Given : List Piece → ℕ → Type 0
  Given [] va = Unit
  Given (plain_char c ∷ ps) va = (c ≢ b'%') × Given ps va
  Given (percent ∷ ps) va = Given ps va
  Given (char_arg c ∷ ps) va = (stack va ≡ c) × Given ps (va + 1)
  Given (string_arg p n ∷ ps) va =
      (stack va ≡ p) × (p ≢ 0) × IsString m p n × (n < 2 ^ 31) × Given ps (va + 1)
  Given (number_arg f w k x ∷ ps) va = (stack va ≡ x) × (x < u32_mod) × (w ≤ 9) × Given ps (va + 1)
