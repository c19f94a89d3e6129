-- ===== src/Printf.antt =====
-- lib/printfmt.c but for its printnum: vprintfmt, with what it gives to putch as a list, and vsnprintf.
-- A va_list is the index of a word in the array `stack` of the arguments, of which a long long takes two;
-- an int is a 32-bit word. A byte of a string is given to putch as it is, where the code extends its sign.
-- The format has no zero but the one that ends it, and it and the strings are not in the buffer of
-- vsnprintf.
pub mod Format
pub mod Conversions
pub mod Total
pub mod Buffer
pub mod Pieces
mod Tests
use Prim.Native.Char.{code}
use Prim.Native.String.{String}
use jos_kernel.Base.{
  Bool, List, Option, [], false, if◌then◌else◌, leb, ltb, none, not, some, suc, zero, ℕ, ◌%◌, ◌&&◌,
  ◌*◌, ◌++◌, ◌+◌, ◌-◌, ◌==◌, ◌^◌, ◌||◌, ◌∷◌,
}
use jos_kernel.Kernel.Layout.{u32_mod}
use jos_kernel.Number.{padding, printnum}
use jos_kernel.Str.{addresses, strnlen}

-- The bytes of a text.
abbrev pub codes : String → List ℕ
codes String.[] = []
codes (String.◌∷◌ c s) = code c ∷ codes s

-- -1
abbrev pub minus_one : ℕ
minus_one = u32_mod - 1

abbrev pub is_negative : ℕ → Bool
is_negative x = leb (2 ^ 31) x

abbrev pub decrement : ℕ → ℕ
decrement x = (x + u32_mod - 1) % u32_mod

-- A positive int, or 0.
abbrev pub positive : ℕ → ℕ
positive x = if is_negative x then 0 else x

-- The variables of an escape sequence.
pub record Spec : Type 0 where
  pub padc : ℕ
  pub width : ℕ
  pub precision : ℕ
  pub lflag : ℕ
  pub altflag : Bool

abbrev pub initial_spec : Spec
initial_spec = record {
  padc = b' ';
  width = minus_one;
  precision = minus_one;
  lflag = 0;
  altflag = false;
}

abbrev pub is_digit : ℕ → Bool
is_digit c = leb b'0' c && leb c b'9'

-- The loop of the width field: the number, and the format behind it.
unfoldable pub read_width : ℕ → List ℕ → ℕ × List ℕ
read_width precision [] = (precision, [])
read_width precision (c ∷ fmt) =
    let rest = read_width ((precision * 10 + (c - b'0')) % u32_mod) fmt in
    if is_digit c then rest else (precision, c ∷ fmt)

-- process_precision, with the precision that was read.
abbrev pub process_precision : ℕ → Spec → Spec
process_precision precision spec =
    if is_negative spec.width
    then record spec { width = precision; precision = minus_one }
    else record spec { precision = precision }

-- The state at the switch when no case goes back to it: the character, and what follows.
pub record Escape : Type 0 where
  pub ch : ℕ
  pub rest : List ℕ
  pub spec : Spec
  pub ap : ℕ

-- The string that `p` points to, on fuel, with the width that is left.
abbrev pub shown : Bool → ℕ → ℕ
shown altflag ch = if altflag && (ltb ch b' ' || ltb b'~' ch) then b'?' else ch

abbrev pub before_all : ℕ → Option (List ℕ × ℕ) → Option (List ℕ × ℕ)
before_all ch none = none
before_all ch (some (l, width)) = some (ch ∷ l, width)

unfoldable pub put_string : (ℕ → ℕ) → Bool → ℕ → ℕ → ℕ → ℕ → Option (List ℕ × ℕ)
put_string m altflag zero p precision width = none
put_string m altflag (suc fuel) p precision width =
    let next : ℕ = if is_negative precision then precision else decrement precision in
    let rest = put_string m altflag fuel (p + 1) next (decrement width) in
    if m p == 0 || precision == 0 then some ([], width) else before_all (shown altflag (m p)) rest

-- A text in memory, with zeros behind it, and "(null)".
abbrev pub char_at : List ℕ → ℕ → ℕ
char_at [] p = 0
char_at (c ∷ l) zero = c
char_at (c ∷ l) (suc p) = char_at l p

abbrev pub null_text : ℕ → ℕ
null_text p = char_at (codes "(null)") p

abbrev pub then_spaces : List ℕ → Option (List ℕ × ℕ) → Option (List ℕ)
then_spaces l none = none
then_spaces l (some (l', width)) = some (l ++ (l' ++ padding (positive width) b' '))

-- `case 's'` of a string at `p`.
unfoldable pub convert_string : (ℕ → ℕ) → ℕ → Spec → Option (List ℕ)
convert_string m p spec =
    let width : ℕ = spec.width in
    let cut : ℕ = (width + u32_mod - strnlen m p spec.precision) % u32_mod in
    if not (positive width == 0) && not (spec.padc == b'-')
    then then_spaces (padding (positive cut) spec.padc)
        (put_string m spec.altflag addresses p spec.precision (if is_negative cut then cut else 0))
    else then_spaces [] (put_string m spec.altflag addresses p spec.precision width)

-- error_string
abbrev pub error_string : ℕ → Option (List ℕ)
error_string err =
    if err == 1
    then some (codes "unspecified error")
    else if err == 2
    then some (codes "bad environment")
    else if err == 3
    then some (codes "invalid parameter")
    else if err == 4
    then some (codes "out of memory")
    else if err == 5
    then some (codes "out of environments")
    else if err == 6
    then some (codes "segmentation fault")
    else if err == 7
    then some (codes "env is not recving")
    else if err == 8
    then some (codes "unexpected end of file")
    else if err == 9
    then some (codes "no free space on disk")
    else if err == 10
    then some (codes "too many files are open")
    else if err == 11
    then some (codes "file or block not found")
    else if err == 12
    then some (codes "invalid path")
    else if err == 13
    then some (codes "file already exists")
    else if err == 14
    then some (codes "file is not a valid executable")
    else if err == 15
    then some (codes "operation not supported")
    else none

abbrev pub u64_mod : ℕ
u64_mod = 2 ^ 64

abbrev pub after_minus : Option (List ℕ) → Option (List ℕ)
after_minus none = none
after_minus (some l) = some (b'-' ∷ l)

-- `number`
abbrev pub put_number : ℕ → ℕ → Spec → Option (List ℕ)
put_number num base spec = printnum num base (positive spec.width) spec.padc

-- `case 'd'` of a signed number of 64 bits.
unfoldable pub put_signed : ℕ → Spec → Option (List ℕ)
unfolding printnum
put_signed num spec =
    if leb (2 ^ 63) num
    then after_minus (put_number (u64_mod - num) 10 spec)
    else put_number num 10 spec

abbrev pub in_front : List ℕ → Option (List ℕ) → Option (List ℕ)
in_front l none = none
in_front l (some l') = some (l ++ l')

-- `case 'e'`. The code -2^31 is its own negative, with which the table is read outside its bounds.
unfoldable pub put_error : ℕ → Option (List ℕ)
unfolding put_signed
put_error n =
    let err : ℕ = if is_negative n then u32_mod - n else n in
    let out : Option (List ℕ) = elim (error_string err) [
      | some text ↦ some text
      | none ↦ in_front (codes "error ") (put_signed err initial_spec)
    ] in
    if n == 2 ^ 31 then none else out

-- What a conversion puts out, with the next argument, or that there is none for the character.
pub data Put : Type 0 where
  put : List ℕ → ℕ → Put
  unrecognized : Put

abbrev pub putting : ℕ → Option (List ℕ) → Option Put
putting ap none = none
putting ap (some l) = some (put l ap)
