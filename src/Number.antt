-- ===== src/Number.antt =====
-- Numbers as text: strtol of lib/string.c and printnum of lib/printfmt.c.
pub mod Digits
pub mod Print
pub mod RoundTrip
mod Tests
use jos_kernel.Base.{
  Bool, List, Option, [], false, if◌then◌else◌, leb, ltb, none, some, suc, true, zero, ℕ, ◌%◌, ◌&&◌,
  ◌*◌, ◌++◌, ◌+◌, ◌-◌, ◌/◌, ◌==◌, ◌||◌, ◌∷◌,
}
use jos_kernel.Kernel.Layout.{u32_mod}
use jos_kernel.Str.{addresses}

-- The value of a character as a digit.
abbrev pub digit_of : ℕ → Option ℕ
digit_of c =
    if leb b'0' c && leb c b'9'
    then some (c - b'0')
    else if leb b'a' c && leb c b'z'
    then some (c - b'a' + 10)
    else if leb b'A' c && leb c b'Z'
    then some (c - b'A' + 10)
    else none

-- The loop over the digits: `value`, a long, by its bit pattern, and the address after the number.
unfoldable pub digits_loop : (ℕ → ℕ) → ℕ → ℕ → ℕ → ℕ → Option (ℕ × ℕ)
digits_loop m base zero s value = none
digits_loop m base (suc fuel) s value = elim (digit_of (m s)) [
  | none ↦ some (value, s)
  | some dig ↦
      if leb base dig
      then some (value, s)
      else digits_loop m base fuel (s + 1) ((value * base + dig) % u32_mod)
]

unfoldable pub skip_blanks : (ℕ → ℕ) → ℕ → ℕ → Option ℕ
skip_blanks m zero s = none
skip_blanks m (suc fuel) s =
    let rest = skip_blanks m fuel (s + 1) in if m s == b' ' || m s == 9 then rest else some s

-- The sign, and the address after it.
abbrev pub skip_sign : (ℕ → ℕ) → ℕ → Bool × ℕ
skip_sign m s =
    if m s == b'+' then (false, s + 1) else if m s == b'-' then (true, s + 1) else (false, s)

-- The prefix of the base: the address after it, and the base.
abbrev pub skip_prefix : (ℕ → ℕ) → ℕ → ℕ → ℕ × ℕ
skip_prefix m s base =
    if (base == 0 || base == 16) && (m s == b'0' && m (s + 1) == b'x')
    then (s + 2, 16)
    else if base == 0 && m s == b'0'
    then (s + 1, 8)
    else if base == 0
    then (s, 10)
    else (s, base)

-- `neg ? -val : val`
abbrev pub signed : Bool → Option (ℕ × ℕ) → Option (ℕ × ℕ)
signed neg none = none
signed neg (some (value, end)) = some (if neg then (u32_mod - value) % u32_mod else value, end)

-- What follows the sign and the prefix, on fuel.
unfoldable pub read_digits : (ℕ → ℕ) → ℕ → Bool → ℕ × ℕ → Option (ℕ × ℕ)
unfolding digits_loop
read_digits m fuel neg (s, base) = signed neg (digits_loop m base fuel s 0)

-- What follows the blanks, on fuel.
unfoldable pub read_number : (ℕ → ℕ) → ℕ → ℕ → ℕ → Option (ℕ × ℕ)
unfolding read_digits
read_number m fuel s base =
    let (neg, s) = skip_sign m s in read_digits m fuel neg (skip_prefix m s base)

-- strtol on fuel.
unfoldable pub strtol_fuel : (ℕ → ℕ) → ℕ → ℕ → ℕ → Option (ℕ × ℕ)
unfolding skip_blanks read_number
strtol_fuel m fuel s base = elim (skip_blanks m fuel s) [
  | none ↦ none
  | some s ↦ read_number m fuel s base
]

-- The result, and the value for `*endptr`.
unfoldable pub strtol : (ℕ → ℕ) → ℕ → ℕ → Option (ℕ × ℕ)
unfolding strtol_fuel
strtol m s base = strtol_fuel m addresses s base

-- "0123456789abcdef"[d]
abbrev pub digit_char : ℕ → ℕ
digit_char d = if ltb d 10 then b'0' + d else b'a' + (d - 10)

-- `while (--width > 0) putch(padc)`
abbrev pub padding : ℕ → ℕ → List ℕ
padding zero padc = []
padding (suc n) padc = padc ∷ padding n padc

abbrev pub put_last : Option (List ℕ) → ℕ → Option (List ℕ)
put_last none c = none
put_last (some l) c = some (l ++ (c ∷ []))

-- The characters that printnum puts out, on fuel. A width that is not positive is 0.
unfoldable pub printnum_loop : ℕ → ℕ → ℕ → ℕ → ℕ → Option (List ℕ)
printnum_loop zero num base width padc = none
printnum_loop (suc fuel) num base width padc =
    let before : Option (List ℕ) = printnum_loop fuel (num / base) base (width - 1) padc in
    put_last (if leb base num then before else some (padding (width - 1) padc))
      (digit_char (num % base))

-- There are no more calls than `num` and one.
unfoldable pub printnum : ℕ → ℕ → ℕ → ℕ → Option (List ℕ)
unfolding printnum_loop
printnum num base width padc = printnum_loop (suc num) num base width padc
