-- ===== src/Number/RoundTrip.antt =====
-- strtol reads what printnum puts out.
-- A text stored at `s`, with the zero byte that ends it.
use jos_kernel.Base.{
  ==_ne, ==_self, Bool, List, [], ap, arith, false, if-false, length, refl, some, suc, true, update,
  ℕ, ◌&&◌, ◌++◌, ◌+◌, ◌-◌, ◌<◌, ◌==◌, ◌^◌, ◌||◌, ◌∙◌, ◌∷◌, ◌≡◌, ◌≤◌,
}
use jos_kernel.Number.{
  digits_loop, printnum, read_digits, read_number, signed, skip_blanks, skip_prefix, skip_sign,
  strtol, strtol_fuel,
}
use jos_kernel.Number.Digits.{AllDigits, Holds, Holds-snoc, Reads, digits_loop-end}
use jos_kernel.Number.Print.{printnum_loop-Reads}
use jos_kernel.Str.{addresses}

abbrev pub put_text : (ℕ → ℕ) → ℕ → List ℕ → ℕ → ℕ
put_text m s [] = update m s 0
put_text m s (c ∷ l) = update (put_text m (s + 1) l) s c

Holds-update : (m : ℕ → ℕ) (l : List ℕ) (s t c : ℕ) → s < t → Holds m t l → Holds (update m s c) t l
Holds-update m [] s t c h a = tt
Holds-update m (x ∷ l) s t c h (e, a) =
    (rw (==_ne t s (λ q. omega arith)) e, Holds-update m l s (t + 1) c (omega arith) a)

put_text-Holds : (m : ℕ → ℕ) (s : ℕ) (l : List ℕ) → Holds (put_text m s l) s (l ++ (0 ∷ []))
put_text-Holds m s [] = (rw (==_self s) refl, tt)
put_text-Holds m s (c ∷ l) = (
  rw (==_self s) refl,
  Holds-update (put_text m (s + 1) l) (l ++ (0 ∷ [])) s (s + 1) c (omega arith)
      (put_text-Holds m (s + 1) l),
)

skip_blanks-none : (m : ℕ → ℕ) (fuel s : ℕ) → b'0' ≤ m s → skip_blanks m (suc fuel) s ≡ some s
unfolding skip_blanks
skip_blanks-none m fuel s h = if-false _ (not_blank (m s) h)
  where
    not_blank : (c : ℕ) → b'0' ≤ c → (c == b' ' || c == 9) ≡ false
    not_blank c h = ground arith

skip_sign-none : (m : ℕ → ℕ) (s : ℕ) → b'0' ≤ m s → skip_sign m s ≡ (false, s)
skip_sign-none m s h =
    if-false _ (==_ne (m s) b'+' (λ q. omega arith))
    ∙ if-false _ (==_ne (m s) b'-' (λ q. omega arith))

no_prefix : (p a : Bool) (b : ℕ) → b < b'x' → (p && (a && b == b'x')) ≡ false
no_prefix true true b h = ==_ne b b'x' (λ q. omega arith)
no_prefix true false b h = refl
no_prefix false a b h = refl

not_octal : (base : ℕ) (b : Bool) → 2 ≤ base → (base == 0 && b) ≡ false
not_octal base b h = rw (==_ne base 0 (λ q. omega arith)) refl

skip_prefix-none :
    (m : ℕ → ℕ) (s base : ℕ) → 2 ≤ base → m (s + 1) < b'x' → skip_prefix m s base ≡ (s, base)
skip_prefix-none m s base h x =
    if-false _ (no_prefix (base == 0 || base == 16) (m s == b'0') (m (s + 1)) x)
    ∙ if-false _ (not_octal base (m s == b'0') h)
    ∙ if-false _ (==_ne base 0 (λ q. omega arith))

module _ (m : ℕ → ℕ) (s base num fuel : ℕ) (out : List ℕ) (low : 2 ≤ base) (r : Reads base num out)
    (fits : length out < fuel) (h : Holds m s out) (end : m (s + length out) ≡ 0)
    (first : b'0' ≤ m s) (second : m (s + 1) < b'x') where
  all_digits : digits_loop m base fuel s 0 ≡ some (num, s + length out)
  all_digits =
      let n : fuel ≡ suc (fuel - 1 - length out) + length out = omega arith in
      ap (λ f. digits_loop m base f s 0) n
      ∙ r.value m s (suc (fuel - 1 - length out)) h
      ∙ digits_loop-end m base (fuel - 1 - length out) (s + length out) num end

  read_number-Reads : read_number m fuel s base ≡ some (num, s + length out)
  unfolding read_number read_digits
  read_number-Reads =
      ap (λ (p : Bool × ℕ). read_digits m fuel p.0 (skip_prefix m p.1 base))
        (skip_sign-none m s first)
      ∙ ap (read_digits m fuel false) (skip_prefix-none m s base low second)
      ∙ ap (signed false) all_digits

  strtol_fuel-Reads : strtol_fuel m fuel s base ≡ some (num, s + length out)
  unfolding strtol_fuel
  strtol_fuel-Reads =
      let n : fuel ≡ suc (fuel - 1) = omega arith in
      rw (ap (λ f. skip_blanks m f s) n ∙ skip_blanks-none m (fuel - 1) s first, strtol_fuel)
        read_number-Reads

-- The first character of a number, and the byte after it.
first_digit :
    (m : ℕ → ℕ) (s : ℕ) (l : List ℕ) → 1 ≤ length l → AllDigits l → Holds m s l → b'0' ≤ m s
first_digit m s [] n d h = absurd (omega arith)
first_digit m s (c ∷ l) n (p, q, d) (e, h) = omega (arith, e)

second_byte :
    (m : ℕ → ℕ) (s : ℕ) (l : List ℕ)
    → 1 ≤ length l
    → AllDigits l
    → Holds m s l
    → m (s + length l) ≡ 0
    → m (s + 1) < b'x'
second_byte m s [] n d h end = absurd (omega arith)
second_byte m s (c ∷ []) n d h end = omega (arith, end)
second_byte m s (c ∷ c' ∷ l) n (p, q, (p', q', d)) (e, (e', h)) end = omega (arith, e')

strtol_fuel-put_text :
    (m : ℕ → ℕ) (s base num fuel : ℕ) (out : List ℕ)
    → 2 ≤ base
    → Reads base num out
    → length out < fuel
    → strtol_fuel (put_text m s out) fuel s base ≡ some (num, s + length out)
strtol_fuel-put_text m s base num fuel out low r fits =
    let (h, end) = Holds-snoc (put_text m s out) s 0 out (put_text-Holds m s out) in
    strtol_fuel-Reads (put_text m s out) s base num fuel out low r fits h end
      (first_digit (put_text m s out) s out r.length_positive r.digits h)
      (second_byte (put_text m s out) s out r.length_positive r.digits h end)

-- printnum pads with zeros to any width and returns, and strtol in the same base, of 2 to 16, reads
-- the text back as the number, up to its end. The number is below 2 ^ 31, a long that is not
-- negative.
pub strtol-printnum :
    (m : ℕ → ℕ) (s num base width : ℕ)
    → 2 ≤ base
    → base ≤ 16
    → num < 2 ^ 31
    → width < 2 ^ 31
    → (out : List ℕ) × (printnum num base width b'0' ≡ some out)
      × (strtol (put_text m s out) s base ≡ some (num, s + length out))
unfolding printnum strtol
strtol-printnum m s num base width low high n w =
    let (out, e, r, l) =
      printnum_loop-Reads (suc num) num base width low high (omega arith) (omega arith) in
    (out, e, strtol_fuel-put_text m s base num addresses out low r (omega (arith, l)))
