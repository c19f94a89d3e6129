-- ===== src/Printf/Conversions.antt =====
-- Every conversion of vprintfmt puts something out.
use native.Mathlib.Nat.{div-lt_self}
use jos_kernel.Base.{
  Bool, Bool-cases, List, Option, Option-cases, [], ap, append_assoc, arith, false, if◌then◌else◌,
  inl, inr, leb, leb-le, length, length-snoc, not, refl, some, suc, true, zero, ℕ, ◌%◌, ◌&&◌, ◌*◌,
  ◌++◌, ◌+◌, ◌-◌, ◌/◌, ◌<◌, ◌==◌, ◌^◌, ◌||◌, ◌∙◌, ◌∷◌, ◌≡◌, ◌≤◌, ==_ne, ◌≢◌,
}
use jos_kernel.Kernel.Layout.{u32_mod}
use jos_kernel.Number.{digit_char, padding, printnum, printnum_loop}
use jos_kernel.Printf.{
  Spec, codes, convert_string, decrement, error_string, initial_spec, is_digit, is_negative,
  null_text, positive, put_error, put_number, put_signed, put_string, read_width, shown,
  then_spaces, u64_mod,
}
use jos_kernel.Str.{addresses, strnlen}
use jos_kernel.Str.Length.{IsString}

-- What printnum puts out: the digits, with the padding in front.
unfoldable pub digits_of : ℕ → ℕ → ℕ → List ℕ
digits_of zero num base = []
digits_of (suc fuel) num base =
    let rest = digits_of fuel (num / base) base in
    (if leb base num then rest else []) ++ (digit_char (num % base) ∷ [])

pub printnum_loop-padding :
    (fuel num base width padc : ℕ)
    → 2 ≤ base
    → num < fuel
    → printnum_loop fuel num base width padc
      ≡ some (padding (width - length (digits_of fuel num base)) padc ++ digits_of fuel num base)
unfolding printnum_loop digits_of
printnum_loop-padding zero num base width padc low enough = absurd (omega arith)
printnum_loop-padding (suc fuel) num base width padc low enough = elim (Bool-cases (leb base num)) [
  | inr last ↦ rw last refl
  | inl more ↦
      let b = leb-le base num more in
      let smaller : num / base < num = div-lt_self (omega arith) (omega arith) in
      let ih =
        printnum_loop-padding fuel (num / base) base (width - 1) padc low
          (omega (arith, smaller)) in
      let l = digits_of fuel (num / base) base in
      let len = length-snoc l (digit_char (num % base)) in
      let same : width - 1 - length l ≡ width - length (l ++ (digit_char (num % base) ∷ [])) =
        omega (arith, len) in
      rw more (
        rw ih (
          ap some (
            append_assoc (padding (width - 1 - length l) padc) l (digit_char (num % base) ∷ [])
            ∙ ap (λ n. padding n padc ++ (l ++ (digit_char (num % base) ∷ []))) same)))
]

-- Some text is put out.
abbrev pub IsSome {ℓ} : {A : Type ℓ} → Option A → Type ℓ
IsSome {A = A} o = (a : A) × (o ≡ some a)

pub if-IsSome {ℓ} :
    {A : Type ℓ} (b : Bool) (x y : Option A) → IsSome x → IsSome y → IsSome (if b then x else y)
if-IsSome true x y p q = p
if-IsSome false x y p q = q

pub if_known-IsSome {ℓ} :
    {A : Type ℓ} (b : Bool) (x y : Option A)
    → (b ≡ true → IsSome x)
    → (b ≡ false → IsSome y)
    → IsSome (if b then x else y)
if_known-IsSome true x y p q = p refl
if_known-IsSome false x y p q = q refl

pub put_number-IsSome : (num base : ℕ) (spec : Spec) → 2 ≤ base → IsSome (put_number num base spec)
unfolding printnum
put_number-IsSome num base spec low = (
  padding (positive spec.width - length (digits_of (suc num) num base)) spec.padc
      ++ digits_of (suc num) num base,
  printnum_loop-padding (suc num) num base (positive spec.width) spec.padc low (omega arith),
)

pub put_signed-IsSome : (num : ℕ) (spec : Spec) → IsSome (put_signed num spec)
unfolding put_signed
put_signed-IsSome num spec = elim (Bool-cases (leb (2 ^ 63) num)) [
  | inl minus ↦
      let (l, e) = put_number-IsSome (u64_mod - num) 10 spec (omega arith) in
      (b'-' ∷ l, rw minus (rw e refl))
  | inr plus ↦ let (l, e) = put_number-IsSome num 10 spec (omega arith) in (l, rw plus e)
]

pub put_error-IsSome : (n : ℕ) → n ≢ 2 ^ 31 → IsSome (put_error n)
unfolding put_error
put_error-IsSome n other =
    let err : ℕ = if is_negative n then u32_mod - n else n in
    elim (Option-cases (error_string err)) [
      | inr (text, e) ↦ (text, rw (put_error, ==_ne n (2 ^ 31) other, e) refl)
      | inl nothing ↦
          let (l, e) = put_signed-IsSome err initial_spec in
          (codes "error " ++ l, rw (put_error, ==_ne n (2 ^ 31) other, nothing) (rw e refl))
    ]

put_string-IsSome :
    (m : ℕ → ℕ) (altflag : Bool) (fuel p n precision width : ℕ)
    → IsString m p n
    → n < fuel
    → IsSome (put_string m altflag fuel p precision width)
unfolding put_string
put_string-IsSome m altflag zero p n precision width h enough = absurd (omega arith)
put_string-IsSome m altflag (suc fuel) p zero precision width h enough = (([], width), rw h refl)
put_string-IsSome m altflag (suc fuel) p (suc n) precision width (h, t) enough =
    let next : ℕ = if is_negative precision then precision else decrement precision in
    let (a, e) =
      put_string-IsSome m altflag fuel (p + 1) n next (decrement width) t (omega arith) in
    elim (Bool-cases (m p == 0 || precision == 0)) [
      | inl last ↦ (([], width), rw last refl)
      | inr more ↦ ((shown altflag (m p) ∷ a.0, a.1), rw more (rw e refl))
    ]

then_spaces-IsSome : (l : List ℕ) (o : Option (List ℕ × ℕ)) → IsSome o → IsSome (then_spaces l o)
then_spaces-IsSome l o ((l', width), e) =
    (l ++ (l' ++ padding (positive width) b' '), ap (then_spaces l) e)

pub convert_string-IsSome :
    (m : ℕ → ℕ) (p n : ℕ) (spec : Spec)
    → IsString m p n
    → n < addresses
    → IsSome (convert_string m p spec)
unfolding convert_string
convert_string-IsSome m p n spec h short =
    let width : ℕ = spec.width in
    let cut : ℕ = (width + u32_mod - strnlen m p spec.precision) % u32_mod in
    let put = λ (w : ℕ). put_string-IsSome m spec.altflag addresses p n spec.precision w h short in
    if-IsSome (not (positive width == 0) && not (spec.padc == b'-')) _ _
      (then_spaces-IsSome (padding (positive cut) spec.padc) _
        (put (if is_negative cut then cut else 0)))
      (then_spaces-IsSome [] _ (put width))

pub null_text-IsString : IsString null_text 0 6
null_text-IsString =
    (omega arith, (omega arith, (omega arith, (omega arith, (omega arith, (omega arith, refl))))))

read_width-shorter :
    (precision : ℕ) (fmt : List ℕ) → length ((read_width precision fmt).1) ≤ length fmt
unfolding read_width
read_width-shorter precision [] = omega arith
read_width-shorter precision (c ∷ fmt) =
    let ih = read_width-shorter ((precision * 10 + (c - b'0')) % u32_mod) fmt in
    elim (Bool-cases (is_digit c)) [
      | inl digit ↦ rw digit (omega (arith, ih))
      | inr other ↦ rw other (omega arith)
    ]

-- The field takes a digit at least.
pub read_width-less :
    (precision c : ℕ) (fmt : List ℕ)
    → is_digit c ≡ true
    → length ((read_width precision (c ∷ fmt)).1) ≤ length fmt
unfolding read_width
read_width-less precision c fmt digit =
    rw digit (read_width-shorter ((precision * 10 + (c - b'0')) % u32_mod) fmt)
