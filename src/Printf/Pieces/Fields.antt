-- ===== src/Printf/Pieces/Fields.antt =====
-- How vprintfmt reads and puts out a number with a flag and a width.
-- The spec of a number.
use jos_kernel.Base.{
  Bool-cases, List, ap, arith, false, if-false, if-true, inl, inr, leb, length, refl, some, suc,
  sym, true, zero, ℕ, ◌%◌, ◌*◌, ◌+◌, ◌-◌, ◌<◌, ◌==◌, ◌^◌, ◌∙◌, ◌∷◌, ◌≡◌, ◌≤◌,
}
use jos_kernel.Kernel.Layout.{u32_mod}
use jos_kernel.Number.{printnum, printnum_loop}
use jos_kernel.Printf.{
  Escape, Spec, after_minus, initial_spec, is_digit, is_negative, minus_one, positive,
  process_precision, put, put_number, put_signed, putting, read_width, u64_mod,
}
use jos_kernel.Printf.Conversions.{printnum_loop-padding}
use jos_kernel.Printf.Format.{convert, reswitch, sign_extended}
use jos_kernel.Printf.Pieces.{
  Flag, Radix, decimal, field_of, flag_text, hexadecimal, minus_flag, no_flag, number_text,
  pad_char, radix_char, signed, width_text, zero_flag,
}

abbrev pub width_of : ℕ → ℕ
width_of zero = minus_one
width_of (suc w) = suc w

abbrev pub spec_of : Flag → ℕ → Spec
spec_of f w = record initial_spec { padc = pad_char f; width = width_of w }

put_number_lem :
    (f : Flag) (w base num : ℕ)
    → 2 ≤ base
    → w ≤ 9
    → put_number num base (spec_of f w) ≡ some (field_of f w base num)
unfolding printnum
put_number_lem f zero base num low small =
    printnum_loop-padding (suc num) num base 0 (pad_char f) low (omega arith)
put_number_lem f (suc w) base num low small =
    let e : positive (suc w) ≡ suc w = ground arith in
    ap (λ w. printnum_loop (suc num) num base w (pad_char f)) e
    ∙ printnum_loop-padding (suc num) num base (suc w) (pad_char f) low (omega arith)

put_signed_lem :
    (m stack : ℕ → ℕ) (f : Flag) (w x : ℕ)
    → x < u32_mod
    → w ≤ 9
    → put_signed (sign_extended m stack x) (spec_of f w) ≡ some (number_text f w signed x)
unfolding put_signed
put_signed_lem m stack f w x small narrow = elim (Bool-cases (is_negative x)) [
  | inl minus ↦
      let big : leb (2 ^ 63) (u64_mod - u32_mod + x) ≡ true = ground arith in
      let num : u64_mod - (u64_mod - u32_mod + x) ≡ u32_mod - x = omega arith in
      ap (λ n. put_signed n (spec_of f w)) (if-true x minus)
      ∙ if-true _ big
      ∙ ap (λ n. after_minus (put_number n 10 (spec_of f w))) num
      ∙ ap after_minus (put_number_lem f w 10 (u32_mod - x) (omega arith) narrow)
      ∙ ap some (sym (if-true _ minus))
  | inr plus ↦
      let below : leb (2 ^ 63) x ≡ false = ground arith in
      ap (λ n. put_signed n (spec_of f w)) (if-false _ plus)
      ∙ if-false _ below
      ∙ put_number_lem f w 10 x (omega arith) narrow
      ∙ ap some (sym (if-false _ plus))
]

width_lem :
    (w c : ℕ) (fmt : List ℕ)
    → 1 ≤ w
    → w ≤ 9
    → is_digit c ≡ false
    → read_width 0 ((b'0' + w) ∷ (c ∷ fmt)) ≡ (w, c ∷ fmt)
unfolding read_width
width_lem w c fmt low high other =
    let digit : is_digit (b'0' + w) ≡ true = ground arith in
    let value : (0 * 10 + (b'0' + w - b'0')) % u32_mod ≡ w = omega arith in
    if-true _ digit ∙ if-false _ other ∙ ap (λ x. (x, c ∷ fmt)) value

radix_char-is_digit : (k : Radix) → is_digit (radix_char k) ≡ false
radix_char-is_digit signed = refl
radix_char-is_digit decimal = refl
radix_char-is_digit hexadecimal = refl

module _ (m stack : ℕ → ℕ) (va : ℕ) (fmt : List ℕ) where
  abbrev pub escape_of : Radix → Spec → Escape
  escape_of k spec = record { ch = radix_char k; rest = fmt; spec = spec; ap = va }

  radix_lem :
      (k : Radix) (fuel : ℕ) (spec : Spec)
      → reswitch m stack (suc fuel) (radix_char k ∷ fmt) spec va ≡ some (escape_of k spec)
  unfolding reswitch
  radix_lem signed fuel spec = refl
  radix_lem decimal fuel spec = refl
  radix_lem hexadecimal fuel spec = refl

  -- As many rounds as the characters, and one.
  width_text_lem :
      (f : Flag) (w : ℕ) (k : Radix)
      → w ≤ 9
      → reswitch m stack
          (suc (length (width_text w (radix_char k ∷ fmt))))
          (width_text w (radix_char k ∷ fmt))
          (spec_of f 0)
          va
        ≡ some (escape_of k (spec_of f w))
  unfolding reswitch
  width_text_lem f zero k small = radix_lem k (suc (length fmt)) (spec_of f 0)
  width_text_lem f (suc w) k small =
      let minus : (b'0' + suc w == b'-') ≡ false = ground arith in
      let zeros : (b'0' + suc w == b'0') ≡ false = ground arith in
      let digit : is_digit (b'0' + suc w) ≡ true = ground arith in
      if-false _ minus
      ∙ if-false _ zeros
      ∙ if-true _ digit
      ∙ ap
          (λ (p : ℕ × List ℕ).
            reswitch m stack (suc (suc (length fmt))) (p.1) (process_precision (p.0) (spec_of f 0))
              va)
          (width_lem (suc w) (radix_char k) fmt (omega arith) small (radix_char-is_digit k))
      ∙ radix_lem k (suc (length fmt)) (spec_of f (suc w))

  pub flag_text_lem :
      (f : Flag) (w : ℕ) (k : Radix)
      → w ≤ 9
      → reswitch m stack
          (suc (length (flag_text f (width_text w (radix_char k ∷ fmt)))))
          (flag_text f (width_text w (radix_char k ∷ fmt)))
          initial_spec
          va
        ≡ some (escape_of k (spec_of f w))
  unfolding reswitch
  flag_text_lem no_flag w k small = width_text_lem no_flag w k small
  flag_text_lem minus_flag w k small = width_text_lem minus_flag w k small
  flag_text_lem zero_flag w k small = width_text_lem zero_flag w k small

  -- The argument of the number.
  pub convert_radix :
      (f : Flag) (w : ℕ) (k : Radix)
      → stack va < u32_mod
      → w ≤ 9
      → convert m stack (radix_char k) (spec_of f w) va
        ≡ some (put (number_text f w k (stack va)) (va + 1))
  unfolding convert
  convert_radix f w signed small narrow =
      ap (putting (va + 1)) (put_signed_lem m stack f w (stack va) small narrow)
  convert_radix f w decimal small narrow =
      ap (putting (va + 1)) (put_number_lem f w 10 (stack va) (omega arith) narrow)
  convert_radix f w hexadecimal small narrow =
      ap (putting (va + 1)) (put_number_lem f w 16 (stack va) (omega arith) narrow)
