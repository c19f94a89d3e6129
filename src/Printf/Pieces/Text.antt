-- ===== src/Printf/Pieces/Text.antt =====
-- vprintfmt puts out the text of the pieces.
use mathlib.Core.List.{append-nil}
use jos_kernel.Base.{
  ==_ne, List, [], ap, arith, false, if-false, length, refl, some, suc, sym, zero, ℕ, ◌++◌, ◌+◌,
  ◌-◌, ◌<◌, ◌==◌, ◌^◌, ◌||◌, ◌∙◌, ◌∷◌, ◌≡◌, ◌≤◌,
}
use jos_kernel.Kernel.Layout.{u32_mod}
use jos_kernel.Number.{padding}
use jos_kernel.Printf.{
  Spec, before_all, convert_string, decrement, in_front, initial_spec, minus_one, positive, put,
  put_string, putting, then_spaces,
}
use jos_kernel.Printf.Format.{convert, put_escape, reswitch, vprintfmt, vprintfmt_loop}
use jos_kernel.Printf.Pieces.{
  Flag, Given, Piece, bytes, char_arg, flag_text, format_of, minus_flag, no_flag, number_arg,
  number_text, percent, plain_char, radix_char, string_arg, text_of, width_text, zero_flag,
}
use jos_kernel.Printf.Pieces.Fields.{convert_radix, flag_text_lem, spec_of}
use jos_kernel.Str.{addresses}
use jos_kernel.Str.Length.{IsString}

put_string_lem :
    (m : ℕ → ℕ) (fuel p n width : ℕ)
    → IsString m p n
    → n < fuel
    → n ≤ width
    → width < u32_mod
    → put_string m false fuel p minus_one width ≡ some (bytes m p n, width - n)
unfolding put_string
put_string_lem m zero p n width h enough room small = absurd (omega arith)
put_string_lem m (suc fuel) p zero width h enough room small =
    let e : width ≡ width - 0 = omega arith in rw h (ap (λ w. some ([], w)) e)
put_string_lem m (suc fuel) p (suc n) width (h, t) enough room small =
    let next : decrement width ≡ width - 1 = omega arith in
    let last : width - 1 - n ≡ width - suc n = omega arith in
    let ih =
      put_string_lem m fuel (p + 1) n (width - 1) t (omega arith) (omega arith) (omega arith) in
    let more : (m p == 0 || minus_one == 0) ≡ false = ground arith in
    if-false _ more
    ∙ ap (λ w. before_all (m p) (put_string m false fuel (p + 1) minus_one w)) next
    ∙ ap (before_all (m p)) ih
    ∙ ap (λ w. some (m p ∷ bytes m (p + 1) n, w)) last

plain_string_lem :
    (m : ℕ → ℕ) (fuel p n : ℕ)
    → IsString m p n
    → n < fuel
    → n < 2 ^ 31
    → then_spaces [] (put_string m false fuel p minus_one minus_one) ≡ some (bytes m p n)
plain_string_lem m fuel p n h enough short =
    let none_left : positive (minus_one - n) ≡ 0 = ground arith in
    ap (then_spaces []) (put_string_lem m fuel p n minus_one h enough (omega arith) (omega arith))
    ∙ ap (λ k. some (bytes m p n ++ padding k b' ')) none_left
    ∙ ap some (append-nil (bytes m p n))

convert_string_lem :
    (m : ℕ → ℕ) (p n : ℕ)
    → IsString m p n
    → n < 2 ^ 31
    → convert_string m p initial_spec ≡ some (bytes m p n)
unfolding convert_string
convert_string_lem m p n h short = plain_string_lem m addresses p n h (omega arith) short

-- What is left of the format of a number is shorter.
length-flag_text :
    (f : Flag) (w c : ℕ) (fmt : List ℕ) → length fmt < length (flag_text f (width_text w (c ∷ fmt)))
length-flag_text no_flag zero c fmt = omega arith
length-flag_text no_flag (suc w) c fmt = omega arith
length-flag_text minus_flag zero c fmt = omega arith
length-flag_text minus_flag (suc w) c fmt = omega arith
length-flag_text zero_flag zero c fmt = omega arith
length-flag_text zero_flag (suc w) c fmt = omega arith

module _ (m stack : ℕ → ℕ) where
  -- A round whose conversion puts `l`.
  escape_lem :
      (fuel va va' : ℕ) (fmt rest l : List ℕ) (ch : ℕ) (spec : Spec)
      → reswitch m stack (suc (length fmt)) fmt initial_spec va
        ≡ some (record { ch = ch; rest = rest; spec = spec; ap = va })
      → convert m stack ch spec va ≡ some (put l va')
      → vprintfmt_loop m stack (suc fuel) (b'%' ∷ fmt) va
        ≡ in_front l (vprintfmt_loop m stack fuel rest va')
  unfolding vprintfmt_loop
  escape_lem fuel va va' fmt rest l ch spec e c =
      ap (put_escape m stack (vprintfmt_loop m stack fuel) fmt) e ∙ rw (put_escape, c) refl

  loop_lem :
      (ps : List Piece) (fuel va : ℕ)
      → Given m stack ps va
      → length (format_of ps) < fuel
      → vprintfmt_loop m stack fuel (format_of ps) va ≡ some (text_of m stack ps)
  unfolding vprintfmt_loop reswitch convert
  loop_lem ps zero va given enough = absurd (omega arith)
  loop_lem [] (suc fuel) va given enough = refl
  loop_lem (plain_char c ∷ ps) (suc fuel) va (ne, given) enough =
      rw (vprintfmt_loop, ==_ne c b'%' ne)
        (ap (in_front (c ∷ [])) (loop_lem ps fuel va given (omega arith)))
  loop_lem (percent ∷ ps) (suc fuel) va given enough =
      escape_lem fuel va va (b'%' ∷ format_of ps) (format_of ps) (b'%' ∷ []) b'%' initial_spec refl
        refl
      ∙ ap (in_front (b'%' ∷ [])) (loop_lem ps fuel va given (omega arith))
  loop_lem (char_arg c ∷ ps) (suc fuel) va (e, given) enough =
      escape_lem fuel va (va + 1) (b'c' ∷ format_of ps) (format_of ps) (c ∷ []) b'c' initial_spec
        refl (ap (λ c. some (put (c ∷ []) (va + 1))) e)
      ∙ ap (in_front (c ∷ [])) (loop_lem ps fuel (va + 1) given (omega arith))
  loop_lem (string_arg p n ∷ ps) (suc fuel) va (e, ne, h, short, given) enough =
      escape_lem fuel va (va + 1) (b's' ∷ format_of ps) (format_of ps) (bytes m p n) b's'
        initial_spec refl
        (ap (putting (va + 1)) (
          if-false _ (==_ne (stack va) 0 (λ z. ne (sym e ∙ z)))
          ∙ ap (λ p. convert_string m p initial_spec) e
          ∙ convert_string_lem m p n h short))
      ∙ ap (in_front (bytes m p n)) (loop_lem ps fuel (va + 1) given (omega arith))
  loop_lem (number_arg f w k x ∷ ps) (suc fuel) va (e, small, narrow, given) enough =
      let fmt = flag_text f (width_text w (radix_char k ∷ format_of ps)) in
      escape_lem fuel va (va + 1) fmt (format_of ps) (number_text f w k x) (radix_char k)
        (spec_of f w) (flag_text_lem m stack va (format_of ps) f w k narrow)
        (convert_radix m stack va fmt f w k (omega (arith, e, small)) narrow
          ∙ ap (λ x. some (put (number_text f w k x) (va + 1))) e)
      ∙ ap (in_front (number_text f w k x)) (
          loop_lem ps fuel (va + 1) given
            (omega (arith, enough, length-flag_text f w (radix_char k) (format_of ps))))

  -- vprintfmt with a format made of characters other than %, of "%%", "%c", "%s", and of numbers %d, %u
  -- and %x with no flag, - or 0 and no width or a width from 1 to 9, puts out the text of the pieces, if
  -- the arguments are those of the pieces: for "%s" the bytes of a string shorter than 2^31 whose address
  -- is not 0; for a number its digits, with the padding in front of them up to the width, which is spaces,
  -- or the character of the flag, zeros or minus signs; and for a negative %d a minus sign in front of that.
  pub vprintfmt_lem :
      (ps : List Piece) (va : ℕ)
      → Given m stack ps va
      → vprintfmt m stack (format_of ps) va ≡ some (text_of m stack ps)
  unfolding vprintfmt
  vprintfmt_lem ps va given = loop_lem ps (suc (length (format_of ps))) va given (omega arith)
