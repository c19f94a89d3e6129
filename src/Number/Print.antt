-- ===== src/Number/Print.antt =====
-- What printnum puts out, padded with zeros.
use native.Mathlib.Nat.{div-add-mod', div-lt_self, mod-lt, div-eq_of_lt}
use jos_kernel.Base.{
  Bool-cases, List, [], ap, arith, inl, inr, leb, leb-le, leb-lt, length, refl, some, suc, sym,
  zero, ℕ, ◌%◌, ◌*◌, ◌++◌, ◌+◌, ◌-◌, ◌/◌, ◌<◌, ◌∙◌, ◌∷◌, ◌≡◌, ◌≤◌, length-snoc,
}
use jos_kernel.Kernel.Layout.{u32_mod}
use jos_kernel.Number.{digit_char, digits_loop, padding, printnum_loop}
use jos_kernel.Number.Digits.{
  AllDigits, AllDigits-snoc, Holds, Holds-snoc, Reads, digits_loop-digit,
}

-- One more digit at the end.
Reads-snoc :
    (base num : ℕ) (l : List ℕ)
    → 2 ≤ base
    → base ≤ 16
    → num < u32_mod
    → ((m : ℕ → ℕ) (s fuel : ℕ)
        → Holds m s l
        → digits_loop m base (fuel + length l) s 0
          ≡ digits_loop m base fuel (s + length l) (num / base))
    → AllDigits l
    → Reads base num (l ++ (digit_char (num % base) ∷ []))
Reads-snoc base num l low high short reads digits =
    let d = mod-lt num {m = base} (omega arith) in
    let grow = length-snoc l (digit_char (num % base)) in
    record {
      value = λ m s fuel h.
          let (before, last) = Holds-snoc m s (digit_char (num % base)) l h in
          let n : fuel + length (l ++ (digit_char (num % base) ∷ [])) ≡ suc fuel + length l =
            omega (arith, grow) in
          let e : s + length l + 1 ≡ s + length (l ++ (digit_char (num % base) ∷ [])) =
            omega (arith, grow) in
          let v : (num / base * base + num % base) % u32_mod ≡ num =
            omega (arith, div-add-mod' num base) in
          ap (λ f. digits_loop m base f s 0) n
          ∙ reads m s (suc fuel) before
          ∙ digits_loop-digit m base fuel (s + length l) (num / base) (num % base) d high last
          ∙ ap (λ a. digits_loop m base fuel a ((num / base * base + num % base) % u32_mod)) e
          ∙ ap (digits_loop m base fuel (s + length (l ++ (digit_char (num % base) ∷ [])))) v;
      digits = AllDigits-snoc l (num % base) (omega (arith, d)) digits;
      length_positive = omega (arith, grow);
    }

-- Leading zeros are read as 0.
padding-reads :
    (n base : ℕ) (m : ℕ → ℕ) (s fuel : ℕ)
    → 2 ≤ base
    → base ≤ 16
    → Holds m s (padding n b'0')
    → digits_loop m base (fuel + length (padding n b'0')) s 0
      ≡ digits_loop m base fuel (s + length (padding n b'0')) 0
padding-reads zero base m s fuel low high h =
    let a : fuel + 0 ≡ fuel = omega arith in
    let b : s ≡ s + 0 = omega arith in
    ap (λ f. digits_loop m base f s 0) a ∙ ap (λ x. digits_loop m base fuel x 0) b
padding-reads (suc n) base m s fuel low high (h, t) =
    let l = length (padding n b'0') in
    let a : fuel + suc l ≡ suc (fuel + l) = omega arith in
    let b : s + 1 + l ≡ s + suc l = omega arith in
    let z : (0 * base + 0) % u32_mod ≡ 0 = omega arith in
    ap (λ f. digits_loop m base f s 0) a
    ∙ digits_loop-digit m base (fuel + l) s 0 0 (omega arith) high h
    ∙ ap (digits_loop m base (fuel + l) (s + 1)) z
    ∙ padding-reads n base m (s + 1) fuel low high t
    ∙ ap (λ x. digits_loop m base fuel x 0) b

length-padding : (n : ℕ) → length (padding n b'0') ≡ n
length-padding zero = refl
length-padding (suc n) = ap suc (length-padding n)

padding-AllDigits : (n : ℕ) → AllDigits (padding n b'0')
padding-AllDigits zero = tt
padding-AllDigits (suc n) = (omega arith, omega arith, padding-AllDigits n)

-- What printnum puts out when it is padded with zeros.
pub printnum_loop-Reads :
    (fuel num base width : ℕ)
    → 2 ≤ base
    → base ≤ 16
    → num < u32_mod
    → num < fuel
    → (out : List ℕ) × (printnum_loop fuel num base width b'0' ≡ some out)
      × Reads base num out
      × (length out ≤ num + width + 1)
unfolding printnum_loop
printnum_loop-Reads zero num base width low high short enough = absurd (omega arith)
printnum_loop-Reads (suc fuel) num base width low high short enough =
    elim (Bool-cases (leb base num)) [
      | inl more ↦
          let b = leb-le base num more in
          let smaller : num / base < num = div-lt_self (omega arith) (omega arith) in
          let (l, e, r, n) =
            printnum_loop-Reads fuel (num / base) base (width - 1) low high (omega arith)
              (omega arith) in
          (
            l ++ (digit_char (num % base) ∷ []),
            rw more (rw e refl),
            Reads-snoc base num l low high short r.value r.digits,
            omega (arith, n, smaller, length-snoc l (digit_char (num % base))),
          )
      | inr last ↦
          let b = leb-lt base num last in
          let zero_quotient : num / base ≡ 0 = div-eq_of_lt b in
          (
            padding (width - 1) b'0' ++ (digit_char (num % base) ∷ []),
            rw last refl,
            Reads-snoc base num (padding (width - 1) b'0') low high short
                (λ m s f h.
                  padding-reads (width - 1) base m s f low high h
                  ∙ ap (digits_loop m base f (s + length (padding (width - 1) b'0')))
                      (sym zero_quotient))
                (padding-AllDigits (width - 1)),
            omega (
              arith,
              length-padding (width - 1),
              length-snoc (padding (width - 1) b'0') (digit_char (num % base)),
            ),
          )
    ]
