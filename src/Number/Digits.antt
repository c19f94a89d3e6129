-- ===== src/Number/Digits.antt =====
-- The digits that printnum puts out, as strtol reads them.
use jos_kernel.Base.{
  List, [], ap, arith, if-false, length, lt→leb, refl, some, suc, ℕ, ◌%◌, ◌*◌, ◌++◌, ◌+◌, ◌<◌, ◌∙◌,
  ◌∷◌, ◌≡◌, ◌≤◌,
}
use jos_kernel.Kernel.Layout.{u32_mod}
use jos_kernel.Number.{digit_char, digit_of, digits_loop}

-- The characters of `l` stand in memory from `s` on.
abbrev pub Holds : (ℕ → ℕ) → ℕ → List ℕ → Type 0
Holds m s [] = Unit
Holds m s (c ∷ l) = (m s ≡ c) × Holds m (s + 1) l

pub Holds-snoc :
    (m : ℕ → ℕ) (s c : ℕ) (l : List ℕ)
    → Holds m s (l ++ (c ∷ []))
    → Holds m s l × (m (s + length l) ≡ c)
Holds-snoc m s c [] (h, _) = let e : s + 0 ≡ s = omega arith in (tt, ap m e ∙ h)
Holds-snoc m s c (x ∷ l) (h, t) =
    let (a, b) = Holds-snoc m (s + 1) c l t in
    let e : s + suc (length l) ≡ s + 1 + length l = omega arith in ((h, a), ap m e ∙ b)

pub digit_of-digit_char : (d : ℕ) → d < 16 → digit_of (digit_char d) ≡ some d
digit_of-digit_char d h = ground arith

-- Characters from `0` on and before `x`.
abbrev pub AllDigits : List ℕ → Type 0
AllDigits [] = Unit
AllDigits (c ∷ l) = (b'0' ≤ c) × (c < b'x') × AllDigits l

pub AllDigits-snoc :
    (l : List ℕ) (d : ℕ) → d < 16 → AllDigits l → AllDigits (l ++ (digit_char d ∷ []))
AllDigits-snoc [] d h a = (ground arith, ground arith, tt)
AllDigits-snoc (c ∷ l) d h (p, q, a) = (p, q, AllDigits-snoc l d h a)

-- One digit that belongs to the base.
pub digits_loop-digit :
    (m : ℕ → ℕ) (base fuel s value d : ℕ)
    → d < base
    → base ≤ 16
    → m s ≡ digit_char d
    → digits_loop m base (suc fuel) s value
      ≡ digits_loop m base fuel (s + 1) ((value * base + d) % u32_mod)
unfolding digits_loop
digits_loop-digit m base fuel s value d h b e =
    rw (ap digit_of e ∙ digit_of-digit_char d (omega arith), digits_loop)
      (if-false _ (lt→leb base d h))

pub digits_loop-end :
    (m : ℕ → ℕ) (base fuel s value : ℕ)
    → m s ≡ 0
    → digits_loop m base (suc fuel) s value ≡ some (value, s)
unfolding digits_loop
digits_loop-end m base fuel s value e = rw (ap digit_of e, digits_loop) refl

-- `out` is read as `num` in the base, and its characters are digits.
pub record Reads (base num : ℕ) (out : List ℕ) : Type 0 where
  pub value :
      (m : ℕ → ℕ) (s fuel : ℕ)
      → Holds m s out
      → digits_loop m base (fuel + length out) s 0 ≡ digits_loop m base fuel (s + length out) num
  pub digits : AllDigits out
  pub length_positive : 1 ≤ length out
