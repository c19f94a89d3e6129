-- ===== src/Printf/Total.antt =====
-- vprintfmt returns, whatever the format and the arguments.
use jos_kernel.Base.{
  Bool, Bool-cases, List, Option, [], ap, arith, false, if◌then◌else◌, inl, inr, length, refl, some,
  subst, suc, sym, true, zero, ℕ, ◌++◌, ◌+◌, ◌<◌, ◌==◌, ◌∷◌, ◌≡◌, ◌≢◌, ◌≤◌, ◌^◌,
}
use jos_kernel.Printf.{
  Escape, Put, Spec, codes, convert_string, in_front, initial_spec, is_digit, null_text,
  process_precision, put, putting, read_width, unrecognized,
}
use jos_kernel.Printf.Conversions.{
  IsSome, convert_string-IsSome, if-IsSome, if_known-IsSome, null_text-IsString, put_error-IsSome,
  put_number-IsSome, put_signed-IsSome, read_width-less,
}
use jos_kernel.Printf.Format.{
  convert, getint, getuint, int_words, put_escape, reswitch, vprintfmt, vprintfmt_loop,
}
use jos_kernel.Str.{addresses}
use jos_kernel.Str.Length.{IsString}

module _ (m stack : ℕ → ℕ) where
  -- What is left of a format of `n` characters behind an escape sequence.
  abbrev Left : ℕ → Option Escape → Type 0
  Left n o = (x : Escape) × (o ≡ some x) × (length x.rest ≤ n)

  if-Left :
      (n : ℕ) (b : Bool) (x y : Option Escape)
      → (b ≡ true → Left n x)
      → Left n y
      → Left n (if b then x else y)
  if-Left n true x y p q = p refl
  if-Left n false x y p q = q

  Left-≤ : (k n : ℕ) (o : Option Escape) → k ≤ n → Left k o → Left n o
  Left-≤ k n o h (x, e, le) = (x, e, omega arith)

  reswitch-Left :
      (fuel : ℕ) (fmt : List ℕ) (spec : Spec) (va : ℕ)
      → length fmt < fuel
      → Left (length fmt) (reswitch m stack fuel fmt spec va)
  unfolding reswitch
  reswitch-Left zero fmt spec va enough = absurd (omega arith)
  reswitch-Left (suc fuel) [] spec va enough =
      (record { ch = 0; rest = []; spec = spec; ap = va }, refl, omega arith)
  reswitch-Left (suc fuel) (ch ∷ fmt) spec va enough =
      let n : ℕ = length fmt in
      let go = λ (s : Spec) (v : ℕ).
        Left-≤ n (suc n) (reswitch m stack fuel fmt s v) (omega arith)
          (reswitch-Left fuel fmt s v (omega arith)) in
      let spec' : Spec = process_precision ((read_width 0 (ch ∷ fmt)).0) spec in
      let sized = λ (shorter : length ((read_width 0 (ch ∷ fmt)).1) ≤ n).
        Left-≤ (length ((read_width 0 (ch ∷ fmt)).1)) (suc n)
          (reswitch m stack fuel ((read_width 0 (ch ∷ fmt)).1) spec' va) (omega arith)
          (reswitch-Left fuel ((read_width 0 (ch ∷ fmt)).1) spec' va (omega arith)) in
      if-Left (suc n) (ch == b'-') _ _ (λ e. go _ va)
        (if-Left (suc n) (ch == b'0') _ _ (λ e. go _ va)
          (if-Left (suc n) (is_digit ch) _ _ (λ e. sized (read_width-less 0 ch fmt e))
            (if-Left (suc n) (ch == b'*') _ _ (λ e. go _ (va + 1))
              (if-Left (suc n) (ch == b'.') _ _ (λ e. go _ va)
                (if-Left (suc n) (ch == b'#') _ _ (λ e. go _ va)
                  (if-Left (suc n) (ch == b'l') _ _ (λ e. go _ va)
                    (record { ch = ch; rest = fmt; spec = spec; ap = va }, refl, omega arith)))))))

  -- A zero byte follows from the address that any word of the arguments holds, but 0, and none holds 2^31.
  abbrev pub AllStrings : Type 0
  AllStrings =
      (i : ℕ)
      → stack i ≢ 0
      → (n : ℕ) × IsString m (stack i) n × (n < addresses) × (stack i ≢ 2 ^ 31)

  putting-IsSome : (va : ℕ) (o : Option (List ℕ)) → IsSome o → IsSome (putting va o)
  putting-IsSome va o (l, e) = (put l va, ap (putting va) e)

  in_front-IsSome : (l : List ℕ) (o : Option (List ℕ)) → IsSome o → IsSome (in_front l o)
  in_front-IsSome l o (l', e) = (l ++ l', ap (in_front l) e)

  shown_string-IsSome :
      AllStrings
      → (spec : Spec) (va : ℕ)
      → IsSome (
          if stack va == 0
          then convert_string null_text 0 spec
          else convert_string m (stack va) spec)
  shown_string-IsSome strings spec va =
      if_known-IsSome (stack va == 0) _ _
        (λ null. convert_string-IsSome null_text 0 6 spec null_text-IsString (omega arith))
        (λ address.
          let (n, h, short, other) = strings va (λ e. ground arith) in
          convert_string-IsSome m (stack va) n spec h short)

  error_code : AllStrings → (va : ℕ) → stack va ≢ 2 ^ 31
  error_code strings va e = let (n, h, short, other) = strings va (omega (arith, e)) in other e

  convert-IsSome :
      AllStrings → (ch : ℕ) (spec : Spec) (va : ℕ) → IsSome (convert m stack ch spec va)
  unfolding convert
  convert-IsSome strings ch spec va =
      if-IsSome (ch == b'c') _ _ (put (stack va ∷ []) (va + 1), refl)
        (if-IsSome (ch == b'e') _ _
          (putting-IsSome (va + 1) _ (put_error-IsSome (stack va) (error_code strings va)))
          (if-IsSome (ch == b's') _ _
            (putting-IsSome (va + 1) _ (shown_string-IsSome strings spec va))
            (if-IsSome (ch == b'd') _ _
              (putting-IsSome (va + int_words m stack spec.lflag) _
                (put_signed-IsSome (getint m stack va spec.lflag) spec))
              (if-IsSome (ch == b'u') _ _
                (putting-IsSome (va + int_words m stack spec.lflag) _
                  (put_number-IsSome (getuint m stack va spec.lflag) 10 spec (omega arith)))
                (if-IsSome (ch == b'o') _ _ (put (codes "XXX") va, refl)
                  (if-IsSome (ch == b'p') _ _
                    (putting-IsSome (va + 1) _ (
                      in_front-IsSome (codes "0x") _
                        (put_number-IsSome (stack va) 16 spec (omega arith))))
                    (if-IsSome (ch == b'x') _ _
                      (putting-IsSome (va + int_words m stack spec.lflag) _
                        (put_number-IsSome (getuint m stack va spec.lflag) 16 spec (omega arith)))
                      (if-IsSome (ch == b'%') _ _ (put (b'%' ∷ []) va, refl)
                        (unrecognized, refl)))))))))

  put_escape-IsSome :
      (next : List ℕ → ℕ → Option (List ℕ)) (fmt : List ℕ) (o : Option Escape)
      → AllStrings
      → Left (length fmt) o
      → ((fmt' : List ℕ) (va : ℕ) → length fmt' ≤ length fmt → IsSome (next fmt' va))
      → IsSome (put_escape m stack next fmt o)
  put_escape-IsSome next fmt o strings (x, e, less) ih =
      let (y, c) = convert-IsSome strings x.ch x.spec x.ap in
      subst (λ o. IsSome (put_escape m stack next fmt o)) (sym e) (goal x less y c)
    where
      goal :
          (x : Escape)
          → length x.rest ≤ length fmt
          → (y : Put) → (convert m stack x.ch x.spec x.ap ≡ some y)
          → IsSome (put_escape m stack next fmt (some x))
      goal x less unrecognized c =
          rw (put_escape, c) (in_front-IsSome (b'%' ∷ []) _ (ih fmt x.ap (omega arith)))
      goal x less (put l va) c = rw (put_escape, c) (in_front-IsSome l _ (ih x.rest va less))

  vprintfmt_loop-IsSome :
      AllStrings
      → (fuel : ℕ) (fmt : List ℕ) (va : ℕ) → length fmt < fuel
      → IsSome (vprintfmt_loop m stack fuel fmt va)
  unfolding vprintfmt_loop
  vprintfmt_loop-IsSome strings zero fmt va enough = absurd (omega arith)
  vprintfmt_loop-IsSome strings (suc fuel) [] va enough = ([], refl)
  vprintfmt_loop-IsSome strings (suc fuel) (ch ∷ fmt) va enough = elim (Bool-cases (ch == b'%')) [
    | inr plain ↦
        rw (vprintfmt_loop, plain)
          (in_front-IsSome (ch ∷ []) _ (vprintfmt_loop-IsSome strings fuel fmt va (omega arith)))
    | inl escape ↦
        rw (vprintfmt_loop, escape)
          (put_escape-IsSome (vprintfmt_loop m stack fuel) fmt _ strings
            (reswitch-Left (suc (length fmt)) fmt initial_spec va (omega arith))
            (λ fmt' va' le. vprintfmt_loop-IsSome strings fuel fmt' va' (omega arith)))
  ]

  -- vprintfmt returns for every format, also when it ends within an escape sequence or has characters
  -- that it does not know: if a zero byte follows from the address in every word of the arguments but
  -- 0, and no word is 2^31, which %e cannot print, some list of characters is put out, in no more rounds
  -- than the format has characters, and one.
  pub vprintfmt-IsSome :
      AllStrings → (fmt : List ℕ) (va : ℕ) → (l : List ℕ) × (vprintfmt m stack fmt va ≡ some l)
  unfolding vprintfmt
  vprintfmt-IsSome strings fmt va =
      vprintfmt_loop-IsSome strings (suc (length fmt)) fmt va (omega arith)
