-- ===== src/Readline/Edit.antt =====
-- The line that is typed, as a list, and the buffer.
use jos_kernel.Base.{
  ==_ne, Bool-cases, List, Option, [], arith, false, if-false, if-true, if◌then◌else◌, inl, inr,
  leb, length, ltb, none, some, true, update, ℕ, ◌%◌, ◌&&◌, ◌-◌, ◌<◌, ◌==◌, ◌^◌, ◌∙◌, ◌∷◌, ◌≡◌, ◌≤◌,
  Bool, ap, not, refl, subst, sym,
}
use jos_kernel.Readline.{
  Line, Progress, buflen, enter, entered, erase, failed, is_enter, is_erase, read_char, read_chars,
  type_char, waiting, and_then, readline,
}

-- What the keys do to the characters of the line, the last of them first.
abbrev pub edit : ℕ → List ℕ → List ℕ
edit c [] = if leb b' ' c then c ∷ [] else []
edit c (x ∷ q) =
    if is_erase c
    then q
    else if leb b' ' c && ltb (length (x ∷ q)) (buflen - 1)
    then c ∷ (x ∷ q)
    else x ∷ q

-- The line that is entered with the rest of the keys, when one is.
abbrev pub typed : List ℕ → List ℕ → Option (List ℕ × List ℕ)
typed [] q = none
typed (c ∷ l) q =
    if leb (2 ^ 31) c then none else if is_enter c then some (q, l) else typed l (edit c q)

-- `buf` holds the line in its first bytes.
abbrev pub Holds : (ℕ → ℕ) → List ℕ → Type 0
Holds buf [] = Unit
Holds buf (c ∷ q) = (buf (length q) ≡ c % 256) × Holds buf q

pub record Typed (m : ℕ → ℕ) (q : List ℕ) (s : Line) : Type 0 where
  pub count : s.i ≡ length q
  pub room : length q < buflen
  pub holds : Holds s.buf q
  pub behind : (a : ℕ) → buflen ≤ a → s.buf a ≡ m a

Holds-update :
    (buf : ℕ → ℕ) (q : List ℕ) (a x : ℕ) → length q ≤ a → Holds buf q → Holds (update buf a x) q
Holds-update buf [] a x le h = tt
Holds-update buf (c ∷ q) a x le (e, h) =
    (if-false x (==_ne (length q) a (omega arith)) ∙ e, Holds-update buf q a x (omega arith) h)

type_char-Typed :
    (m : ℕ → ℕ) (q : List ℕ) (c : ℕ) (s : Line)
    → Typed m q s
    → length q < buflen - 1
    → Typed m (c ∷ q) (type_char c s)
type_char-Typed m q c s h short = record {
  count = omega (arith, h.count);
  room = omega (arith, short);
  holds = (
    if-true {b = length q == s.i} (s.buf (length q)) (ground arith),
    Holds-update s.buf q s.i (c % 256) (omega (arith, h.count)) h.holds,
  );
  behind =
      λ a le. if-false (c % 256) (==_ne a s.i (omega (arith, le, h.count, h.room))) ∙ h.behind a le;
}

erase-Typed : (m : ℕ → ℕ) (q : List ℕ) (c : ℕ) (s : Line) → Typed m (c ∷ q) s → Typed m q (erase s)
erase-Typed m q c s h = record {
  count = omega (arith, h.count);
  room = omega (arith, h.room);
  holds = h.holds.1;
  behind = h.behind;
}

-- A line that was entered: its characters and a zero byte.
pub record Finished (m : ℕ → ℕ) (q : List ℕ) (s : Line) : Type 0 where
  pub typed_line : Typed m q s
  pub zero_byte : s.buf (length q) ≡ 0

enter-Finished : (m : ℕ → ℕ) (q : List ℕ) (s : Line) → Typed m q s → Finished m q (enter s)
enter-Finished m q s h = record {
  typed_line = record {
    count = h.count;
    room = h.room;
    holds = Holds-update s.buf q s.i 0 (omega (arith, h.count)) h.holds;
    behind = λ a le. if-false 0 (==_ne a s.i (omega (arith, le, h.count, h.room))) ∙ h.behind a le;
  };
  zero_byte = if-true {b = length q == s.i} (s.buf (length q)) (ground arith);
}

abbrev pub IsEntered : Progress → Type 0
IsEntered (entered s) = Unit
IsEntered (waiting s) = ⊥
IsEntered (failed c s) = ⊥

-- What a call has done, for the line that was entered, if one was.
abbrev pub Reads : (ℕ → ℕ) → Progress × List ℕ → Option (List ℕ × List ℕ) → Type 0
Reads m p none = ¬ IsEntered (p.0)
Reads m p (some (q, l)) = (s : Line) × (p ≡ (entered s, l)) × Finished m q s

-- The call goes on, with the line `q`.
abbrev Waits : (ℕ → ℕ) → List ℕ → Progress → Type 0
Waits m q p = (s : Line) × (p ≡ waiting s) × Typed m q s

-- The branches of a test, which `edit` makes too.
if-Waits :
    (m : ℕ → ℕ) (b b' : Bool) (q q' : List ℕ) (p p' : Progress)
    → b' ≡ b
    → (b ≡ true → Waits m q p)
    → (b ≡ false → Waits m q' p')
    → Waits m (if b then q else q') (if b' then p else p')
if-Waits m true true q q' p p' e h h' = h refl
if-Waits m false false q q' p p' e h h' = h' refl
if-Waits m true false q q' p p' e h h' = absurd (cc)
if-Waits m false true q q' p p' e h h' = absurd (cc)

read_char-Waits :
    (m : ℕ → ℕ) (c : ℕ) (q : List ℕ) (s : Line)
    → Typed m q s
    → leb (2 ^ 31) c ≡ false
    → is_enter c ≡ false
    → Waits m (edit c q) (read_char c s)
unfolding read_char
read_char-Waits m c [] s h small other =
    let kept : (is_erase c && not (s.i == 0)) ≡ false = ground arith in
    let same : (leb b' ' c && ltb s.i (buflen - 1)) ≡ leb b' ' c = ground arith in
    subst (Waits m _) (sym (if-false _ small ∙ if-false _ kept)) (
      if-Waits m (leb b' ' c) (leb b' ' c && ltb s.i (buflen - 1)) _ _ _ _ same
        (λ printable. (type_char c s, refl, type_char-Typed m [] c s h (omega arith)))
        (λ control. (s, if-false _ other, h)))
read_char-Waits m c (x ∷ q) s h small other =
    let erases : (is_erase c && not (s.i == 0)) ≡ is_erase c = ground arith in
    let same = ap (λ i. leb b' ' c && ltb i (buflen - 1)) h.count in
    subst (Waits m _) (sym (if-false _ small)) (
      if-Waits m (is_erase c) (is_erase c && not (s.i == 0)) _ _ _ _ erases
        (λ erased. (erase s, refl, erase-Typed m q x s h))
        (λ kept.
          if-Waits m (leb b' ' c && ltb (length (x ∷ q)) (buflen - 1)) _ _ _ _ _ same
            (λ room. (type_char c s, refl, type_char-Typed m (x ∷ q) c s h (ground arith)))
            (λ ignored. (s, if-false _ other, h))))

read_char-enter : (c : ℕ) (s : Line) → is_enter c ≡ true → read_char c s ≡ entered (enter s)
unfolding read_char
read_char-enter c s e =
    let good : leb (2 ^ 31) c ≡ false = ground arith in
    let kept : (is_erase c && not (s.i == 0)) ≡ false = ground arith in
    let control : (leb b' ' c && ltb s.i (buflen - 1)) ≡ false = ground arith in
    if-false _ good ∙ if-false _ kept ∙ if-false _ control ∙ if-true _ e

read_chars-Reads :
    (m : ℕ → ℕ) (l q : List ℕ) (s : Line) → Typed m q s → Reads m (read_chars l s) (typed l q)
unfolding read_chars read_char
read_chars-Reads m [] q s h = λ e. e
read_chars-Reads m (c ∷ l) q s h = elim (Bool-cases (leb (2 ^ 31) c)) [
  | inl bad ↦
      subst (λ p. Reads m (and_then (read_chars l) p l) (typed (c ∷ l) q)) (sym (if-true _ bad))
        (subst (Reads m (failed c s, l)) (sym (if-true _ bad)) (λ e. e))
  | inr good ↦ elim (Bool-cases (is_enter c)) [
    | inl last ↦
        subst (λ p. Reads m (and_then (read_chars l) p l) (typed (c ∷ l) q))
          (sym (read_char-enter c s last))
          (subst (Reads m (entered (enter s), l)) (sym (if-false _ good ∙ if-true _ last))
            (enter s, refl, enter-Finished m q s h))
    | inr other ↦
        let (s', e, h') = read_char-Waits m c q s h good other in
        subst (λ p. Reads m (and_then (read_chars l) p l) (typed (c ∷ l) q)) (sym e)
          (subst (Reads m (read_chars l s')) (sym (if-false _ good ∙ if-false _ other))
            (read_chars-Reads m l (edit c q) s' h'))
  ]
]

-- For any keys, readline returns its buffer exactly when a newline or a carriage return is among them, before
-- any error. The buffer then holds what the keys make of an empty line and a zero byte behind it, within its
-- 1024 bytes, and nothing behind them has changed; the keys that follow are left. A key appends its
-- character, if that is ' ' at least and the line has fewer than 1023; backspace and delete take the last
-- character away, but a delete at the start of the line is appended as a character; other keys do
-- nothing.
pub readline_lem : (l : List ℕ) (m : ℕ → ℕ) → Reads m (readline l m) (typed l [])
unfolding readline
readline_lem l m =
    read_chars-Reads m l [] (record { buf = m; i = 0; echo = [] })
      (record { count = refl; room = omega arith; holds = tt; behind = λ a le. refl })
