-- ===== src/Fs/Bytes.antt =====
-- The bytes of the disk, in its array of words; the lowest byte of a word comes first.
use jos_kernel.Base.{
  arith, refl, suc, update, zero, ℕ, ◌%◌, ◌*◌, ◌+◌, ◌-◌, ◌/◌, ◌<◌, ◌^◌, ◌≡◌, ◌≢◌, ==_iff, ==_self,
  Bool-cases, List, [], ap, inl, inr, length, sym, ◌++◌, ◌==◌, ◌∙◌, ◌∷◌, ◌≤◌,
}

-- The value of byte 0 to 3 of a word, in place.
abbrev pub place : ℕ → ℕ
place zero = 1
place (suc zero) = 2 ^ 8
place (suc (suc zero)) = 2 ^ 16
place (suc (suc (suc n))) = 2 ^ 24

abbrev pub byte_of : ℕ → ℕ → ℕ
byte_of w n = w / place n % 256

abbrev pub with_byte : ℕ → ℕ → ℕ → ℕ
with_byte w n v = w - byte_of w n * place n + v * place n

-- The byte at a byte address.
abbrev pub byte_at : (ℕ → ℕ) → ℕ → ℕ
byte_at m a = byte_of (m (a / 4)) (a % 4)

abbrev pub set_byte : (ℕ → ℕ) → ℕ → ℕ → ℕ → ℕ
set_byte m a v = update m (a / 4) (with_byte (m (a / 4)) (a % 4) v)

byte_of-with_byte : (w n v : ℕ) → v < 256 → byte_of (with_byte w n v) n ≡ v
byte_of-with_byte w zero v h = omega arith
byte_of-with_byte w (suc zero) v h = omega arith
byte_of-with_byte w (suc (suc zero)) v h = omega arith
byte_of-with_byte w (suc (suc (suc n))) v h = omega arith

byte_of-other :
    (w n i v : ℕ) → v < 256 → n < 4 → i < 4 → i ≢ n → byte_of (with_byte w n v) i ≡ byte_of w i
byte_of-other w zero zero v h a b ne = absurd (ne refl)
byte_of-other w zero (suc zero) v h a b ne = omega arith
byte_of-other w zero (suc (suc zero)) v h a b ne = omega arith
byte_of-other w zero (suc (suc (suc i))) v h a b ne = omega arith
byte_of-other w (suc zero) zero v h a b ne = omega arith
byte_of-other w (suc zero) (suc zero) v h a b ne = absurd (ne refl)
byte_of-other w (suc zero) (suc (suc zero)) v h a b ne = omega arith
byte_of-other w (suc zero) (suc (suc (suc i))) v h a b ne = omega arith
byte_of-other w (suc (suc zero)) zero v h a b ne = omega arith
byte_of-other w (suc (suc zero)) (suc zero) v h a b ne = omega arith
byte_of-other w (suc (suc zero)) (suc (suc zero)) v h a b ne = absurd (ne refl)
byte_of-other w (suc (suc zero)) (suc (suc (suc i))) v h a b ne = omega arith
byte_of-other w (suc (suc (suc n))) zero v h a b ne = omega arith
byte_of-other w (suc (suc (suc n))) (suc zero) v h a b ne = omega arith
byte_of-other w (suc (suc (suc n))) (suc (suc zero)) v h a b ne = omega arith
byte_of-other w (suc (suc (suc n))) (suc (suc (suc i))) v h a b ne = omega arith

pub byte_at-set_byte : (m : ℕ → ℕ) (a v : ℕ) → v < 256 → byte_at (set_byte m a v) a ≡ v
byte_at-set_byte m a v h = rw (==_self (a / 4)) (byte_of-with_byte (m (a / 4)) (a % 4) v h)

pub byte_at-other :
    (m : ℕ → ℕ) (a v b : ℕ) → v < 256 → b ≢ a → byte_at (set_byte m a v) b ≡ byte_at m b
byte_at-other m a v b h ne = elim (Bool-cases (b / 4 == a / 4)) [
  | inl same_word ↦
      let e : b / 4 ≡ a / 4 = (==_iff (b / 4) (a / 4)).0 same_word in
      rw same_word (
        byte_of-other (m (a / 4)) (a % 4) (b % 4) v h (omega arith) (omega arith)
          (λ q. ne (omega (arith, e, q)))
        ∙ ap (λ w. byte_of (m w) (b % 4)) (sym e))
  | inr other_word ↦ rw other_word
]

-- The `n` bytes from address `a` on.
abbrev pub bytes : (ℕ → ℕ) → ℕ → ℕ → List ℕ
bytes m a zero = []
bytes m a (suc n) = byte_at m a ∷ bytes m (a + 1) n

-- memmove of some bytes to address `a`
abbrev pub set_bytes : (ℕ → ℕ) → ℕ → List ℕ → ℕ → ℕ
set_bytes m a [] = m
set_bytes m a (v ∷ vs) = set_bytes (set_byte m a v) (a + 1) vs

abbrev pub take : ℕ → List ℕ → List ℕ
take zero l = []
take (suc n) [] = []
take (suc n) (x ∷ l) = x ∷ take n l

abbrev pub drop : ℕ → List ℕ → List ℕ
drop zero l = l
drop (suc n) [] = []
drop (suc n) (x ∷ l) = drop n l

pub take-drop : (n : ℕ) (l : List ℕ) → take n l ++ drop n l ≡ l
take-drop zero l = refl
take-drop (suc n) [] = refl
take-drop (suc n) (x ∷ l) = ap (λ r. x ∷ r) (take-drop n l)

pub length-take : (n : ℕ) (l : List ℕ) → n ≤ length l → length (take n l) ≡ n
length-take zero l h = refl
length-take (suc n) [] h = omega arith
length-take (suc n) (x ∷ l) h = ap suc (length-take n l (omega arith))

pub length-drop : (n : ℕ) (l : List ℕ) → length (drop n l) ≡ length l - n
length-drop zero l = omega arith
length-drop (suc n) [] = omega arith
length-drop (suc n) (x ∷ l) = omega (arith, length-drop n l)
