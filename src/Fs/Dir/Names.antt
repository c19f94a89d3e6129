-- ===== src/Fs/Dir/Names.antt =====
-- The names that a path consists of: an independent description, and that the scanning of walk_path
-- finds them.
use jos_kernel.Base.{
  Bool-cases, List, [], ap, arith, false, if◌then◌else◌, inl, inr, length, refl, sym, true, ℕ, ◌==◌,
  ◌∙◌, ◌∷◌, ◌≡◌, ◌≤◌,
}
use jos_kernel.Fs.Dir.{behind, element, skip_slash, slash}

-- The pieces between the slashes, the empty ones included.
abbrev extend : ℕ → List (List ℕ) → List (List ℕ)
extend c [] = (c ∷ []) ∷ []
extend c (w ∷ ws) = (c ∷ w) ∷ ws

abbrev pieces : List ℕ → List (List ℕ)
pieces [] = [] ∷ []
pieces (c ∷ p) = let rest = pieces p in if c == slash then [] ∷ rest else extend c rest

abbrev non_empty : List (List ℕ) → List (List ℕ)
non_empty [] = []
non_empty ([] ∷ ws) = non_empty ws
non_empty ((c ∷ w) ∷ ws) = (c ∷ w) ∷ non_empty ws

-- The names in a path.
abbrev pub names : List ℕ → List (List ℕ)
names p = non_empty (pieces p)

names-slash : (c : ℕ) (p : List ℕ) → (c == slash) ≡ true → names (c ∷ p) ≡ names p
names-slash c p h = rw h

pub names-skip_slash : (p : List ℕ) → names (skip_slash p) ≡ names p
unfolding skip_slash
names-skip_slash [] = refl
names-skip_slash (c ∷ p) = elim (Bool-cases (c == slash)) [
  | inl yes_slash ↦ rw yes_slash (names-skip_slash p)
  | inr other ↦ rw other (rw other)
]

-- The first piece is the element, and the others are those of the rest.
pieces-element :
    (p : List ℕ)
    → (ws : List (List ℕ)) × (pieces p ≡ element p ∷ ws) × (non_empty ws ≡ names (behind p))
unfolding element behind
pieces-element [] = ([], refl, refl)
pieces-element (c ∷ p) = elim (Bool-cases (c == slash)) [
  | inl yes_slash ↦ (pieces p, rw yes_slash, rw yes_slash (rw yes_slash))
  | inr other ↦ let (ws, e, n) = pieces-element p in (ws, rw (other, e), rw other n)
]

-- A path that does not start with a slash: its first name, and the others.
pub names-element :
    (c : ℕ) (p : List ℕ)
    → (c == slash) ≡ false
    → names (c ∷ p) ≡ element (c ∷ p) ∷ names (skip_slash (behind (c ∷ p)))
unfolding element behind
names-element c p h =
    let (ws, e, n) = pieces-element p in
    rw (h, e) (ap (λ l. (c ∷ element p) ∷ l) (n ∙ sym (names-skip_slash (behind p))))

-- What is left after a name is shorter, and does not start with a slash.
pub length-skip_slash : (p : List ℕ) → length (skip_slash p) ≤ length p
unfolding skip_slash
length-skip_slash [] = omega arith
length-skip_slash (c ∷ p) = elim (Bool-cases (c == slash)) [
  | inl yes_slash ↦ rw yes_slash (omega (arith, length-skip_slash p))
  | inr other ↦ rw other (omega arith)
]

pub length-behind : (p : List ℕ) → length (behind p) ≤ length p
unfolding behind
length-behind [] = omega arith
length-behind (c ∷ p) = elim (Bool-cases (c == slash)) [
  | inl yes_slash ↦ rw yes_slash (omega arith)
  | inr other ↦ rw other (omega (arith, length-behind p))
]

pub length-behind-name :
    (c : ℕ) (p : List ℕ) → (c == slash) ≡ false → length (behind (c ∷ p)) ≤ length p
unfolding behind
length-behind-name c p h = rw h (length-behind p)

abbrev pub IsAtName : List ℕ → Type 0
IsAtName [] = Unit {0}
IsAtName (c ∷ p) = (c == slash) ≡ false

pub skip_slash-IsAtName : (p : List ℕ) → IsAtName (skip_slash p)
unfolding skip_slash
skip_slash-IsAtName [] = tt
skip_slash-IsAtName (c ∷ p) = elim (Bool-cases (c == slash)) [
  | inl yes_slash ↦ rw yes_slash (skip_slash-IsAtName p)
  | inr other ↦ rw other other
]
