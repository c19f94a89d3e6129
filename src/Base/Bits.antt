-- ===== src/Base/Bits.antt =====
-- `bit_or` at variables: its lowest digit, a zero operand, and a word whose low digits are clear.
use Prim.Native.Nat.{
  ℕ, zero, suc, ◌+◌, ◌*◌, ◌/◌, ◌%◌, ◌≤◌, ◌<◌, ◌^◌, max, bit_or, digits, bit_or-bitwise,
}
use mathlib.Core.Path.{◌≡◌, refl, ap, subst}
use native.Mathlib.Nat.{pow-suc}
use native.Mathlib.Omega.{arith}

-- More rounds than digits change nothing: `rest` is for when the first operand has run out, `op`
-- combines two digits.
pub digits_fuel :
    (rest : ℕ → ℕ) (op : ℕ → ℕ → ℕ) (n m a b : ℕ)
    → a ≤ n
    → a ≤ m
    → digits rest op n a b ≡ digits rest op m a b
digits_fuel rest op zero zero zero b p q = refl
digits_fuel rest op zero (suc m) zero b p q = refl
digits_fuel rest op (suc n) zero zero b p q = refl
digits_fuel rest op (suc n) (suc m) zero b p q = refl
digits_fuel rest op zero m (suc a) b p q = absurd (omega arith)
digits_fuel rest op (suc n) zero (suc a) b p q = absurd (omega arith)
digits_fuel rest op (suc n) (suc m) (suc a) b p q =
    let tail = digits_fuel rest op n m (suc a / 2) (b / 2) (omega arith) (omega arith) in
    ap (λ t. t * 2 + op (suc a % 2) (b % 2)) tail

pub zero-bit_or : (b : ℕ) → bit_or 0 b ≡ b
zero-bit_or b = bit_or-bitwise 0 b

-- One digit of the disjunction, and the rest.
pub bit_or_step : (a b : ℕ) → bit_or a b ≡ bit_or (a / 2) (b / 2) * 2 + max (a % 2) (b % 2)
bit_or_step zero b = omega (arith, zero-bit_or b, zero-bit_or (b / 2))
bit_or_step (suc a) b = omega (
  arith,
  bit_or-bitwise (suc a) b,
  bit_or-bitwise (suc a / 2) (b / 2),
  digits_fuel (λ b. b) max a (suc a / 2) (suc a / 2) (b / 2) (omega arith) (omega arith),
)

bit_or-zero_fuel : (n a : ℕ) → a ≤ n → bit_or a 0 ≡ a
bit_or-zero_fuel n zero h = refl
bit_or-zero_fuel zero (suc a) h = absurd (omega arith)
bit_or-zero_fuel (suc n) (suc a) h =
    omega (arith, bit_or_step (suc a) 0, bit_or-zero_fuel n (suc a / 2) (omega arith))

pub bit_or-zero : (a : ℕ) → bit_or a 0 ≡ a
bit_or-zero a = bit_or-zero_fuel a a (omega arith)

-- `x | 1` sets the lowest bit and keeps the others.
pub bit_or-one : (a : ℕ) → bit_or a 1 ≡ a / 2 * 2 + 1
bit_or-one a = omega (arith, bit_or_step a 1, bit_or-zero (a / 2))

half : (q a : ℕ) → bit_or (q * 2) a ≡ bit_or q (a / 2) * 2 + a % 2
half q a =
    let e : q * 2 / 2 ≡ q = omega arith in
    let h = bit_or_step (q * 2) a in
    omega
      (arith, subst (λ t. bit_or (q * 2) a ≡ bit_or t (a / 2) * 2 + max (q * 2 % 2) (a % 2)) e h)

-- A word whose low `k` bits are clear: `|` with a number of `k` bits is a sum.
pub bit_or-shifted : (k q a : ℕ) → a < 2 ^ k → bit_or (q * 2 ^ k) a ≡ q * 2 ^ k + a
bit_or-shifted zero q a h =
    let z : a ≡ 0 = omega arith in
    let o : q * 2 ^ 0 ≡ q = omega arith in rw (z, o) (omega (arith, bit_or-zero q))
bit_or-shifted (suc k) q a h =
    let e : q * 2 ^ suc k ≡ q * 2 ^ k * 2 = omega (arith, ap (λ (t : ℕ). q * t) (pow-suc 2 k)) in
    rw e
      (omega (arith, half (q * 2 ^ k) a, bit_or-shifted k q (a / 2) (omega (arith, pow-suc 2 k))))

-- A page address has its low twelve bits clear.
pub bit_or_aligned : (q a : ℕ) → a < 4096 → bit_or (q * 4096) a ≡ q * 4096 + a
bit_or_aligned q a h = bit_or-shifted 12 q a h

-- `|` on the low `k` bits leaves the word above them alone.
pub bit_or-add :
    (k q a b : ℕ) → a < 2 ^ k → b < 2 ^ k → bit_or (q * 2 ^ k + a) b ≡ q * 2 ^ k + bit_or a b
bit_or-add zero q a b h j =
    let z : a ≡ 0 = omega arith in
    let y : b ≡ 0 = omega arith in
    rw (z, y) (omega (arith, bit_or-zero (q * 2 ^ 0 + 0), bit_or-zero 0))
bit_or-add (suc k) q a b h j =
    let p = pow-suc 2 k in
    let e : q * 2 ^ suc k ≡ q * 2 ^ k * 2 = omega (arith, ap (λ (t : ℕ). q * t) p) in
    let x : (q * 2 ^ k * 2 + a) / 2 ≡ q * 2 ^ k + a / 2 = omega arith in
    let s =
      subst
        (λ t.
          bit_or (q * 2 ^ k * 2 + a) b
          ≡ bit_or t (b / 2) * 2 + max ((q * 2 ^ k * 2 + a) % 2) (b % 2))
        x (bit_or_step (q * 2 ^ k * 2 + a) b) in
    rw e (
      omega (
        arith,
        s,
        bit_or_step a b,
        bit_or-add k q (a / 2) (b / 2) (omega (arith, p)) (omega (arith, p)),
      ))

-- A page address below which `|` works.
pub bit_or_page :
    (q a b : ℕ) → a < 4096 → b < 4096 → bit_or (q * 4096 + a) b ≡ q * 4096 + bit_or a b
bit_or_page q a b h j = bit_or-add 12 q a b h j

-- `|` of two numbers of `k` bits has `k` bits.
pub bit_or-lt : (k a b : ℕ) → a < 2 ^ k → b < 2 ^ k → bit_or a b < 2 ^ k
bit_or-lt zero a b h j =
    let z : a ≡ 0 = omega arith in let y : b ≡ 0 = omega arith in rw (z, y) (omega arith)
bit_or-lt (suc k) a b h j = omega (
  arith,
  pow-suc 2 k,
  bit_or_step a b,
  bit_or-lt k (a / 2) (b / 2) (omega (arith, pow-suc 2 k)) (omega (arith, pow-suc 2 k)),
)
