-- ===== src/Base/Mask.antt =====
-- The binary digits of `bit_and`, `bit_or`, a power of two and its complement.
use Prim.Native.Nat.{
  ℕ, zero, suc, ◌+◌, ◌*◌, ◌-◌, ◌/◌, ◌%◌, ◌≤◌, ◌<◌, ◌^◌, min, bit_and, bit_and-bitwise,
}
use mathlib.Core.Path.{◌≡◌, refl, ap, sym, ◌∙◌, subst}
use jos_kernel.Base.Bits.{digits_fuel}
use mathlib.Core.Bool.{true}
use mathlib.Core.Logic.{◌≢◌}
use native.Mathlib.Nat.{pow-suc}
use native.Mathlib.Omega.{arith}
use jos_kernel.Base.Tests.{◌==◌, ==_ne, ==_iff}

none-and : (y : ℕ) → bit_and 0 y ≡ 0
none-and = λ y. bit_and-bitwise 0 y

-- The lowest digit of the conjunction is the smaller of the two; the others are those of the halves.
pub bit_and_step : (x y : ℕ) → bit_and x y ≡ min (x % 2) (y % 2) + 2 * bit_and (x / 2) (y / 2)
bit_and_step zero y =
    let low = none-and y in let high = none-and (y / 2) in omega (arith, low, high)
bit_and_step (suc x) y =
    let whole = bit_and-bitwise (suc x) y in
    let halves = bit_and-bitwise (suc x / 2) (y / 2) in
    let fuel =
      digits_fuel (λ b. 0) min x (suc x / 2) (suc x / 2) (y / 2) (omega arith) (omega arith) in
    omega (arith, whole, halves, fuel)

-- The digit of `w` at `k`.
abbrev pub bit : ℕ → ℕ → ℕ
bit w zero = w % 2
bit w (suc k) = bit (w / 2) k

bit_and_halves :
    (a b : ℕ)
    → (bit_and a b / 2 ≡ bit_and (a / 2) (b / 2)) × (bit_and a b % 2 ≡ min (a % 2) (b % 2))
bit_and_halves a b = (omega (arith, bit_and_step a b), omega (arith, bit_and_step a b))

pub bit-bit_and : (k a b : ℕ) → bit (bit_and a b) k ≡ min (bit a k) (bit b k)
bit-bit_and zero a b = (bit_and_halves a b).1
bit-bit_and (suc k) a b = ap (λ x. bit x k) (bit_and_halves a b).0 ∙ bit-bit_and k (a / 2) (b / 2)

pub zero-bit : (k : ℕ) → bit 0 k ≡ 0
zero-bit zero = refl
zero-bit (suc k) = zero-bit k

pub bit-pow : (k : ℕ) → bit (2 ^ k) k ≡ 1
bit-pow zero = refl
bit-pow (suc k) =
    let h : 2 ^ suc k / 2 ≡ 2 ^ k = omega (arith, pow-suc 2 k) in ap (λ x. bit x k) h ∙ bit-pow k

pub bit-pow_other : (k l : ℕ) → k ≢ l → bit (2 ^ k) l ≡ 0
bit-pow_other zero zero ne = absurd (ne refl)
bit-pow_other zero (suc l) ne = zero-bit l
bit-pow_other (suc k) zero ne = omega (arith, pow-suc 2 k)
bit-pow_other (suc k) (suc l) ne =
    let h : 2 ^ suc k / 2 ≡ 2 ^ k = omega (arith, pow-suc 2 k) in
    ap (λ x. bit x l) h ∙ bit-pow_other k l (λ q. ne (ap suc q))

pow_positive : (n : ℕ) → 1 ≤ 2 ^ n
pow_positive zero = omega arith
pow_positive (suc n) = omega (arith, pow-suc 2 n, pow_positive n)

bit-ones : (n l : ℕ) → l < n → bit (2 ^ n - 1) l ≡ 1
bit-ones zero l h = absurd (omega arith)
bit-ones (suc n) zero h = omega (arith, pow-suc 2 n, pow_positive n)
bit-ones (suc n) (suc l) h =
    let e : (2 ^ suc n - 1) / 2 ≡ 2 ^ n - 1 = omega (arith, pow-suc 2 n, pow_positive n) in
    ap (λ x. bit x l) e ∙ bit-ones n l (omega arith)

halve : (n k : ℕ) → (2 ^ suc n - 1 - 2 ^ suc k) / 2 ≡ 2 ^ n - 1 - 2 ^ k
halve n k = omega (arith, pow-suc 2 n, pow-suc 2 k, pow_positive n, pow_positive k)

pow_lt : (k n : ℕ) → k < n → 2 ^ k + 1 ≤ 2 ^ n
pow_lt k zero h = absurd (omega arith)
pow_lt zero (suc n) h = omega (arith, pow-suc 2 n, pow_positive n)
pow_lt (suc k) (suc n) h = omega (arith, pow-suc 2 n, pow-suc 2 k, pow_lt k n (omega arith))

-- `2 ^ n - 1 - 2 ^ k`: all of the `n` digits but that at `k`.
pub bit-complement : (n k : ℕ) → k < n → bit (2 ^ n - 1 - 2 ^ k) k ≡ 0
bit-complement zero k h = absurd (omega arith)
bit-complement (suc n) zero h = omega (arith, pow-suc 2 n, pow_positive n)
bit-complement (suc n) (suc k) h =
    let e : (2 ^ suc n - 1 - 2 ^ suc k) / 2 ≡ 2 ^ n - 1 - 2 ^ k = halve n k in
    ap (λ x. bit x k) e ∙ bit-complement n k (omega arith)

pub bit-complement_other : (n k l : ℕ) → k < n → l < n → k ≢ l → bit (2 ^ n - 1 - 2 ^ k) l ≡ 1
bit-complement_other zero k l h j ne = absurd (omega arith)
bit-complement_other (suc n) zero zero h j ne = absurd (ne refl)
bit-complement_other (suc n) zero (suc l) h j ne =
    let e : (2 ^ suc n - 1 - 1) / 2 ≡ 2 ^ n - 1 = omega (arith, pow-suc 2 n, pow_positive n) in
    ap (λ x. bit x l) e ∙ bit-ones n l (omega arith)
bit-complement_other (suc n) (suc k) zero h j ne =
    omega (arith, pow-suc 2 n, pow-suc 2 k, pow_positive n, pow_lt k n (omega arith))
bit-complement_other (suc n) (suc k) (suc l) h j ne =
    ap (λ x. bit x l) (halve n k)
    ∙ bit-complement_other n k l (omega arith) (omega arith) (λ q. ne (ap suc q))

and-none : (x n : ℕ) → x ≤ n → bit_and x 0 ≡ 0
and-none zero n h = none-and 0
and-none (suc x) zero h = absurd (omega arith)
and-none (suc x) (suc n) h =
    let above = and-none (suc x / 2) n (omega arith) in
    let split = bit_and_step (suc x) 0 in omega (arith, split, above)

-- `w & (1 << k)`
pub bit_and-pow : (k w : ℕ) → bit_and w (2 ^ k) ≡ bit w k * 2 ^ k
bit_and-pow zero w = omega (arith, bit_and_step w 1, and-none (w / 2) (w / 2) (omega arith))
bit_and-pow (suc k) w =
    let p = pow-suc 2 k in
    let h : 2 ^ suc k / 2 ≡ 2 ^ k = omega (arith, p) in
    let b = bit (w / 2) k in
    let s =
      subst (λ t. bit_and w (2 ^ suc k) ≡ min (w % 2) (2 ^ suc k % 2) + 2 * bit_and (w / 2) t) h
        (bit_and_step w (2 ^ suc k)) in
    omega (arith, p, s, bit_and-pow k (w / 2), ap (λ (t : ℕ). b * t) p)

pub bit-small : (k w : ℕ) → bit w k ≤ 1
bit-small zero w = omega arith
bit-small (suc k) w = bit-small k (w / 2)

-- The test of one digit.
pub mask_test : (k w : ℕ) → (bit_and w (2 ^ k) == 0) ≡ (bit w k == 0)
mask_test k w = rw (bit_and-pow k w) (at (bit w k) (bit-small k w))
  where
    at : (b : ℕ) → b ≤ 1 → (b * 2 ^ k == 0) ≡ (b == 0)
    at zero h = (==_iff (0 * 2 ^ k) 0).1 (omega arith)
    at (suc zero) h = ==_ne (1 * 2 ^ k) 0 (λ q. omega (arith, pow_positive k))
    at (suc (suc b)) h = absurd (omega arith)

-- `w & ~(1 << k)` on words of `n` digits clears the digit at `k` and keeps the others.
pub clear_digit :
    (n k w : ℕ) → k < n → (bit_and (bit_and w (2 ^ n - 1 - 2 ^ k)) (2 ^ k) == 0) ≡ true
clear_digit n k w h =
    mask_test k (bit_and w (2 ^ n - 1 - 2 ^ k))
    ∙ (==_iff _ 0).1 (omega (arith, bit-bit_and k w (2 ^ n - 1 - 2 ^ k), bit-complement n k h))

pub keep_digit :
    (n k l w : ℕ)
    → k < n
    → l < n
    → k ≢ l
    → (bit_and (bit_and w (2 ^ n - 1 - 2 ^ k)) (2 ^ l) == 0) ≡ (bit_and w (2 ^ l) == 0)
keep_digit n k l w h j ne =
    mask_test l (bit_and w (2 ^ n - 1 - 2 ^ k))
    ∙ ap (λ x. x == 0)
        (omega (
          arith,
          bit-bit_and l w (2 ^ n - 1 - 2 ^ k),
          bit-complement_other n k l h j ne,
          bit-small l w,
        ))
    ∙ sym (mask_test l w)
