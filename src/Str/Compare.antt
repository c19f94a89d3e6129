-- ===== src/Str/Compare.antt =====
-- strcmp, strncmp and memcmp of lib/string.c.
use jos_kernel.Base.{
  ==_iff, Bool-cases, arith, inl, inr, ltb, suc, zero, ℕ, ◌+◌, ◌<◌, ◌==◌, ◌↔◌, ◌≡◌, ==_false, ap,
  if-false, if-true, not, refl, sym, ◌∙◌, ==_ne, Option, some, ◌≢◌, subst,
}
use jos_kernel.Str.{difference, memcmp, same, Difference, addresses, strcmp, strcmp_loop}
use jos_kernel.Str.Length.{IsString}

pub difference-same : (a b : ℕ) → difference a b ≡ same → a ≡ b
difference-same a b h = elim (Bool-cases (a == b)) [
  | inl q ↦ (==_iff a b).0 q
  | inr q ↦ elim (Bool-cases (ltb b a)) [ inl r ↦ cc | inr r ↦ cc ]
]

pub same-difference : (a b : ℕ) → a ≡ b → difference a b ≡ same
same-difference a b h = rw ((==_iff a b).1 h)

-- The bytes at `p` and `q` agree at index `i`.
abbrev AgreeAt : (ℕ → ℕ) → ℕ → ℕ → ℕ → Type 0
AgreeAt m p q i = m (p + i) ≡ m (q + i)

agree_zero : (m : ℕ → ℕ) (p q : ℕ) → m p ≡ m q → AgreeAt m p q 0
agree_zero m p q e =
    let a : p + 0 ≡ p = omega arith in let b : q + 0 ≡ q = omega arith in ap m a ∙ e ∙ sym (ap m b)

zero_agree : (m : ℕ → ℕ) (p q : ℕ) → AgreeAt m p q 0 → m p ≡ m q
zero_agree m p q e =
    let a : p + 0 ≡ p = omega arith in let b : q + 0 ≡ q = omega arith in sym (ap m a) ∙ e ∙ ap m b

agree_suc : (m : ℕ → ℕ) (p q i : ℕ) → AgreeAt m (p + 1) (q + 1) i → AgreeAt m p q (suc i)
agree_suc m p q i e =
    let a : p + suc i ≡ p + 1 + i = omega arith in
    let b : q + suc i ≡ q + 1 + i = omega arith in ap m a ∙ e ∙ sym (ap m b)

suc_agree : (m : ℕ → ℕ) (p q i : ℕ) → AgreeAt m p q (suc i) → AgreeAt m (p + 1) (q + 1) i
suc_agree m p q i e =
    let a : p + suc i ≡ p + 1 + i = omega arith in
    let b : q + suc i ≡ q + 1 + i = omega arith in sym (ap m a) ∙ e ∙ ap m b

-- Agreement at the first byte and at those after it.
agree_from :
    (m : ℕ → ℕ) (p q n : ℕ)
    → m p ≡ m q
    → ((i : ℕ) → i < n → AgreeAt m (p + 1) (q + 1) i)
    → (i : ℕ) → i < suc n
    → AgreeAt m p q i
agree_from m p q n e h zero b = agree_zero m p q e
agree_from m p q n e h (suc i) b = agree_suc m p q i (h i (omega arith))

memcmp-same : (m : ℕ → ℕ) (v w n : ℕ) → memcmp m v w n ≡ same → (i : ℕ) → i < n → AgreeAt m v w i
unfolding memcmp
memcmp-same m v w zero h i b = absurd (omega arith)
memcmp-same m v w (suc n) h i b = elim (Bool-cases (m v == m w)) [
  | inr q ↦
      absurd (==_false (m v) (m w) q (difference-same (m v) (m w) (sym (if-true _ (ap not q)) ∙ h)))
  | inl q ↦
      agree_from m v w n ((==_iff (m v) (m w)).0 q)
        (memcmp-same m (v + 1) (w + 1) n (sym (if-false _ (ap not q)) ∙ h)) i b
]

same-memcmp : (m : ℕ → ℕ) (v w n : ℕ) → ((i : ℕ) → i < n → AgreeAt m v w i) → memcmp m v w n ≡ same
unfolding memcmp
same-memcmp m v w zero h = refl
same-memcmp m v w (suc n) h =
    rw ((==_iff (m v) (m w)).1 (zero_agree m v w (h 0 (omega arith))))
      (same-memcmp m (v + 1) (w + 1) n λ i b. suc_agree m v w i (h (suc i) (omega arith)))

-- memcmp returns 0 exactly when the `n` bytes at `v` and `w` are the same.
pub memcmp_lem :
    (m : ℕ → ℕ) (v w n : ℕ) → (memcmp m v w n ≡ same) ↔ ((i : ℕ) → i < n → m (v + i) ≡ m (w + i))
memcmp_lem m v w n = (memcmp-same m v w n, same-memcmp m v w n)

-- What strcmp makes of two strings, the first of `n` bytes: it returns, and 0 only for equal ones.
abbrev Compares : (ℕ → ℕ) → ℕ → ℕ → ℕ → Option Difference → Type 0
Compares m p q n r =
    (d : Difference) × (r ≡ some d) × ((d ≡ same) ↔ ((i : ℕ) → i < suc n → AgreeAt m p q i))

differ : (m : ℕ → ℕ) (p q n : ℕ) → m p ≢ m q → Compares m p q n (some (difference (m p) (m q)))
differ m p q n ne = (
  difference (m p) (m q),
  refl,
  (
    λ h. absurd (ne (difference-same (m p) (m q) h)),
    λ h. absurd (ne (zero_agree m p q (h 0 (omega arith)))),
  ),
)

at_end : (m : ℕ → ℕ) (p q : ℕ) → Compares m p q 0 (some (difference (m p) (m q)))
at_end m p q = (
  difference (m p) (m q),
  refl,
  (
    λ h. agree_from m p q 0 (difference-same (m p) (m q) h) (λ i b. absurd (omega arith)),
    λ h. same-difference (m p) (m q) (zero_agree m p q (h 0 (omega arith))),
  ),
)

strcmp_loop-Compares :
    (m : ℕ → ℕ) (p q n fuel : ℕ)
    → IsString m p n
    → n < fuel
    → Compares m p q n (strcmp_loop m fuel p q)
unfolding strcmp_loop
strcmp_loop-Compares m p q n zero h b = absurd (omega arith)
strcmp_loop-Compares m p q zero (suc fuel) h b = rw ((==_iff (m p) 0).1 h) (at_end m p q)
strcmp_loop-Compares m p q (suc n) (suc fuel) (h, t) b = elim (Bool-cases (m p == m q)) [
  | inr e ↦ rw (==_ne (m p) 0 h) (
      subst (Compares m p q (suc n)) (sym (if-false _ e))
        (differ m p q (suc n) (==_false (m p) (m q) e)))
  | inl e ↦
      let (d, r, i) = strcmp_loop-Compares m (p + 1) (q + 1) n fuel t (omega arith) in
      rw (==_ne (m p) 0 h) (
        rw e (
          d,
          r,
          (
            λ s. agree_from m p q (suc n) ((==_iff (m p) (m q)).0 e) (i.0 s),
            λ s. i.1 (λ j c. suc_agree m p q j (s (suc j) (omega arith))),
          ),
        ))
]

-- strcmp returns, and its result is 0 exactly when the two strings are the same, the final zero byte
-- included: `n` is the length of the first.
pub strcmp_lem :
    (m : ℕ → ℕ) (p q n : ℕ)
    → IsString m p n
    → n < addresses
    → (d : Difference) × (strcmp m p q ≡ some d)
      × ((d ≡ same) ↔ ((i : ℕ) → i < suc n → m (p + i) ≡ m (q + i)))
unfolding strcmp
strcmp_lem m p q n h b = strcmp_loop-Compares m p q n addresses h b
