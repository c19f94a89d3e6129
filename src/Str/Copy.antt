-- ===== src/Str/Copy.antt =====
-- strcpy and strlcpy of lib/string.c.
use jos_kernel.Base.{
  ==_iff, ==_ne, Bool-cases, arith, inl, inr, refl, suc, true, update, zero, ℕ, ◌+◌, ◌-◌, ◌<◌, ◌==◌,
  ◌∙◌, ◌≡◌, ◌≤◌, ◌⊎◌,
}
use jos_kernel.Str.{strlcpy, strlcpy_loop}

-- What strlcpy_loop leaves, with `n` rounds from `dst`: the end, and the memory outside.
record InBounds (dst n : ℕ) (m : ℕ → ℕ) (r : (ℕ → ℕ) × ℕ) : Type 0 where
  from_start : dst ≤ r.1
  to_end : r.1 ≤ dst + n
  before : (a : ℕ) → a < dst → r.0 a ≡ m a
  after : (a : ℕ) → dst + n < a → r.0 a ≡ m a

strlcpy_loop-InBounds : (dst src n : ℕ) (m : ℕ → ℕ) → InBounds dst n m (strlcpy_loop dst src n m)
unfolding strlcpy_loop
strlcpy_loop-InBounds dst src zero m = record {
  from_start = omega arith;
  to_end = omega arith;
  before = λ a h. refl;
  after = λ a h. refl;
}
strlcpy_loop-InBounds dst src (suc n) m = elim (Bool-cases (m src == 0)) [
  | inl e ↦ rw e (record {
    from_start = omega arith;
    to_end = omega arith;
    before = λ a h. refl;
    after = λ a h. refl;
  })
  | inr e ↦
      let w = update m dst (m src) in
      let i = strlcpy_loop-InBounds (dst + 1) (src + 1) n w in
      rw e (record {
        from_start = omega (arith, i.from_start);
        to_end = omega (arith, i.to_end);
        before = λ a h. i.before a (omega arith) ∙ rw (==_ne a dst (λ q. omega arith));
        after = λ a h. i.after a (omega arith) ∙ rw (==_ne a dst (λ q. omega arith));
      })
]

-- Whatever `src` points to, strlcpy with a positive size returns less than the size, ends the copy
-- with a zero byte there, and writes no byte outside [dst, dst + size).
pub strlcpy_lem :
    (dst src size : ℕ) (m : ℕ → ℕ)
    → 0 < size
    → ((strlcpy dst src size m).1 < size)
      × ((strlcpy dst src size m).0 (dst + (strlcpy dst src size m).1) ≡ 0)
      × ((a : ℕ) → a < dst ⊎ dst + size ≤ a → (strlcpy dst src size m).0 a ≡ m a)
unfolding strlcpy
strlcpy_lem dst src zero m h = absurd (omega arith)
strlcpy_lem dst src (suc size) m h =
    let i = strlcpy_loop-InBounds dst src size m in
    let end = (strlcpy_loop dst src size m).1 in
    let back : (dst + (end - dst) == end) ≡ true = (==_iff _ _).1 (omega (arith, i.from_start)) in
    (
      omega (arith, i.from_start, i.to_end),
      rw back,
      λ a out. elim out [
        | inl b ↦ rw (==_ne a end (λ q. omega (arith, i.from_start))) (i.before a b)
        | inr b ↦ rw (==_ne a end (λ q. omega (arith, i.to_end))) (i.after a (omega arith))
      ],
    )
