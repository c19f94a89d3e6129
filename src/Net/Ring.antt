-- ===== src/Net/Ring.antt =====
-- The entries of a ring that are in use: what holds of the slots from a position on.
use jos_kernel.Base.{List, [], arith, length, subst, suc, ℕ, ◌%◌, ◌++◌, ◌+◌, ◌<◌, ◌∷◌, ◌≡◌, ◌≤◌}

module _ (size : ℕ) where
  -- Slot by slot from position `i` on, `P` of the slot and the packet.
  abbrev pub Holds : (ℕ → List ℕ → Type 0) → ℕ → List (List ℕ) → Type 0
  Holds P i [] = Unit {0}
  Holds P i (x ∷ q) = P (i % size) x × Holds P (i + 1) q

  pub Holds-snoc :
      (P : ℕ → List ℕ → Type 0) (i : ℕ) (q : List (List ℕ)) (x : List ℕ)
      → Holds P i q
      → P ((i + length q) % size) x
      → Holds P i (q ++ (x ∷ []))
  Holds-snoc P i [] x h p = let e : i + 0 ≡ i = omega arith in (subst (λ k. P (k % size) x) e p, tt)
  Holds-snoc P i (y ∷ q) x (a, h) p =
      let e : i + suc (length q) ≡ i + 1 + length q = omega arith in
      (a, Holds-snoc P (i + 1) q x h (subst (λ k. P (k % size) x) e p))

-- The slots of a window that is not full are not the slot behind it.
pub Holds-map :
    (size : ℕ) (P Q : ℕ → List ℕ → Type 0) (i : ℕ) (q : List (List ℕ))
    → ((j : ℕ) (x : List ℕ) → i ≤ j → j < i + length q → P (j % size) x → Q (j % size) x)
    → Holds size P i q
    → Holds size Q i q
Holds-map size P Q i [] f h = tt
Holds-map size P Q i (x ∷ q) f (a, h) = (
  f i x (omega arith) (omega arith) a,
  Holds-map size P Q (i + 1) q (λ j y lo hi. f j y (omega arith) (omega arith)) h,
)

-- Positions of the same slot are as good.
pub Holds-same :
    (size : ℕ) (P : ℕ → List ℕ → Type 0) (i i' : ℕ) (q : List (List ℕ))
    → ((a b : ℕ) → a % size ≡ b % size → (a + 1) % size ≡ (b + 1) % size)
    → i % size ≡ i' % size
    → Holds size P i q
    → Holds size P i' q
Holds-same size P i i' [] next e h = tt
Holds-same size P i i' (x ∷ q) next e (a, h) =
    (subst (λ k. P k x) e a, Holds-same size P (i + 1) (i' + 1) q next (next i i' e) h)
