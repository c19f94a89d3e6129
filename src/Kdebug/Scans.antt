-- ===== src/Kdebug/Scans.antt =====
-- The two scans of stab_binsearch for a stab of the type.
use jos_kernel.Base.{
  ==_false, ==_iff, Bool-cases, arith, inl, inr, ltb, subst, suc, true, zero, ℕ, ◌<◌, ◌==◌, ◌≡◌,
  ◌≤◌, leb,
}
use jos_kernel.Kdebug.{Stab, earliest, has_type, rightmost}

module _ (stabs : ℕ → Stab) (type : ℕ) where
  abbrev pub HasType : ℕ → Type 0
  HasType i = has_type stabs type i ≡ true

  -- `earliest` gives the last stab of the type from `l` to `m`, or an index below `l`.
  pub record Earliest (l m e : ℕ) : Type 0 where
    pub at_most : e ≤ m
    pub typed : l ≤ e → HasType e
    pub last : (i : ℕ) → e < i → l ≤ i → i ≤ m → ¬ HasType i

  pub earliest-Earliest : (l m : ℕ) → 1 ≤ l → Earliest l m (earliest stabs type l m)
  unfolding earliest
  earliest-Earliest l zero h = record {
    at_most = omega arith;
    typed = λ le. absurd (omega arith);
    last = λ i a b c t. absurd (omega arith);
  }
  earliest-Earliest l (suc m) h = elim (Bool-cases (ltb (suc m) l)) [
    | inl below ↦ rw below (record {
      at_most = omega arith;
      typed = λ le. absurd (ground arith);
      last = λ i a b c t. absurd (omega arith);
    })
    | inr above ↦ elim (Bool-cases (has_type stabs type (suc m))) [
      | inl yes_it ↦
          rw (above, yes_it)
            (record {
              at_most = omega arith;
              typed = λ le. yes_it;
              last = λ i a b c t. absurd (omega arith);
            })
      | inr other ↦
          let e = earliest-Earliest l m h in
          rw (above, other)
            (record {
              at_most = omega (arith, e.at_most);
              typed = e.typed;
              last = λ i a b c t. elim (Bool-cases (i == suc m)) [
                | inl top ↦
                    let q : i ≡ suc m = (==_iff i (suc m)).0 top in
                    let t' : HasType (suc m) = subst HasType q t in cc
                | inr under ↦ let ne = ==_false i (suc m) under in e.last i a b (omega arith) t
              ];
            })
    ]
  ]

  -- `rightmost` gives the last stab of the type between `left` and `l`, or `left`.
  pub record Rightmost (left l g : ℕ) : Type 0 where
    pub at_most : g ≤ l
    pub at_least : left ≤ l → left ≤ g
    pub typed : left < g → HasType g
    pub last : (i : ℕ) → g < i → i ≤ l → ¬ HasType i

  pub rightmost-Rightmost : (left l : ℕ) → Rightmost left l (rightmost stabs type left l)
  unfolding rightmost
  rightmost-Rightmost left zero = record {
    at_most = omega arith;
    at_least = λ h. h;
    typed = λ h. absurd (omega arith);
    last = λ i a b t. absurd (omega arith);
  }
  rightmost-Rightmost left (suc l) = elim (Bool-cases (leb (suc l) left)) [
    | inl stop_here ↦ rw stop_here (record {
      at_most = omega arith;
      at_least = λ h. h;
      typed = λ h. absurd (ground arith);
      last = λ i a b t. absurd (omega arith);
    })
    | inr above ↦ elim (Bool-cases (has_type stabs type (suc l))) [
      | inl yes_it ↦
          rw (above, yes_it)
            (record {
              at_most = omega arith;
              at_least = λ h. h;
              typed = λ h. yes_it;
              last = λ i a b t. absurd (omega arith);
            })
      | inr other ↦
          let e = rightmost-Rightmost left l in
          rw (above, other)
            (record {
              at_most = omega (arith, e.at_most);
              at_least = λ h. e.at_least (ground arith);
              typed = e.typed;
              last = λ i a b t. elim (Bool-cases (i == suc l)) [
                | inl top ↦
                    let q : i ≡ suc l = (==_iff i (suc l)).0 top in
                    let t' : HasType (suc l) = subst HasType q t in cc
                | inr under ↦ let ne = ==_false i (suc l) under in e.last i a (omega arith) t
              ];
            })
    ]
  ]
