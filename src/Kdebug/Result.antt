-- ===== src/Kdebug/Result.antt =====
-- What stab_binsearch finds.
use jos_kernel.Base.{
  ==_iff, ==_ne, Bool-cases, arith, false, inl, inr, le→ltb, lt-or-le, ltb, lt→ltb, refl, some, suc,
  zero, ℕ, ◌%◌, ◌+◌, ◌/◌, ◌<◌, ◌==◌, ◌≡◌, ◌≤◌, ◌⊎◌, subst, ◌*◌, ◌-◌, ap, Bool, true,
}
use jos_kernel.Kdebug.{
  Search, Stab, earliest, narrow, round, search_loop, regions, rightmost, stab_binsearch, finish,
}
use jos_kernel.Kdebug.Inv.{
  Inv, IsTable, exact-Inv, higher-Inv, low_middle, lower-Inv, m_bounds, rounds_left, skip-Inv,
}
use jos_kernel.Kdebug.Scans.{Earliest, earliest-Earliest, HasType, rightmost-Rightmost, Rightmost}
use jos_kernel.Kernel.Layout.{u32_mod}

module _ (stabs : ℕ → Stab) (type first last addr : ℕ)
    (t : IsTable stabs type first last addr) where
  abbrev Kept : Search → Search → Type 0
  Kept s s' =
      Inv stabs type first last addr s'
      × (rounds_left stabs type first last addr s' < rounds_left stabs type first last addr s)

  module _ (s : Search) (v : Inv stabs type first last addr s) (m true_m : ℕ)
      (open_range : s.l ≤ s.r) (middle : true_m ≡ (s.l + s.r) / 2)
      (e : Earliest stabs type s.l true_m m) where
    narrow-Kept : s.l ≤ m → Kept s (narrow stabs type true_m m s)
    unfolding narrow
    narrow-Kept there =
        let bounds = m_bounds stabs type first last addr t s v m true_m open_range middle e there in
        let mid = low_middle stabs type first last addr t s v m true_m open_range middle e in
        elim (Bool-cases (ltb (stabs m).n_value s.addr)) [
          | inl less ↦ rw less (
            lower-Inv stabs type first last addr t s v m true_m open_range middle e there
                (ground arith),
            omega (arith, mid),
          )
          | inr not_less ↦ elim (Bool-cases (ltb s.addr (stabs m).n_value)) [
            | inl more ↦
                rw (not_less, more)
                  (
                    higher-Inv stabs type first last addr t s v m true_m open_range middle e there
                        (ground arith),
                    omega (arith, bounds, there),
                  )
            | inr not_more ↦
                let (once, v') =
                  exact-Inv stabs type first last addr t s v m true_m open_range middle e there
                    (ground arith) in
                let then_one = (==_iff s.addr addr).1 once in
                let now_none : ((s.addr + 1) % u32_mod == addr) ≡ false =
                  ==_ne ((s.addr + 1) % u32_mod) addr (λ q. omega (arith, once, t.in_range)) in
                rw (not_less, not_more) (v', rw (then_one, now_none) (omega (arith, there)))
          ]
        ]

    round-Kept : Kept s (round stabs type true_m m s)
    unfolding round
    round-Kept = elim (lt-or-le m s.l) [
      | inl gone ↦
          let mid = low_middle stabs type first last addr t s v m true_m open_range middle e in
          rw (lt→ltb m s.l gone) (
            skip-Inv stabs type first last addr t s v m true_m open_range middle e gone,
            omega (arith, mid),
          )
      | inr there ↦ rw (le→ltb m s.l there) (narrow-Kept there)
    ]

  -- With more fuel than rounds the loop ends by its test.
  search_loop-ends :
      (fuel : ℕ) (s : Search)
      → Inv stabs type first last addr s
      → rounds_left stabs type first last addr s < fuel
      → (s' : Search) × (search_loop stabs type fuel s ≡ some s')
        × Inv stabs type first last addr s'
        × (s'.r < s'.l)
  unfolding search_loop
  search_loop-ends zero s v enough = absurd (omega arith)
  search_loop-ends (suc fuel) s v enough = elim (Bool-cases (ltb s.r s.l)) [
    | inl done_now ↦ (s, rw done_now, v, ground arith)
    | inr more ↦
        let true_m : ℕ = (s.l + s.r) / 2 in
        let m = earliest stabs type s.l true_m in
        let first_l : 1 ≤ s.l = omega (arith, t.positive, v.lower) in
        let (v', less) =
          round-Kept s v m true_m (ground arith) refl
            (earliest-Earliest stabs type s.l true_m first_l) in
        let (s', e, w, over) =
          search_loop-ends fuel (round stabs type true_m m s) v' (omega (arith, less)) in
        (s', rw more e, w, over)
  ]

  abbrev before_search : Search
  before_search = record {
    region_left = first;
    region_right = last;
    l = first;
    r = last;
    addr = addr;
    any_matches = false;
  }

  before_search-Inv : Inv stabs type first last addr before_search
  before_search-Inv = record {
    lower = omega arith;
    upper = omega arith;
    before = λ i a b ty. absurd (omega arith);
    after = λ i a b ty. absurd (omega arith);
    right = refl;
    next = inl refl;
    now = inl refl;
    left_in = omega arith;
    left_low = inl refl;
    matched = λ q. (refl, λ i a b ty. omega arith);
  }

  -- The stab `lft` is the last of the type that is not behind the address, and `rgt` is the last index
  -- before the next stab of the type.
  pub record IsRegion (lft rgt : ℕ) : Type 0 where
    pub typed : HasType stabs type lft
    pub not_behind : (stabs lft).n_value ≤ addr
    pub lft_in : first ≤ lft
    pub holds : lft ≤ rgt
    pub rgt_in : rgt ≤ last
    pub alone : (i : ℕ) → lft < i → i ≤ rgt → ¬ HasType stabs type i
    pub next : (rgt ≡ last) ⊎ (HasType stabs type (rgt + 1) × (addr < (stabs (rgt + 1)).n_value))

  module _ (s : Search) (k : ℕ) (v : Inv stabs type first last addr s) (over : s.r < s.l)
      (low : first ≤ k) (high : k ≤ last) (typed : HasType stabs type k)
      (not_behind : (stabs k).n_value ≤ addr) where
    k-le-r : k ≤ s.r
    k-le-r = elim (lt-or-le s.r k) [
      | inl beyond ↦ let far = v.after k beyond high typed in absurd (omega arith)
      | inr within ↦ within
    ]

    left-le-r : s.region_left ≤ s.r
    left-le-r = elim v.left_low [
      | inl at_first ↦ omega (arith, at_first, k-le-r)
      | inr (ty, le, bound) ↦ elim (lt-or-le s.r s.region_left) [
        | inl beyond ↦ let far = v.after s.region_left beyond bound ty in absurd (omega arith)
        | inr within ↦ within
      ]
    ]

    rightmost-IsRegion : IsRegion (rightmost stabs type s.region_left s.r) s.r
    rightmost-IsRegion =
        let g = rightmost-Rightmost stabs type s.region_left s.r in
        let left_g = g.at_least left-le-r in
        let at_most = g.at_most in
        let in_range : first ≤ rightmost stabs type s.region_left s.r =
          omega (arith, v.left_in, left_g) in
        let ty : HasType stabs type (rightmost stabs type s.region_left s.r) = g_typed g left_g in
        record {
          typed = ty;
          not_behind = v.before (rightmost stabs type s.region_left s.r) in_range (omega arith) ty;
          lft_in = in_range;
          holds = at_most;
          rgt_in = v.upper;
          alone = g.last;
          next = v.next;
        }
      where
        g_typed :
            {n : ℕ}
            → Rightmost stabs type s.region_left s.r n
            → s.region_left ≤ n
            → HasType stabs type n
        g_typed {n} g le = elim (lt-or-le s.region_left n) [
          | inl more ↦ g.typed more
          | inr same ↦ elim v.left_low [
            | inr (ty, _, _) ↦
                let q : s.region_left ≡ n = omega arith in subst (HasType stabs type) q ty
            | inl at_first ↦ elim (lt-or-le n k) [
              | inl past ↦ absurd (g.last k past k-le-r typed)
              | inr at_k ↦
                  let q : k ≡ n = omega (arith, at_first) in subst (HasType stabs type) q typed
            ]
          ]
        ]

    -- The regions when the loop has ended and some stab `k` is not behind the address.
    regions-IsRegion : IsRegion (regions stabs type s).0 (regions stabs type s).1
    unfolding regions
    regions-IsRegion = elim (Bool-cases s.any_matches) [
      | inr nothing ↦
          let (at_end, none_of) = v.matched nothing in
          absurd (none_of k low (omega (arith, k-le-r)) typed)
      | inl something ↦ rw something (rw v.right rightmost-IsRegion)
    ]

  -- No stab of the type in the range starts at the address or before it.
  abbrev pub AllBehind : ℕ → Type 0
  AllBehind end = (i : ℕ) → first ≤ i → i < end → HasType stabs type i → addr < (stabs i).n_value

  typed_clash : {b : Bool} → b ≡ true → b ≡ false → ⊥
  typed_clash p q = cc

  find_before :
      (n : ℕ)
      → ((k : ℕ) × (first ≤ k)
          × (k < first + n)
          × HasType stabs type k
          × ((stabs k).n_value ≤ addr))
        ⊎ AllBehind (first + n)
  find_before zero = inr (λ i a b ty. absurd (omega arith))
  find_before (suc n) = elim (find_before n) [
    | inl (k, a, b, ty, le) ↦ inl (k, a, omega arith, ty, le)
    | inr none_of ↦ elim (lt-or-le addr (stabs (first + n)).n_value) [
      | inl far ↦ inr (λ i a b ty. elim (lt-or-le i (first + n)) [
        | inl low ↦ none_of i a low ty
        | inr at ↦
            let e : first + n ≡ i = omega arith in subst (λ j. addr < (stabs j).n_value) e far
      ])
      | inr near ↦ elim (Bool-cases ((stabs (first + n)).n_type == type)) [
        | inl ty ↦ inl (first + n, omega arith, omega arith, ty, near)
        | inr other ↦ inr (λ i a b ty. elim (lt-or-le i (first + n)) [
          | inl low ↦ none_of i a low ty
          | inr at ↦
              let e : i ≡ first + n = omega arith in
              absurd (typed_clash (subst (HasType stabs type) e ty) other)
        ])
      ]
    ]
  ]

  -- stab_binsearch returns, on stabs whose type is in increasing order, for an address such that no
  -- stab of the type is exactly one behind it. If some stab of the type in the range is not behind
  -- the address, the left region is the last such stab, and the right region ends just before the next
  -- stab of the type, or at the end of the range; otherwise every stab of the type is behind it.
  pub stab_binsearch_lem :
      (lft : ℕ) × (rgt : ℕ) × (stab_binsearch stabs type first last addr ≡ some (lft, rgt))
      × (IsRegion lft rgt ⊎ AllBehind (last + 1))
  unfolding stab_binsearch
  stab_binsearch_lem =
      let (s, e, v, over) =
        search_loop-ends (2 * (last + 1 - first) + 2) before_search before_search-Inv
          (ground arith) in
      (
        (regions stabs type s).0,
        (regions stabs type s).1,
        ap (finish stabs type) e,
        elim (find_before (last + 1 - first)) [
          | inl (k, a, b, ty, le) ↦ inl (regions-IsRegion s k v over a (omega arith) ty le)
          | inr none_of ↦ inr (λ i a b ty. none_of i a (omega arith) ty)
        ],
      )
