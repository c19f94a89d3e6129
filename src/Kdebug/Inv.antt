-- ===== src/Kdebug/Inv.antt =====
-- What every round of stab_binsearch keeps.
use jos_kernel.Base.{
  arith, false, if◌then◌else◌, ℕ, ◌*◌, ◌+◌, ◌-◌, ◌/◌, ◌<◌, ◌==◌, ◌≡◌, ◌≢◌, ◌≤◌, ◌⊎◌, inl, inr,
  lt-or-le, refl, true, ◌%◌,
}
use jos_kernel.Kdebug.{Search, Stab}
use jos_kernel.Kdebug.Scans.{Earliest, HasType}
use jos_kernel.Kernel.Layout.{u32_mod}

module _ (stabs : ℕ → Stab) (type first last addr : ℕ) where
  abbrev pub value : ℕ → ℕ
  value i = (stabs i).n_value

  -- The stabs of the type are in increasing order, and none is just behind the address.
  pub record IsTable : Type 0 where
    pub positive : 1 ≤ first
    pub ordered :
        (i j : ℕ)
        → first ≤ i
        → i ≤ j
        → j ≤ last
        → HasType stabs type i
        → HasType stabs type j
        → value i ≤ value j
    pub none_next : (i : ℕ) → first ≤ i → i ≤ last → HasType stabs type i → value i ≢ addr + 1
    pub in_range : addr + 1 < u32_mod

  -- The stabs before `l` are not behind the address, those after `r` are.
  pub record Inv (s : Search) : Type 0 where
    pub lower : first ≤ s.l
    pub upper : s.r ≤ last
    pub before : (i : ℕ) → first ≤ i → i < s.l → HasType stabs type i → value i ≤ addr
    pub after : (i : ℕ) → s.r < i → i ≤ last → HasType stabs type i → addr < value i
    pub right : s.region_right ≡ s.r
    pub next : (s.r ≡ last) ⊎ (HasType stabs type (s.r + 1) × (addr < value (s.r + 1)))
    pub now : (s.addr ≡ addr) ⊎ (s.addr ≡ addr + 1)
    pub left_in : first ≤ s.region_left
    pub left_low :
        (s.region_left ≡ first)
        ⊎ (HasType stabs type s.region_left × (value s.region_left ≤ addr) × (s.region_left ≤ last))
    pub matched :
        s.any_matches ≡ false
        → (s.r ≡ last) × ((i : ℕ) → first ≤ i → i < s.l → ¬ HasType stabs type i)

  -- Twice the length of the range, and one until the address has been met.
  abbrev pub rounds_left : Search → ℕ
  rounds_left s = 2 * (s.r + 1 - s.l) + (if s.addr == addr then 1 else 0)

  module _ (t : IsTable) (s : Search) (v : Inv s) (m true_m : ℕ) (open_range : s.l ≤ s.r)
      (middle : true_m ≡ (s.l + s.r) / 2) (e : Earliest stabs type s.l true_m m) where
    pub low_middle : (s.l ≤ true_m) × (true_m ≤ s.r)
    low_middle = (omega arith, omega arith)

    -- No stab of the type up to the middle.
    pub skip-Inv : m < s.l → Inv (record s { l = true_m + 1 })
    skip-Inv gone = record {
      lower = omega (arith, v.lower, low_middle);
      upper = v.upper;
      before = λ i a b ty. elim (lt-or-le i s.l) [
        | inl old ↦ v.before i a old ty
        | inr new ↦ absurd (e.last i (omega arith) new (omega arith) ty)
      ];
      after = v.after;
      right = v.right;
      next = v.next;
      now = v.now;
      left_in = v.left_in;
      left_low = v.left_low;
      matched = λ q.
          let (at_end, none_of) = v.matched q in
          (
            at_end,
            λ i a b ty. elim (lt-or-le i s.l) [
              | inl old ↦ none_of i a old ty
              | inr new ↦ e.last i (omega arith) new (omega arith) ty
            ],
          );
    }

    module _ (some_stab : s.l ≤ m) where
      m_typed : HasType stabs type m
      m_typed = e.typed some_stab

      pub m_bounds : (first ≤ m) × (m ≤ s.r) × (m ≤ last)
      m_bounds = (
        omega (arith, v.lower),
        omega (arith, e.at_most, low_middle),
        omega (arith, e.at_most, low_middle, v.upper),
      )

      -- The stabs up to the middle are those up to `m`.
      up_to_m :
          value m ≤ addr
          → (i : ℕ) → first ≤ i
          → i < true_m + 1
          → HasType stabs type i
          → value i ≤ addr
      up_to_m h i a b ty = elim (lt-or-le m i) [
        | inl past ↦ absurd (e.last i past (omega arith) (omega arith) ty)
        | inr within ↦ omega (arith, t.ordered i m a within m_bounds.2 ty m_typed)
      ]

      pub lower-Inv :
          value m < s.addr → Inv (record s { any_matches = true; region_left = m; l = true_m + 1 })
      lower-Inv h = record {
        lower = omega (arith, v.lower, low_middle);
        upper = v.upper;
        before = up_to_m (ground (arith, v.now));
        after = v.after;
        right = v.right;
        next = v.next;
        now = v.now;
        left_in = m_bounds.0;
        left_low = inr (m_typed, ground (arith, v.now), m_bounds.2);
        matched = λ q. cc;
      }

      pub higher-Inv :
          s.addr < value m → Inv (record s { any_matches = true; region_right = m - 1; r = m - 1 })
      higher-Inv h =
          let above : addr < value m = ground (arith, v.now) in
          let back : m - 1 + 1 ≡ m = omega (arith, t.positive, m_bounds) in
          record {
            lower = v.lower;
            upper = omega (arith, m_bounds);
            before = v.before;
            after = λ i a b ty.
                omega (arith, t.ordered m i m_bounds.0 (omega arith) b m_typed ty, above);
            right = refl;
            next = inr (rw back (m_typed, above));
            now = v.now;
            left_in = v.left_in;
            left_low = v.left_low;
            matched = λ q. cc;
          }

      pub exact-Inv :
          value m ≡ s.addr
          → (s.addr ≡ addr)
            × Inv (record s {
              any_matches = true;
              region_left = m;
              l = m;
              addr = (s.addr + 1) % u32_mod;
            })
      exact-Inv h =
          let ne = t.none_next m m_bounds.0 m_bounds.2 m_typed in
          let first_time : s.addr ≡ addr = ground (arith, v.now, ne) in
          let at : value m ≤ addr = omega arith in
          (
            first_time,
            record {
              lower = m_bounds.0;
              upper = v.upper;
              before = λ i a b ty. up_to_m at i a (omega (arith, e.at_most)) ty;
              after = v.after;
              right = v.right;
              next = v.next;
              now = inr (omega (arith, first_time, t.in_range));
              left_in = m_bounds.0;
              left_low = inr (m_typed, at, m_bounds.2);
              matched = λ q. cc;
            },
          )
