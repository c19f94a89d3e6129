-- ===== src/Fork/Family.antt =====
-- From fork to memories of their own.
use jos_kernel.Base.{
  ==_false, ==_iff, ==_ne, Bool-cases, List, Option-cases, [], ap, arith, false, if◌then◌else◌, inl,
  inr, lt-or-le, none, refl, some, subst, sym, true, ℕ, ◌<◌, ◌==◌, ◌∙◌, ◌∷◌, ◌≡◌, ◌≢◌, ◌⊎◌,
}
use jos_kernel.Fork.{Pte, World, has_bits, pte_share, ustacktop_page, uxstack_page}
use jos_kernel.Fork.Copies.{Family, copy_of, for_child, for_parent, kept_of}
use jos_kernel.Fork.Protect.{
  copy_of-frame, copy_of-protected, kept_of-frame, kept_of-protected, absent,
}
use jos_kernel.Fork.Separate.{Apart, Fresh, NotIn, Shows, some_pte}
use jos_kernel.Kernel.Layout.{pte_u, pte_w}

-- The page `k` of `b` is there, and is shared if `p` is.
abbrev pub IsLike : World → ℕ → ℕ → Pte → Type 0
IsLike u b k p =
    (q : Pte) × (u.pages b k ≡ some q) × (has_bits pte_share q.perm ≡ has_bits pte_share p.perm)

-- The pages after fork: the child has the user pages of the parent below USTACKTOP and a stack that is not
-- shared, and the other environments have the pages that they had.
pub record HasPages (e child : ℕ) (w u : World) : Type 0 where
  pub copies :
      (k : ℕ) (p : Pte)
      → k < ustacktop_page
      → w.pages e k ≡ some p
      → has_bits pte_u p.perm ≡ true
      → IsLike u child k p
  pub stack :
      (q : Pte) × (u.pages child uxstack_page ≡ some q)
      × (has_bits pte_w q.perm ≡ true)
      × (has_bits pte_share q.perm ≡ false)
  pub kept : (b k : ℕ) (p : Pte) → b ≢ child → w.pages b k ≡ some p → IsLike u b k p

-- What the child sees of the parent's memory, and its cleared stack.
abbrev pub inherited : ℕ → ℕ → (ℕ → ℕ → ℕ → ℕ) → ℕ → ℕ → ℕ → ℕ
inherited e child m b k i =
    if b == child then (if k == uxstack_page then 0 else m e k i) else m b k i

module _ (e child f : ℕ) (fs : List ℕ) (w u : World) (v : Family e child f fs w u) (apart : Apart w)
    (free : w.free ≡ f ∷ fs) (ne : e ≢ child) (no_pages : (k : ℕ) → w.pages child k ≡ none) where
  -- Where a page after fork comes from.
  data Origin (b k : ℕ) (q : Pte) : Type 0 where
    of_child :
        (p : Pte)
        → b ≡ child
        → k < ustacktop_page
        → w.pages e k ≡ some p
        → has_bits pte_u p.perm ≡ true
        → q ≡ copy_of p
        → Origin b k q
    of_parent : (p : Pte) → b ≡ e → w.pages e k ≡ some p → q ≡ kept_of p → Origin b k q
    of_before :
        b ≢ child
        → w.pages b k ≡ some q
        → (b ≡ e → k < ustacktop_page → has_bits pte_u q.perm ≡ false)
        → Origin b k q
    of_stack : b ≡ child → k ≡ uxstack_page → q ≡ record { frame = f; perm = 7 } → Origin b k q

  child-Origin : (k : ℕ) (q : Pte) → u.pages child k ≡ some q → Origin child k q
  child-Origin k q h = elim (lt-or-le k ustacktop_page) [
    | inl low ↦
        let c = sym (v.below k low).0 ∙ h in
        elim (Option-cases (w.pages e k)) [
          | inl nothing ↦
              let z : for_child (w.pages e k) (w.pages child k) ≡ none = rw nothing (no_pages k) in
              absurd (absent (sym z ∙ c))
          | inr (p, there) ↦ elim (Bool-cases (has_bits pte_u p.perm)) [
            | inl user ↦
                let z : for_child (w.pages e k) (w.pages child k) ≡ some (copy_of p) =
                  rw there (rw user refl) in
                of_child p refl low there user (some_pte (sym c ∙ z))
            | inr kernel ↦
                let z : for_child (w.pages e k) (w.pages child k) ≡ none =
                  rw there (rw kernel (no_pages k)) in
                absurd (absent (sym z ∙ c))
          ]
        ]
    | inr high ↦ elim (Bool-cases (k == uxstack_page)) [
      | inl at_stack ↦
          let z : k ≡ uxstack_page = (==_iff k uxstack_page).0 at_stack in
          let h' = subst (λ t. u.pages child t ≡ some q) z h in
          of_stack refl z (some_pte (sym h' ∙ v.stack))
      | inr other ↦
          let far = ==_false k uxstack_page other in
          absurd (absent (sym (v.child_above k high far ∙ no_pages k) ∙ h))
    ]
  ]

  parent-Origin : (k : ℕ) (q : Pte) → u.pages e k ≡ some q → Origin e k q
  parent-Origin k q h = elim (lt-or-le k ustacktop_page) [
    | inr high ↦ of_before ne (sym (v.above k high) ∙ h) (λ x low. absurd (omega arith))
    | inl low ↦
        let c = sym (v.below k low).1 ∙ h in
        elim (Option-cases (w.pages e k)) [
          | inl nothing ↦
              let z : for_parent (w.pages e k) ≡ none = rw nothing refl in
              absurd (absent (sym z ∙ c))
          | inr (p, there) ↦ elim (Bool-cases (has_bits pte_u p.perm)) [
            | inl user ↦
                let z : for_parent (w.pages e k) ≡ some (kept_of p) = rw there (rw user refl) in
                of_parent p refl there (some_pte (sym c ∙ z))
            | inr kernel ↦
                let z : for_parent (w.pages e k) ≡ some p = rw there (rw kernel refl) in
                let same = some_pte (sym z ∙ c) in
                of_before ne (there ∙ ap some same)
                  (λ x y. subst (λ t. has_bits pte_u t.perm ≡ false) same kernel)
          ]
        ]
  ]

  origin : (b k : ℕ) (q : Pte) → u.pages b k ≡ some q → Origin b k q
  origin b k q h = elim (Bool-cases (b == child)) [
    | inl is_child ↦
        let z : child ≡ b = sym ((==_iff b child).0 is_child) in
        subst (λ t. Origin t k q) z (child-Origin k q (subst (λ t. u.pages t k ≡ some q) (sym z) h))
    | inr not_child ↦ elim (Bool-cases (b == e)) [
      | inl is_parent ↦
          let z : e ≡ b = sym ((==_iff b e).0 is_parent) in
          subst (λ t. Origin t k q) z
            (parent-Origin k q (subst (λ t. u.pages t k ≡ some q) (sym z) h))
      | inr not_parent ↦
          let x = ==_false b e not_parent in
          let y = ==_false b child not_child in
          of_before y (sym (v.others b k x y) ∙ h) (λ z _. absurd (x z))
    ]
  ]

  Fresh-before : Fresh (f ∷ fs) w.pages
  Fresh-before = subst (λ l. Fresh l w.pages) free apart.fresh

  -- A page after fork has the new frame, or that of a page before.
  frame_before :
      (b k : ℕ) (q : Pte)
      → Origin b k q
      → ((b ≡ child) × (k ≡ uxstack_page) × (q.frame ≡ f))
        ⊎ ((a : ℕ) × (p : Pte) × (w.pages a k ≡ some p) × (q.frame ≡ p.frame))
  frame_before b k q (of_child p x y there user z) =
      inr (e, p, there, ap (λ t. t.frame) z ∙ copy_of-frame p)
  frame_before b k q (of_parent p x there z) =
      inr (e, p, there, ap (λ t. t.frame) z ∙ kept_of-frame p)
  frame_before b k q (of_before x there z) = inr (b, q, there, refl)
  frame_before b k q (of_stack x y z) = inl (x, y, ap (λ t. t.frame) z)

  Fresh-after : (gs : List ℕ) → NotIn f gs → Fresh gs w.pages → Fresh gs u.pages
  Fresh-after [] n h = tt
  Fresh-after (g ∷ gs) (far, n) (unmapped, out, h) = (
    λ b k q there. elim (frame_before b k q (origin b k q there)) [
      | inl (_, _, z) ↦ λ same. far (sym z ∙ same)
      | inr (a, p, old, z) ↦ λ same. unmapped a k p old (sym z ∙ same)
    ],
    out,
    Fresh-after gs n h,
  )

  -- A page that may be written without a fault, and is not shared, is the stack or as before.
  writable_before :
      (a j : ℕ) (p : Pte)
      → Origin a j p
      → has_bits pte_w p.perm ≡ true
      → has_bits pte_share p.perm ≡ false
      → ((a ≡ child) × (j ≡ uxstack_page) × (p.frame ≡ f))
        ⊎ ((w.pages a j ≡ some p) × (a ≡ e → j < ustacktop_page → has_bits pte_u p.perm ≡ false))
  writable_before a j p (of_child p' x y there user z) wr sr = absurd (elim (copy_of-protected p') [
    | inl shared ↦ cc (shared, z, sr)
    | inr reads ↦ cc (reads, z, wr)
  ])
  writable_before a j p (of_parent p' x there z) wr sr = absurd (elim (kept_of-protected p') [
    | inl shared ↦ cc (shared, z, sr)
    | inr reads ↦ cc (reads, z, wr)
  ])
  writable_before a j p (of_before x there z) wr sr = inr (there, z)
  writable_before a j p (of_stack x y z) wr sr = inl (x, y, ap (λ t. t.frame) z)

  same_page :
      (a j b k : ℕ) (p q : Pte)
      → w.pages a j ≡ some p
      → (a ≡ e → j < ustacktop_page → has_bits pte_u p.perm ≡ false)
      → has_bits pte_w p.perm ≡ true
      → has_bits pte_share p.perm ≡ false
      → Origin b k q
      → q.frame ≡ p.frame
      → (b ≡ a) × (k ≡ j)
  same_page a j b k p q old kernel wr sr (of_child p' x low there user z) same =
      let frame_p = sym (ap (λ t. t.frame) z ∙ copy_of-frame p') ∙ same in
      let (x', y') = apart.alone a j e k p p' old wr sr there frame_p in
      let old' = subst (λ t. w.pages t j ≡ some p) (sym x') old in
      let old'' = subst (λ t. w.pages e t ≡ some p) (sym y') old' in
      let is_p : p' ≡ p = some_pte (sym there ∙ old'') in
      let no_user = kernel (sym x') (subst (λ t. t < ustacktop_page) y' low) in
      absurd (cc (no_user, is_p, user))
  same_page a j b k p q old kernel wr sr (of_parent p' x there z) same =
      let frame_p = sym (ap (λ t. t.frame) z ∙ kept_of-frame p') ∙ same in
      let (x', y') = apart.alone a j e k p p' old wr sr there frame_p in (x ∙ x', y')
  same_page a j b k p q old kernel wr sr (of_before x there z) same =
      apart.alone a j b k p q old wr sr there same
  same_page a j b k p q old kernel wr sr (of_stack x y z) same =
      absurd (Fresh-before.0 a j p old (sym same ∙ ap (λ t. t.frame) z))

  same_stack :
      (a j b k : ℕ) (q : Pte)
      → (a ≡ child) × (j ≡ uxstack_page)
      → Origin b k q
      → q.frame ≡ f
      → (b ≡ a) × (k ≡ j)
  same_stack a j b k q (x, y) o same = elim (frame_before b k q o) [
    | inl (x', y', _) ↦ (x' ∙ sym x, y' ∙ sym y)
    | inr (a', p, old, z) ↦ absurd (Fresh-before.0 a' k p old (sym z ∙ same))
  ]

  pub family-Apart : Apart u
  family-Apart = record {
    alone = λ a j b k p q hp wr sr hq same. elim (writable_before a j p (origin a j p hp) wr sr) [
      | inl (x, y, z) ↦ same_stack a j b k q (x, y) (origin b k q hq) (same ∙ z)
      | inr (old, kernel) ↦ same_page a j b k p q old kernel wr sr (origin b k q hq) same
    ];
    fresh =
        subst (λ l. Fresh l u.pages) (sym v.left_free)
          (Fresh-after fs Fresh-before.1 Fresh-before.2);
  }

  pub family-Shows : (m : ℕ → ℕ → ℕ → ℕ) → Shows w m → Shows u (inherited e child m)
  family-Shows m h b k i q there = shown (origin b k q there)
    where
      kept_frame :
          (a : ℕ) (p : Pte) → w.pages a k ≡ some p → q.frame ≡ p.frame → u.mem q.frame i ≡ m a k i
      kept_frame a p old z =
          ap (λ t. u.mem t i) z
          ∙ ap (λ g. g i) (v.contents p.frame (Fresh-before.0 a k p old))
          ∙ h a k i p old

      shown : Origin b k q → u.mem q.frame i ≡ inherited e child m b k i
      shown (of_child p x low old user z) =
          let is_child = (==_iff b child).1 x in
          let not_stack = ==_ne k uxstack_page (λ t. omega (arith, t)) in
          rw (is_child, not_stack) (kept_frame e p old (ap (λ t. t.frame) z ∙ copy_of-frame p))
      shown (of_parent p x old z) =
          let not_child = ==_ne b child (λ t. ne (sym x ∙ t)) in
          rw not_child
            (kept_frame e p old (ap (λ t. t.frame) z ∙ kept_of-frame p) ∙ ap (λ t. m t k i) (sym x))
      shown (of_before x old z) =
          let not_child = ==_ne b child x in rw not_child (kept_frame b q old refl)
      shown (of_stack x y z) =
          let is_child = (==_iff b child).1 x in
          let is_stack = (==_iff k uxstack_page).1 y in
          rw (is_child, is_stack) (ap (λ t. u.mem t.frame i) z ∙ v.cleared i)
