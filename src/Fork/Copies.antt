-- ===== src/Fork/Copies.antt =====
-- The pages of the parent and of the child after fork.
use jos_kernel.Base.{
  ==_iff, ==_ne, ==_self, Bool-cases, List, Option, Option-cases, ap, arith, bit_and, false,
  if◌then◌else◌, inl, inr, lt-or-le, none, refl, some, subst, suc, sym, update, zero, ℕ, ◌+◌, ◌<◌,
  ◌==◌, ◌∙◌, ◌∷◌, ◌≡◌, ◌≢◌, ◌≤◌, ◌⊎◌,
}
use jos_kernel.Fork.{
  Pte, World, child_stack, cow_perm, dup_user, duppage, fork, fork_loop, has_bits, is_private,
  pte_share, put_page, take_frame, ustacktop_page, uxstack_page,
}
use jos_kernel.Kernel.Layout.{pte_syscall, pte_u}

-- The entry of the child for an entry of the parent, and what the parent's entry becomes.
abbrev pub copy_of : Pte → Pte
copy_of p =
    if has_bits pte_share p.perm
    then record { frame = p.frame; perm = bit_and p.perm pte_syscall }
    else if is_private p.perm
    then record { frame = p.frame; perm = cow_perm }
    else record { frame = p.frame; perm = 5 }

abbrev pub kept_of : Pte → Pte
kept_of p =
    if has_bits pte_share p.perm
    then p
    else if is_private p.perm
    then record { frame = p.frame; perm = cow_perm }
    else p

abbrev pub for_child : Option Pte → Option Pte → Option Pte
for_child none c = c
for_child (some p) c = if has_bits pte_u p.perm then some (copy_of p) else c

abbrev pub for_parent : Option Pte → Option Pte
for_parent none = none
for_parent (some p) = some (if has_bits pte_u p.perm then kept_of p else p)

module _ (e child : ℕ) (ne : e ≢ child) where
  -- A round of the loop at page `pn`, from `w` to `u`.
  record Round (pn : ℕ) (w u : World) : Type 0 where
    child_now : u.pages child pn ≡ for_child (w.pages e pn) (w.pages child pn)
    parent_now : u.pages e pn ≡ for_parent (w.pages e pn)
    rest : (a j : ℕ) → j ≢ pn → u.pages a j ≡ w.pages a j
    others : (a j : ℕ) → a ≢ e → a ≢ child → u.pages a j ≡ w.pages a j
    same_mem : u.mem ≡ w.mem
    same_free : u.free ≡ w.free
    same_fails : u.map_fails ≡ w.map_fails

  put_page-elsewhere :
      (a b pn j : ℕ) (p : Option Pte) (w : World)
      → (a ≢ b) ⊎ (j ≢ pn)
      → (put_page b pn p w).pages a j ≡ w.pages a j
  put_page-elsewhere a b pn j p w (inl apart) = let x = ==_ne a b apart in rw x refl
  put_page-elsewhere a b pn j p w (inr apart) =
      let x = ==_ne j pn apart in
      elim (Bool-cases (a == b)) [
        | inr other ↦ rw other refl
        | inl here ↦
            let q : a ≡ b = (==_iff a b).0 here in rw (here, x) (ap (λ k. w.pages k j) (sym q))
      ]

  put_page-here : (b pn : ℕ) (p : Option Pte) (w : World) → (put_page b pn p w).pages b pn ≡ p
  put_page-here b pn p w = let x = ==_self b in let y = ==_self pn in rw (x, y) refl

  -- Only the child gets an entry.
  child-Round :
      (pn : ℕ) (w : World) (p : Option Pte)
      → p ≡ for_child (w.pages e pn) (w.pages child pn)
      → w.pages e pn ≡ for_parent (w.pages e pn)
      → Round pn w (put_page child pn p w)
  child-Round pn w p q r = record {
    child_now = put_page-here child pn p w ∙ q;
    parent_now = put_page-elsewhere e child pn pn p w (inl ne) ∙ r;
    rest = λ a j b. put_page-elsewhere a child pn j p w (inr b);
    others = λ a j b c. put_page-elsewhere a child pn j p w (inl c);
    same_mem = refl;
    same_free = refl;
    same_fails = refl;
  }

  both-Round :
      (pn : ℕ) (w : World) (p : Option Pte)
      → p ≡ for_child (w.pages e pn) (w.pages child pn)
      → p ≡ for_parent (w.pages e pn)
      → Round pn w (put_page e pn p (put_page child pn p w))
  both-Round pn w p q r = record {
    child_now =
        put_page-elsewhere child e pn pn p (put_page child pn p w) (inl (λ z. ne (sym z)))
        ∙ put_page-here child pn p w
        ∙ q;
    parent_now = put_page-here e pn p (put_page child pn p w) ∙ r;
    rest = λ a j b.
        put_page-elsewhere a e pn j p (put_page child pn p w) (inr b)
        ∙ put_page-elsewhere a child pn j p w (inr b);
    others = λ a j b c.
        put_page-elsewhere a e pn j p (put_page child pn p w) (inl b)
        ∙ put_page-elsewhere a child pn j p w (inl c);
    same_mem = refl;
    same_free = refl;
    same_fails = refl;
  }

  skip-Round :
      (pn : ℕ) (w : World)
      → w.pages child pn ≡ for_child (w.pages e pn) (w.pages child pn)
      → w.pages e pn ≡ for_parent (w.pages e pn)
      → Round pn w w
  skip-Round pn w q r = record {
    child_now = q;
    parent_now = r;
    rest = λ a j b. refl;
    others = λ a j b c. refl;
    same_mem = refl;
    same_free = refl;
    same_fails = refl;
  }

  dup_user-Round :
      (pn : ℕ) (w : World)
      → ((a j : ℕ) → w.map_fails a j ≡ false)
      → (u : World) × (dup_user e child pn (w.pages e pn) w ≡ some u) × Round pn w u
  unfolding duppage
  dup_user-Round pn w works = elim (Option-cases (w.pages e pn)) [
    | inl nothing ↦ (w, rw nothing refl, skip-Round pn w (rw nothing refl) (rw nothing refl))
    | inr (p, there) ↦
        let c = works child pn in
        let m = works e pn in
        elim (Bool-cases (has_bits pte_u p.perm)) [
          | inr kernel ↦ (
            w,
            rw there (rw kernel refl),
            skip-Round pn w (rw there (rw kernel refl)) (rw there (rw kernel refl)),
          )
          | inl user ↦ elim (Bool-cases (has_bits pte_share p.perm)) [
            | inl shared ↦ (
              put_page child pn (some (copy_of p)) w,
              rw there (rw (user, shared, c) refl),
              child-Round pn w (some (copy_of p)) (rw there (rw user refl))
                  (rw there (rw (user, shared) refl)),
            )
            | inr own ↦ elim (Bool-cases (is_private p.perm)) [
              | inl writes ↦ (
                put_page e pn (some (copy_of p)) (put_page child pn (some (copy_of p)) w),
                rw there (rw (user, own, writes, c, m) refl),
                both-Round pn w (some (copy_of p)) (rw there (rw user refl))
                    (rw there (rw (user, own, writes) refl)),
              )
              | inr reads ↦ (
                put_page child pn (some (copy_of p)) w,
                rw there (rw (user, own, reads, c) refl),
                child-Round pn w (some (copy_of p)) (rw there (rw user refl))
                    (rw there (rw (user, own, reads) refl)),
              )
            ]
          ]
        ]
  ]

  -- The pages after the loop of fork from page `pn` on.
  record Forked (pn n : ℕ) (w u : World) : Type 0 where
    inside :
        (j : ℕ)
        → pn ≤ j
        → j < pn + n
        → (u.pages child j ≡ for_child (w.pages e j) (w.pages child j))
          × (u.pages e j ≡ for_parent (w.pages e j))
    outside : (a j : ℕ) → (j < pn) ⊎ (pn + n ≤ j) → u.pages a j ≡ w.pages a j
    apart : (a j : ℕ) → a ≢ e → a ≢ child → u.pages a j ≡ w.pages a j
    mem_kept : u.mem ≡ w.mem
    free_kept : u.free ≡ w.free
    fails_kept : u.map_fails ≡ w.map_fails

  fork_loop-Forked :
      (n pn : ℕ) (w : World)
      → ((a j : ℕ) → w.map_fails a j ≡ false)
      → (u : World) × (fork_loop e child n pn w ≡ some u) × Forked pn n w u
  unfolding fork_loop
  fork_loop-Forked zero pn w works = (
    w,
    refl,
    record {
      inside = λ j a b. absurd (omega arith);
      outside = λ a j o. refl;
      apart = λ a j b c. refl;
      mem_kept = refl;
      free_kept = refl;
      fails_kept = refl;
    },
  )
  fork_loop-Forked (suc n) pn w works =
      let (x, q, r) = dup_user-Round pn w works in
      let (u, q', f) =
        fork_loop-Forked n (pn + 1) x (λ a j. ap (λ g. g a j) r.same_fails ∙ works a j) in
      (
        u,
        rw (fork_loop, q) q',
        record {
          inside = λ j lo hi. elim (lt-or-le pn j) [
            | inl later ↦
                let far : j ≢ pn = λ z. omega (arith, z) in
                let (c, p) = f.inside j (omega arith) (omega arith) in
                let parent_old = r.rest e j far in
                let child_old = r.rest child j far in
                (
                  c
                      ∙ ap (λ y. for_child y (x.pages child j)) parent_old
                      ∙ ap (λ y. for_child (w.pages e j) y) child_old,
                  p ∙ ap for_parent parent_old,
                )
            | inr at_pn ↦
                let z : pn ≡ j = omega arith in
                subst
                  (λ k.
                    (u.pages child k ≡ for_child (w.pages e k) (w.pages child k))
                    × (u.pages e k ≡ for_parent (w.pages e k)))
                  z
                  (
                    f.outside child pn (inl (omega arith)) ∙ r.child_now,
                    f.outside e pn (inl (omega arith)) ∙ r.parent_now,
                  )
          ];
          outside = λ a j o. elim o [
            | inl before ↦ f.outside a j (inl (omega arith)) ∙ r.rest a j (λ z. omega (arith, z))
            | inr past ↦ f.outside a j (inr (omega arith)) ∙ r.rest a j (λ z. omega (arith, z))
          ];
          apart = λ a j b c. f.apart a j b c ∙ r.others a j b c;
          mem_kept = f.mem_kept ∙ r.same_mem;
          free_kept = f.free_kept ∙ r.same_free;
          fails_kept = f.fails_kept ∙ r.same_fails;
        },
      )

-- What fork leaves: the child's pages and stack, and what is as it was.
pub record Family (e child f : ℕ) (fs : List ℕ) (w u : World) : Type 0 where
  pub below :
      (j : ℕ)
      → j < ustacktop_page
      → (u.pages child j ≡ for_child (w.pages e j) (w.pages child j))
        × (u.pages e j ≡ for_parent (w.pages e j))
  pub stack : u.pages child uxstack_page ≡ some (record { frame = f; perm = 7 })
  pub above : (j : ℕ) → ustacktop_page ≤ j → u.pages e j ≡ w.pages e j
  pub child_above :
      (j : ℕ) → ustacktop_page ≤ j → j ≢ uxstack_page → u.pages child j ≡ w.pages child j
  pub others : (a j : ℕ) → a ≢ e → a ≢ child → u.pages a j ≡ w.pages a j
  pub cleared : (k : ℕ) → u.mem f k ≡ 0
  pub contents : (g : ℕ) → g ≢ f → u.mem g ≡ w.mem g
  pub left_free : u.free ≡ fs
  pub fails : u.map_fails ≡ w.map_fails

pub fork-Family :
    (e child f : ℕ) (fs : List ℕ) (w : World)
    → e ≢ child
    → ((a j : ℕ) → w.map_fails a j ≡ false)
    → w.free ≡ f ∷ fs
    → (u : World) × (fork e child w ≡ some u) × Family e child f fs w u
unfolding fork
fork-Family e child f fs w ne works free =
    let (x, q, r) = fork_loop-Forked e child ne ustacktop_page 0 w works in
    let fine = ap (λ g. g child uxstack_page) r.fails_kept ∙ works child uxstack_page in
    let p : Option Pte = some (record { frame = f; perm = 7 }) in
    let base : World = record x { mem = update x.mem f (λ o. 0); free = fs } in
    (
      put_page child uxstack_page p base,
      ap (child_stack child) q
          ∙ ap (λ l. take_frame child uxstack_page l x) (r.free_kept ∙ free)
          ∙ (rw fine refl),
      record {
        below = λ j low.
            let (c, k) = r.inside j (omega arith) (omega arith) in
            let far : j ≢ uxstack_page = λ z. omega (arith, z) in
            (
              put_page-elsewhere e child ne child child uxstack_page j p base (inr far) ∙ c,
              put_page-elsewhere e child ne e child uxstack_page j p base (inr far) ∙ k,
            );
        stack = put_page-here e child ne child uxstack_page p base;
        above = λ j high.
            put_page-elsewhere e child ne e child uxstack_page j p base (inl ne)
            ∙ r.outside e j (inr (omega arith));
        child_above = λ j high far.
            put_page-elsewhere e child ne child child uxstack_page j p base (inr far)
            ∙ r.outside child j (inr (omega arith));
        others = λ a j b c.
            put_page-elsewhere e child ne a child uxstack_page j p base (inl c) ∙ r.apart a j b c;
        cleared = λ k. let y = ==_self f in rw y refl;
        contents = λ g far. let y = ==_ne g f far in rw y (ap (λ m. m g) r.mem_kept);
        left_free = refl;
        fails = r.fails_kept;
      },
    )

-- If no call fails for want of memory, fork succeeds. Below USTACKTOP the child has each user page of the
-- parent, in the same frame: a shared page with its permissions of PTE_SYSCALL, a page that is writable or copied on
-- write as one that is copied on write, for the parent as well, and any other one read-only. The child's
-- exception stack is the first free frame, and the contents of all other frames, and the pages of all
-- other environments, are as they were.
pub fork_lem :
    (e child f : ℕ) (fs : List ℕ) (w : World)
    → e ≢ child
    → ((a j : ℕ) → w.map_fails a j ≡ false)
    → w.free ≡ f ∷ fs
    → (u : World) × (fork e child w ≡ some u)
      × ((j : ℕ)
          → j < ustacktop_page
          → (u.pages child j ≡ for_child (w.pages e j) (w.pages child j))
            × (u.pages e j ≡ for_parent (w.pages e j)))
      × (u.pages child uxstack_page ≡ some (record { frame = f; perm = 7 }))
      × ((a j : ℕ) → a ≢ e → a ≢ child → u.pages a j ≡ w.pages a j)
      × ((g : ℕ) → g ≢ f → u.mem g ≡ w.mem g)
fork_lem e child f fs w ne works free =
    let (u, q, v) = fork-Family e child f fs w ne works free in
    (u, q, v.below, v.stack, v.others, v.contents)
