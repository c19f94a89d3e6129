-- ===== src/Pmap/Space/Grow.antt =====
-- pgdir_walk with `create` set: the page table of an address, made if there is none, and what it
-- leaves of the address space.
use native.Mathlib.Decide.{ℕ_discrete}
use jos_kernel.Base.{
  arith, ◌+◌, ◌^◌, Bool-cases, inl, inr, ◌==◌, ℕ, ◌<◌, ◌≡◌, ◌≢◌, ◌⊎◌, refl, sym, ap, ◌∙◌, true,
  false, none, some, List, [], ◌∷◌, ==_self, ==_ne,
}
use jos_kernel.Kernel.Layout.{pdx, ptx, pgnum, present}
use jos_kernel.Kernel.Outcome.{ok, Returns, returned}
use jos_kernel.Kernel.State.{Kernel, poke}
use jos_kernel.Pmap.Alloc.{clear}
use jos_kernel.Pmap.Alloc.FreeList.{Chain-Head, Chain-nil, has-ne}
use jos_kernel.Pmap.Space.{user_entries, translate, IsTree}
use jos_kernel.Pmap.Space.Steps.{
  pde, table_entry, table_entry_parts, grown, create_table-grown, create_table-none,
  pgdir_walk-present, pgdir_walk-create,
}
use jos_kernel.Pmap.Walk.{pgdir_walk}

pub poke_at : (m : ℕ → ℕ → ℕ) (p i v : ℕ) → poke m p i v p i ≡ v
poke_at m p i v = rw (==_self p, ==_self i)

pub poke_other_page : (m : ℕ → ℕ → ℕ) (p i v q j : ℕ) → q ≢ p → poke m p i v q j ≡ m q j
poke_other_page m p i v q j ne = rw (==_ne q p ne)

pub poke_other_word : (m : ℕ → ℕ → ℕ) (p i v q j : ℕ) → j ≢ i → poke m p i v q j ≡ m q j
poke_other_word m p i v q j ne = elim (Bool-cases (q == p)) [
  | inl e ↦ rw (e, ==_ne j i ne)
  | inr e ↦ rw e
]

pub clear_at : (m : ℕ → ℕ → ℕ) (p j : ℕ) → clear m p p j ≡ 0
clear_at m p j = rw (==_self p)

pub clear_other : (m : ℕ → ℕ → ℕ) (p q j : ℕ) → q ≢ p → clear m p q j ≡ m q j
clear_other m p q j ne = rw (==_ne q p ne)

-- Equal entries give equal translations.
pub translate-congr :
    (pgdir va : ℕ) (k k' : Kernel)
    → pde pgdir va k' ≡ pde pgdir va k
    → (present (pde pgdir va k) ≡ true
        → k'.word (pgnum (pde pgdir va k)) (ptx va) ≡ k.word (pgnum (pde pgdir va k)) (ptx va))
    → translate k' pgdir va ≡ translate k pgdir va
translate-congr pgdir va k k' e h = elim (Bool-cases (present (pde pgdir va k))) [
  | inl p ↦ rw (e, p, h p)
  | inr a ↦ rw (e, a)
]

pub translate-none_of_pde :
    (pgdir va : ℕ) (k : Kernel) → present (pde pgdir va k) ≡ false → translate k pgdir va ≡ none
translate-none_of_pde pgdir va k a = rw a

pub translate-none_of_zero :
    (pgdir va t : ℕ) (k : Kernel)
    → pgnum (pde pgdir va k) ≡ t
    → k.word t (ptx va) ≡ 0
    → translate k pgdir va ≡ none
translate-none_of_zero pgdir va t k n z = elim (Bool-cases (present (pde pgdir va k))) [
  | inl p ↦ rw (p, n, z)
  | inr a ↦ rw a
]

-- What pgdir_walk leaves when it returns the slot of `va` in the page table `t`.
pub record Walked (pgdir va t : ℕ) (k k' : Kernel) : Type 0 where
  pub names : pgnum (pde pgdir va k') ≡ t
  pub is_present : present (pde pgdir va k') ≡ true
  pub exists : t < k'.npages
  pub not_root : t ≢ pgdir
  pub same : (va' : ℕ) → pdx va' < user_entries → translate k' pgdir va' ≡ translate k pgdir va'
  pub apart :
      (va' : ℕ)
      → pdx va' < user_entries
      → pdx va' ≢ pdx va
      → present (pde pgdir va' k') ≡ true
      → pgnum (pde pgdir va' k') ≢ t
  pub counts : (q : ℕ) → (k.pages q).pp_ref + 1 < 2 ^ 16 → (k'.pages q).pp_ref + 1 < 2 ^ 16
  pub idle : translate k pgdir va ≢ none → k' ≡ k

pub present-Walked :
    (pgdir va : ℕ) (k : Kernel) (xs : List ℕ)
    → IsTree k pgdir xs
    → pdx va < user_entries
    → present (pde pgdir va k) ≡ true
    → Walked pgdir va (pgnum (pde pgdir va k)) k k
present-Walked pgdir va k xs tree u p = record {
  names = refl;
  is_present = p;
  exists = tree.exists (pdx va) u;
  not_root = tree.not_root (pdx va) u p;
  same = λ va' u'. refl;
  apart = λ va' u' ne p' e. ne (tree.apart (pdx va') (pdx va) u' u p' p e);
  counts = λ q h. h;
  idle = λ _. refl;
}

module _ (pgdir va p : ℕ) (k : Kernel) (xs : List ℕ) (tree : IsTree k pgdir (p ∷ xs))
    (u : pdx va < user_entries) (absent : present (pde pgdir va k) ≡ false) where
  abbrev e : ℕ
  e = table_entry p

  abbrev cleared : ℕ → ℕ → ℕ
  cleared = clear k.word p

  abbrev once : ℕ → ℕ → ℕ
  once = poke cleared pgdir (pdx va) e

  not_root : pgdir ≢ p
  not_root = has-ne pgdir p xs tree.root_in_use

  -- A directory entry other than that of `va` keeps its value.
  entry_kept : (va' : ℕ) → pdx va' ≢ pdx va → pde pgdir va' (grown pgdir va k p) ≡ pde pgdir va' k
  entry_kept va' ne =
      poke_other_word once pgdir (pdx va) e pgdir (pdx va') ne
      ∙ poke_other_word cleared pgdir (pdx va) e pgdir (pdx va') ne
      ∙ clear_other k.word p pgdir (pdx va') not_root

  entry_made : pde pgdir va (grown pgdir va k p) ≡ table_entry p
  entry_made = poke_at once pgdir (pdx va) e

  -- So does every word of a page that is neither the directory nor the new table.
  word_kept : (q j : ℕ) → q ≢ pgdir → q ≢ p → (grown pgdir va k p).word q j ≡ k.word q j
  word_kept q j a b =
      poke_other_page once pgdir (pdx va) e q j a
      ∙ poke_other_page cleared pgdir (pdx va) e q j a
      ∙ clear_other k.word p q j b

  new_table_empty : (j : ℕ) → (grown pgdir va k p).word p j ≡ 0
  new_table_empty j =
      poke_other_page once pgdir (pdx va) e p j (λ q. not_root (sym q))
      ∙ poke_other_page cleared pgdir (pdx va) e p j (λ q. not_root (sym q))
      ∙ clear_at k.word p j

  grown-same :
      (va' : ℕ)
      → pdx va' < user_entries
      → translate (grown pgdir va k p) pgdir va' ≡ translate k pgdir va'
  grown-same va' u' = elim (ℕ_discrete (pdx va') (pdx va)) [
    | yes at ↦
        translate-none_of_zero pgdir va' p (grown pgdir va k p)
          (ap (λ i. pgnum ((grown pgdir va k p).word pgdir i)) at
            ∙ ap pgnum entry_made
            ∙ (table_entry_parts p).0)
          (new_table_empty (ptx va'))
        ∙ sym (translate-none_of_pde pgdir va' k (ap (λ i. present (k.word pgdir i)) at ∙ absent))
    | no ne ↦ translate-congr pgdir va' k (grown pgdir va k p) (entry_kept va' ne) λ p'.
        word_kept (pgnum (pde pgdir va' k)) (ptx va') (tree.not_root (pdx va') u' p')
          (has-ne _ p xs (tree.in_use (pdx va') u' p'))
  ]

  grown-apart :
      (va' : ℕ)
      → pdx va' < user_entries
      → pdx va' ≢ pdx va
      → present (pde pgdir va' (grown pgdir va k p)) ≡ true
      → pgnum (pde pgdir va' (grown pgdir va k p)) ≢ p
  grown-apart va' u' ne p' q =
      let kept = entry_kept va' ne in
      has-ne (pgnum (pde pgdir va' k)) p xs (tree.in_use (pdx va') u' (sym (ap present kept) ∙ p'))
        (sym (ap pgnum kept) ∙ q)

  grown-counts :
      (k.pages p).pp_ref ≡ 0
      → (q : ℕ) → (k.pages q).pp_ref + 1 < 2 ^ 16
      → ((grown pgdir va k p).pages q).pp_ref + 1 < 2 ^ 16
  grown-counts r q h = elim (Bool-cases (q == p)) [
    | inl at ↦ rw at (rw r (omega arith))
    | inr ne ↦ rw ne h
  ]

  pub grown-Walked :
      p < k.npages → (k.pages p).pp_ref ≡ 0 → Walked pgdir va p k (grown pgdir va k p)
  grown-Walked h r = record {
    names = ap pgnum entry_made ∙ (table_entry_parts p).0;
    is_present = ap present entry_made ∙ (table_entry_parts p).1;
    exists = h;
    not_root = λ q. not_root (sym q);
    same = grown-same;
    apart = grown-apart;
    counts = grown-counts r;
    idle = λ ne. absurd (ne (translate-none_of_pde pgdir va k absent));
  }

walk_present :
    (pgdir va : ℕ) (k : Kernel) (xs : List ℕ)
    → IsTree k pgdir xs
    → pdx va < user_entries
    → present (pde pgdir va k) ≡ true
    → Returns
        (λ r k'. (t : ℕ) × (r ≡ some (t, ptx va)) × Walked pgdir va t k k')
        (pgdir_walk pgdir va true k)
walk_present pgdir va k xs tree u p =
    rw (pgdir_walk-present pgdir va k true p (tree.exists (pdx va) u))
      (returned (pgnum (pde pgdir va k), refl, present-Walked pgdir va k xs tree u p))

-- With a page table in place, or a free page to make one, pgdir_walk with `create` set returns the
-- slot of `va`, and no user address is translated differently.
pub pgdir_walk-Walked :
    (pgdir va : ℕ) (k : Kernel) (xs : List ℕ)
    → IsTree k pgdir xs
    → pdx va < user_entries
    → present (pde pgdir va k) ≡ true ⊎ xs ≢ []
    → Returns
        (λ r k'. (t : ℕ) × (r ≡ some (t, ptx va)) × Walked pgdir va t k k')
        (pgdir_walk pgdir va true k)
pgdir_walk-Walked pgdir va k xs tree u (inl p) = walk_present pgdir va k xs tree u p
pgdir_walk-Walked pgdir va k [] tree u (inr ne) = absurd (ne refl)
pgdir_walk-Walked pgdir va k (p ∷ xs) tree u (inr ne) =
    elim (Bool-cases (present (pde pgdir va k))) [
      | inl q ↦ walk_present pgdir va k (p ∷ xs) tree u q
      | inr a ↦
          let h = Chain-Head k.npages k.pages k.page_free_list p xs tree.free in
          rw (pgdir_walk-create pgdir va k a (tree.exists (pdx va) u)) (
            rw (create_table-grown pgdir va k p h.first h.exists)
              (returned (p, refl, grown-Walked pgdir va p k xs tree u a h.exists h.ref)))
    ]

-- With no page table and no free page it returns NULL and changes nothing.
pub pgdir_walk-exhausted :
    (pgdir va : ℕ) (k : Kernel)
    → IsTree k pgdir []
    → pdx va < user_entries
    → present (pde pgdir va k) ≡ false
    → pgdir_walk pgdir va true k ≡ ok none k
pgdir_walk-exhausted pgdir va k tree u a =
    rw (pgdir_walk-create pgdir va k a (tree.exists (pdx va) u))
      (create_table-none pgdir va k (Chain-nil k.npages k.pages k.page_free_list tree.free))
