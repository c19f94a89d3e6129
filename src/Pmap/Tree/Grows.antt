-- ===== src/Pmap/Tree/Grows.antt =====
-- The tree when create_table adds a page table.
use native.Mathlib.Decide.{ℕ_discrete}
use jos_kernel.Base.{List, ap, false, refl, subst, sym, true, ℕ, ◌<◌, ◌∙◌, ◌∷◌, ◌≡◌, ◌≢◌}
use jos_kernel.Kernel.Layout.{pdx, pgnum, present}
use jos_kernel.Kernel.State.{Kernel, poke}
use jos_kernel.Pmap.Alloc.{alloc_zero, clear}
use jos_kernel.Pmap.Alloc.Free.{has}
use jos_kernel.Pmap.Alloc.FreeList.{Chain-Head, Chain-update, IsFree, has-ne, has-tail, taken}
use jos_kernel.Pmap.Space.{user_entries, IsTree}
use jos_kernel.Pmap.Space.Grow.{clear_other, poke_at, poke_other_word}
use jos_kernel.Pmap.Space.Steps.{grown, pde, table_entry, table_entry_parts}
use jos_kernel.Pmap.Tree.{IsData}

module _ (pgdir va p : ℕ) (k : Kernel) (xs : List ℕ) (tree : IsTree k pgdir (p ∷ xs))
    (u : pdx va < user_entries) (absent : present (pde pgdir va k) ≡ false) where
  abbrev k1 : Kernel
  k1 = grown pgdir va k p

  root_ne : pgdir ≢ p
  root_ne = has-ne pgdir p xs tree.root_in_use

  root_word : (i : ℕ) → i ≢ pdx va → k1.word pgdir i ≡ k.word pgdir i
  root_word i ne =
      poke_other_word (poke (clear k.word p) pgdir (pdx va) (table_entry p)) pgdir (pdx va)
        (table_entry p) pgdir i ne
      ∙ poke_other_word (clear k.word p) pgdir (pdx va) (table_entry p) pgdir i ne
      ∙ clear_other k.word p pgdir i root_ne

  root_made : k1.word pgdir (pdx va) ≡ table_entry p
  root_made =
      poke_at (poke (clear k.word p) pgdir (pdx va) (table_entry p)) pgdir (pdx va) (table_entry p)

  -- A property of the page that an entry of the directory names: of the new table, and of the old.
  each_table :
      (P : ℕ → ℕ → Type 0)
      → P (pdx va) p
      → ((i : ℕ) → i ≢ pdx va → present (k.word pgdir i) ≡ true → P i (pgnum (k.word pgdir i)))
      → (i : ℕ) → present (k1.word pgdir i) ≡ true
      → P i (pgnum (k1.word pgdir i))
  each_table P new old i h = elim (ℕ_discrete i (pdx va)) [
    | yes at ↦
        subst (λ x. P x (pgnum (k1.word pgdir x))) (sym at)
          (subst (P (pdx va)) (sym (ap pgnum root_made ∙ (table_entry_parts p).0)) new)
    | no ne ↦
        subst (P i) (sym (ap pgnum (root_word i ne)))
          (old i ne (sym (ap present (root_word i ne)) ∙ h))
  ]

  -- An old table is not the new one.
  old_table :
      (i : ℕ) → i < user_entries → present (k.word pgdir i) ≡ true → pgnum (k.word pgdir i) ≢ p
  old_table i v h = has-ne (pgnum (k.word pgdir i)) p xs (tree.in_use i v h)

  grown-apart_at :
      (i j : ℕ)
      → i < user_entries
      → j < user_entries
      → present (k1.word pgdir i) ≡ true
      → present (k1.word pgdir j) ≡ true
      → pgnum (k1.word pgdir i) ≡ pgnum (k1.word pgdir j)
      → i ≡ j
  grown-apart_at i j v w a b =
      each_table (λ i t. i < user_entries → t ≡ pgnum (k1.word pgdir j) → i ≡ j)
        (λ _.
          each_table (λ j t. j < user_entries → p ≡ t → pdx va ≡ j) (λ _ _. refl)
            (λ j ne h w e. absurd (old_table j w h (sym e))) j b w)
        (λ i ne h v.
          each_table (λ j t. j < user_entries → pgnum (k.word pgdir i) ≡ t → i ≡ j)
            (λ _ e. absurd (old_table i v h e)) (λ j ne' h' w e. tree.apart i j v w h h' e) j b w)
        i a v

  grown-exists : p < k.npages → (i : ℕ) → i < user_entries → pgnum (k1.word pgdir i) < k.npages
  grown-exists h i v = elim (ℕ_discrete i (pdx va)) [
    | yes at ↦
        subst (λ x. pgnum (k1.word pgdir x) < k.npages) (sym at)
          (subst (λ t. t < k.npages) (sym (ap pgnum root_made ∙ (table_entry_parts p).0)) h)
    | no ne ↦ subst (λ t. pgnum t < k.npages) (sym (root_word i ne)) (tree.exists i v)
  ]

  grown-IsFree : IsFree k1 xs
  grown-IsFree =
      let h = Chain-Head k.npages k.pages k.page_free_list p xs tree.free in
      Chain-update k.npages (taken alloc_zero p k).pages (k.pages p).pp_link xs p _ h.once
        (Chain-update k.npages k.pages (k.pages p).pp_link xs p _ h.once h.tail)

  -- The page directory with the new table is a tree, with the page off the free list.
  pub grown-IsTree : IsTree k1 pgdir xs
  grown-IsTree =
      let h = Chain-Head k.npages k.pages k.page_free_list p xs tree.free in
      record {
        free = grown-IsFree;
        exists = grown-exists h.exists;
        apart = grown-apart_at;
        not_root = λ i v a.
            each_table (λ i t. i < user_entries → t ≢ pgdir) (λ _ e. root_ne (sym e))
              (λ i ne b w. tree.not_root i w b) i a v;
        in_use = λ i v a.
            each_table (λ i t. i < user_entries → has t xs ≡ false) (λ _. h.once)
              (λ i ne b w. has-tail _ p xs (tree.in_use i w b)) i a v;
        root_in_use = has-tail pgdir p xs tree.root_in_use;
      }

  -- A data page stays one.
  pub grown-IsData : (q : ℕ) → IsData k pgdir (p ∷ xs) q → IsData k1 pgdir xs q
  grown-IsData q d = record {
    off_list = has-tail q p xs d.off_list;
    not_root = d.not_root;
    not_table = λ i v a.
        each_table (λ i t. i < user_entries → t ≢ q) (λ _ e. has-ne q p xs d.off_list (sym e))
          (λ i ne b w. d.not_table i w b) i a v;
  }
