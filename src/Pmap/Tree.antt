-- ===== src/Pmap/Tree.antt =====
-- The page tables stay a tree: page_insert and page_remove of kern/pmap.c keep IsTree.
pub mod Frees
pub mod Grows
pub mod Keeps
use jos_kernel.Base.{List, ap, false, subst, sym, true, ℕ, ◌<◌, ◌∙◌, ◌≡◌, ◌≢◌}
use jos_kernel.Kernel.Layout.{pgnum, present}
use jos_kernel.Kernel.State.{Kernel}
use jos_kernel.Pmap.Alloc.Free.{has}
use jos_kernel.Pmap.Alloc.FreeList.{IsFree}
use jos_kernel.Pmap.Space.{user_entries, IsTree}
use jos_kernel.Pmap.Walk.{in_use}

-- Page `p` holds data: it is neither free nor the page directory nor one of its page tables.
pub record IsData (k : Kernel) (pgdir : ℕ) (xs : List ℕ) (p : ℕ) : Type 0 where
  pub off_list : has p xs ≡ false
  pub not_root : p ≢ pgdir
  pub not_table :
      (i : ℕ) → i < user_entries → present (k.word pgdir i) ≡ true → pgnum (k.word pgdir i) ≢ p

-- A free list that has grown by at most the data page `q`.
pub record Freed (k : Kernel) (xs : List ℕ) (q : ℕ) : Type 0 where
  pub list : List ℕ
  pub free : IsFree k list
  pub others : (p : ℕ) → p ≢ q → has p xs ≡ false → has p list ≡ false

-- The tree in a state with the kept page directory and another free list.
pub IsTree-same_root :
    (k k' : Kernel) (pgdir q : ℕ) (xs : List ℕ)
    → IsTree k pgdir xs
    → IsData k pgdir xs q
    → ((i : ℕ) → k'.word pgdir i ≡ k.word pgdir i)
    → k'.npages ≡ k.npages
    → (f : Freed k' xs q) → IsTree k' pgdir f.list
IsTree-same_root k k' pgdir q xs tree leaf kept n f = record {
  free = f.free;
  exists = λ i u.
      subst (λ m. pgnum (k'.word pgdir i) < m) (sym n)
        (subst (λ w. pgnum w < k.npages) (sym (kept i)) (tree.exists i u));
  apart = λ i j u v a b e.
      tree.apart i j u v (sym (ap present (kept i)) ∙ a) (sym (ap present (kept j)) ∙ b)
        (sym (ap pgnum (kept i)) ∙ e ∙ ap pgnum (kept j));
  not_root =
      λ i u a e. tree.not_root i u (sym (ap present (kept i)) ∙ a) (sym (ap pgnum (kept i)) ∙ e);
  in_use = λ i u a.
      let a' = sym (ap present (kept i)) ∙ a in
      ap (λ w. has (pgnum w) f.list) (kept i)
      ∙ f.others (pgnum (k.word pgdir i)) (leaf.not_table i u a') (tree.in_use i u a');
  root_in_use = f.others pgdir (λ e. leaf.not_root (sym e)) tree.root_in_use;
}
