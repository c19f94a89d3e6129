-- ===== src/Pmap/Space/Fresh.antt =====
-- An address space across page_alloc, which clears a page that is on the free list.
use jos_kernel.Base.{
  List, ap, arith, subst, sym, ℕ, ◌<◌, ◌^◌, ◌∙◌, ◌∷◌, ◌≡◌, ◌≢◌, ◌≤◌, [], inl, inr, true, ◌+◌, ◌⊎◌,
}
use jos_kernel.Kernel.Layout.{pdx, pgnum, present, ptx}
use jos_kernel.Kernel.State.{Kernel, PageInfo}
use jos_kernel.Pmap.Alloc.{alloc_zero}
use jos_kernel.Pmap.Alloc.Free.{has}
use jos_kernel.Pmap.Alloc.FreeList.{has-ne, others-clear, taken, taken-Allocated, has-tail}
use jos_kernel.Pmap.Space.{user_entries, IsTree, translate}
use jos_kernel.Pmap.Space.Grow.{translate-congr}
use jos_kernel.Pmap.Space.Insert.{IsReplaceable, Inserted}
use jos_kernel.Pmap.Space.Steps.{pde}

module _ (pgdir x : ℕ) (k : Kernel) (xs : List ℕ) (tree : IsTree k pgdir (x ∷ xs)) where
  root_other : pgdir ≢ x
  root_other = has-ne pgdir x xs tree.root_in_use

  pub root_word : (i : ℕ) → (taken alloc_zero x k).word pgdir i ≡ k.word pgdir i
  root_word i = others-clear alloc_zero x pgdir i k root_other

  -- The page directory is still a tree, and the page is off the free list.
  pub taken-IsTree : IsTree (taken alloc_zero x k) pgdir xs
  taken-IsTree =
      let kept = root_word in
      record {
        free = (taken-Allocated alloc_zero x xs k tree.free).free;
        exists = λ i u. subst (λ w. pgnum w < k.npages) (sym (kept i)) (tree.exists i u);
        apart = λ i j u v p q e.
            tree.apart i j u v (sym (ap present (kept i)) ∙ p) (sym (ap present (kept j)) ∙ q)
              (sym (ap pgnum (kept i)) ∙ e ∙ ap pgnum (kept j));
        not_root = λ i u p e.
            tree.not_root i u (sym (ap present (kept i)) ∙ p) (sym (ap pgnum (kept i)) ∙ e);
        in_use = λ i u p.
            ap (λ w. has (pgnum w) xs) (kept i)
            ∙ has-tail _ x xs (tree.in_use i u (sym (ap present (kept i)) ∙ p));
        root_in_use = has-tail pgdir x xs tree.root_in_use;
      }

  -- No user address is translated differently.
  pub taken-translate :
      (va : ℕ)
      → pdx va < user_entries
      → translate (taken alloc_zero x k) pgdir va ≡ translate k pgdir va
  taken-translate va u = translate-congr pgdir va k (taken alloc_zero x k) (root_word (pdx va)) λ p.
      others-clear alloc_zero x (pgnum (pde pgdir va k)) (ptx va) k
        (has-ne _ x xs (tree.in_use (pdx va) u p))

  -- A mapped page can be unmapped as before: it is not the free page, which has no references.
  pub taken-IsReplaceable :
      (va : ℕ)
      → pdx va < user_entries
      → (k.pages x).pp_ref ≡ 0
      → IsReplaceable pgdir va k
      → IsReplaceable pgdir va (taken alloc_zero x k)
  taken-IsReplaceable va u r old e q =
      let c = old e (sym (taken-translate va u) ∙ q) in
      let same : (taken alloc_zero x k).pages (pgnum e) ≡ k.pages (pgnum e) =
        (taken-Allocated alloc_zero x xs k tree.free).pages (pgnum e)
          (λ at. omega (arith, c.positive, ap (λ i. (k.pages i).pp_ref) at, r)) in
      record {
        exists = c.exists;
        positive = subst (λ v. 1 ≤ PageInfo.pp_ref v) (sym same) c.positive;
        small = subst (λ v. PageInfo.pp_ref v < 2 ^ 16) (sym same) c.small;
        unlinked = ap PageInfo.pp_link same ∙ c.unlinked;
      }

  -- There is still a page table for `va` or a page to make one.
  pub taken-room :
      (va : ℕ)
      → present (pde pgdir va k) ≡ true ⊎ xs ≢ []
      → present (pde pgdir va (taken alloc_zero x k)) ≡ true ⊎ xs ≢ []
  taken-room va (inl p) = inl (ap present (root_word (pdx va)) ∙ p)
  taken-room va (inr q) = inr q

  -- The page that was taken has no references yet.
  pub taken-unshared : ((taken alloc_zero x k).pages x).pp_ref + 1 < 2 ^ 16
  taken-unshared = omega (arith, (taken-Allocated alloc_zero x xs k tree.free).ref)

  pub taken-Inserted :
      (va entry : ℕ) (k' : Kernel)
      → Inserted pgdir va entry (taken alloc_zero x k) k'
      → Inserted pgdir va entry k k'
  taken-Inserted va entry k' i = record {
    mapped = i.mapped;
    others = λ va' u ne. i.others va' u ne ∙ taken-translate va' u;
  }
