-- ===== src/Pmap/Tree/Frees.antt =====
-- The free list when the count of a page rises or falls.
use jos_kernel.Base.{
  ==_ne, ==_self, Bool-cases, List, Option, [], ap, arith, false, inl, inr, none, refl, some, ℕ,
  ◌==◌, ◌∷◌, ◌≡◌, ◌≢◌, ◌≤◌,
}
use jos_kernel.Kernel.State.{Kernel, PageInfo}
use jos_kernel.Pmap.Alloc.Free.{counted, given-IsFree, has}
use jos_kernel.Pmap.Alloc.FreeList.{Chain, Chain-update, IsFree}
use jos_kernel.Pmap.Space.Insert.{incremented}
use jos_kernel.Pmap.Space.Steps.{IsCounted, decremented}
use jos_kernel.Pmap.Tree.{Freed}

-- A page with a reference is not on the free list.
pub counted-off_list :
    (n : ℕ) (pages : ℕ → PageInfo) (head : Option ℕ) (xs : List ℕ) (q : ℕ)
    → Chain n pages head xs
    → 1 ≤ (pages q).pp_ref
    → has q xs ≡ false
counted-off_list n pages head [] q c h = refl
counted-off_list n pages none (x ∷ xs) q c h = absurd c
counted-off_list n pages (some p) (x ∷ xs) q c h =
    let ne : q ≢ x = λ e. omega (arith, ap (λ i. (pages i).pp_ref) e, c.2) in
    rw (==_ne q x ne) (counted-off_list n pages (pages x).pp_link xs q c.4 h)

pub incremented-IsFree :
    (pp : ℕ) (k : Kernel) (xs : List ℕ)
    → IsFree k xs
    → has pp xs ≡ false
    → IsFree (incremented pp k) xs
incremented-IsFree pp k xs f out = Chain-update k.npages k.pages k.page_free_list xs pp _ out f

-- page_decref frees at most the page itself.
pub decremented-Freed :
    (q : ℕ) (k : Kernel) (xs : List ℕ) → IsFree k xs → IsCounted k q → Freed (decremented q k) xs q
decremented-Freed q k xs f c =
    let out = counted-off_list k.npages k.pages k.page_free_list xs q f c.positive in
    elim (Bool-cases ((k.pages q).pp_ref == 1)) [
      | inl one ↦ record {
        list = q ∷ xs;
        free = rw one (
            given-IsFree q xs (counted q 0 k)
              (Chain-update k.npages k.pages k.page_free_list xs q _ out f) c.exists out
              (rw (==_self q)));
        others = λ p ne h. rw (==_ne p q ne) h;
      }
      | inr more ↦ record {
        list = xs;
        free = rw more (Chain-update k.npages k.pages k.page_free_list xs q _ out f);
        others = λ p ne h. h;
      }
    ]
