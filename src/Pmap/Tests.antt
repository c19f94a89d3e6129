-- ===== src/Pmap/Tests.antt =====
-- The theorems about kern/pmap.c at concrete states, and runs of the code.
use jos_kernel.Base.{List, [], arith, inr, none, refl, ℕ, ◌+◌, ◌∷◌, ◌≡◌, inl, some_inv, subst}
use jos_kernel.Kernel.Layout.{round_up, pgnum}
use jos_kernel.Kernel.Outcome.{Returns, val}
use jos_kernel.Kernel.State.{Kernel}
use jos_kernel.Pmap.Region.{user_mem_check}
use jos_kernel.Pmap.Region.Check.{user_mem_check_lem, Checked}
use jos_kernel.Pmap.Space.{IsTree}
use jos_kernel.Pmap.Space.Insert.{Inserted, new_entry, page_insert_lem}
use jos_kernel.Pmap.Space.Steps.{IsCounted}
use jos_kernel.Pmap.Tree.{IsData}
use jos_kernel.Pmap.Tree.Keeps.{page_insert-IsTree}
use jos_kernel.Pmap.Walk.{page_insert}
use jos_kernel.Samples.{
  sample, mapped_sample, sample-IsTree, mapped_sample-IsTree, five-IsCounted, five-IsData,
}

page_insert_lem_example :
    Returns
      (λ r k'. (r ≡ val 0) × Inserted 2 0x801000 (new_entry 5 7) sample k')
      (page_insert 2 5 0x801000 7 sample)
page_insert_lem_example =
    page_insert_lem 2 0x801000 5 7 sample (3 ∷ 4 ∷ []) sample-IsTree (omega arith) (inr (λ e. cc))
      (λ e h. cc) (omega arith)

abbrev exhausted : Kernel
exhausted = record sample { page_free_list = none }

exhausted-IsTree : IsTree exhausted 2 []
exhausted-IsTree = record {
  free = tt;
  exists = λ i u. omega arith;
  apart = λ i j u v p q e. cc;
  not_root = λ i u p e. cc;
  in_use = λ i u p. cc;
  root_in_use = refl;
}

user_mem_check_lem_example :
    Returns
      (λ r k'. (k' ≡ mapped_sample) × Checked 2 5 mapped_sample 100 (round_up (100 + 200)) r)
      (user_mem_check 2 100 200 5 mapped_sample)
user_mem_check_lem_example =
    user_mem_check_lem 2 100 200 5 mapped_sample (λ i. ground arith) (omega arith)

page_insert-IsTree_example :
    Returns
      (λ r k'. (r ≡ val 0) × (ys : List ℕ) × IsTree k' 2 ys)
      (page_insert 2 5 0 7 mapped_sample)
page_insert-IsTree_example =
    page_insert-IsTree 2 0 5 7 mapped_sample (3 ∷ 4 ∷ []) mapped_sample-IsTree (omega arith)
      (inl refl) (λ e q. subst (λ x. IsCounted mapped_sample (pgnum x)) (some_inv q) five-IsCounted)
      (λ e q. subst (λ x. IsData mapped_sample 2 (3 ∷ 4 ∷ []) (pgnum x)) (some_inv q) five-IsData)
      five-IsData (omega arith)
