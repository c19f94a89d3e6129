-- ===== src/Pmap/Space/Remove.antt =====
-- page_remove: which translations it changes, the count of the page and the TLB.
use jos_kernel.Base.{
  ==_self, ◌≤◌, ◌∷◌, ◌-◌, ℕ, ◌<◌, ◌≡◌, ◌≢◌, ◌⊎◌, refl, sym, ap, ◌∙◌, subst, true, false, none, some,
  List, ==_iff, ◌==◌, arith, Bool-cases, inl, inr, some_inv,
}
use jos_kernel.Kernel.Layout.{pdx, ptx, pgnum, present}
use jos_kernel.Kernel.Outcome.{fault, Returns, returned}
use jos_kernel.Kernel.State.{Kernel}
use jos_kernel.Pmap.Space.{user_entries, translate, IsTree}
use jos_kernel.Pmap.Space.Grow.{
  present-Walked, translate-none_of_pde, Walked, poke_at, poke_other_page, poke_other_word,
}
use jos_kernel.Pmap.Space.Insert.{
  Poked, others_kept, pte_written, translate-none_of_pte, translate-some,
}
use jos_kernel.Pmap.Space.Steps.{
  decremented, page_lookup-fault, pde, pte, IsCounted, removed, page_remove-removed,
}
use jos_kernel.Pmap.Walk.{page_remove, in_use}

-- What page_remove promises of the address space.
pub record Removed (pgdir va : ℕ) (k k' : Kernel) : Type 0 where
  pub unmapped : translate k' pgdir va ≡ none
  pub others :
      (va' : ℕ)
      → pdx va' < user_entries
      → pdx va' ≢ pdx va ⊎ ptx va' ≢ ptx va
      → translate k' pgdir va' ≡ translate k pgdir va'
  pub flushed : in_use pgdir k ≡ true → k'.flushed ≡ va ∷ k.flushed

-- A translated address has both entries present.
pub record Mapped (pgdir va entry : ℕ) (k : Kernel) : Type 0 where
  pub table : present (pde pgdir va k) ≡ true
  pub page : present (pte pgdir va k) ≡ true
  pub is_entry : pte pgdir va k ≡ entry

pub translate-Mapped :
    (pgdir va entry : ℕ) (k : Kernel) → translate k pgdir va ≡ some entry → Mapped pgdir va entry k
translate-Mapped pgdir va entry k e = elim (Bool-cases (present (pde pgdir va k))) [
  | inr a ↦ cc (translate-none_of_pde pgdir va k a)
  | inl p ↦ elim (Bool-cases (present (pte pgdir va k))) [
    | inr b ↦ cc (translate-none_of_pte pgdir va k b)
    | inl q ↦ record {
      table = p;
      page = q;
      is_entry = some_inv (sym (translate-some pgdir va (pte pgdir va k) k p refl q) ∙ e);
    }
  ]
]

decremented-ref :
    (q : ℕ) (k : Kernel)
    → 1 ≤ (k.pages q).pp_ref
    → ((decremented q k).pages q).pp_ref ≡ (k.pages q).pp_ref - 1
decremented-ref q k h = elim (Bool-cases ((k.pages q).pp_ref == 1)) [
  | inl e ↦ rw e (rw (==_self q) (omega (arith, (==_iff (k.pages q).pp_ref 1).0 e)))
  | inr e ↦ rw e (rw (==_self q))
]

removed-Removed :
    (pgdir va : ℕ) (k : Kernel)
    → Walked pgdir va (pgnum (pde pgdir va k)) k k
    → Removed pgdir va k (removed pgdir va k)
removed-Removed pgdir va k w =
    let t = pgnum (pde pgdir va k) in
    let m : Poked k.word t (ptx va) 0 (removed pgdir va k) = record {
      written = poke_at k.word t (ptx va) 0;
      page_kept = poke_other_page k.word t (ptx va) 0;
      word_kept = poke_other_word k.word t (ptx va) 0;
    } in
    record {
      unmapped =
          translate-none_of_pte pgdir va (removed pgdir va k)
            (ap present (pte_written pgdir va 0 k k (removed pgdir va k) w m));
      others = others_kept pgdir va 0 k k (removed pgdir va k) w m;
      flushed = λ q. rw q;
    }

pub page_remove_lem :
    (pgdir va entry : ℕ) (k : Kernel) (xs : List ℕ)
    → IsTree k pgdir xs
    → pdx va < user_entries
    → translate k pgdir va ≡ some entry
    → IsCounted k (pgnum entry)
    → Returns
        (λ _ k'.
          Removed pgdir va k k'
          × ((k'.pages (pgnum entry)).pp_ref ≡ (k.pages (pgnum entry)).pp_ref - 1))
        (page_remove pgdir va k)
page_remove_lem pgdir va entry k xs tree u e c =
    let m = translate-Mapped pgdir va entry k e in
    let t = pgnum (pde pgdir va k) in
    let w = present-Walked pgdir va k xs tree u m.table in
    let c' = subst (λ x. IsCounted k (pgnum x)) (sym m.is_entry) c in
    rw (page_remove-removed pgdir va k m.table (tree.exists (pdx va) u) m.page c') (
      returned (
        removed-Removed pgdir va k w,
        subst (λ x. ((removed pgdir va k).pages (pgnum x)).pp_ref ≡ (k.pages (pgnum x)).pp_ref - 1)
            m.is_entry (decremented-ref (pgnum (pte pgdir va k)) k c'.positive),
      ))

-- With no page table for the address page_remove reads through a null pointer.
pub page_remove-fault :
    (pgdir va : ℕ) (k : Kernel) (xs : List ℕ)
    → IsTree k pgdir xs
    → pdx va < user_entries
    → present (pde pgdir va k) ≡ false
    → page_remove pgdir va k ≡ fault
unfolding page_remove
page_remove-fault pgdir va k xs tree u a =
    rw (page_lookup-fault pgdir va k a (tree.exists (pdx va) u))
