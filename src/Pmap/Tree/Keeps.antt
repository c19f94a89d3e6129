-- ===== src/Pmap/Tree/Keeps.antt =====
-- page_insert and page_remove keep the tree of page tables.
use jos_kernel.Base.{
  Bool-cases, List, Option, [], inl, inr, refl, some, sym, true, ℕ, ◌+◌, ◌<◌, ◌^◌, ◌∙◌, ◌∷◌, ◌≡◌,
  ◌≢◌, ◌⊎◌, subst,
}
use jos_kernel.Kernel.Layout.{pdx, pgnum, present, ptx}
use jos_kernel.Kernel.Outcome.{Returns, returned, val, Returns-and_then}
use jos_kernel.Kernel.State.{Kernel, Slot, poke}
use jos_kernel.Pmap.Alloc.FreeList.{Chain-Head}
use jos_kernel.Pmap.Space.{user_entries, IsTree, translate}
use jos_kernel.Pmap.Space.Grow.{Walked, grown-Walked, poke_other_page, present-Walked}
use jos_kernel.Pmap.Space.Insert.{
  incremented, incremented-IsCounted, map_slot-mapped, map_slot-unmapped, new_entry, IsReplaceable,
  Walked-IsCounted, translate-some,
}
use jos_kernel.Pmap.Space.Remove.{translate-Mapped}
use jos_kernel.Pmap.Space.Steps.{
  IsCounted, create_table-grown, pde, pgdir_walk-create, pgdir_walk-present, pte, removed,
  page_remove-removed,
}
use jos_kernel.Pmap.Tree.{IsData, IsTree-same_root}
use jos_kernel.Pmap.Tree.Frees.{decremented-Freed, incremented-IsFree}
use jos_kernel.Pmap.Tree.Grows.{grown-IsData, grown-IsTree}
use jos_kernel.Pmap.Walk.{map_slot, pgdir_walk, page_insert, page_remove}

-- What pgdir_walk leaves when it may create a table: the slot, a tree, and the data pages.
record Grown (pgdir va : ℕ) (k : Kernel) (xs : List ℕ) (r : Option Slot) (k1 : Kernel)
    : Type 0 where
  table : ℕ
  slot_at : r ≡ some (table, ptx va)
  walked : Walked pgdir va table k k1
  list : List ℕ
  tree : IsTree k1 pgdir list
  leaf : (q : ℕ) → IsData k pgdir xs q → IsData k1 pgdir list q

walk-found :
    (pgdir va : ℕ) (k : Kernel) (xs : List ℕ)
    → IsTree k pgdir xs
    → pdx va < user_entries
    → present (pde pgdir va k) ≡ true
    → Returns (Grown pgdir va k xs) (pgdir_walk pgdir va true k)
walk-found pgdir va k xs tree u p =
    rw (pgdir_walk-present pgdir va k true p (tree.exists (pdx va) u)) (
      returned (record {
        table = pgnum (pde pgdir va k);
        slot_at = refl;
        walked = present-Walked pgdir va k xs tree u p;
        list = xs;
        tree = tree;
        leaf = λ q d. d;
      }))

walk-Grown :
    (pgdir va : ℕ) (k : Kernel) (xs : List ℕ)
    → IsTree k pgdir xs
    → pdx va < user_entries
    → present (pde pgdir va k) ≡ true ⊎ xs ≢ []
    → Returns (Grown pgdir va k xs) (pgdir_walk pgdir va true k)
walk-Grown pgdir va k xs tree u (inl p) = walk-found pgdir va k xs tree u p
walk-Grown pgdir va k [] tree u (inr ne) = absurd (ne refl)
walk-Grown pgdir va k (p ∷ xs) tree u (inr ne) = elim (Bool-cases (present (pde pgdir va k))) [
  | inl q ↦ walk-found pgdir va k (p ∷ xs) tree u q
  | inr a ↦
      let h = Chain-Head k.npages k.pages k.page_free_list p xs tree.free in
      rw (pgdir_walk-create pgdir va k a (tree.exists (pdx va) u)) (
        rw (create_table-grown pgdir va k p h.first h.exists) (
          returned (record {
            table = p;
            slot_at = refl;
            walked = grown-Walked pgdir va p k xs tree u a h.exists h.ref;
            list = xs;
            tree = grown-IsTree pgdir va p k xs tree u a;
            leaf = grown-IsData pgdir va p k xs tree u a;
          })))
]

module _ (pgdir va : ℕ) (k : Kernel) (xs : List ℕ) (tree : IsTree k pgdir xs)
    (u : pdx va < user_entries) (p : present (pde pgdir va k) ≡ true) where
  table_ne : pgdir ≢ pgnum (pde pgdir va k)
  table_ne e = tree.not_root (pdx va) u p (sym e)

  -- page_insert once it has the slot.
  map_slot-IsTree :
      (pp perm : ℕ)
      → IsData k pgdir xs pp
      → (k.pages pp).pp_ref + 1 < 2 ^ 16
      → (present (pte pgdir va k) ≡ true
          → IsCounted k (pgnum (pte pgdir va k)) × IsData k pgdir xs (pgnum (pte pgdir va k)))
      → Returns
          (λ r k'. (r ≡ val 0) × (ys : List ℕ) × IsTree k' pgdir ys)
          (map_slot pgdir pp va perm (pgnum (pde pgdir va k), ptx va) k)
  map_slot-IsTree pp perm d small old = elim (Bool-cases (present (pte pgdir va k))) [
    | inr a ↦
        let k' = record (incremented pp k) {
          word = poke k.word (pgnum (pde pgdir va k)) (ptx va) (new_entry pp perm);
        } in
        rw (map_slot-unmapped pgdir va pp perm k a) (
          returned (
            refl,
            xs,
            IsTree-same_root k k' pgdir pp xs tree d
                (λ i.
                  poke_other_page k.word (pgnum (pde pgdir va k)) (ptx va) (new_entry pp perm) pgdir
                    i table_ne)
                refl
                (record {
                  list = xs;
                  free = incremented-IsFree pp k xs tree.free d.off_list;
                  others = λ p ne h. h;
                }),
          ))
    | inl q ↦
        let (c, o) = old q in
        let c' = incremented-IsCounted pp (pgnum (pte pgdir va k)) k small c in
        let f =
          decremented-Freed (pgnum (pte pgdir va k)) (incremented pp k) xs
            (incremented-IsFree pp k xs tree.free d.off_list) c' in
        let t = pgnum (pde pgdir va k) in
        let cleared = poke k.word t (ptx va) 0 in
        let k' = record (removed pgdir va (incremented pp k)) {
          word = poke cleared t (ptx va) (new_entry pp perm);
        } in
        rw (map_slot-mapped pgdir va pp perm k p (tree.exists (pdx va) u) q c') (
          returned (
            refl,
            f.list,
            IsTree-same_root k k' pgdir (pgnum (pte pgdir va k)) xs tree o
                (λ i.
                  poke_other_page cleared t (ptx va) (new_entry pp perm) pgdir i table_ne
                  ∙ poke_other_page k.word t (ptx va) 0 pgdir i table_ne)
                refl (record { list = f.list; free = f.free; others = f.others }),
          ))
  ]

-- The page that `va` maps after the walk is the one that it mapped before.
mapped_before :
    (pgdir va : ℕ) (k : Kernel) (xs : List ℕ) (r : Option Slot) (k1 : Kernel)
    → (g : Grown pgdir va k xs r k1) → pdx va < user_entries
    → present (pte pgdir va k1) ≡ true
    → translate k pgdir va ≡ some (pte pgdir va k1)
mapped_before pgdir va k xs r k1 g u q =
    sym (g.walked.same va u)
    ∙ translate-some pgdir va (pte pgdir va k1) k1 g.walked.is_present refl q

-- page_insert returns 0 and leaves the page tables a tree, with some free list. Assumed before: a tree,
-- with a page table for `va` or a free page; the page to map, and the page that `va` maps if there
-- is one, are data pages, the latter with a count of its references.
pub page_insert-IsTree :
    (pgdir va pp perm : ℕ) (k : Kernel) (xs : List ℕ)
    → IsTree k pgdir xs
    → pdx va < user_entries
    → present (pde pgdir va k) ≡ true ⊎ xs ≢ []
    → IsReplaceable pgdir va k
    → ((e : ℕ) → translate k pgdir va ≡ some e → IsData k pgdir xs (pgnum e))
    → IsData k pgdir xs pp
    → (k.pages pp).pp_ref + 1 < 2 ^ 16
    → Returns
        (λ r k'. (r ≡ val 0) × (ys : List ℕ) × IsTree k' pgdir ys)
        (page_insert pgdir pp va perm k)
unfolding page_insert
page_insert-IsTree pgdir va pp perm k xs tree u room old leaf d small =
    Returns-and_then (walk-Grown pgdir va k xs tree u room) λ r k1 g. rw (g.slot_at) (
      subst
        (λ t.
          Returns (λ r k'. (r ≡ val 0) × (ys : List ℕ) × IsTree k' pgdir ys)
            (map_slot pgdir pp va perm (t, ptx va) k1))
        g.walked.names
        (map_slot-IsTree pgdir va k1 g.list g.tree u g.walked.is_present pp perm (g.leaf pp d)
          (g.walked.counts pp small)
          λ q.
            let before = mapped_before pgdir va k xs r k1 g u q in
            (
              Walked-IsCounted pgdir va k k1 (pte pgdir va k1) g.table g.walked old before,
              g.leaf (pgnum (pte pgdir va k1)) (leaf (pte pgdir va k1) before),
            )))

-- page_remove of a mapped data page returns and leaves the page tables a tree, with some free list.
pub page_remove-IsTree :
    (pgdir va entry : ℕ) (k : Kernel) (xs : List ℕ)
    → IsTree k pgdir xs
    → pdx va < user_entries
    → translate k pgdir va ≡ some entry
    → IsCounted k (pgnum entry)
    → IsData k pgdir xs (pgnum entry)
    → Returns (λ _ k'. (ys : List ℕ) × IsTree k' pgdir ys) (page_remove pgdir va k)
page_remove-IsTree pgdir va entry k xs tree u e c d =
    let m = translate-Mapped pgdir va entry k e in
    let c' = subst (λ x. IsCounted k (pgnum x)) (sym m.is_entry) c in
    let d' = subst (λ x. IsData k pgdir xs (pgnum x)) (sym m.is_entry) d in
    let f = decremented-Freed (pgnum (pte pgdir va k)) k xs tree.free c' in
    rw (page_remove-removed pgdir va k m.table (tree.exists (pdx va) u) m.page c') (
      returned (
        f.list,
        IsTree-same_root k (removed pgdir va k) pgdir (pgnum (pte pgdir va k)) xs tree d'
            (λ i.
              poke_other_page k.word (pgnum (pde pgdir va k)) (ptx va) 0 pgdir i
                (table_ne pgdir va k xs tree u m.table))
            refl (record { list = f.list; free = f.free; others = f.others }),
      ))
