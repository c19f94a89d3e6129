-- ===== src/Pmap/Space/Steps.antt =====
-- Equations for the steps of pgdir_walk, page_lookup and page_remove, with the state that each
-- leaves.
use jos_kernel.Base.{
  ℕ, suc, ◌+◌, ◌-◌, ◌*◌, ◌%◌, ◌^◌, ◌<◌, ◌≤◌, ◌≡◌, Bool, true, false, none, some, ◌∷◌, ==_iff,
  bit_or, if◌then◌else◌, ◌==◌, ==_self, update, arith, Bool-cases, inl, inr,
}
use jos_kernel.Base.Bits.{bit_or_aligned, bit_or_page}
use jos_kernel.Kernel.Layout.{pdx, ptx, pgnum, present, pte_p, pte_w, pte_u}
use jos_kernel.Kernel.Outcome.{ok, fault}
use jos_kernel.Kernel.State.{Kernel, poke}
use jos_kernel.Pmap.Alloc.{alloc_zero, page2pa, kaddr, pa2page, page_decref, incref, clear}
use jos_kernel.Pmap.Alloc.Free.{counted, given, page_decref-counted, page_decref-given}
use jos_kernel.Pmap.Alloc.FreeList.{taken, page_alloc-taken, page_alloc-none}
use jos_kernel.Pmap.Walk.{
  create_table, pgdir_walk, page_lookup, page_remove, tlb_invalidate, in_use,
}

pub kaddr-ok : (p : ℕ) (k : Kernel) → p < k.npages → kaddr p k ≡ ok p k
unfolding kaddr
kaddr-ok p k h = ground arith

pub pa2page-ok : (p : ℕ) (k : Kernel) → p < k.npages → pa2page p k ≡ ok p k
unfolding pa2page
pa2page-ok p k h = ground arith

-- The entry that create_table writes for the page table `p`.
abbrev pub table_entry : ℕ → ℕ
table_entry p = bit_or (bit_or (bit_or (page2pa p) pte_p) pte_w) pte_u

pub table_entry_value : (p : ℕ) → table_entry p ≡ p * 4096 + 7
table_entry_value p =
    let a = bit_or_aligned p 1 (omega arith) in
    let b = bit_or_page p 1 2 (omega arith) (omega arith) in
    let c = bit_or_page p 3 4 (omega arith) (omega arith) in rw (a, b, c)

-- The page table that the entry names, and its present bit.
pub table_entry_parts : (p : ℕ) → (pgnum (table_entry p) ≡ p) × (present (table_entry p) ≡ true)
table_entry_parts p = rw (table_entry_value p) (omega arith, ground arith)

at_least_two : (n : ℕ) → 1 ≤ n → (n == 1) ≡ false → n ≡ suc (suc (n - 2))
at_least_two n h e = ground arith

module _ (pgdir va : ℕ) (k : Kernel) where
  abbrev pub pde : ℕ
  pde = k.word pgdir (pdx va)

  pub pgdir_walk-present :
      (create : Bool)
      → present pde ≡ true
      → pgnum pde < k.npages
      → pgdir_walk pgdir va create k ≡ ok (some (pgnum pde, ptx va)) k
  unfolding pgdir_walk
  pgdir_walk-present create p h = rw (kaddr-ok (pgnum pde) k h, p)

  pub pgdir_walk-absent :
      present pde ≡ false → pgnum pde < k.npages → pgdir_walk pgdir va false k ≡ ok none k
  unfolding pgdir_walk
  pgdir_walk-absent p h = rw (kaddr-ok (pgnum pde) k h, p)

  pub pgdir_walk-create :
      present pde ≡ false
      → pgnum pde < k.npages
      → pgdir_walk pgdir va true k ≡ create_table pgdir va k
  unfolding pgdir_walk
  pgdir_walk-create p h = rw (kaddr-ok (pgnum pde) k h, p)

  -- The state that create_table leaves when page `p` is the first of the free list.
  abbrev pub grown : ℕ → Kernel
  grown p = record k {
    page_free_list = (k.pages p).pp_link;
    pages =
        update (taken alloc_zero p k).pages p
          (record { pp_link = none; pp_ref = ((k.pages p).pp_ref + 1) % 2 ^ 16 });
    word =
        poke (poke (clear k.word p) pgdir (pdx va) (table_entry p)) pgdir (pdx va) (table_entry p);
  }

  pub create_table-grown :
      (p : ℕ)
      → k.page_free_list ≡ some p
      → p < k.npages
      → create_table pgdir va k ≡ ok (some (p, ptx va)) (grown p)
  unfolding create_table incref
  create_table-grown p e h = rw (page_alloc-taken alloc_zero p k e h) (
      rw (==_self pgdir, ==_self (pdx va), ==_self p)
        (rw ((table_entry_parts p).0) (rw (kaddr-ok p (grown p) h))))

  pub create_table-none : k.page_free_list ≡ none → create_table pgdir va k ≡ ok none k
  unfolding create_table
  create_table-none e = rw (page_alloc-none alloc_zero k e)

  -- The slot of `va` in the page table that its directory entry names.
  abbrev pub pte : ℕ
  pte = k.word (pgnum pde) (ptx va)

  pub page_lookup-found :
      present pde ≡ true
      → pgnum pde < k.npages
      → present pte ≡ true
      → pgnum pte < k.npages
      → page_lookup pgdir va k ≡ ok (some (pgnum pte, (pgnum pde, ptx va))) k
  unfolding page_lookup
  page_lookup-found p h q l =
      rw (pgdir_walk-present false p h) (rw q (rw (pa2page-ok (pgnum pte) k l)))

  pub page_lookup-unmapped :
      present pde ≡ true
      → pgnum pde < k.npages
      → present pte ≡ false
      → page_lookup pgdir va k ≡ ok none k
  unfolding page_lookup
  page_lookup-unmapped p h q = rw (pgdir_walk-present false p h) (rw q)

  -- The null test of page_lookup comes after the read: with no page table it reads through NULL.
  pub page_lookup-fault :
      present pde ≡ false → pgnum pde < k.npages → page_lookup pgdir va k ≡ fault
  unfolding page_lookup
  page_lookup-fault p h = rw (pgdir_walk-absent p h)

-- The state that page_decref leaves for a page with a count of at least 1.
abbrev pub decremented : ℕ → Kernel → Kernel
decremented pp k = record k {
  pages =
      if (k.pages pp).pp_ref == 1
      then (given pp (counted pp 0 k)).pages
      else (counted pp ((k.pages pp).pp_ref - 1) k).pages;
  page_free_list = if (k.pages pp).pp_ref == 1 then some pp else k.page_free_list;
}

-- A page that page_decref accepts.
pub record IsCounted (k : Kernel) (pp : ℕ) : Type 0 where
  pub exists : pp < k.npages
  pub positive : 1 ≤ (k.pages pp).pp_ref
  pub small : (k.pages pp).pp_ref < 2 ^ 16
  pub unlinked : (k.pages pp).pp_link ≡ none

pub page_decref-decremented :
    (pp : ℕ) (k : Kernel) → IsCounted k pp → page_decref pp k ≡ ok tt (decremented pp k)
page_decref-decremented pp k c = elim (Bool-cases ((k.pages pp).pp_ref == 1)) [
  | inl one ↦ rw one (page_decref-given pp k ((==_iff _ 1).0 one) c.unlinked)
  | inr more ↦
      let e : (k.pages pp).pp_ref ≡ suc (suc ((k.pages pp).pp_ref - 2)) =
        at_least_two (k.pages pp).pp_ref c.positive more in
      let f : (k.pages pp).pp_ref - 1 ≡ suc ((k.pages pp).pp_ref - 2) = omega arith in
      rw more (rw f (page_decref-counted pp ((k.pages pp).pp_ref - 2) k e (rw (← e) c.small)))
]

-- The state that page_remove leaves at a mapped address.
abbrev pub removed : ℕ → ℕ → Kernel → Kernel
removed pgdir va k = record (decremented (pgnum (pte pgdir va k)) k) {
  word = poke k.word (pgnum (pde pgdir va k)) (ptx va) 0;
  flushed = if in_use pgdir k then va ∷ k.flushed else k.flushed;
}

pub page_remove-removed :
    (pgdir va : ℕ) (k : Kernel)
    → present (pde pgdir va k) ≡ true
    → pgnum (pde pgdir va k) < k.npages
    → present (pte pgdir va k) ≡ true
    → IsCounted k (pgnum (pte pgdir va k))
    → page_remove pgdir va k ≡ ok tt (removed pgdir va k)
unfolding page_remove tlb_invalidate
page_remove-removed pgdir va k p h q c = rw (page_lookup-found pgdir va k p h q c.exists) (
    rw (page_decref-decremented (pgnum (pte pgdir va k)) k c)
      (elim (Bool-cases (in_use pgdir k)) [ inl e ↦ rw e | inr e ↦ rw e ]))
