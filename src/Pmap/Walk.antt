-- ===== src/Pmap/Walk.antt =====
-- kern/pmap.c: pgdir_walk, page_lookup, page_remove, tlb_invalidate, page_insert.
-- A page directory is given by its physical page.
use jos_kernel.Base.{
  ℕ, Bool, true, false, not, Option, none, some, ◌∷◌, bit_or, ◌==◌, if◌then◌else◌,
}
use jos_kernel.Kernel.Layout.{pdx, ptx, pgnum, present, pte_p, pte_w, pte_u}
use jos_kernel.Kernel.State.{Kernel, Slot}
use jos_kernel.Kernel.Outcome.{
  Cmd, ok, fault, pure, ◌>>=◌, ◌>>◌, skip, when, load, store, Ret, val, err, no_mem,
}
use jos_kernel.Pmap.Alloc.{alloc_zero, page2pa, kaddr, pa2page, page_alloc, page_decref, incref}

-- The branch of pgdir_walk that allocates the page table.
unfoldable pub create_table : ℕ → ℕ → Cmd (Option Slot)
create_table pgdir va = do
  new_page_table ← page_alloc alloc_zero
  elim new_page_table [
    | none ↦ pure none
    | some p ↦ do
      incref p
      store (pgdir, pdx va) (bit_or (bit_or (bit_or (page2pa p) pte_p) pte_w) pte_u)
      pde ← load (pgdir, pdx va)
      store (pgdir, pdx va) pde
      pde ← load (pgdir, pdx va)
      table ← kaddr (pgnum pde)
      pure (some (table, ptx va))
  ]

unfoldable pub pgdir_walk : ℕ → ℕ → Bool → Cmd (Option Slot)
pgdir_walk pgdir va create = do
  pde ← load (pgdir, pdx va)
  table ← kaddr (pgnum pde)
  if present pde
      then pure (some (table, ptx va))
      else if create
      then create_table pgdir va
      else pure none

-- The null test comes after the read, so an absent page table is a read through NULL.
-- The result is the page, with the slot that `*pte_store` receives.
unfoldable pub page_lookup : ℕ → ℕ → Cmd (Option (ℕ × Slot))
page_lookup pgdir va = do
  pte ← pgdir_walk pgdir va false
  elim pte [
    | none ↦ λ _. fault
    | some slot ↦ do
      entry ← load slot
      if not (present entry)
          then pure none
          else (do pp ← pa2page (pgnum entry); pure (some (pp, slot)))
  ]

-- Whether the page directory is the one of the running environment, or there is no environment.
abbrev pub in_use : ℕ → Kernel → Bool
in_use pgdir k = elim k.curenv [
  | none ↦ true
  | some e ↦ elim (k.envs e).env_pgdir [ none ↦ false | some d ↦ d == pgdir ]
]

unfoldable pub tlb_invalidate : ℕ → ℕ → Cmd (Unit {0})
tlb_invalidate pgdir va k =
    if in_use pgdir k then ok tt (record k { flushed = va ∷ k.flushed }) else ok tt k

unfoldable pub page_remove : ℕ → ℕ → Cmd (Unit {0})
page_remove pgdir va = do
  found ← page_lookup pgdir va
  elim found [
    | none ↦ skip
    | some (pp, slot) ↦ do page_decref pp; store slot 0; tlb_invalidate pgdir va
  ]

-- page_insert once it has the slot of `va`.
unfoldable pub map_slot : ℕ → ℕ → ℕ → ℕ → Slot → Cmd Ret
map_slot pgdir pp va perm slot = do
  incref pp
  entry ← load slot
  when (present entry) (page_remove pgdir va)
  store slot (bit_or (bit_or (page2pa pp) perm) pte_p)
  pure (val 0)

unfoldable pub page_insert : ℕ → ℕ → ℕ → ℕ → Cmd Ret
page_insert pgdir pp va perm = do
  pte ← pgdir_walk pgdir va true
  elim pte [ none ↦ pure (err no_mem) | some slot ↦ map_slot pgdir pp va perm slot ]
