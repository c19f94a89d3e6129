-- ===== src/Pmap/Region.antt =====
-- kern/pmap.c: boot_alloc, page_init, boot_map_region, mmio_map_region and user_mem_check.
pub mod Check
use jos_kernel.Base.{
  Bool, Option, bit_and, bit_or, false, if◌then◌else◌, leb, ltb, none, some, suc, true, update,
  zero, ℕ, ◌%◌, ◌&&◌, ◌+◌, ◌-◌, ◌/◌, ◌==◌, ◌||◌,
}
use jos_kernel.Kernel.Layout.{
  mmiolim, page_size, pte_addr, pte_p, round_down, round_up, u32_mod, ulim,
}
use jos_kernel.Kernel.Outcome.{Cmd, fault, load, panic, pure, skip, store, ◌>>=◌, ◌>>◌}
use jos_kernel.Kernel.State.{Kernel}
use jos_kernel.Pmap.Space.Steps.{pte}
use jos_kernel.Pmap.Walk.{pgdir_walk}

-- boot_alloc with its static `nextfree` (0 until the first call) as a state: the result and the new
-- value. `bss_end` is the linker's symbol `end`.
unfoldable pub boot_alloc : ℕ → ℕ → ℕ → ℕ × ℕ
boot_alloc bss_end nextfree n =
    let start : ℕ = if nextfree == 0 then round_up bss_end else nextfree in
    if n == 0 then (start, start) else (start, round_up ((start + n) % u32_mod))

-- Page numbers of MPENTRY_PADDR, IOPHYSMEM and EXTPHYSMEM.
abbrev pub mpentry_page : ℕ
mpentry_page = 7

abbrev pub iophysmem_page : ℕ
iophysmem_page = 0xa0

abbrev pub extphysmem_page : ℕ
extphysmem_page = 0x100

-- `pages[i]` joins the free list.
abbrev pub push_free : ℕ → Kernel → Kernel
push_free i k = record k {
  pages = update k.pages i (record { pp_link = k.page_free_list; pp_ref = 0 });
  page_free_list = some i;
}

abbrev pub unlink_page : ℕ → Kernel → Kernel
unlink_page i k = record k { pages = update k.pages i (record (k.pages i) { pp_link = none }) }

abbrev pub hold_page : ℕ → Kernel → Kernel
hold_page i k = record k { pages = update k.pages i (record { pp_link = none; pp_ref = 1 }) }

-- One round of the loop of page_init. `free_mem` is PADDR(boot_alloc(0)).
unfoldable pub init_page : ℕ → ℕ → ℕ → Kernel → Kernel
init_page npages_basemem free_mem i k =
    if i == mpentry_page
    then unlink_page i k
    else if ltb i npages_basemem
    then push_free i k
    else if leb iophysmem_page i && ltb i extphysmem_page
    then unlink_page i k
    else if leb extphysmem_page i && ltb i (free_mem / page_size)
    then hold_page i k
    else push_free i k

-- The loop, with the rounds left.
unfoldable pub init_pages : ℕ → ℕ → ℕ → ℕ → Kernel → Kernel
init_pages npages_basemem free_mem zero i k = k
init_pages npages_basemem free_mem (suc n) i k =
    init_pages npages_basemem free_mem n (i + 1) (init_page npages_basemem free_mem i k)

unfoldable pub page_init : ℕ → ℕ → Kernel → Kernel
unfolding init_page init_pages
page_init npages_basemem free_mem k =
    init_pages npages_basemem free_mem (k.npages - 1) 1
      (record k { pages = update k.pages 0 (record (k.pages 0) { pp_ref = 1 }) })

-- The loop of boot_map_region, with the rounds left. `*pte` of a failed walk is a null pointer.
unfoldable pub map_pages : ℕ → ℕ → ℕ → ℕ → ℕ → Cmd (Unit {0})
map_pages pgdir zero va pa perm = skip
map_pages pgdir (suc n) va pa perm = do
  pte ← pgdir_walk pgdir va true
  elim pte [
    | none ↦ λ _. fault
    | some slot ↦ do
      store slot (bit_or (bit_or (pte_addr pa) perm) pte_p)
      map_pages pgdir n ((va + page_size) % u32_mod) ((pa + page_size) % u32_mod) perm
  ]

unfoldable pub boot_map_region : ℕ → ℕ → ℕ → ℕ → ℕ → Cmd (Unit {0})
unfolding map_pages
boot_map_region pgdir va size pa perm = map_pages pgdir (round_up size / page_size) va pa perm

-- PTE_PCD | PTE_PWT | PTE_W | PTE_P
abbrev pub mmio_perm : ℕ
mmio_perm = 0x1b

-- The static `base` is an argument and part of the result.
unfoldable pub mmio_map_region : ℕ → ℕ → ℕ → Cmd (ℕ × ℕ)
unfolding boot_map_region
mmio_map_region base pa size k =
    let end : ℕ = (base + size) % u32_mod in
    if ltb mmiolim end || ltb end base
    then panic
    else (do
      boot_map_region k.kern_pgdir base size pa mmio_perm
      pure (base, (base + round_up size) % u32_mod))
        k

-- `((int) *pte_check & perm) != perm`
abbrev pub allows : ℕ → ℕ → Bool
allows entry perm = bit_and entry perm == perm

-- The test of one page: ULIM, a page table, and the permissions in the entry.
unfoldable pub page_ok : ℕ → ℕ → ℕ → Cmd Bool
page_ok pgdir i perm = do
  pte ← pgdir_walk pgdir i false
  elim pte [
    | none ↦ pure false
    | some slot ↦ do entry ← load slot; pure (ltb i ulim && allows entry perm)
  ]

-- The loop of user_mem_check on fuel: the first address that fails the test. Both comparisons are
-- of unsigned numbers, `end` being a size_t.
unfoldable pub check_loop : ℕ → ℕ → ℕ → ℕ → ℕ → Cmd (Option ℕ)
unfolding page_ok
check_loop pgdir perm end zero i = pure none
check_loop pgdir perm end (suc fuel) i =
    if ltb i end
    then (do
      good ← page_ok pgdir i perm
      if good then check_loop pgdir perm end fuel ((i + page_size) % u32_mod) else pure (some i))
    else pure none

-- Enough rounds for every page below 2 ^ 32.
abbrev pub all_pages : ℕ
all_pages = 0x100000

-- user_mem_check once `end` is known, on fuel.
unfoldable pub check_range : ℕ → ℕ → ℕ → ℕ → ℕ → Cmd (Option ℕ)
unfolding check_loop
check_range pgdir va perm end fuel = do
  bad ← check_loop pgdir perm end fuel (round_down va)
  pure (elim bad [ none ↦ none | some i ↦ some (if i == round_down va then va else i) ])

-- The result, and what user_mem_check_addr receives on an error.
unfoldable pub user_mem_check : ℕ → ℕ → ℕ → ℕ → Cmd (Option ℕ)
unfolding check_range
user_mem_check pgdir va len perm =
    check_range pgdir va perm (round_up ((va + len) % u32_mod)) all_pages
