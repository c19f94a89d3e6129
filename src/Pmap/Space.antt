-- ===== src/Pmap/Space.antt =====
-- What the hardware sees of a page directory, and what pgdir_walk, page_lookup, page_remove and
-- page_insert do to it.
pub mod Steps
pub mod Grow
pub mod Insert
pub mod Remove
pub mod Fresh
use jos_kernel.Base.{
  ℕ, ◌/◌, ◌<◌, ◌≤◌, ◌≡◌, ◌≢◌, Bool, true, false, Option, none, some, List, if◌then◌else◌,
}
use jos_kernel.Kernel.Layout.{pdx, ptx, pgnum, present, utop}
use jos_kernel.Kernel.State.{Kernel}
use jos_kernel.Pmap.Alloc.FreeList.{IsFree, has}

-- The page table entry that translates `va`, by the two-level walk of the hardware.
abbrev pub translate : Kernel → ℕ → ℕ → Option ℕ
translate k pgdir va =
    if present (k.word pgdir (pdx va))
    then (if present (k.word (pgnum (k.word pgdir (pdx va))) (ptx va))
        then some (k.word (pgnum (k.word pgdir (pdx va))) (ptx va))
        else none)
    else none

-- The part of the page directory for user addresses, [0, UTOP).
abbrev pub user_entries : ℕ
user_entries = 955

-- The user part of a page directory is a tree: every entry names an existing page, the page tables
-- of different entries are different pages, none of them is the directory, and none is free.
pub record IsTree (k : Kernel) (pgdir : ℕ) (xs : List ℕ) : Type 0 where
  pub free : IsFree k xs
  pub exists : (i : ℕ) → i < user_entries → pgnum (k.word pgdir i) < k.npages
  pub apart :
      (i j : ℕ)
      → i < user_entries
      → j < user_entries
      → present (k.word pgdir i) ≡ true
      → present (k.word pgdir j) ≡ true
      → pgnum (k.word pgdir i) ≡ pgnum (k.word pgdir j)
      → i ≡ j
  pub not_root :
      (i : ℕ) → i < user_entries → present (k.word pgdir i) ≡ true → pgnum (k.word pgdir i) ≢ pgdir
  pub in_use :
      (i : ℕ)
      → i < user_entries
      → present (k.word pgdir i) ≡ true
      → has (pgnum (k.word pgdir i)) xs ≡ false
  pub root_in_use : has pgdir xs ≡ false
