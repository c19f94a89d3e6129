-- ===== src/Pmap/User.antt =====
-- Reads and writes of the kernel at addresses of a program, through the loaded page directory. Where
-- the access is not allowed the CPU raises a page fault in the kernel, which panics.
use jos_kernel.Base.{
  Bool, Option, if◌then◌else◌, none, some, ℕ, ◌%◌, ◌&&◌, ◌*◌, ◌+◌, ◌-◌, ◌/◌, ◌==◌, ◌^◌,
}
use jos_kernel.Fs.Dir.Lookup.{entry}
use jos_kernel.Kernel.Layout.{page_size, pdx, pgnum, u32_mod}
use jos_kernel.Kernel.Outcome.{Cmd, load, ok, panic, pure, store, ◌>>=◌, ◌>>◌}
use jos_kernel.Kernel.State.{Slot}
use jos_kernel.Pmap.Space.{translate}

-- PTE_W of an entry, its second bit
abbrev pub writable : ℕ → Bool
writable entry = entry / 2 % 2 == 1

-- The word at a linear address, given the page table entry that maps it and whether the entry of the
-- page directory allows writes. Without one the CPU raises a page fault in the kernel, which panics.
abbrev pub slot_at : Option ℕ → Bool → ℕ → Cmd Slot
slot_at none dir_writable va = λ _. panic
slot_at (some entry) dir_writable va =
    if dir_writable && writable entry then pure (pgnum entry, va % page_size / 4) else (λ _. panic)

-- The word of memory at a linear address that the kernel may write, through the loaded page
-- directory.
unfoldable pub user_slot : ℕ → Cmd Slot
user_slot va k = slot_at (translate k k.cr3 va) (writable (k.word k.cr3 (pdx va))) va k

-- A store of 32 bits that straddles two words, `bits` above the start of the first.
unfoldable pub store_split : ℕ → ℕ → ℕ → Cmd (Unit {0})
unfolding user_slot
store_split va bits v = do
  low ← user_slot va
  high ← user_slot ((va + 4) % u32_mod)
  a ← load low
  b ← load high
  store low (a % 2 ^ bits + v * 2 ^ bits % u32_mod)
  store high (b / 2 ^ bits * 2 ^ bits + v / 2 ^ (32 - bits))

-- A store of 32 bits to a linear address.
unfoldable pub store_user : ℕ → ℕ → Cmd (Unit {0})
unfolding user_slot store_split
store_user va v =
    if va % 4 == 0 then (do slot ← user_slot va; store slot v) else store_split va (va % 4 * 8) v

-- The word of memory at a linear address that the kernel may read.
unfoldable pub read_slot : ℕ → Cmd Slot
read_slot va k = elim (translate k k.cr3 va) [
  | none ↦ panic
  | some entry ↦ ok (pgnum entry, va % page_size / 4) k
]

-- A load of 32 bits that straddles two words.
unfoldable pub load_split : ℕ → ℕ → Cmd ℕ
unfolding read_slot
load_split va bits = do
  low ← read_slot va
  high ← read_slot ((va + 4) % u32_mod)
  a ← load low
  b ← load high
  pure (a / 2 ^ bits + b * 2 ^ (32 - bits) % u32_mod)

-- A load of 32 bits from a linear address.
unfoldable pub load_user : ℕ → Cmd ℕ
unfolding read_slot load_split
load_user va =
    if va % 4 == 0 then (do slot ← read_slot va; load slot) else load_split va (va % 4 * 8)
