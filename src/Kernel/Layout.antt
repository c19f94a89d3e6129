-- ===== src/Kernel/Layout.antt =====
-- Constants of inc/mmu.h and inc/memlayout.h, and the parts of a linear address and of a page
-- table entry.
use jos_kernel.Base.{ℕ, ◌+◌, ◌-◌, ◌*◌, ◌/◌, ◌%◌, ◌^◌, Bool, ◌==◌}

abbrev pub u32_mod : ℕ
u32_mod = 2 ^ 32

-- PGSIZE
abbrev pub page_size : ℕ
page_size = 4096

-- PTSIZE
abbrev pub table_span : ℕ
table_span = 0x400000

abbrev pub kernbase : ℕ
kernbase = 0xf0000000

abbrev pub mmiolim : ℕ
mmiolim = 0xefc00000

abbrev pub mmiobase : ℕ
mmiobase = 0xef800000

abbrev pub ulim : ℕ
ulim = 0xef800000

abbrev pub uvpt : ℕ
uvpt = 0xef400000

abbrev pub utop : ℕ
utop = 0xeec00000

abbrev pub ustacktop : ℕ
ustacktop = 0xeebfe000

-- PTE_P, PTE_W, PTE_U, PTE_PWT, PTE_PCD
abbrev pub pte_p : ℕ
pte_p = 1

abbrev pub pte_w : ℕ
pte_w = 2

abbrev pub pte_u : ℕ
pte_u = 4

abbrev pub pte_pwt : ℕ
pte_pwt = 8

abbrev pub pte_pcd : ℕ
pte_pcd = 16

-- PDX(la): the top ten bits of a linear address.
abbrev pub pdx : ℕ → ℕ
pdx va = va / table_span % 1024

-- PTX(la): the next ten bits.
abbrev pub ptx : ℕ → ℕ
ptx va = va / page_size % 1024

-- PGNUM(la). Of a page table entry it is the page of PTE_ADDR(pte).
abbrev pub pgnum : ℕ → ℕ
pgnum a = a / page_size

-- PTE_SYSCALL
abbrev pub pte_syscall : ℕ
pte_syscall = 0xE07

-- PTE_ADDR(pte): the entry with its low twelve bits cleared.
abbrev pub pte_addr : ℕ → ℕ
pte_addr pte = pte / page_size * page_size

-- `pte & PTE_P`, the lowest bit.
abbrev pub present : ℕ → Bool
present pte = pte % 2 == 1

-- ROUNDDOWN(a, PGSIZE) and ROUNDUP(a, PGSIZE) on uint32_t; the sum of ROUNDUP wraps.
abbrev pub round_down : ℕ → ℕ
round_down a = a / page_size * page_size

abbrev pub round_up : ℕ → ℕ
round_up a = round_down ((a % u32_mod + page_size - 1) % u32_mod)
