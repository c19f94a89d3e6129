-- ===== src/Fds.antt =====
-- lib/fd.c: the file descriptors of a program. `pages` are the pages from FDTABLE on: the Fd page of
-- descriptor `i` is page `i`, and its data page is page MAXFD + i. A `struct Fd *` is the number of its
-- descriptor. The devices are an argument: their functions stand in devtab. Since these pages share a
-- page table, page_map of a mapped page does not need memory, and fails only if the source is not
-- mapped.
pub mod Laws
pub mod Dup
mod Tests
use jos_kernel.Base.{
  Bool, List, Option, [], bit_and, false, if◌then◌else◌, leb, none, not, some, suc, true, update,
  zero, ℕ, ◌+◌, ◌==◌, ◌∷◌,
}
use jos_kernel.Kernel.Layout.{pte_syscall}
use jos_kernel.Serv.{Fd, e_inval, negative}

-- MAXFD
abbrev pub maxfd : ℕ
maxfd = 32

pub record Mapping : Type 0 where
  pub frame : ℕ
  pub perm : ℕ

-- The pages, and the struct Fd that begins a frame.
pub record Space : Type 0 where
  pub pages : ℕ → Option Mapping
  pub fd_at : ℕ → Fd

pub record Dev : Type 0 where
  pub dev_id : ℕ
  pub dev_close : Option (ℕ → Space → ℕ × Space)

-- INDEX2DATA
abbrev pub data_page : ℕ → ℕ
data_page i = maxfd + i

abbrev pub is_some : {A : Type 0} → Option A → Bool
is_some none = false
is_some (some a) = true

-- The loop of fd_alloc, with the rounds left.
unfoldable pub fd_alloc_loop : ℕ → ℕ → Space → Option ℕ
fd_alloc_loop zero i s = none
fd_alloc_loop (suc n) i s =
    let rest = fd_alloc_loop n (i + 1) s in if not (is_some (s.pages i)) then some i else rest

-- The descriptor, or none with -E_MAX_OPEN.
unfoldable pub fd_alloc : Space → Option ℕ
unfolding fd_alloc_loop
fd_alloc s = fd_alloc_loop maxfd 0 s

-- The descriptor, or none with -E_INVAL; a negative number is a large word.
unfoldable pub fd_lookup : ℕ → Space → Option ℕ
fd_lookup fdnum s =
    if leb maxfd fdnum then none else if not (is_some (s.pages fdnum)) then none else some fdnum

-- The struct Fd of a descriptor that is mapped.
abbrev pub fd_of : Option Mapping → Space → Option Fd
fd_of none s = none
fd_of (some m) s = some (s.fd_at m.frame)

-- sys_page_unmap(0, i)
abbrev pub page_unmap : ℕ → Space → Space
page_unmap i s = record s { pages = update s.pages i none }

-- sys_page_map(0, src, 0, dst, uvpt[src] & PTE_SYSCALL), or none with -E_INVAL.
abbrev pub page_map : ℕ → ℕ → Space → Option Space
page_map src dst s = elim (s.pages src) [
  | none ↦ none
  | some m ↦ some (record s {
    pages =
        update s.pages dst (some (record { frame = m.frame; perm = bit_and m.perm pte_syscall }));
  })
]

-- The loop of dev_lookup.
abbrev pub find_dev : List Dev → ℕ → Option Dev
find_dev [] dev_id = none
find_dev (dev ∷ devs) dev_id = if dev.dev_id == dev_id then some dev else find_dev devs dev_id

-- What fd_close gets from the device.
abbrev pub close_dev : Option Dev → ℕ → Space → ℕ × Space
close_dev none fd s = (negative e_inval, s)
close_dev (some dev) fd s = elim dev.dev_close [ none ↦ (0, s) | some f ↦ f fd s ]

-- `err` of dup
abbrev pub dup_failed : ℕ → Space → ℕ × Space
dup_failed newfd s = (negative e_inval, page_unmap (data_page newfd) (page_unmap newfd s))

-- The data page, if there is one.
abbrev pub dup_data : ℕ → ℕ → Space → Option Space
dup_data oldfd newfd s =
    if is_some (s.pages (data_page oldfd))
    then page_map (data_page oldfd) (data_page newfd) s
    else some s

abbrev pub dup_fd : ℕ → ℕ → Space → ℕ × Space
dup_fd oldfd newfd s = elim (page_map oldfd newfd s) [
  | none ↦ dup_failed newfd s
  | some t ↦ (newfd, t)
]

-- dup behind its close.
unfoldable pub dup_pages : ℕ → ℕ → Space → ℕ × Space
dup_pages oldfd newfd s = elim (dup_data oldfd newfd s) [
  | none ↦ dup_failed newfd s
  | some t ↦ dup_fd oldfd newfd t
]

module _ (devtab : List Dev) where
  -- The device, or none with -E_INVAL.
  abbrev pub dev_lookup : ℕ → Option Dev
  dev_lookup dev_id = find_dev devtab dev_id

  abbrev pub dev_of : Option Fd → Option Dev
  dev_of none = none
  dev_of (some fd) = dev_lookup fd.fd_dev_id

  -- fd_close behind its fd_lookup.
  unfoldable pub close_fd : ℕ → Space → ℕ × Space
  close_fd fd s =
      let (r, t) = close_dev (dev_of (fd_of (s.pages fd) s)) fd s in (r, page_unmap fd t)

  unfoldable pub fd_close : ℕ → Bool → Space → ℕ × Space
  unfolding fd_lookup close_fd
  fd_close fd must_exist s = elim (fd_lookup fd s) [
    | none ↦ (if must_exist then negative e_inval else 0, s)
    | some _ ↦ close_fd fd s
  ]

  unfoldable pub close : ℕ → Space → ℕ × Space
  unfolding fd_lookup fd_close
  close fdnum s = elim (fd_lookup fdnum s) [
    | none ↦ (negative e_inval, s)
    | some fd ↦ fd_close fd true s
  ]

  -- The loop of close_all, with the rounds left.
  unfoldable pub close_loop : ℕ → ℕ → Space → Space
  unfolding close
  close_loop zero i s = s
  close_loop (suc n) i s = close_loop n (i + 1) (close i s).1

  unfoldable pub close_all : Space → Space
  unfolding close_loop
  close_all s = close_loop maxfd 0 s

  unfoldable pub dup : ℕ → ℕ → Space → ℕ × Space
  unfolding fd_lookup close dup_pages
  dup oldfdnum newfdnum s = elim (fd_lookup oldfdnum s) [
    | none ↦ (negative e_inval, s)
    | some oldfd ↦ dup_pages oldfd newfdnum (close newfdnum s).1
  ]

abbrev pub set_offset : Option Mapping → ℕ → Space → Space
set_offset none offset s = s
set_offset (some m) offset s = record s {
  fd_at = update s.fd_at m.frame (record (s.fd_at m.frame) { fd_offset = offset });
}

unfoldable pub seek : ℕ → ℕ → Space → ℕ × Space
unfolding fd_lookup
seek fdnum offset s = elim (fd_lookup fdnum s) [
  | none ↦ (negative e_inval, s)
  | some fd ↦ (0, set_offset (s.pages fd) offset s)
]
