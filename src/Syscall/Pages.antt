-- ===== src/Syscall/Pages.antt =====
-- kern/syscall.c: sys_page_alloc, sys_page_map and sys_page_unmap.
pub mod Laws
use jos_kernel.Base.{
  Bool, Option, bit_and, bit_or, if◌then◌else◌, leb, none, not, some, ℕ, ◌%◌, ◌==◌, ◌||◌,
}
use jos_kernel.Env.Destroy.{directory}
use jos_kernel.Kernel.Layout.{page_size, pte_p, pte_u, utop}
use jos_kernel.Kernel.Outcome.{Cmd, Ret, err, inval, no_mem, pure, val, ◌>>=◌, ◌>>◌}
use jos_kernel.Pmap.Alloc.{alloc_zero, page_alloc, page_free}
use jos_kernel.Pmap.Walk.{page_insert, page_lookup, page_remove}
use jos_kernel.Syscall.Envs.{deref, with_env}

-- The bits outside PTE_SYSCALL = PTE_AVAIL | PTE_P | PTE_W | PTE_U.
abbrev pub not_syscall : ℕ
not_syscall = 0xfffff1f8

-- `va >= UTOP || va % PGSIZE`
abbrev pub bad_va : ℕ → Bool
bad_va va = leb utop va || not (va % page_size == 0)

-- `PTE_U | PTE_P | perm`
abbrev pub user_perm : ℕ → ℕ
user_perm perm = bit_or (bit_or pte_u pte_p) perm

-- sys_page_alloc once it has the page: a page that cannot be mapped is freed again.
unfoldable pub map_new : Option ℕ → ℕ → ℕ → ℕ → Cmd Ret
map_new e pp va perm = do
  e ← deref e
  pgdir ← directory e
  r ← page_insert pgdir pp va perm
  elim r [ err x ↦ (do page_free pp; pure (err x)) | val _ ↦ pure (val 0) ]

-- sys_page_alloc once the arguments are checked.
unfoldable pub alloc_and_map : Option ℕ → ℕ → ℕ → Cmd Ret
unfolding map_new
alloc_and_map e va perm = do
  pp ← page_alloc alloc_zero
  elim pp [ none ↦ pure (err no_mem) | some pp ↦ map_new e pp va perm ]

unfoldable pub sys_page_alloc : ℕ → ℕ → ℕ → Cmd Ret
unfolding with_env alloc_and_map
sys_page_alloc envid va perm = with_env envid λ e.
    if bad_va va
    then pure (err inval)
    else if not (bit_and (user_perm perm) not_syscall == 0)
    then pure (err inval)
    else alloc_and_map e va (user_perm perm)

-- sys_page_map once the environments are found. The permissions are not checked.
unfoldable pub map_shared : Option ℕ → ℕ → Option ℕ → ℕ → ℕ → Cmd Ret
map_shared srce srcva dste dstva perm =
    if leb utop srcva
      || not (srcva % page_size == 0)
      || leb utop dstva
      || not (dstva % page_size == 0)
    then pure (err inval)
    else (do
      srce ← deref srce
      srcdir ← directory srce
      found ← page_lookup srcdir srcva
      elim found [
        | none ↦ pure (err inval)
        | some (pp, _) ↦ do
          dste ← deref dste
          dstdir ← directory dste
          page_insert dstdir pp dstva perm
      ])

unfoldable pub sys_page_map : ℕ → ℕ → ℕ → ℕ → ℕ → Cmd Ret
unfolding with_env map_shared
sys_page_map srcenvid srcva dstenvid dstva perm =
    with_env srcenvid λ srce. with_env dstenvid λ dste. map_shared srce srcva dste dstva perm

unfoldable pub sys_page_unmap : ℕ → ℕ → Cmd Ret
unfolding with_env
sys_page_unmap envid va = with_env envid λ e.
    if bad_va va
    then pure (err inval)
    else (do e ← deref e; pgdir ← directory e; page_remove pgdir va; pure (val 0))
