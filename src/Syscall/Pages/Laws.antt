-- ===== src/Syscall/Pages/Laws.antt =====
-- The system calls of kern/syscall.c on address spaces.
use jos_kernel.Base.{
  ==_iff, List, arith, false, lt→leb, refl, some, true, ℕ, ◌%◌, ◌<◌, ◌≡◌, ◌≢◌, [], bit_and, ◌∷◌,
  ◌⊎◌, ap, subst, sym, ◌+◌, ◌^◌, ◌∙◌, ◌*◌, ◌/◌,
}
use jos_kernel.Base.Bits.{bit_or_step, zero-bit_or}
use jos_kernel.Env.Destroy.{directory-ok}
use jos_kernel.Env.Lookup.{MayName, envx}
use jos_kernel.Fs.Dir.Lookup.{entry}
use jos_kernel.Kernel.Layout.{page_size, pdx, pgnum, utop, present}
use jos_kernel.Kernel.Outcome.{Returns, Returns-and_then, returned, val, err, no_mem}
use jos_kernel.Kernel.State.{Kernel}
use jos_kernel.Pmap.Alloc.{alloc_zero}
use jos_kernel.Pmap.Alloc.Free.{counted, page_free_lem}
use jos_kernel.Pmap.Alloc.FreeList.{Chain-Head, page_alloc-taken, taken, IsFree, taken-Allocated}
use jos_kernel.Pmap.Space.{user_entries, IsTree, translate}
use jos_kernel.Pmap.Space.Fresh.{
  taken-IsReplaceable, taken-IsTree, taken-Inserted, taken-room, taken-unshared, root_word,
}
use jos_kernel.Pmap.Space.Insert.{
  Inserted, IsReplaceable, new_entry, page_insert_lem, page_insert-no_mem, new_entry_lem,
}
use jos_kernel.Pmap.Space.Remove.{Removed, page_remove_lem, translate-Mapped}
use jos_kernel.Pmap.Space.Steps.{IsCounted, pde, page_lookup-found}
use jos_kernel.Pmap.Walk.{page_insert}
use jos_kernel.Syscall.Envs.{deref}
use jos_kernel.Syscall.Envs.Laws.{with_env-accepted}
use jos_kernel.Syscall.Pages.{
  user_perm, bad_va, sys_page_unmap, alloc_and_map, map_new, not_syscall, sys_page_alloc,
  map_shared, sys_page_map,
}

-- An aligned address below UTOP, as the two tests of the code.
pub bad_va-false : (va : ℕ) → va < utop → va % page_size ≡ 0 → bad_va va ≡ false
bad_va-false va h a = rw (lt→leb utop va h, (==_iff (va % page_size) 0).1 a)

pub user_pdx : (va : ℕ) → va < utop → pdx va < user_entries
user_pdx va h = omega arith

-- PTE_U | PTE_P | perm
user_perm_lem : (perm : ℕ) → user_perm perm ≡ perm / 8 * 8 + 4 + perm / 2 % 2 * 2 + 1
user_perm_lem perm = omega (
  arith,
  bit_or_step 5 perm,
  bit_or_step 2 (perm / 2),
  bit_or_step 1 (perm / 2 / 2),
  zero-bit_or (perm / 2 / 2 / 2),
)

-- The entry of page `x` with PTE_U, PTE_P and the flags `perm`.
abbrev pub user_entry : ℕ → ℕ → ℕ
user_entry x perm = x * 4096 + (perm / 8 * 8 + 4 + perm / 2 % 2 * 2 + 1)

user_entry_lem : (x perm : ℕ) → perm < 4096 → new_entry x (user_perm perm) ≡ user_entry x perm
user_entry_lem x perm small =
    let e = user_perm_lem perm in
    new_entry_lem x (user_perm perm) (omega (arith, e)) ∙ omega (arith, e)

module _ (envid c d va : ℕ) (k : Kernel) (xs : List ℕ) (cur : k.curenv ≡ some c) (ne : envid ≢ 0)
    (may : MayName k c envid true) (dir : (k.envs (envx envid)).env_pgdir ≡ some d)
    (low : va < utop) (aligned : va % page_size ≡ 0) where
  -- sys_page_unmap at a mapped page of an environment that the caller may name returns 0, and the
  -- page is no longer mapped there; no other page of the address space changes, and the address is
  -- flushed if the page directory is the loaded one.
  pub sys_page_unmap_lem :
      (entry : ℕ)
      → IsTree k d xs
      → translate k d va ≡ some entry
      → IsCounted k (pgnum entry)
      → Returns (λ r k'. (r ≡ val 0) × Removed d va k k') (sys_page_unmap envid va k)
  unfolding sys_page_unmap deref
  sys_page_unmap_lem entry tree e counted = rw (with_env-accepted envid c k cur ne _ may) (
      rw (bad_va-false va low aligned) (
        rw (directory-ok (envx envid) d k dir) (
          Returns-and_then (page_remove_lem d va entry k xs tree (user_pdx va low) e counted)
            λ _ k' (r, _). returned (refl, r))))

  -- With a page for the mapping and one for a page table, if `va` needs it, sys_page_alloc returns 0 and maps
  -- the first free page at `va` with PTE_U, PTE_P and the flags asked for, if these pass its test; also
  -- when PTE_U or PTE_P is not among them. No other page of the address space changes.
  pub sys_page_alloc_lem :
      (x perm : ℕ)
      → perm < 4096
      → bit_and (user_perm perm) not_syscall ≡ 0
      → IsTree k d (x ∷ xs)
      → present (pde d va k) ≡ true ⊎ xs ≢ []
      → IsReplaceable d va k
      → Returns
          (λ r k'. (r ≡ val 0) × Inserted d va (user_entry x perm) k k')
          (sys_page_alloc envid va perm k)
  unfolding sys_page_alloc alloc_and_map map_new deref
  sys_page_alloc_lem x perm small fine tree room old =
      let h = Chain-Head k.npages k.pages k.page_free_list x xs tree.free in
      let u = user_pdx va low in
      let k1 = taken alloc_zero x k in
      rw (with_env-accepted envid c k cur ne _ may) (
        rw (bad_va-false va low aligned, (==_iff _ 0).1 fine)
          (rw (page_alloc-taken alloc_zero x k h.first h.exists) (
            rw (directory-ok (envx envid) d k1 dir) (
              Returns-and_then
                (page_insert_lem d va x (user_perm perm) k1 xs (taken-IsTree d x k xs tree) u
                  (taken-room d x k xs tree va room)
                  (taken-IsReplaceable d x k xs tree va u h.ref old) (taken-unshared d x k xs tree))
                λ r k' (q, i). rw q (
                  returned (
                    refl,
                    subst (λ entry. Inserted d va entry k k') (user_entry_lem x perm small)
                        (taken-Inserted d x k xs tree va _ k' i),
                  ))))))

  -- With one free page only, and no page table for `va`, sys_page_alloc returns -E_NO_MEM and puts
  -- the page back: the free list is as it was.
  pub sys_page_alloc-gives_back :
      (x perm : ℕ)
      → bit_and (user_perm perm) not_syscall ≡ 0
      → IsTree k d (x ∷ [])
      → present (pde d va k) ≡ false
      → Returns (λ r k'. (r ≡ err no_mem) × IsFree k' (x ∷ [])) (sys_page_alloc envid va perm k)
  unfolding sys_page_alloc alloc_and_map map_new deref
  sys_page_alloc-gives_back x perm fine tree absent =
      let h = Chain-Head k.npages k.pages k.page_free_list x [] tree.free in
      let k1 = taken alloc_zero x k in
      let tree1 = taken-IsTree d x k [] tree in
      let a = taken-Allocated alloc_zero x [] k tree.free in
      rw (with_env-accepted envid c k cur ne _ may) (
        rw (bad_va-false va low aligned, (==_iff _ 0).1 fine)
          (rw (page_alloc-taken alloc_zero x k h.first h.exists) (
            rw (directory-ok (envx envid) d k1 dir) (
              rw
                (page_insert-no_mem d va x (user_perm perm) k1 tree1 (user_pdx va low)
                  (ap present (root_word d x k [] tree (pdx va)) ∙ absent))
                (Returns-and_then ((page_free_lem x [] k1 a.free h.exists refl).0 a.ref a.link)
                  λ _ k' f. returned (refl, f))))))

-- Two environments that the caller may name: `d` is the page directory of the source and `d'` that
-- of the destination.
module _ (srcenvid dstenvid c d d' srcva dstva : ℕ) (k : Kernel) (xs : List ℕ)
    (cur : k.curenv ≡ some c) (ne : srcenvid ≢ 0) (ne' : dstenvid ≢ 0)
    (may : MayName k c srcenvid true) (may' : MayName k c dstenvid true)
    (dir : (k.envs (envx srcenvid)).env_pgdir ≡ some d)
    (dir' : (k.envs (envx dstenvid)).env_pgdir ≡ some d') (low : srcva < utop)
    (aligned : srcva % page_size ≡ 0) (low' : dstva < utop) (aligned' : dstva % page_size ≡ 0) where
  -- sys_page_map maps the page at `srcva` of the source at `dstva` of the destination, with the
  -- flags `perm` and PTE_P, whatever flags below 4096 they are and whatever those of the source are,
  -- and returns 0; no other page of the destination changes. Assumed: there is a page table for `dstva` or a free page
  -- to make one, and the count of the page does not overflow.
  pub sys_page_map_lem :
      (entry perm : ℕ)
      → perm < 4096
      → IsTree k d' xs
      → translate k d srcva ≡ some entry
      → pgnum (pde d srcva k) < k.npages
      → IsCounted k (pgnum entry)
      → present (pde d' dstva k) ≡ true ⊎ xs ≢ []
      → IsReplaceable d' dstva k
      → (k.pages (pgnum entry)).pp_ref + 1 < 2 ^ 16
      → Returns
          (λ r k'. (r ≡ val 0) × Inserted d' dstva (pgnum entry * 4096 + (perm / 2 * 2 + 1)) k k')
          (sys_page_map srcenvid srcva dstenvid dstva perm k)
  unfolding sys_page_map map_shared deref
  sys_page_map_lem entry perm flags tree found l counted room old small =
      let m = translate-Mapped d srcva entry k found in
      let at = m.is_entry in
      rw (with_env-accepted srcenvid c k cur ne _ may) (
        rw (with_env-accepted dstenvid c k cur ne' _ may') (
          rw
            (
              lt→leb utop srcva low,
              lt→leb utop dstva low',
              (==_iff (srcva % page_size) 0).1 aligned,
              (==_iff (dstva % page_size) 0).1 aligned',
            )
            (rw (directory-ok (envx srcenvid) d k dir) (
              rw
                (page_lookup-found d srcva k m.table l m.page
                  (subst (λ x. pgnum x < k.npages) (sym at) counted.exists))
                (rw (directory-ok (envx dstenvid) d' k dir') (
                  rw at (
                    subst
                      (λ x.
                        Returns (λ r k'. (r ≡ val 0) × Inserted d' dstva x k k')
                          (page_insert d' (pgnum entry) dstva perm k))
                      (new_entry_lem (pgnum entry) perm flags)
                      (page_insert_lem d' dstva (pgnum entry) perm k xs tree (user_pdx dstva low')
                        room old small))))))))
