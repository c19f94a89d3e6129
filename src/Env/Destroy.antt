-- ===== src/Env/Destroy.antt =====
-- kern/env.c: env_free and env_destroy.
use jos_kernel.Base.{
  bit_or, if◌then◌else◌, none, not, some, suc, update, zero, ℕ, ◌&&◌, ◌*◌, ◌+◌, if-true, true, ◌≡◌,
  Option,
}
use jos_kernel.Env.Lookup.{is_curenv}
use jos_kernel.Kernel.Layout.{page_size, pdx, pgnum, present, table_span, utop}
use jos_kernel.Kernel.Outcome.{
  Cmd, fault, get, load, ok, put, set_env, skip, store, when, ◌>>=◌, ◌>>◌,
}
use jos_kernel.Kernel.State.{dying, free, Kernel}
use jos_kernel.Pmap.Alloc.{kaddr, pa2page, page_decref}
use jos_kernel.Pmap.Space.Steps.{pde}
use jos_kernel.Pmap.Walk.{page_remove}
use jos_kernel.Sched.{is_running, sched_yield}

-- PGADDR(d, t, 0)
abbrev pub pgaddr : ℕ → ℕ → ℕ
pgaddr d t = bit_or (d * table_span) (t * page_size)

-- The inner loop of env_free, with the rounds left: unmap the entries of page table `pt`.
unfoldable pub unmap_table : ℕ → ℕ → ℕ → ℕ → ℕ → Cmd (Unit {0})
unmap_table pgdir pdeno pt zero pteno = skip
unmap_table pgdir pdeno pt (suc n) pteno = do
  entry ← load (pt, pteno)
  when (present entry) (page_remove pgdir (pgaddr pdeno pteno))
  unmap_table pgdir pdeno pt n (pteno + 1)

-- One round of the outer loop.
unfoldable pub free_table : ℕ → ℕ → Cmd (Unit {0})
unfolding unmap_table
free_table pgdir pdeno = do
  pde ← load (pgdir, pdeno)
  when (present pde) (do
    pt ← kaddr (pgnum pde)
    unmap_table pgdir pdeno pt 1024 0
    store (pgdir, pdeno) 0
    pp ← pa2page (pgnum pde)
    page_decref pp)

-- The outer loop, with the rounds left.
unfoldable pub free_tables : ℕ → ℕ → ℕ → Cmd (Unit {0})
unfolding free_table
free_tables pgdir zero pdeno = skip
free_tables pgdir (suc n) pdeno = do free_table pgdir pdeno; free_tables pgdir n (pdeno + 1)

-- `e->env_pgdir`, where the code reads through it.
unfoldable pub directory : ℕ → Cmd ℕ
directory e k = elim (k.envs e).env_pgdir [ none ↦ fault | some d ↦ ok d k ]

unfoldable pub forget_pgdir : ℕ → Cmd (Unit {0})
forget_pgdir e k = set_env e (record (k.envs e) { env_pgdir = none }) k

unfoldable pub release_slot : ℕ → Cmd (Unit {0})
release_slot e k = ok tt (record k {
  envs = update k.envs e (record (k.envs e) { env_status = free; env_link = k.env_free_list });
  env_free_list = some e;
})

unfoldable pub env_free : ℕ → Cmd (Unit {0})
unfolding free_tables directory forget_pgdir release_slot
env_free e = do
  k ← get
  when (is_curenv e k) (put (record k { cr3 = k.kern_pgdir }))
  pgdir ← directory e
  free_tables pgdir (pdx utop) 0
  forget_pgdir e
  pp ← pa2page pgdir
  page_decref pp
  release_slot e

unfoldable pub mark_dying : ℕ → Cmd (Unit {0})
mark_dying e k = set_env e (record (k.envs e) { env_status = dying }) k

-- `curenv == e` is tested after env_free, which does not change curenv.
unfoldable pub destroy_here : ℕ → Cmd (Unit {0})
unfolding env_free
destroy_here e = do
  env_free e
  k ← get
  when (is_curenv e k) (put (record k { curenv = none }) >> sched_yield)

unfoldable pub env_destroy : ℕ → Cmd (Unit {0})
unfolding mark_dying destroy_here
env_destroy e k =
    if is_running (k.envs e).env_status && not (is_curenv e k)
    then mark_dying e k
    else destroy_here e k

pub env_destroy-elsewhere :
    (e : ℕ) (k : Kernel)
    → (is_running (k.envs e).env_status && not (is_curenv e k)) ≡ true
    → env_destroy e k
      ≡ ok tt (record k { envs = update k.envs e (record (k.envs e) { env_status = dying }) })
unfolding env_destroy mark_dying
env_destroy-elsewhere e k h = if-true _ h

pub directory-ok : (e d : ℕ) (k : Kernel) → (k.envs e).env_pgdir ≡ some d → directory e k ≡ ok d k
unfolding directory
directory-ok e d k h = at (k.envs e).env_pgdir h
  where
    at : (o : Option ℕ) → o ≡ some d → (elim o [ none ↦ fault | some x ↦ ok x k ]) ≡ ok d k
    at o h = rw h
