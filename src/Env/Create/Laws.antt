-- ===== src/Env/Create/Laws.antt =====
-- What env_init and env_alloc leave.
use jos_kernel.Base.{
  ==_ne, Option, ap, arith, none, refl, some, suc, update, zero, ℕ, ◌<◌, ◌∙◌, ◌≡◌, ==_self, List,
  bit_or, false, subst, sym, ◌%◌, ◌*◌, ◌+◌, ◌^◌, ◌∷◌, ◌≢◌,
}
use jos_kernel.Base.Bits.{bit_or_aligned, bit_or_page}
use jos_kernel.Env.Create.{
  env_init, init_loop, init_slot, copy_page, env_alloc, env_setup_vm, next_generation, alloc_slot,
  commit, fresh_env,
}
use jos_kernel.Env.Lookup.{nenv}
use jos_kernel.Kernel.Layout.{pdx, pte_p, pte_u, uvpt}
use jos_kernel.Kernel.Outcome.{Returns, err, no_free_env, no_mem, ok, val, returned}
use jos_kernel.Kernel.State.{Env, Kernel, free, poke, runnable}
use jos_kernel.Pmap.Alloc.{alloc_zero, incref, page2pa}
use jos_kernel.Pmap.Alloc.Free.{has}
use jos_kernel.Pmap.Alloc.FreeList.{
  Chain-Head, IsFree, page_alloc-taken, taken, has-ne, page_alloc-none,
}
use jos_kernel.Pmap.Space.Grow.{poke_at}
use jos_kernel.Pmap.Space.Steps.{kaddr-ok}

-- From `head` the links lead through the slots `i`, `i + 1`, ... up to `last`, all free with the
-- identifier 0, and then end.
pub data InOrder (envs : ℕ → Env) (last : ℕ) : ℕ → Option ℕ → Type 0 where
  ends : {i : ℕ} {head : Option ℕ} → i ≡ last → head ≡ none → InOrder envs last i head
  link_slot :
      {i : ℕ} {head : Option ℕ}
      → head ≡ some i
      → (envs i).env_status ≡ free
      → (envs i).env_id ≡ 0
      → InOrder envs last (suc i) (envs i).env_link
      → InOrder envs last i head

-- A write to an earlier slot keeps the rest of the list.
InOrder-update :
    {envs : ℕ → Env} {last i : ℕ} {head : Option ℕ} (j : ℕ) (v : Env)
    → j < i
    → InOrder envs last i head
    → InOrder (update envs j v) last i head
InOrder-update j v h (ends e n) = ends e n
InOrder-update {envs} {last} {i} j v h (link_slot e f z rest) =
    let kept : update envs j v i ≡ envs i = rw (==_ne i j (omega arith)) in
    link_slot e (ap Env.env_status kept ∙ f) (ap Env.env_id kept ∙ z) (
      subst (λ x. InOrder (update envs j v) last (suc i) x) (sym (ap Env.env_link kept))
        (InOrder-update j v (omega arith) rest))

init_loop-InOrder :
    (i last : ℕ) (k : Kernel)
    → InOrder k.envs last i k.env_free_list
    → InOrder (init_loop i k).envs last 0 (init_loop i k).env_free_list
unfolding init_loop
init_loop-InOrder zero last k h = h
init_loop-InOrder (suc i) last k h =
    let v = record (k.envs i) { env_link = k.env_free_list; env_id = 0; env_status = free } in
    let written : update k.envs i v i ≡ v = rw (==_self i) in
    init_loop-InOrder i last (init_slot i k) (
      link_slot refl (ap Env.env_status written) (ap Env.env_id written) (
        subst (λ x. InOrder (update k.envs i v) last (suc i) x) (sym (ap Env.env_link written))
          (InOrder-update i v (omega arith) h)))

-- env_init frees every slot, resets its identifier, and links the slots in the order of the array,
-- so that the first env_alloc takes slot 0.
pub env_init_lem : (k : Kernel) → InOrder (env_init k).envs nenv 0 (env_init k).env_free_list
unfolding env_init
env_init_lem k = init_loop-InOrder nenv nenv (record k { env_free_list = none }) (ends refl refl)

own_entry : (x : ℕ) → bit_or (bit_or (page2pa x) pte_p) pte_u ≡ x * 4096 + 5
own_entry x = rw (bit_or_aligned x 1 (omega arith)) (bit_or_page x 1 4 (omega arith) (omega arith))

-- The state that env_setup_vm leaves when page `x` is the first of the free list.
abbrev pub set_up : ℕ → ℕ → Kernel → Kernel
set_up e x k =
    let t = taken alloc_zero x k in
    record t {
      envs = update k.envs e (record (k.envs e) { env_pgdir = some x });
      pages = update t.pages x (record (t.pages x) { pp_ref = ((t.pages x).pp_ref + 1) % 2 ^ 16 });
      word =
          poke (copy_page t.word x k.kern_pgdir) x (pdx uvpt)
            (bit_or (bit_or (page2pa x) pte_p) pte_u);
    }

env_setup_vm-set_up :
    (e x : ℕ) (k : Kernel)
    → k.page_free_list ≡ some x
    → x < k.npages
    → env_setup_vm e k ≡ ok (val 0) (set_up e x k)
unfolding env_setup_vm incref
env_setup_vm-set_up e x k h l =
    rw (page_alloc-taken alloc_zero x k h l) (rw (kaddr-ok x (taken alloc_zero x k) l))

-- What a new environment in slot `e`, with the page directory `x`, looks like.
pub record Created (e x parent_id : ℕ) (k k' : Kernel) : Type 0 where
  pub id : (k'.envs e).env_id ≡ bit_or (next_generation (k.envs e).env_id) e
  pub parent : (k'.envs e).env_parent_id ≡ parent_id
  pub status : (k'.envs e).env_status ≡ runnable
  pub directory : (k'.envs e).env_pgdir ≡ some x
  pub not_receiving : (k'.envs e).env_ipc_recving ≡ false
  pub others : (i : ℕ) → i ≢ e → k'.envs i ≡ k.envs i
  pub free_list : k'.env_free_list ≡ (k.envs e).env_link
  pub current : k'.curenv ≡ k.curenv
  pub kernel_part : (i : ℕ) → i ≢ pdx uvpt → k'.word x i ≡ k.word k.kern_pgdir i
  pub own_tables : k'.word x (pdx uvpt) ≡ x * 4096 + 5
  pub memory : (q i : ℕ) → q ≢ x → k'.word q i ≡ k.word q i

abbrev committed : ℕ → ℕ → ℕ → Kernel → Kernel
committed e x parent_id k =
    let s = set_up e x k in
    record s {
      envs = update s.envs e (fresh_env e parent_id (s.envs e));
      env_free_list = (s.envs e).env_link;
    }

alloc_slot-committed :
    (e x parent_id : ℕ) (k : Kernel)
    → k.page_free_list ≡ some x
    → x < k.npages
    → alloc_slot e parent_id k ≡ ok (some e, val 0) (committed e x parent_id k)
unfolding alloc_slot commit
alloc_slot-committed e x parent_id k h l = rw (env_setup_vm-set_up e x k h l)

alloc_slot-none :
    (e parent_id : ℕ) (k : Kernel)
    → k.page_free_list ≡ none
    → alloc_slot e parent_id k ≡ ok (none, err no_mem) k
unfolding alloc_slot env_setup_vm
alloc_slot-none e parent_id k h = rw (page_alloc-none alloc_zero k h)

env_alloc-slot :
    (e parent_id : ℕ) (k : Kernel)
    → k.env_free_list ≡ some e
    → env_alloc parent_id k ≡ alloc_slot e parent_id k
unfolding env_alloc
env_alloc-slot e parent_id k h = ground arith

committed-Created :
    (e x parent_id : ℕ) (k : Kernel)
    → k.kern_pgdir ≢ x
    → Created e x parent_id k (committed e x parent_id k)
committed-Created e x parent_id k ne = record {
  id = rw (==_self e);
  parent = rw (==_self e);
  status = rw (==_self e);
  directory = rw (==_self e);
  not_receiving = rw (==_self e);
  others = λ i n. rw (==_ne i e n);
  free_list = rw (==_self e);
  current = refl;
  kernel_part = λ i n. rw (==_self x, ==_ne i (pdx uvpt) n) (rw (==_ne k.kern_pgdir x ne));
  own_tables =
      poke_at (copy_page (taken alloc_zero x k).word x k.kern_pgdir) x (pdx uvpt)
        (bit_or (bit_or (page2pa x) pte_p) pte_u)
      ∙ own_entry x;
  memory = λ q i n. rw (==_ne q x n);
}

-- With a free slot and a free page env_alloc takes the first of each: the new environment is
-- runnable, has a fresh identifier, the given parent and a page directory that equals the kernel's
-- but for the entry that maps the directory itself, user-readable. No other environment and no
-- other page of memory changes.
pub env_alloc_lem :
    (e x parent_id : ℕ) (xs : List ℕ) (k : Kernel)
    → k.env_free_list ≡ some e
    → IsFree k (x ∷ xs)
    → has k.kern_pgdir (x ∷ xs) ≡ false
    → Returns (λ r k'. (r ≡ (some e, val 0)) × Created e x parent_id k k') (env_alloc parent_id k)
env_alloc_lem e x parent_id xs k fe f out =
    let h = Chain-Head k.npages k.pages k.page_free_list x xs f in
    rw (env_alloc-slot e parent_id k fe) (
      rw (alloc_slot-committed e x parent_id k h.first h.exists)
        (returned (refl, committed-Created e x parent_id k (has-ne k.kern_pgdir x xs out))))

-- With no free slot env_alloc returns -E_NO_FREE_ENV, and with no free page -E_NO_MEM; both leave
-- the state as it was.
pub env_alloc-exhausted :
    (parent_id : ℕ) (k : Kernel)
    → (k.env_free_list ≡ none → env_alloc parent_id k ≡ ok (none, err no_free_env) k)
      × ((e : ℕ)
          → k.env_free_list ≡ some e
          → k.page_free_list ≡ none
          → env_alloc parent_id k ≡ ok (none, err no_mem) k)
unfolding env_alloc
env_alloc-exhausted parent_id k =
    (λ h. ground arith, λ e h p. env_alloc-slot e parent_id k h ∙ alloc_slot-none e parent_id k p)
