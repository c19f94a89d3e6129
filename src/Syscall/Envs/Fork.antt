-- ===== src/Syscall/Envs/Fork.antt =====
-- sys_exofork of kern/syscall.c.
use jos_kernel.Base.{==_ne, ==_self, List, ap, bit_or, false, some, ℕ, ◌∷◌, ◌≡◌, ◌≢◌, ◌∙◌, refl}
use jos_kernel.Env.Create.{next_generation}
use jos_kernel.Env.Create.Laws.{Created, env_alloc_lem}
use jos_kernel.Kernel.Outcome.{Returns, Returns-and_then, returned, val}
use jos_kernel.Kernel.State.{Env, Kernel, Trapframe, not_runnable}
use jos_kernel.Pmap.Alloc.Free.{has}
use jos_kernel.Pmap.Alloc.FreeList.{IsFree}
use jos_kernel.Syscall.Envs.{deref, set_child, sys_exofork, current-ok, adopt}

-- The registers of a child: those of its parent, with a result of 0.
abbrev pub forked : Trapframe → Trapframe
forked tf = record tf { tf_regs = record tf.tf_regs { reg_eax = 0 } }

-- The child `e` of the caller `c`, with the page directory `x`.
pub record Forked (e x c : ℕ) (k k' : Kernel) : Type 0 where
  pub identifier : (k'.envs e).env_id ≡ bit_or (next_generation (k.envs e).env_id) e
  pub registers : (k'.envs e).env_tf ≡ forked (k.envs c).env_tf
  pub status : (k'.envs e).env_status ≡ not_runnable
  pub parent : (k'.envs e).env_parent_id ≡ (k.envs c).env_id
  pub directory : (k'.envs e).env_pgdir ≡ some x
  pub others : (i : ℕ) → i ≢ e → k'.envs i ≡ k.envs i

child_set :
    (e x c : ℕ) (k k1 : Kernel)
    → c ≢ e
    → Created e x (k.envs c).env_id k k1
    → Returns (λ r k'. (r ≡ val (k'.envs e).env_id) × Forked e x c k k') (set_child e c k1)
unfolding set_child
child_set e x c k k1 other made = returned (
  rw (==_self e) refl,
  record {
    identifier = rw (==_self e) made.id;
    registers = rw (==_self e) (ap (λ v. forked (Env.env_tf v)) (made.others c other));
    status = rw (==_self e);
    parent = rw (==_self e) made.parent;
    directory = rw (==_self e) made.directory;
    others = λ i ne. rw (==_ne i e ne) (made.others i ne);
  },
)

adopt-child : (e c : ℕ) (k : Kernel) → k.curenv ≡ some c → adopt (some e, val 0) k ≡ set_child e c k
unfolding adopt deref
adopt-child e c k cur = rw (current-ok c k cur)

-- With a free slot and a free page sys_exofork returns the env_id of a new environment, which is the
-- next generation of the slot, a child of the caller that is not yet runnable, has its own page
-- directory and the registers of the caller but for a result of 0. No other environment changes.
pub sys_exofork_lem :
    (e x c : ℕ) (xs : List ℕ) (k : Kernel)
    → k.curenv ≡ some c
    → c ≢ e
    → k.env_free_list ≡ some e
    → IsFree k (x ∷ xs)
    → has k.kern_pgdir (x ∷ xs) ≡ false
    → Returns (λ r k'. (r ≡ val (k'.envs e).env_id) × Forked e x c k k') (sys_exofork k)
unfolding sys_exofork
sys_exofork_lem e x c xs k cur other fe f out = rw (current-ok c k cur) (
    Returns-and_then (env_alloc_lem e x (k.envs c).env_id xs k fe f out) λ r k1 (q, made).
      rw q (rw (adopt-child e c k1 (made.current ∙ cur)) (child_set e x c k k1 other made)))
