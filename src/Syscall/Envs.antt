-- ===== src/Syscall/Envs.antt =====
-- kern/syscall.c: sys_getenvid, sys_env_destroy, sys_exofork, sys_env_set_status and
-- sys_env_set_pgfault_upcall. The messages on the console are left out.
pub mod Laws
pub mod Fork
use jos_kernel.Base.{Option, if◌then◌else◌, none, not, some, true, update, ℕ, ◌&&◌, ◌==◌, ◌≡◌}
use jos_kernel.Env.Create.{env_alloc}
use jos_kernel.Env.Destroy.{env_destroy}
use jos_kernel.Env.Lookup.{envid2env}
use jos_kernel.Kernel.Outcome.{Cmd, Ret, err, fault, get, inval, ok, pure, val, ◌>>=◌, ◌>>◌}
use jos_kernel.Kernel.State.{Status, Trapframe, not_runnable, runnable, Kernel}

-- `curenv->...`
unfoldable pub current : Cmd ℕ
current k = elim k.curenv [ none ↦ fault | some c ↦ ok c k ]

-- `e->...` with the pointer that envid2env stored
unfoldable pub deref : Option ℕ → Cmd ℕ
deref none = λ _. fault
deref (some e) = pure e

-- `if ((r = envid2env(envid, &e, 1)) < 0) return r;` and the rest of the function.
unfoldable pub with_env : ℕ → (Option ℕ → Cmd Ret) → Cmd Ret
with_env envid rest = do
  found ← envid2env envid true
  let (e, r) = found in elim r [ err x ↦ pure (err x) | val _ ↦ rest e ]

unfoldable pub sys_getenvid : Cmd Ret
unfolding current
sys_getenvid = do c ← current; k ← get; pure (val (k.envs c).env_id)

unfoldable pub sys_env_destroy : ℕ → Cmd Ret
unfolding with_env deref
sys_env_destroy envid = with_env envid λ e. do e ← deref e; env_destroy e; pure (val 0)

-- sys_exofork once it has the child.
unfoldable pub set_child : ℕ → ℕ → Cmd Ret
set_child child c k =
    let tf : Trapframe = (k.envs c).env_tf in
    ok (val (k.envs child).env_id) (record k {
      envs = update k.envs child (record (k.envs child) {
        env_status = not_runnable;
        env_tf = record tf { tf_regs = record tf.tf_regs { reg_eax = 0 } };
      });
    })

-- What follows env_alloc in sys_exofork.
unfoldable pub adopt : Option ℕ × Ret → Cmd Ret
unfolding current deref set_child
adopt (child, r) = elim r [
  | err x ↦ pure (err x)
  | val _ ↦ do child ← deref child; c ← current; set_child child c
]

unfoldable pub sys_exofork : Cmd Ret
unfolding current
sys_exofork = do c ← current; k ← get; found ← env_alloc (k.envs c).env_id; adopt found

-- ENV_RUNNABLE and ENV_NOT_RUNNABLE as numbers.
abbrev pub env_runnable : ℕ
env_runnable = 2

abbrev pub env_not_runnable : ℕ
env_not_runnable = 4

abbrev pub set_status : ℕ → Status → Cmd Ret
set_status e s k =
    ok (val 0) (record k { envs = update k.envs e (record (k.envs e) { env_status = s }) })

unfoldable pub sys_env_set_status : ℕ → ℕ → Cmd Ret
unfolding with_env deref
sys_env_set_status envid status = with_env envid λ e.
    if not (status == env_not_runnable) && not (status == env_runnable)
    then pure (err inval)
    else (do e ← deref e; set_status e (if status == env_runnable then runnable else not_runnable))

abbrev pub set_upcall : ℕ → ℕ → Cmd Ret
set_upcall e func k =
    ok (val 0)
      (record k { envs = update k.envs e (record (k.envs e) { env_pgfault_upcall = func }) })

unfoldable pub sys_env_set_pgfault_upcall : ℕ → ℕ → Cmd Ret
unfolding with_env deref
sys_env_set_pgfault_upcall envid func = with_env envid λ e. do e ← deref e; set_upcall e func

pub current-ok : (c : ℕ) (k : Kernel) → k.curenv ≡ some c → current k ≡ ok c k
unfolding current
current-ok c k h = at k.curenv h
  where
    at : (o : Option ℕ) → o ≡ some c → (elim o [ none ↦ fault | some c ↦ ok c k ]) ≡ ok c k
    at o h = rw h
