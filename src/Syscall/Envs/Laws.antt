-- ===== src/Syscall/Envs/Laws.antt =====
-- The system calls of kern/syscall.c on environments: permission, status, and destroying an
-- environment that runs on another CPU.
use jos_kernel.Base.{==_ne, Option, some, true, ℕ, ◌∙◌, ◌≡◌, ◌≢◌, false, none, not, ◌&&◌, ◌==◌}
use jos_kernel.Env.Destroy.{env_destroy-elsewhere}
use jos_kernel.Env.Lookup.{MayName, envid2env_lem, envx}
use jos_kernel.Kernel.Outcome.{Cmd, Ret, bad_env, err, inval, ok}
use jos_kernel.Kernel.State.{Kernel, dying, not_runnable, runnable, running, Status}
use jos_kernel.Sched.{is_running}
use jos_kernel.Syscall.Envs.{
  deref, env_not_runnable, env_runnable, set_status, sys_env_destroy, sys_env_set_pgfault_upcall,
  sys_env_set_status, with_env,
}
use jos_kernel.Syscall.Frame.{sys_env_set_trapframe}
use jos_kernel.Syscall.Pages.{sys_page_alloc, sys_page_map, sys_page_unmap}

elsewhere :
    (s : Status) (e c : ℕ) (cur : Option ℕ)
    → s ≡ running
    → cur ≡ some c
    → c ≢ e
    → (is_running s && not (elim cur [ none ↦ false | some d ↦ d == e ])) ≡ true
elsewhere s e c cur runs here other = rw (runs, here) (rw (==_ne c e other))

module _ (envid c : ℕ) (k : Kernel) (cur : k.curenv ≡ some c) (ne : envid ≢ 0) where
  pub with_env-refused :
      (rest : Option ℕ → Cmd Ret)
      → ¬ MayName k c envid true
      → with_env envid rest k ≡ ok (err bad_env) k
  unfolding with_env
  with_env-refused rest never = rw ((envid2env_lem envid c true k cur ne).1 never)

  pub with_env-accepted :
      (rest : Option ℕ → Cmd Ret)
      → MayName k c envid true
      → with_env envid rest k ≡ rest (some (envx envid)) k
  unfolding with_env
  with_env-accepted rest may = rw ((envid2env_lem envid c true k cur ne).0 may)

  -- A call that names by a nonzero envid an environment that does not exist any more, or is neither
  -- the caller nor a child of the caller, returns -E_BAD_ENV and changes nothing: sys_env_destroy,
  -- sys_env_set_status, sys_env_set_pgfault_upcall, sys_env_set_trapframe, sys_page_alloc,
  -- sys_page_unmap, and sys_page_map with it as the source.
  pub strangers_refused :
      (a b d e : ℕ)
      → ¬ MayName k c envid true
      → (sys_env_destroy envid k ≡ ok (err bad_env) k)
        × (sys_env_set_status envid a k ≡ ok (err bad_env) k)
        × (sys_env_set_pgfault_upcall envid a k ≡ ok (err bad_env) k)
        × (sys_page_alloc envid a b k ≡ ok (err bad_env) k)
        × (sys_page_unmap envid a k ≡ ok (err bad_env) k)
        × (sys_page_map envid a b d e k ≡ ok (err bad_env) k)
        × (sys_env_set_trapframe envid a k ≡ ok (err bad_env) k)
  unfolding sys_env_destroy sys_env_set_status sys_env_set_pgfault_upcall sys_page_alloc
      sys_page_unmap sys_page_map sys_env_set_trapframe
  strangers_refused a b d e never = (
    with_env-refused _ never,
    with_env-refused _ never,
    with_env-refused _ never,
    with_env-refused _ never,
    with_env-refused _ never,
    with_env-refused _ never,
    with_env-refused _ never,
  )

  -- For an environment that the caller may name, sys_env_set_status accepts ENV_RUNNABLE and
  -- ENV_NOT_RUNNABLE, which become its status and change nothing else, and answers any other number
  -- with -E_INVAL and no change.
  pub sys_env_set_status_lem :
      (status : ℕ)
      → MayName k c envid true
      → (status ≡ env_runnable
          → sys_env_set_status envid status k ≡ set_status (envx envid) runnable k)
        × (status ≡ env_not_runnable
            → sys_env_set_status envid status k ≡ set_status (envx envid) not_runnable k)
        × (status ≢ env_runnable
            → status ≢ env_not_runnable
            → sys_env_set_status envid status k ≡ ok (err inval) k)
  unfolding sys_env_set_status deref
  sys_env_set_status_lem status may = (
    λ q. with_env-accepted _ may ∙ rw q,
    λ q. with_env-accepted _ may ∙ rw q,
    λ p q.
        with_env-accepted _ may ∙ rw (==_ne status env_runnable p, ==_ne status env_not_runnable q),
  )

  -- sys_env_destroy of an environment that runs on another CPU only marks it ENV_DYING: its memory
  -- and its slot are kept until it traps.
  pub sys_env_destroy-elsewhere :
      MayName k c envid true
      → (k.envs (envx envid)).env_status ≡ running
      → c ≢ envx envid
      → sys_env_destroy envid k ≡ set_status (envx envid) dying k
  unfolding sys_env_destroy deref
  sys_env_destroy-elsewhere may runs other =
      with_env-accepted _ may
      ∙ rw (
          env_destroy-elsewhere (envx envid) k
            (elsewhere (k.envs (envx envid)).env_status (envx envid) c k.curenv runs cur other))
