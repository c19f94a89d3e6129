-- ===== src/Env/Run.antt =====
-- kern/env.c: env_run and env_pop_tf; kern/spinlock.h: unlock_kernel.
pub mod Switch
use jos_kernel.Base.{false, if◌then◌else◌, none, not, some, update, ℕ, ◌%◌, ◌+◌, Option}
use jos_kernel.Env.Lookup.{is_curenv}
use jos_kernel.Kernel.Layout.{u32_mod}
use jos_kernel.Kernel.Outcome.{Cmd, get, left, ok, panic, put, to_user, when, ◌>>=◌, ◌>>◌}
use jos_kernel.Kernel.State.{Kernel, runnable, running, Env, Status}

-- spin_unlock panics if this CPU does not hold the lock.
unfoldable pub unlock_kernel : Cmd (Unit {0})
unlock_kernel k = if k.kernel_locked then ok tt (record k { kernel_locked = false }) else panic

abbrev pub stopped : Status → Status
stopped running = runnable
stopped s = s

-- An environment that is RUNNING becomes RUNNABLE.
abbrev pub stop : Env → Env
stop v = record v { env_status = stopped v.env_status }

-- So does the current environment, if there is one.
abbrev pub preempt_from : Option ℕ → Kernel → Kernel
preempt_from none k = k
preempt_from (some c) k = record k { envs = update k.envs c (stop (k.envs c)) }

-- `curenv = e` with its status, its run count and its page directory. PADDR of a null page
-- directory panics.
unfoldable pub switch_to : ℕ → Cmd (Unit {0})
switch_to e k = elim (k.envs e).env_pgdir [
  | none ↦ panic
  | some d ↦ ok tt (record k {
    curenv = some e;
    envs = update k.envs e (record (k.envs e) {
      env_status = running;
      env_runs = ((k.envs e).env_runs + 1) % u32_mod;
    });
    cr3 = d;
  })
]

-- env_pop_tf notes the CPU in the current environment and returns to user mode.
env_pop_tf : ℕ → Cmd (Unit {0})
env_pop_tf e k =
    left (to_user e)
      (record k { envs = update k.envs e (record (k.envs e) { env_cpunum = k.cpu }) })

unfoldable pub env_run : ℕ → Cmd (Unit {0})
unfolding unlock_kernel switch_to env_pop_tf
env_run e = do
  k ← get
  when (not (is_curenv e k)) (put (preempt_from k.curenv k) >> switch_to e)
  unlock_kernel
  env_pop_tf e
