-- ===== src/Trap/SystemCall.antt =====
-- A system call from the trap to the return to user mode.
use jos_kernel.Base.{
  ==_self, false, some, true, update, ℕ, ◌≡◌, Option, arith, if◌then◌else◌, none, ◌%◌, ◌==◌,
}
use jos_kernel.Env.Lookup.{is_curenv}
use jos_kernel.Env.Run.{env_run}
use jos_kernel.Env.Run.Switch.{unlock_kernel-ok}
use jos_kernel.Kernel.Outcome.{left, ok, to_user, Cmd, Ret, panic, ◌>>◌}
use jos_kernel.Kernel.State.{Kernel, Trapframe, running}
use jos_kernel.Sched.{is_dying, is_running}
use jos_kernel.Syscall.Dispatch.{Call}
use jos_kernel.Syscall.Envs.{current-ok}
use jos_kernel.Trap.Dispatch.{
  collect, enter_from_user, lock_kernel, resume, assert_curenv, still_running, trap, trap_dispatch,
  wake_cpu, with_eax,
}
use jos_kernel.Trap.Upcall.{env_frame}

-- The state when trap dispatches a trap of environment `c`.
abbrev pub entered_with : ℕ → Trapframe → Kernel → Kernel
entered_with c tf k = record k {
  kernel_locked = true;
  envs = update k.envs c (record (k.envs c) { env_tf = tf });
}

-- The state in which env_run leaves the kernel for the current environment.
abbrev pub back_to : ℕ → Kernel → Kernel
back_to c k = record k {
  kernel_locked = false;
  envs = update k.envs c (record (k.envs c) { env_cpunum = k.cpu });
}

pub is_curenv_self : (c : ℕ) (k : Kernel) → k.curenv ≡ some c → is_curenv c k ≡ true
is_curenv_self c k cur = own k.curenv cur
  where
    own : (cur : Option ℕ) → cur ≡ some c → (elim cur [ none ↦ false | some d ↦ d == c ]) ≡ true
    own cur h = rw h (==_self c)

pub env_run-again :
    (c : ℕ) (k : Kernel)
    → k.curenv ≡ some c
    → k.kernel_locked ≡ true
    → env_run c k ≡ left (to_user c) (back_to c k)
unfolding env_run
env_run-again c k cur locked = rw (is_curenv_self c k cur) (rw (unlock_kernel-ok k locked))

lock_kernel-ok :
    (k : Kernel)
    → k.kernel_locked ≡ false
    → lock_kernel k ≡ ok tt (record k { kernel_locked = true })
unfolding lock_kernel
lock_kernel-ok k h = ground arith

collect-live : (c : ℕ) (k : Kernel) → (k.envs c).env_status ≡ running → collect c k ≡ ok tt k
unfolding collect
collect-live c k runs = let live : is_dying (k.envs c).env_status ≡ false = rw runs in rw live

assert_curenv-ok : (c : ℕ) (k : Kernel) → k.curenv ≡ some c → assert_curenv k ≡ ok c k
assert_curenv-ok c k cur = at k.curenv cur
  where
    at : (o : Option ℕ) → o ≡ some c → (elim o [ none ↦ panic | some c ↦ ok c k ]) ≡ ok c k
    at o h = rw h

pub enter_from_user-entered :
    (c : ℕ) (tf : Trapframe) (k : Kernel)
    → k.curenv ≡ some c
    → k.kernel_locked ≡ false
    → (k.envs c).env_status ≡ running
    → enter_from_user tf k ≡ ok (env_frame c) (entered_with c tf k)
unfolding enter_from_user
enter_from_user-entered c tf k cur unlocked runs =
    let locked : Kernel = record k { kernel_locked = true } in
    rw (lock_kernel-ok k unlocked) (
      rw (assert_curenv-ok c locked cur)
        (rw (collect-live c locked runs) (rw (current-ok c locked cur))))

still_running-current :
    (c : ℕ) (k : Kernel)
    → k.curenv ≡ some c
    → (k.envs c).env_status ≡ running
    → still_running k ≡ some c
still_running-current c k cur runs =
    let live : is_running (k.envs c).env_status ≡ true = rw runs in at k.curenv cur live
  where
    at :
        (o : Option ℕ)
        → o ≡ some c
        → is_running (k.envs c).env_status ≡ true
        → (elim o [
          | none ↦ none
          | some c ↦ if is_running (k.envs c).env_status then some c else none
        ])
          ≡ some c
    at o h live = rw h (rw live)

pub resume-back :
    (c : ℕ) (k : Kernel)
    → k.curenv ≡ some c
    → (k.envs c).env_status ≡ running
    → k.kernel_locked ≡ true
    → resume k ≡ left (to_user c) (back_to c k)
unfolding resume
resume-back c k cur runs locked =
    rw (resume, still_running-current c k cur runs) (env_run-again c k cur locked)

wake_cpu-awake :
    (k : Kernel) → k.cpu_halted ≡ false → wake_cpu k ≡ ok tt (record k { cpu_halted = false })
unfolding wake_cpu
wake_cpu-awake k h = rw h

module _ (device : Call → ℕ → ℕ → Cmd Ret) (interrupt : ℕ → Cmd (Unit {0})) (fault_va c : ℕ)
    (tf : Trapframe) (k : Kernel) where
  -- The state that trap dispatches in.
  abbrev pub dispatched : Kernel
  dispatched = entered_with c tf (record k { cpu_halted = false })

  pub trap-entered :
      tf.tf_cs % 4 ≡ 3
      → k.curenv ≡ some c
      → k.kernel_locked ≡ false
      → k.cpu_halted ≡ false
      → (k.envs c).env_status ≡ running
      → trap device interrupt fault_va tf k
        ≡ (trap_dispatch device interrupt fault_va (env_frame c) >> resume) dispatched
  unfolding trap
  trap-entered ring cur unlocked awake runs =
      rw (wake_cpu-awake k awake, ring)
        (rw (enter_from_user-entered c tf (record k { cpu_halted = false }) cur unlocked runs))

  -- The state after the system call, with the result in the frame.
  abbrev pub answered : ℕ → Kernel → Kernel
  answered r k' = record k' {
    envs = update k'.envs c (record (k'.envs c) { env_tf = with_eax r (k'.envs c).env_tf });
  }
