-- ===== src/Sched/Halt.antt =====
-- sched_halt of kern/sched.c.
use jos_kernel.Base.{false, if-false, if-true, none, true, ◌∙◌, ◌≡◌, Option, if◌then◌else◌, some, ℕ}
use jos_kernel.Env.Lookup.{nenv}
use jos_kernel.Env.Run.{env_run}
use jos_kernel.Env.Run.Switch.{unlock_kernel-ok}
use jos_kernel.Kernel.Outcome.{halted, left, monitor}
use jos_kernel.Kernel.State.{Kernel}
use jos_kernel.Sched.{
  none_alive, sched_halt, first_slot, is_running, keep_or_halt, sched_yield, search_loop,
}

pub sched_halt-monitor :
    (k : Kernel) → none_alive k.envs nenv 0 ≡ true → sched_halt k ≡ left monitor k
unfolding sched_halt
sched_halt-monitor k h = if-true _ h

-- The state in which the CPU halts.
abbrev pub asleep : Kernel → Kernel
asleep k = record k { curenv = none; cr3 = k.kern_pgdir; cpu_halted = true; kernel_locked = false }

pub sched_halt-halted :
    (k : Kernel)
    → none_alive k.envs nenv 0 ≡ false
    → k.kernel_locked ≡ true
    → sched_halt k ≡ left halted (asleep k)
unfolding sched_halt
sched_halt-halted k h locked =
    if-false _ h
    ∙ rw (
        unlock_kernel-ok (record k { curenv = none; cr3 = k.kern_pgdir; cpu_halted = true }) locked)

pub keep_or_halt-stopped :
    (c : ℕ) (k : Kernel)
    → k.curenv ≡ some c
    → is_running (k.envs c).env_status ≡ false
    → keep_or_halt k ≡ sched_halt k
unfolding keep_or_halt
keep_or_halt-stopped c k cur h = at k.curenv cur
  where
    at :
        (o : Option ℕ)
        → o ≡ some c
        → (elim o [
          | none ↦ sched_halt k
          | some i ↦ if is_running (k.envs i).env_status then env_run i k else sched_halt k
        ])
          ≡ sched_halt k
    at o e = rw e (if-false _ h)

pub sched_yield-found :
    (j : ℕ) (k : Kernel)
    → search_loop k.envs nenv (first_slot k) ≡ some j
    → sched_yield k ≡ env_run j k
unfolding sched_yield
sched_yield-found j k h = rw (h, sched_yield)

pub sched_yield-none :
    (k : Kernel) → search_loop k.envs nenv (first_slot k) ≡ none → sched_yield k ≡ keep_or_halt k
unfolding sched_yield
sched_yield-none k h = rw (h, sched_yield)
