-- ===== src/Sched.antt =====
-- kern/sched.c: sched_yield and sched_halt.
pub mod Choice
pub mod Halt
mod Tests
use jos_kernel.Base.{
  Bool, Option, false, if◌then◌else◌, none, not, some, suc, true, zero, ℕ, ◌%◌, ◌&&◌, ◌+◌, ◌||◌,
}
use jos_kernel.Env.Lookup.{envx, nenv}
use jos_kernel.Env.Run.{env_run, unlock_kernel}
use jos_kernel.Kernel.Outcome.{Cmd, halted, left, monitor, put, ◌>>=◌, ◌>>◌}
use jos_kernel.Kernel.State.{Env, Kernel, Status, dying, runnable, running}

abbrev pub is_runnable : Status → Bool
is_runnable runnable = true
is_runnable _ = false

abbrev pub is_running : Status → Bool
is_running running = true
is_running _ = false

abbrev pub is_dying : Status → Bool
is_dying dying = true
is_dying _ = false

-- The loop of sched_yield, with the rounds left and `j`: the first runnable slot that it meets.
-- `(j + 1) & (NENV - 1)` is a remainder.
unfoldable pub search_loop : (ℕ → Env) → ℕ → ℕ → Option ℕ
search_loop envs zero j = none
search_loop envs (suc i) j =
    let rest = search_loop envs i ((j + 1) % nenv) in
    if is_runnable (envs j).env_status then some j else rest

-- Where the loop starts: slot 0, or the slot after that of the current environment.
abbrev pub first_slot : Kernel → ℕ
first_slot k = elim k.curenv [ none ↦ 0 | some c ↦ envx (k.envs c).env_id + 1 ]

-- The loop of sched_halt, with the rounds left: whether it runs to the end.
unfoldable pub none_alive : (ℕ → Env) → ℕ → ℕ → Bool
none_alive envs zero i = true
none_alive envs (suc n) i =
    not (
      is_runnable (envs i).env_status
      || is_running (envs i).env_status
      || is_dying (envs i).env_status)
    && none_alive envs n (i + 1)

unfoldable pub sched_halt : Cmd (Unit {0})
unfolding none_alive unlock_kernel
sched_halt k =
    if none_alive k.envs nenv 0
    then left monitor k
    else (do
      put (record k { curenv = none; cr3 = k.kern_pgdir; cpu_halted = true })
      unlock_kernel
      λ k. left halted k)
        k

-- The last two statements of sched_yield: no environment was chosen.
unfoldable pub keep_or_halt : Cmd (Unit {0})
unfolding sched_halt
keep_or_halt k = elim k.curenv [
  | none ↦ sched_halt k
  | some c ↦ if is_running (k.envs c).env_status then env_run c k else sched_halt k
]

unfoldable pub sched_yield : Cmd (Unit {0})
sched_yield k = elim (search_loop k.envs nenv (first_slot k)) [
  | some j ↦ env_run j k
  | none ↦ keep_or_halt k
]
