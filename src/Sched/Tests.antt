-- ===== src/Sched/Tests.antt =====
-- The theorems about kern/sched.c at concrete states.
use jos_kernel.Base.{arith, if◌then◌else◌, refl, some, ℕ, ◌%◌, ◌+◌, ◌<◌, ◌==◌, ◌≡◌, none, ◌≢◌}
use jos_kernel.Env.Lookup.{nenv}
use jos_kernel.Env.Run.{env_run}
use jos_kernel.Kernel.State.{Env, Kernel, free, not_runnable, runnable, running}
use jos_kernel.Samples.{sample, sample_env}
use jos_kernel.Sched.{keep_or_halt, sched_yield, sched_halt}
use jos_kernel.Sched.Choice.{IsNext, sched_yield-skips, sched_yield_lem, AreIdle}

sched_yield_lem_example :
    ((d : ℕ)
      → d < nenv
      → IsNext sample_env 2 d
      → sched_yield sample ≡ env_run ((2 + d) % nenv) sample)
    × ((c : ℕ)
        → AreIdle sample
        → sample.curenv ≡ some c
        → (sample_env c).env_status ≡ running
        → sched_yield sample ≡ env_run c sample)
    × ((c : ℕ)
        → AreIdle sample
        → sample.curenv ≡ some c
        → (sample_env c).env_status ≢ running
        → sched_yield sample ≡ sched_halt sample)
    × (AreIdle sample → sample.curenv ≡ none → sched_yield sample ≡ sched_halt sample)
sched_yield_lem_example = sched_yield_lem sample (omega arith)

-- Environment 7 is the next one after environment 1.
sample-IsNext : IsNext sample_env 2 5
sample-IsNext = record { chosen = refl; passed = λ i h. ground arith }

-- The last environment yields, and slot 0 holds the only runnable one.
abbrev last_env : ℕ → Env
last_env i = record (sample_env i) {
  env_id = 4096 + i;
  env_status = if i == 0 then runnable else if i == 1023 then not_runnable else free;
}

abbrev last_runs : Kernel
last_runs = record sample { envs = last_env; curenv = some 1023 }

sched_yield-skips_example : sched_yield last_runs ≡ keep_or_halt last_runs
sched_yield-skips_example = sched_yield-skips last_runs refl (λ i h b. ground arith)
