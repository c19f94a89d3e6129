-- ===== src/Sched/Choice.antt =====
-- Which environment sched_yield chooses.
use jos_kernel.Base.{
  arith, false, none, refl, some, suc, true, zero, ℕ, ◌%◌, ◌+◌, ◌<◌, ◌≡◌, Bool, ap, sym, ◌∙◌, ◌≤◌,
  if-false, if-true, ◌≢◌, Option, if◌then◌else◌,
}
use jos_kernel.Env.Lookup.{nenv}
use jos_kernel.Env.Run.{env_run}
use jos_kernel.Kernel.State.{Env, Kernel, Status, running}
use jos_kernel.Sched.{
  is_runnable, search_loop, first_slot, keep_or_halt, sched_yield, is_running, sched_halt,
}

-- Slot `j` is runnable, `d` slots after `from` in circular order, and no slot on the way is.
pub record IsNext (envs : ℕ → Env) (from d : ℕ) : Type 0 where
  pub chosen : is_runnable (envs ((from + d) % nenv)).env_status ≡ true
  pub passed : (i : ℕ) → i < d → is_runnable (envs ((from + i) % nenv)).env_status ≡ false

abbrev runs : (ℕ → Env) → ℕ → Bool
runs envs j = is_runnable (envs j).env_status

start_slot : (from : ℕ) → from < nenv → (from + 0) % nenv ≡ from
start_slot from h = omega arith

later_slot : (from i : ℕ) → (from + suc i) % nenv ≡ ((from + 1) % nenv + i) % nenv
later_slot from i = omega arith

search_loop-next :
    (envs : ℕ → Env) (n from d : ℕ)
    → from < nenv
    → d < n
    → IsNext envs from d
    → search_loop envs n from ≡ some ((from + d) % nenv)
unfolding search_loop
search_loop-next envs zero from d h l x = absurd (omega arith)
search_loop-next envs (suc n) from zero h l x =
    let e = start_slot from h in
    let run : runs envs from ≡ true = sym (ap (runs envs) e) ∙ x.chosen in rw run (ap some (sym e))
search_loop-next envs (suc n) from (suc d) h l x =
    let skip : runs envs from ≡ false =
      sym (ap (runs envs) (start_slot from h)) ∙ x.passed 0 (omega arith) in
    rw skip (
      search_loop-next envs n ((from + 1) % nenv) d (omega arith) (omega arith) (record {
        chosen = sym (ap (runs envs) (later_slot from d)) ∙ x.chosen;
        passed = λ i b. sym (ap (runs envs) (later_slot from i)) ∙ x.passed (suc i) (omega arith);
      })
      ∙ ap some (sym (later_slot from d)))

search_loop-none :
    (envs : ℕ → Env) (n from : ℕ)
    → from < nenv
    → ((i : ℕ) → i < n → runs envs ((from + i) % nenv) ≡ false)
    → search_loop envs n from ≡ none
unfolding search_loop
search_loop-none envs zero from h idle = refl
search_loop-none envs (suc n) from h idle =
    let skip : runs envs from ≡ false =
      sym (ap (runs envs) (start_slot from h)) ∙ idle 0 (omega arith) in
    rw skip (
      search_loop-none envs n ((from + 1) % nenv) (omega arith)
        λ i b. sym (ap (runs envs) (later_slot from i)) ∙ idle (suc i) (omega arith))

is_running-false : (s : Status) → s ≢ running → is_running s ≡ false
is_running-false s ne = ground arith

-- No environment is runnable.
abbrev pub AreIdle : Kernel → Type 0
AreIdle k = (i : ℕ) → i < nenv → is_runnable (k.envs i).env_status ≡ false

-- keep_or_halt with the current environment.
kept_or_halted :
    (o : Option ℕ) (k : Kernel)
    → k.curenv ≡ o
    → keep_or_halt k ≡ (elim o [
      | none ↦ sched_halt k
      | some c ↦ if is_running (k.envs c).env_status then env_run c k else sched_halt k
    ])
unfolding keep_or_halt
kept_or_halted o k cur =
    ap
      (λ (o : Option ℕ). elim o [
        | none ↦ sched_halt k
        | some c ↦ if is_running (k.envs c).env_status then env_run c k else sched_halt k
      ])
      cur

sched_yield-idle : (k : Kernel) → first_slot k < nenv → AreIdle k → sched_yield k ≡ keep_or_halt k
unfolding sched_yield
sched_yield-idle k h idle = rw (
  search_loop-none k.envs nenv (first_slot k) h
      λ i b. idle ((first_slot k + i) % nenv) (omega arith),
  sched_yield,
)

-- If the loop starts inside the array, sched_yield runs the first runnable environment in circular
-- order from the start, and without a runnable environment runs the current one if it is RUNNING,
-- and otherwise, also when there is none, is sched_halt.
pub sched_yield_lem :
    (k : Kernel)
    → first_slot k < nenv
    → ((d : ℕ)
        → d < nenv
        → IsNext k.envs (first_slot k) d
        → sched_yield k ≡ env_run ((first_slot k + d) % nenv) k)
      × ((c : ℕ)
          → AreIdle k
          → k.curenv ≡ some c
          → (k.envs c).env_status ≡ running
          → sched_yield k ≡ env_run c k)
      × ((c : ℕ)
          → AreIdle k
          → k.curenv ≡ some c
          → (k.envs c).env_status ≢ running
          → sched_yield k ≡ sched_halt k)
      × (AreIdle k → k.curenv ≡ none → sched_yield k ≡ sched_halt k)
unfolding sched_yield
sched_yield_lem k h = (
  λ d b x. rw (search_loop-next k.envs nenv (first_slot k) d h b x, sched_yield),
  λ c idle cur run.
      sched_yield-idle k h idle ∙ kept_or_halted (some c) k cur ∙ if-true _ (ap is_running run),
  λ c idle cur other.
      sched_yield-idle k h idle
      ∙ kept_or_halted (some c) k cur
      ∙ if-false _ (is_running-false (k.envs c).env_status other),
  λ idle cur. sched_yield-idle k h idle ∙ kept_or_halted none k cur,
)

search_loop-ahead :
    (envs : ℕ → Env) (n from : ℕ)
    → 0 < from
    → from + n ≤ nenv
    → ((i : ℕ) → 0 < i → i ≤ nenv → is_runnable (envs i).env_status ≡ false)
    → search_loop envs n from ≡ none
unfolding search_loop
search_loop-ahead envs zero from h b idle = refl
search_loop-ahead envs (suc zero) from h b idle = rw (idle from h (omega arith))
search_loop-ahead envs (suc (suc n)) from h b idle =
    let e : (from + 1) % nenv ≡ from + 1 = omega arith in
    rw (idle from h (omega arith))
      (rw e (search_loop-ahead envs (suc n) (from + 1) (omega arith) (omega arith) idle))

search_loop-wrap :
    (envs : ℕ → Env) (n : ℕ)
    → is_runnable (envs nenv).env_status ≡ false
    → search_loop envs (suc n) nenv ≡ search_loop envs n 1
unfolding search_loop
search_loop-wrap envs n h = rw h

-- From the slot behind the array the loop passes over slot 0.
search_loop-skips :
    (envs : ℕ → Env)
    → ((i : ℕ) → 0 < i → i ≤ nenv → is_runnable (envs i).env_status ≡ false)
    → search_loop envs nenv nenv ≡ none
search_loop-skips envs idle =
    search_loop-wrap envs 1023 (idle nenv (omega arith) (omega arith))
    ∙ search_loop-ahead envs 1023 1 (omega arith) (omega arith) idle

-- After the last environment of the array the search starts behind the array and passes over slot
-- 0: if slot 0 holds the only runnable environment, sched_yield does not find it.
pub sched_yield-skips :
    (k : Kernel)
    → first_slot k ≡ nenv
    → ((i : ℕ) → 0 < i → i ≤ nenv → is_runnable (k.envs i).env_status ≡ false)
    → sched_yield k ≡ keep_or_halt k
unfolding sched_yield
sched_yield-skips k e idle = rw (e, search_loop-skips k.envs idle, sched_yield)
