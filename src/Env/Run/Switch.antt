-- ===== src/Env/Run/Switch.antt =====
-- The statuses of the environments across env_run.
use jos_kernel.Base.{
  false, some, ℕ, ◌%◌, ◌+◌, ◌≡◌, ◌≢◌, ==_ne, Option, ap, none, refl, sym, ==_false, Bool-cases, inl,
  inr, some_inv, true, update, ◌==◌, ◌∙◌, ==_self, arith, ==_iff,
}
use jos_kernel.Env.Lookup.{is_curenv}
use jos_kernel.Env.Run.{preempt_from, env_run, stopped, stop, switch_to, unlock_kernel}
use jos_kernel.Kernel.Layout.{u32_mod}
use jos_kernel.Kernel.Outcome.{Leaves, left, to_user, leaves, ok}
use jos_kernel.Kernel.State.{Env, Kernel, runnable, running, Status, dying, free, not_runnable}

-- On a machine with one CPU: an environment is RUNNING only if it is the current one.
abbrev pub OnlyCurrent : Kernel → Type 0
OnlyCurrent k = (i : ℕ) → (k.envs i).env_status ≡ running → k.curenv ≡ some i

-- What env_run leaves for the environment `e` with the page directory `d`.
pub record Entered (e d : ℕ) (k k' : Kernel) : Type 0 where
  pub current : k'.curenv ≡ some e
  pub status : (k'.envs e).env_status ≡ running
  pub loaded : k'.cr3 ≡ d
  pub released : k'.kernel_locked ≡ false
  pub runs : (k'.envs e).env_runs ≡ ((k.envs e).env_runs + 1) % u32_mod
  pub only : OnlyCurrent k'

pub preempt-kept :
    (i : ℕ) (cur : Option ℕ) (k : Kernel) → cur ≢ some i → (preempt_from cur k).envs i ≡ k.envs i
preempt-kept i none k h = refl
preempt-kept i (some c) k h = rw (==_ne i c (λ e. h (ap some (sym e))))

stopped-ne : (s : Status) → stopped s ≢ running
stopped-ne running h = cc
stopped-ne free h = cc
stopped-ne dying h = cc
stopped-ne runnable h = cc
stopped-ne not_runnable h = cc

at_current :
    (i c : ℕ) (k : Kernel) → (i == c) ≡ true → (preempt_from (some c) k).envs i ≡ stop (k.envs c)
at_current i c k e = rw e

preempt-idle :
    (cur : Option ℕ) (k : Kernel)
    → ((i : ℕ) → (k.envs i).env_status ≡ running → cur ≡ some i)
    → (i : ℕ) → ((preempt_from cur k).envs i).env_status ≢ running
preempt-idle none k only i h = cc (only i h)
preempt-idle (some c) k only i h = elim (Bool-cases (i == c)) [
  | inl e ↦ stopped-ne (k.envs c).env_status (sym (ap Env.env_status (at_current i c k e)) ∙ h)
  | inr e ↦
      let same : (preempt_from (some c) k).envs i ≡ k.envs i = rw e in
      absurd (==_false i c e (sym (some_inv (only i (sym (ap Env.env_status same) ∙ h)))))
]

-- The state in which env_run leaves the kernel after a switch to `e`.
abbrev pub entered : ℕ → ℕ → Kernel → Kernel
entered e d k =
    let v = record (k.envs e) {
      env_status = running;
      env_runs = ((k.envs e).env_runs + 1) % u32_mod;
    } in
    record k {
      curenv = some e;
      envs = update (update k.envs e v) e (record v { env_cpunum = k.cpu });
      cr3 = d;
      kernel_locked = false;
    }

abbrev switched : ℕ → ℕ → Kernel → Kernel
switched e d k = record k {
  curenv = some e;
  envs =
      update k.envs e (record (k.envs e) {
        env_status = running;
        env_runs = ((k.envs e).env_runs + 1) % u32_mod;
      });
  cr3 = d;
}

switch_to-switched :
    (e d : ℕ) (k : Kernel) → (k.envs e).env_pgdir ≡ some d → switch_to e k ≡ ok tt (switched e d k)
unfolding switch_to
switch_to-switched e d k h = ground arith

pub unlock_kernel-ok :
    (k : Kernel)
    → k.kernel_locked ≡ true
    → unlock_kernel k ≡ ok tt (record k { kernel_locked = false })
unfolding unlock_kernel
unlock_kernel-ok k h = ground arith

preempt-locked :
    (cur : Option ℕ) (k : Kernel) → (preempt_from cur k).kernel_locked ≡ k.kernel_locked
preempt-locked none k = refl
preempt-locked (some c) k = refl

pub env_run-entered :
    (e d : ℕ) (k : Kernel)
    → is_curenv e k ≡ false
    → k.kernel_locked ≡ true
    → ((preempt_from k.curenv k).envs e).env_pgdir ≡ some d
    → env_run e k ≡ left (to_user e) (entered e d (preempt_from k.curenv k))
unfolding env_run
env_run-entered e d k ne locked dir =
    let p = preempt_from k.curenv k in
    rw ne (
      rw (switch_to-switched e d p dir) (
        rw (unlock_kernel-ok (switched e d p) (preempt-locked k.curenv k ∙ locked))
          (rw (==_self e))))

pub entered_other :
    (e d : ℕ) (p : Kernel) (i : ℕ) → (i == e) ≡ false → (entered e d p).envs i ≡ p.envs i
entered_other e d p i ne = rw ne

only_entered :
    (e d : ℕ) (p : Kernel)
    → ((i : ℕ) → (p.envs i).env_status ≢ running)
    → OnlyCurrent (entered e d p)
only_entered e d p idle i h = elim (Bool-cases (i == e)) [
  | inl at ↦ ap some (sym ((==_iff i e).0 at))
  | inr ne ↦ absurd (idle i (sym (ap Env.env_status (entered_other e d p i ne)) ∙ h))
]

pub not_curenv : (e : ℕ) (k : Kernel) → k.curenv ≢ some e → is_curenv e k ≡ false
not_curenv e k ne = not_current e k.curenv ne
  where
    not_current :
        (e : ℕ) (cur : Option ℕ)
        → cur ≢ some e
        → (elim cur [ none ↦ false | some c ↦ c == e ]) ≡ false
    not_current e none h = refl
    not_current e (some c) h = ==_ne c e (λ q. h (ap some q))

-- A switch to another environment on a machine with one CPU: `e` becomes the current environment and
-- RUNNING, its run count grows, its page directory is loaded, the lock is given up, control goes to
-- user mode, and again no environment but the current one is RUNNING.
pub env_run_lem :
    (e d : ℕ) (k : Kernel)
    → OnlyCurrent k
    → k.curenv ≢ some e
    → k.kernel_locked ≡ true
    → (k.envs e).env_pgdir ≡ some d
    → Leaves (λ x k'. (x ≡ to_user e) × Entered e d k k') (env_run e k)
env_run_lem e d k only ne locked dir =
    let p = preempt_from k.curenv k in
    let kept = preempt-kept e k.curenv k ne in
    rw (env_run-entered e d k (not_curenv e k ne) locked (ap Env.env_pgdir kept ∙ dir)) (
      leaves (
        refl,
        record {
          current = refl;
          status = rw (==_self e);
          loaded = refl;
          released = refl;
          runs = rw (==_self e) (ap (λ v. (Env.env_runs v + 1) % u32_mod) kept);
          only = λ i h. only_entered e d p (preempt-idle k.curenv k only) i h;
        },
      ))
