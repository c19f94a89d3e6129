-- ===== src/Syscall/Ipc/Recv.antt =====
-- sys_ipc_recv of kern/syscall.c: the caller waits and another environment runs.
use jos_kernel.Base.{
  Bool-cases, false, if-false, if-true, inl, inr, some, some_inv, subst, suc, sym, true, update,
  zero, ℕ, ◌%◌, ◌+◌, ◌∙◌, ◌≡◌, ◌≢◌, ==_self, refl, ==_ne, ap, ==_false, Option-cases, ltb, not,
  ◌&&◌, ◌==◌,
}
use jos_kernel.Env.Lookup.{nenv}
use jos_kernel.Env.Run.{env_run, preempt_from}
use jos_kernel.Env.Run.Switch.{env_run-entered, not_curenv, preempt-kept, entered_other}
use jos_kernel.Kernel.Layout.{page_size, utop}
use jos_kernel.Kernel.Outcome.{
  Exit, Leaves, monitor, to_user, leaves, Leaves-and_then, err, inval, ok,
}
use jos_kernel.Kernel.State.{Env, Kernel, not_runnable}
use jos_kernel.Sched.{
  is_runnable, none_alive, sched_halt, search_loop, first_slot, is_running, sched_yield,
}
use jos_kernel.Sched.Halt.{
  sched_halt-halted, sched_halt-monitor, keep_or_halt-stopped, sched_yield-found, sched_yield-none,
}
use jos_kernel.Syscall.Envs.{current-ok}
use jos_kernel.Syscall.Ipc.{waiting, block, sys_ipc_recv}

-- The slot that the loop of sched_yield finds is runnable.
search_loop-IsRunnable :
    (envs : ℕ → Env) (n i j : ℕ)
    → search_loop envs n i ≡ some j
    → is_runnable (envs j).env_status ≡ true
unfolding search_loop
search_loop-IsRunnable envs zero i j h = cc
search_loop-IsRunnable envs (suc n) i j h = elim (Bool-cases (is_runnable (envs i).env_status)) [
  | inl q ↦ subst (λ x. is_runnable (envs x).env_status ≡ true) (some_inv (sym (if-true _ q) ∙ h)) q
  | inr q ↦ search_loop-IsRunnable envs n ((i + 1) % nenv) j (sym (if-false _ q) ∙ h)
]

-- The state in which sys_ipc_recv calls the scheduler.
abbrev pub blocked : ℕ → ℕ → Kernel → Kernel
blocked c dstva k = record k { envs = update k.envs c (waiting dstva (k.envs c)) }

-- The receiver `v` waits for a message at `dstva`, with a result of 0.
pub record IsWaiting (dstva : ℕ) (v v' : Env) : Type 0 where
  pub waits : v'.env_ipc_recving ≡ true
  pub place : v'.env_ipc_dstva ≡ dstva
  pub stopped : v'.env_status ≡ not_runnable
  pub result : v'.env_tf.tf_regs.reg_eax ≡ 0
  pub others_kept :
      v'.env_tf ≡ record v.env_tf { tf_regs = record v.env_tf.tf_regs { reg_eax = 0 } }
  pub same_space : v'.env_pgdir ≡ v.env_pgdir
  pub same_id : v'.env_id ≡ v.env_id

waiting-IsWaiting : (dstva : ℕ) (v v' : Env) → v' ≡ waiting dstva v → IsWaiting dstva v v'
waiting-IsWaiting dstva v v' e = subst (IsWaiting dstva v) (sym e) (record {
  waits = refl;
  place = refl;
  stopped = refl;
  result = refl;
  others_kept = refl;
  same_space = refl;
  same_id = refl;
})

-- What holds while `c` waits: `x` is where control went.
pub record Waits (c dstva : ℕ) (k : Kernel) (x : Exit) (k' : Kernel) : Type 0 where
  pub elsewhere : x ≢ to_user c
  pub receiver : IsWaiting dstva (k.envs c) (k'.envs c)
  pub released : x ≢ monitor → k'.kernel_locked ≡ false

sched_halt-Waits :
    (c dstva : ℕ) (k : Kernel)
    → k.kernel_locked ≡ true
    → Leaves (Waits c dstva k) (sched_halt (blocked c dstva k))
sched_halt-Waits c dstva k locked = elim (Bool-cases (none_alive (blocked c dstva k).envs nenv 0)) [
  | inl q ↦ rw (sched_halt-monitor (blocked c dstva k) q) (
      leaves (record {
        elsewhere = λ x. cc;
        receiver = waiting-IsWaiting dstva (k.envs c) _ (rw (==_self c));
        released = λ n. absurd (n refl);
      }))
  | inr q ↦ rw (sched_halt-halted (blocked c dstva k) q locked) (
      leaves (record {
        elsewhere = λ x. cc;
        receiver = waiting-IsWaiting dstva (k.envs c) _ (rw (==_self c));
        released = λ n. refl;
      }))
]

to_user_inv : {i j : ℕ} → to_user i ≡ to_user j → i ≡ j
to_user_inv q = cc

is_runnable-waiting : false ≢ true
is_runnable-waiting q = cc

still : (c dstva : ℕ) (k : Kernel) → is_running ((blocked c dstva k).envs c).env_status ≡ false
still c dstva k = rw (==_self c)

preempt-waiting :
    (c dstva : ℕ) (k : Kernel)
    → (preempt_from (some c) (blocked c dstva k)).envs c ≡ waiting dstva (k.envs c)
preempt-waiting c dstva k = rw (==_self c)

env_run-Waits :
    (c j d dstva : ℕ) (k : Kernel)
    → k.curenv ≡ some c
    → j ≢ c
    → (k.envs j).env_pgdir ≡ some d
    → k.kernel_locked ≡ true
    → Leaves (Waits c dstva k) (env_run j (blocked c dstva k))
env_run-Waits c j d dstva k cur ne dir locked =
    let b = blocked c dstva k in
    let other : some c ≢ some j = λ q. ne (sym (some_inv q)) in
    let same : b.envs j ≡ k.envs j = rw (==_ne j c ne) in
    rw
      (env_run-entered j d b (not_curenv j b (λ q. other (sym cur ∙ q))) locked
        (ap Env.env_pgdir (preempt-kept j b.curenv b (λ q. other (sym cur ∙ q)) ∙ same) ∙ dir))
      (leaves (record {
        elsewhere = λ q. ne (to_user_inv q);
        receiver = waiting-IsWaiting dstva (k.envs c) _ (
            entered_other j d (preempt_from k.curenv b) c (==_ne c j (λ q. ne (sym q)))
            ∙ subst (λ o. (preempt_from o b).envs c ≡ waiting dstva (k.envs c)) (sym cur)
                (preempt-waiting c dstva k));
        released = λ _. refl;
      }))

not_runnable_at :
    (c j dstva : ℕ) (k : Kernel)
    → is_runnable ((blocked c dstva k).envs j).env_status ≡ true
    → (j ≢ c) × (is_runnable (k.envs j).env_status ≡ true)
not_runnable_at c j dstva k h = elim (Bool-cases (j == c)) [
  | inl q ↦
      let at : (blocked c dstva k).envs j ≡ waiting dstva (k.envs c) = rw q in
      absurd (is_runnable-waiting (sym (ap (λ v. is_runnable (Env.env_status v)) at) ∙ h))
  | inr q ↦
      let other : (blocked c dstva k).envs j ≡ k.envs j = rw q in
      (==_false j c q, sym (ap (λ v. is_runnable (Env.env_status v)) other) ∙ h)
]

-- Every runnable environment has a page directory.
abbrev pub RunnableHasSpace : Kernel → Type 0
RunnableHasSpace k =
    (i : ℕ) → is_runnable (k.envs i).env_status ≡ true → (d : ℕ) × ((k.envs i).env_pgdir ≡ some d)

sched_yield-Waits :
    (c dstva : ℕ) (k : Kernel)
    → k.curenv ≡ some c
    → k.kernel_locked ≡ true
    → RunnableHasSpace k
    → Leaves (Waits c dstva k) (sched_yield (blocked c dstva k))
sched_yield-Waits c dstva k cur locked space =
    let b = blocked c dstva k in
    elim (Option-cases (search_loop b.envs nenv (first_slot b))) [
      | inl q ↦
          rw (sched_yield-none b q ∙ keep_or_halt-stopped c b cur (still c dstva k))
            (sched_halt-Waits c dstva k locked)
      | inr (j, q) ↦
          let (ne, r) =
            not_runnable_at c j dstva k (search_loop-IsRunnable b.envs nenv (first_slot b) j q) in
          let (d, dir) = space j r in
          rw (sched_yield-found j b q) (env_run-Waits c j d dstva k cur ne dir locked)
    ]

-- sys_ipc_recv with an unaligned address below UTOP returns -E_INVAL and changes nothing. Otherwise
-- it does not return: the caller is left not runnable and waiting for a message at `dstva`, with
-- a result of 0 in its registers and the other registers, its page directory and its env_id as they
-- were, and control goes to another environment, to a halted CPU or to the
-- monitor, with the kernel lock given up unless it is the monitor. Assumed: the lock is held and
-- every runnable environment has a page directory.
pub sys_ipc_recv_lem :
    (c dstva : ℕ) (k : Kernel)
    → k.curenv ≡ some c
    → k.kernel_locked ≡ true
    → RunnableHasSpace k
    → ((ltb dstva utop && not (dstva % page_size == 0)) ≡ true
        → sys_ipc_recv dstva k ≡ ok (err inval) k)
      × ((ltb dstva utop && not (dstva % page_size == 0)) ≡ false
          → Leaves (Waits c dstva k) (sys_ipc_recv dstva k))
unfolding sys_ipc_recv block
sys_ipc_recv_lem c dstva k cur locked space = (
  λ bad. rw bad,
  λ good.
      rw good (
        rw (current-ok c k cur) (Leaves-and_then _ (sched_yield-Waits c dstva k cur locked space))),
)
