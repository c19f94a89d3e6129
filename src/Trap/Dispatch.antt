-- ===== src/Trap/Dispatch.antt =====
-- kern/trap.c: trap_dispatch and trap, on one CPU. That no CPU has panicked and that interrupts are
-- off, which trap tests first, is left out. The monitor, the console's interrupts and the clock are
-- a parameter, as the handlers of the device calls are.
use jos_kernel.Base.{Option, false, if◌then◌else◌, none, some, true, ℕ, ◌%◌, ◌-◌, ◌==◌}
use jos_kernel.Env.Destroy.{env_destroy, env_free}
use jos_kernel.Env.Run.{env_run}
use jos_kernel.Kernel.Layout.{u32_mod}
use jos_kernel.Kernel.Outcome.{
  Cmd, Error, Ret, bad_env, err, fault_err, get, inval, ipc_not_recv, no_free_env, no_mem, ok,
  panic, pure, put, set_env, skip, val, when, ◌>>=◌, ◌>>◌,
}
use jos_kernel.Kernel.State.{Kernel, Trapframe}
use jos_kernel.Sched.{is_dying, is_running, sched_yield}
use jos_kernel.Syscall.Dispatch.{Call, syscall}
use jos_kernel.Syscall.Envs.{current}
use jos_kernel.Trap.Upcall.{Frame, env_frame, page_fault_handler, read_tf, stack_frame, write_tf}

-- Trap numbers: T_BRKPT, T_PGFLT, T_SYSCALL, and IRQ_OFFSET plus IRQ_TIMER, IRQ_KBD, IRQ_SERIAL and
-- IRQ_SPURIOUS
abbrev pub t_brkpt : ℕ
t_brkpt = 3

abbrev pub t_pgflt : ℕ
t_pgflt = 14

abbrev pub t_syscall : ℕ
t_syscall = 48

abbrev pub irq_timer : ℕ
irq_timer = 32

abbrev pub irq_kbd : ℕ
irq_kbd = 33

abbrev pub irq_serial : ℕ
irq_serial = 36

abbrev pub irq_spurious : ℕ
irq_spurious = 39

-- GD_KT
abbrev pub gd_kt : ℕ
gd_kt = 8

-- The error codes as numbers.
abbrev pub code : Error → ℕ
code bad_env = 2
code inval = 3
code no_mem = 4
code no_free_env = 5
code fault_err = 6
code ipc_not_recv = 7

-- An int32_t result in a register.
abbrev pub ret_word : Ret → ℕ
ret_word (val n) = n % u32_mod
ret_word (err e) = u32_mod - code e

-- `tf->tf_regs.reg_eax = r`
abbrev pub with_eax : ℕ → Trapframe → Trapframe
with_eax r tf = record tf { tf_regs = record tf.tf_regs { reg_eax = r } }

-- lock_kernel: spin_lock panics if this CPU holds the lock.
unfoldable pub lock_kernel : Cmd (Unit {0})
lock_kernel k = if k.kernel_locked then panic else ok tt (record k { kernel_locked = true })

-- `thiscpu->cpu_status = CPU_STARTED`, and the lock if the CPU was halted.
unfoldable pub wake_cpu : Cmd (Unit {0})
unfolding lock_kernel
wake_cpu k = when k.cpu_halted lock_kernel (record k { cpu_halted = false })

-- A zombie is freed, and another environment runs.
unfoldable pub collect : ℕ → Cmd (Unit {0})
collect c k =
    when (is_dying (k.envs c).env_status)
      (do env_free c; k ← get; put (record k { curenv = none }); sched_yield) k

-- `assert(curenv)`
abbrev pub assert_curenv : Cmd ℕ
assert_curenv k = elim k.curenv [ none ↦ panic | some c ↦ ok c k ]

-- A trap from user mode: the lock, and the frame copied into the current environment.
unfoldable pub enter_from_user : Trapframe → Cmd Frame
unfolding lock_kernel collect
enter_from_user tf = do
  lock_kernel
  c ← assert_curenv
  collect c
  c ← current
  k ← get
  set_env c (record (k.envs c) { env_tf = tf })
  pure (env_frame c)

-- Whether `curenv && curenv->env_status == ENV_RUNNING`.
abbrev pub still_running : Kernel → Option ℕ
still_running k = elim k.curenv [
  | none ↦ none
  | some c ↦ if is_running (k.envs c).env_status then some c else none
]

-- The end of trap. Neither env_run nor sched_yield returns, so that the assertion behind them and
-- its env_run are not reached.
unfoldable pub resume : Cmd (Unit {0})
resume k = elim (still_running k) [ none ↦ sched_yield k | some c ↦ env_run c k ]

module _ (device : Call → ℕ → ℕ → Cmd Ret) (interrupt : ℕ → Cmd (Unit {0})) where
  -- The system call of a frame; its result goes to the frame as the call leaves it.
  unfoldable pub system_call : Frame → Cmd (Unit {0})
  system_call f = do
    tf ← read_tf f
    r ←
        syscall device tf.tf_regs.reg_eax tf.tf_regs.reg_edx tf.tf_regs.reg_ecx tf.tf_regs.reg_ebx
          tf.tf_regs.reg_edi tf.tf_regs.reg_esi
    tf ← read_tf f
    write_tf f (with_eax (ret_word r) tf)

  -- A trap that nothing handles.
  unfoldable pub unhandled : Trapframe → Cmd (Unit {0})
  unhandled tf = if tf.tf_cs == gd_kt then (λ _. panic) else (do c ← current; env_destroy c)

  -- What handles the trap of the frame `f`, which reads as `tf`, by the number of the trap.
  unfoldable pub handle : ℕ → Frame → Trapframe → ℕ → Cmd (Unit {0})
  unfolding system_call unhandled
  handle fault_va f tf trapno =
      if trapno == t_pgflt
      then page_fault_handler fault_va f
      else if trapno == t_brkpt
      then interrupt t_brkpt
      else if trapno == t_syscall
      then system_call f
      else if trapno == irq_spurious
      then skip
      else if trapno == irq_timer
      then (do interrupt irq_timer; sched_yield)
      else if trapno == irq_kbd
      then interrupt irq_kbd
      else if trapno == irq_serial
      then interrupt irq_serial
      else unhandled tf

  -- `fault_va` is what rcr2 returns.
  unfoldable pub trap_dispatch : ℕ → Frame → Cmd (Unit {0})
  unfolding handle
  trap_dispatch fault_va f = do tf ← read_tf f; handle fault_va f tf tf.tf_trapno

  unfoldable pub trap : ℕ → Trapframe → Cmd (Unit {0})
  unfolding wake_cpu enter_from_user trap_dispatch resume
  trap fault_va tf = do
    wake_cpu
    f ← if tf.tf_cs % 4 == 3 then enter_from_user tf else pure (stack_frame tf)
    trap_dispatch fault_va f
    resume
