-- ===== src/Trap/Tests.antt =====
-- The theorems about kern/trap.c at concrete traps: sys_getenvid of environment 1, and a page fault of
-- it with page 5 as its exception stack.
use jos_kernel.Base.{false, if◌then◌else◌, update, ℕ, ◌&&◌, ◌*◌, ◌+◌, ◌==◌}
use jos_kernel.Env.Create.{fresh_tf}
use jos_kernel.Kernel.Outcome.{Cmd, Ret, err, inval, pure, skip}
use jos_kernel.Kernel.State.{Kernel, Trapframe}
use jos_kernel.Samples.{sample}
use jos_kernel.Syscall.Dispatch.{Call, number}
use jos_kernel.Trap.SystemCall.{dispatched}

abbrev no_device : Call → ℕ → ℕ → Cmd Ret
no_device number a b = pure (err inval)

abbrev no_interrupt : ℕ → Cmd (Unit {0})
no_interrupt n = skip

-- `int $0x30` with the number of sys_getenvid in %eax
abbrev call_tf : Trapframe
call_tf = record fresh_tf {
  tf_regs = record fresh_tf.tf_regs { reg_eax = 2 };
  tf_trapno = 48;
  tf_cs = 27;
  tf_eip = 0x800100;
}

abbrev user_sample : Kernel
user_sample = record sample { kernel_locked = false }

abbrev call_sample : Kernel
call_sample = dispatched no_device no_interrupt 0 1 call_tf user_sample

abbrev fault_sample : Kernel
fault_sample = record sample {
  word = λ q i.
      if q == 2 && i == 954 then 6 * 4096 + 7 else if q == 6 && i == 1023 then 5 * 4096 + 7 else 0;
  envs = update sample.envs 1 (record (sample.envs 1) {
    env_tf = record call_tf { tf_trapno = 14; tf_esp = 0xeebfdf00 };
    env_pgfault_upcall = 0x800020;
  });
}
