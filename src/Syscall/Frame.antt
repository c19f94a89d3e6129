-- ===== src/Syscall/Frame.antt =====
-- kern/syscall.c: sys_env_set_trapframe.
use jos_kernel.Base.{bit_or, none, some, ℕ, ◌%◌, ◌*◌, ◌+◌, ◌^◌}
use jos_kernel.Env.Create.{fl_if}
use jos_kernel.Env.Destroy.{directory}
use jos_kernel.Kernel.Layout.{pte_u, pte_w, u32_mod}
use jos_kernel.Kernel.Outcome.{Cmd, Ret, err, fault_err, get, pure, set_env, val, ◌>>=◌, ◌>>◌}
use jos_kernel.Kernel.State.{PushRegs, Trapframe}
use jos_kernel.Pmap.Region.{user_mem_check}
use jos_kernel.Pmap.User.{load_user, store_user}
use jos_kernel.Syscall.Envs.{deref, with_env}

-- sizeof(struct Trapframe)
abbrev pub trapframe_size : ℕ
trapframe_size = 68

-- Word `n` of the structure at `a`.
abbrev pub field : ℕ → ℕ → Cmd ℕ
field a n = load_user ((a + 4 * n) % u32_mod)

unfoldable pub load_regs : ℕ → Cmd PushRegs
load_regs a = do
  edi ← field a 0
  esi ← field a 1
  ebp ← field a 2
  oesp ← field a 3
  ebx ← field a 4
  edx ← field a 5
  ecx ← field a 6
  eax ← field a 7
  pure (record {
    reg_edi = edi;
    reg_esi = esi;
    reg_ebp = ebp;
    reg_oesp = oesp;
    reg_ebx = ebx;
    reg_edx = edx;
    reg_ecx = ecx;
    reg_eax = eax;
  })

-- `*tf` at a linear address. The segment registers are the lower halves of their words.
unfoldable pub load_trapframe : ℕ → Cmd Trapframe
unfolding load_regs
load_trapframe a = do
  regs ← load_regs a
  es ← field a 8
  ds ← field a 9
  trapno ← field a 10
  error ← field a 11
  eip ← field a 12
  cs ← field a 13
  eflags ← field a 14
  esp ← field a 15
  ss ← field a 16
  pure (record {
    tf_regs = regs;
    tf_es = es % 2 ^ 16;
    tf_ds = ds % 2 ^ 16;
    tf_trapno = trapno;
    tf_err = error;
    tf_eip = eip;
    tf_cs = cs % 2 ^ 16;
    tf_eflags = eflags;
    tf_esp = esp;
    tf_ss = ss % 2 ^ 16;
  })

-- `tf->tf_cs |= 3`, in the caller's memory
unfoldable pub raise_cs : ℕ → Cmd (Unit {0})
raise_cs a = do cs ← field a 13; store_user ((a + 4 * 13) % u32_mod) (bit_or cs 3)

-- sys_env_set_trapframe once the memory is checked.
unfoldable pub copy_trapframe : ℕ → ℕ → Cmd Ret
unfolding load_trapframe raise_cs
copy_trapframe e a = do
  tf ← load_trapframe a
  k ← get
  set_env e (record (k.envs e) { env_tf = record tf { tf_eflags = bit_or tf.tf_eflags fl_if } })
  raise_cs a
  pure (val 0)

-- The memory is checked in the address space of the environment, and read in that of the caller.
unfoldable pub check_and_copy : ℕ → ℕ → Cmd Ret
unfolding copy_trapframe
check_and_copy e a = do
  pgdir ← directory e
  bad ← user_mem_check pgdir a trapframe_size (bit_or pte_w pte_u)
  elim bad [ some _ ↦ pure (err fault_err) | none ↦ copy_trapframe e a ]

unfoldable pub sys_env_set_trapframe : ℕ → ℕ → Cmd Ret
unfolding check_and_copy
sys_env_set_trapframe envid a = with_env envid λ e. do e ← deref e; check_and_copy e a
