-- ===== src/Trap/Upcall.antt =====
-- kern/trap.c: page_fault_handler; kern/pmap.c: user_mem_assert; struct UTrapframe of inc/trap.h.
use jos_kernel.Base.{
  Bool, List, [], bit_or, if◌then◌else◌, leb, ltb, none, some, ℕ, ◌%◌, ◌&&◌, ◌+◌, ◌-◌, ◌==◌, ◌||◌,
  ◌∷◌,
}
use jos_kernel.Env.Destroy.{directory, env_destroy}
use jos_kernel.Env.Run.{env_run}
use jos_kernel.Kernel.Layout.{page_size, pte_p, pte_u, pte_w, u32_mod, ustacktop}
use jos_kernel.Kernel.Outcome.{Cmd, get, ok, panic, set_env, skip, when, ◌>>=◌, ◌>>◌}
use jos_kernel.Kernel.State.{Env, PushRegs, Trapframe}
use jos_kernel.Pmap.Region.{user_mem_check}
use jos_kernel.Pmap.User.{store_user}
use jos_kernel.Syscall.Envs.{current}

-- Where `tf` of trap points: into `envs`, or at the frame that the CPU pushed on the kernel's stack.
-- A write to the latter is lost, since trap does not return to it.
pub data Frame : Type 0 where
  env_frame : ℕ → Frame
  stack_frame : Trapframe → Frame

abbrev pub read_tf : Frame → Cmd Trapframe
read_tf (env_frame e) k = ok (k.envs e).env_tf k
read_tf (stack_frame tf) k = ok tf k

abbrev pub write_tf : Frame → Trapframe → Cmd (Unit {0})
write_tf (env_frame e) tf k = set_env e (record (k.envs e) { env_tf = tf }) k
write_tf (stack_frame _) tf k = skip k

unfoldable pub store_words : ℕ → List ℕ → Cmd (Unit {0})
unfolding store_user
store_words va [] = skip
store_words va (w ∷ ws) = do store_user va w; store_words ((va + 4) % u32_mod) ws

-- struct UTrapframe by its words: utf_fault_va, utf_err, utf_regs, utf_eip, utf_eflags, utf_esp
abbrev pub utrapframe : ℕ → Trapframe → List ℕ
utrapframe fault_va tf =
    let r : PushRegs = tf.tf_regs in
    fault_va ∷ tf.tf_err ∷ r.reg_edi ∷ r.reg_esi ∷ r.reg_ebp ∷ r.reg_oesp ∷ r.reg_ebx ∷ r.reg_edx
    ∷ r.reg_ecx ∷ r.reg_eax ∷ tf.tf_eip ∷ tf.tf_eflags ∷ tf.tf_esp ∷ []

-- sizeof(struct UTrapframe)
abbrev pub utf_size : ℕ
utf_size = 52

-- UXSTACKTOP
abbrev pub uxstacktop : ℕ
uxstacktop = 0xeec00000

-- Where the frame goes: below the frame of a fault in the upcall, with a word between, or at the
-- top of the exception stack.
abbrev pub frame_address : ℕ → ℕ
frame_address esp =
    if ltb esp uxstacktop && leb (uxstacktop - page_size) esp
    then esp - utf_size - 4
    else uxstacktop - utf_size

-- No upcall, or a stack pointer in the gap between the two stacks.
abbrev pub hopeless : Env → Trapframe → Bool
hopeless v tf =
    v.env_pgfault_upcall == 0 || (ltb ustacktop tf.tf_esp && ltb tf.tf_esp (uxstacktop - page_size))

unfoldable pub user_mem_assert : ℕ → ℕ → ℕ → ℕ → Cmd (Unit {0})
user_mem_assert e va len perm = do
  pgdir ← directory e
  bad ← user_mem_check pgdir va len (bit_or perm pte_u)
  elim bad [ none ↦ skip | some _ ↦ env_destroy e ]

-- The end of page_fault_handler, with the address of the frame: the frame and the switch to the upcall. The order in which the
-- words of the frame are stored is that of the structure.
unfoldable pub push_frame : ℕ → Frame → Trapframe → ℕ → Cmd (Unit {0})
unfolding store_words user_mem_assert
push_frame fault_va f tf va = do
  c ← current
  user_mem_assert c va utf_size (bit_or (bit_or pte_w pte_u) pte_p)
  store_words va (utrapframe fault_va tf)
  k ← get
  write_tf f (record tf { tf_eip = (k.envs c).env_pgfault_upcall; tf_esp = va })
  env_run c

unfoldable pub upcall : ℕ → Frame → Cmd (Unit {0})
unfolding push_frame
upcall fault_va f = do tf ← read_tf f; push_frame fault_va f tf (frame_address tf.tf_esp)

-- `fault_va` is what rcr2 returns.
unfoldable pub page_fault_handler : ℕ → Frame → Cmd (Unit {0})
unfolding upcall
page_fault_handler fault_va f = do
  tf ← read_tf f
  when (tf.tf_cs % 4 == 0) (λ _. panic)
  c ← current
  k ← get
  when (hopeless (k.envs c) tf) (env_destroy c)
  upcall fault_va f
