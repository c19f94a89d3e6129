-- ===== src/Trap/Fault.antt =====
-- page_fault_handler with an upcall: the frame on the user exception stack.
use jos_kernel.Base.{
  bit_or, true, ℕ, ◌+◌, ◌-◌, ◌<◌, ◌≡◌, ◌≤◌, Bool, false, some, ◌%◌, ◌&&◌, ◌/◌, update, ◌⊎◌,
}
use jos_kernel.Kernel.Layout.{page_size, pte_p, pte_u, pte_w, pgnum, present}
use jos_kernel.Kernel.Outcome.{Outcome}
use jos_kernel.Kernel.State.{Kernel, Trapframe}
use jos_kernel.Pmap.Region.{allows}
use jos_kernel.Pmap.Region.Check.{TablesExist, accessible}
use jos_kernel.Trap.Push.{CanWrite, written}
use jos_kernel.Trap.Upcall.{uxstacktop, frame_address, hopeless, utrapframe, utf_size}

-- The page of the user exception stack.
abbrev pub uxstack : ℕ
uxstack = uxstacktop - page_size

-- PTE_P | PTE_W | PTE_U
abbrev pub stack_perm : ℕ
stack_perm = bit_or (bit_or (bit_or pte_w pte_u) pte_p) pte_u

module _ (pgdir perm va len : ℕ) (k : Kernel) (tables : TablesExist pgdir k) where
  -- `accessible` by the indices of the two entries.
  unfoldable allowed_at : ℕ → ℕ → Bool → Bool
  allowed_at d t low =
      present (k.word pgdir d) && (low && allows (k.word (pgnum (k.word pgdir d)) t) perm)

-- Where the frame of a fault with this stack pointer goes: a word below it on the exception stack, and
-- otherwise at the top of that stack.
abbrev pub IsPlaced : ℕ → ℕ → Type 0
IsPlaced esp va =
    ((uxstack ≤ esp) × (esp < uxstacktop) × (va + utf_size + 4 ≡ esp))
    ⊎ (((esp < uxstack) ⊎ (uxstacktop ≤ esp)) × (va + utf_size ≡ uxstacktop))

-- A struct UTrapframe at the words from `i` on of a page with the words `m`, of a fault at `fault_va` with
-- the frame `tf`.
pub record HoldsFrame (m : ℕ → ℕ) (i fault_va : ℕ) (tf : Trapframe) : Type 0 where
  pub utf_fault_va : m (i + 0) ≡ fault_va
  pub utf_err : m (i + 1) ≡ tf.tf_err
  pub utf_edi : m (i + 2) ≡ tf.tf_regs.reg_edi
  pub utf_esi : m (i + 3) ≡ tf.tf_regs.reg_esi
  pub utf_ebp : m (i + 4) ≡ tf.tf_regs.reg_ebp
  pub utf_oesp : m (i + 5) ≡ tf.tf_regs.reg_oesp
  pub utf_ebx : m (i + 6) ≡ tf.tf_regs.reg_ebx
  pub utf_edx : m (i + 7) ≡ tf.tf_regs.reg_edx
  pub utf_ecx : m (i + 8) ≡ tf.tf_regs.reg_ecx
  pub utf_eax : m (i + 9) ≡ tf.tf_regs.reg_eax
  pub utf_eip : m (i + 10) ≡ tf.tf_eip
  pub utf_eflags : m (i + 11) ≡ tf.tf_eflags
  pub utf_esp : m (i + 12) ≡ tf.tf_esp

module _ (fault_va c p : ℕ) (k : Kernel) where
  -- The frame of the trap, the address of the new frame, and its index in the page.
  abbrev pub fault_tf : Trapframe
  fault_tf = (k.envs c).env_tf

  abbrev pub new_frame : ℕ
  new_frame = frame_address fault_tf.tf_esp

  abbrev pub new_index : ℕ
  new_index = (new_frame - uxstack) / 4

  -- The environment runs, with an upcall and a page of stack that it may write, and the frame fits.
  pub record CanPush : Type 0 where
    pub current : k.curenv ≡ some c
    pub locked : k.kernel_locked ≡ true
    pub loaded : (k.envs c).env_pgdir ≡ some k.cr3
    pub from_user : fault_tf.tf_cs % 4 ≡ 3
    pub handled : hopeless (k.envs c) fault_tf ≡ false
    pub tables : TablesExist k.cr3 k
    pub can_write : CanWrite k uxstack p
    pub permitted : accessible k.cr3 stack_perm k uxstack ≡ true
    pub aligned : fault_tf.tf_esp % 4 ≡ 0
    pub fits : uxstack ≤ new_frame

  abbrev pub pushed : Kernel
  pushed = record k { word = written k.word p new_index (utrapframe fault_va fault_tf) }

  abbrev pub upcall_tf : Trapframe
  upcall_tf = record fault_tf { tf_eip = (k.envs c).env_pgfault_upcall; tf_esp = new_frame }

  module _ (can : CanPush) where
    abbrev switched : Kernel
    switched = record pushed { envs = update k.envs c (record (k.envs c) { env_tf = upcall_tf }) }
