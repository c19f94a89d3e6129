-- ===== src/Kernel/State.antt =====
-- The global state.
use jos_kernel.Base.{ℕ, Bool, ◌&&◌, Option, List, ◌==◌, if◌then◌else◌}

-- struct PageInfo. A `struct PageInfo *` into `pages` is the index of the page.
pub record PageInfo : Type 0 where
  pub pp_link : Option ℕ
  pub pp_ref : ℕ

-- env_status
pub data Status : Type 0 where
  free dying runnable running not_runnable : Status

-- enum EnvType
pub data EnvType : Type 0 where
  user fs ns : EnvType

-- struct PushRegs
pub record PushRegs : Type 0 where
  pub reg_edi : ℕ
  pub reg_esi : ℕ
  pub reg_ebp : ℕ
  pub reg_oesp : ℕ
  pub reg_ebx : ℕ
  pub reg_edx : ℕ
  pub reg_ecx : ℕ
  pub reg_eax : ℕ

-- struct Trapframe, without its padding
pub record Trapframe : Type 0 where
  pub tf_regs : PushRegs
  pub tf_es : ℕ
  pub tf_ds : ℕ
  pub tf_trapno : ℕ
  pub tf_err : ℕ
  pub tf_eip : ℕ
  pub tf_cs : ℕ
  pub tf_eflags : ℕ
  pub tf_esp : ℕ
  pub tf_ss : ℕ

-- struct Env. A `struct Env *` into `envs` is the index; `env_pgdir` is the physical page of the
-- page directory, `none` for a null pointer.
pub record Env : Type 0 where
  pub env_tf : Trapframe
  pub env_link : Option ℕ
  pub env_id : ℕ
  pub env_parent_id : ℕ
  pub env_type : EnvType
  pub env_status : Status
  pub env_runs : ℕ
  pub env_cpunum : ℕ
  pub env_pgdir : Option ℕ
  pub env_pgfault_upcall : ℕ
  pub env_ipc_recving : Bool
  pub env_ipc_dstva : ℕ
  pub env_ipc_value : ℕ
  pub env_ipc_from : ℕ
  pub env_ipc_perm : ℕ

-- A pointer to a word of physical memory: its page, and the index of the word in the page.
-- A `pte_t *` is always of this form, since page tables are aligned.
abbrev pub Slot : Type 0
Slot = ℕ × ℕ

pub record Kernel : Type 0 where
  -- kern/pmap.c
  pub npages : ℕ
  pub kern_pgdir : ℕ
  pub pages : ℕ → PageInfo
  pub page_free_list : Option ℕ
  -- physical memory, as 1024 words for each page
  pub word : ℕ → ℕ → ℕ
  -- the addresses given to `invlpg`, the latest first
  pub flushed : List ℕ
  -- kern/env.c; `envs` at NENV and above is the memory behind the array
  pub envs : ℕ → Env
  pub env_free_list : Option ℕ
  -- the environment of this CPU, and the page directory that it has loaded
  pub curenv : Option ℕ
  pub cr3 : ℕ
  -- kern/cpu.h and kern/spinlock.h: this CPU's number, whether it is halted, and whether it holds
  -- the big kernel lock
  pub cpu : ℕ
  pub cpu_halted : Bool
  pub kernel_locked : Bool

-- `*slot = v` on the words of memory.
abbrev pub poke : (ℕ → ℕ → ℕ) → ℕ → ℕ → ℕ → ℕ → ℕ → ℕ
poke m p i v q j = if q == p && j == i then v else m q j
