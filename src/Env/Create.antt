-- ===== src/Env/Create.antt =====
-- kern/env.c: env_init, env_setup_vm and env_alloc. The segment registers that env_init_percpu
-- loads are not part of the state.
pub mod Laws
pub mod Ids
use jos_kernel.Base.{
  Option, bit_or, false, if◌then◌else◌, leb, none, some, suc, update, zero, ℕ, ◌%◌, ◌*◌, ◌+◌, ◌/◌,
  ◌==◌, ◌^◌, ◌||◌,
}
use jos_kernel.Env.Lookup.{nenv}
use jos_kernel.Kernel.Layout.{pdx, pte_p, pte_u, u32_mod, ustacktop, uvpt}
use jos_kernel.Kernel.Outcome.{
  Cmd, Ret, err, no_free_env, no_mem, ok, pure, set_env, store, val, ◌>>=◌, ◌>>◌,
}
use jos_kernel.Kernel.State.{Env, Kernel, PushRegs, Trapframe, free, runnable, user}
use jos_kernel.Pmap.Alloc.{alloc_zero, incref, kaddr, page2pa, page_alloc}

-- One round of the loop of env_init, which counts `i` down.
abbrev pub init_slot : ℕ → Kernel → Kernel
init_slot i k = record k {
  envs =
      update k.envs i
        (record (k.envs i) { env_link = k.env_free_list; env_id = 0; env_status = free });
  env_free_list = some i;
}

unfoldable pub init_loop : ℕ → Kernel → Kernel
init_loop zero k = k
init_loop (suc i) k = init_loop i (init_slot i k)

unfoldable pub env_init : Kernel → Kernel
unfolding init_loop
env_init k = init_loop nenv (record k { env_free_list = none })

-- memcpy(page2kva(p), kern_pgdir, PGSIZE)
abbrev pub copy_page : (ℕ → ℕ → ℕ) → ℕ → ℕ → ℕ → ℕ → ℕ
copy_page m dst src q j = if q == dst then m src j else m q j

set_pgdir : ℕ → ℕ → Cmd (Unit {0})
set_pgdir e p k = set_env e (record (k.envs e) { env_pgdir = some p }) k

copy_kern_pgdir : ℕ → Cmd (Unit {0})
copy_kern_pgdir p k = ok tt (record k { word = copy_page k.word p k.kern_pgdir })

unfoldable pub env_setup_vm : ℕ → Cmd Ret
unfolding set_pgdir copy_kern_pgdir
env_setup_vm e = do
  p ← page_alloc alloc_zero
  elim p [
    | none ↦ pure (err no_mem)
    | some p ↦ do
      p ← kaddr p
      set_pgdir e p
      copy_kern_pgdir p
      incref p
      store (p, pdx uvpt) (bit_or (bit_or (page2pa p) pte_p) pte_u)
      pure (val 0)
  ]

-- The generation of the next environment in a slot that had `env_id`: an int32_t, given by its bit
-- pattern; `generation <= 0` is 0 or a set sign bit.
unfoldable pub next_generation : ℕ → ℕ
next_generation env_id =
    let sum : ℕ = (env_id + 4096) % u32_mod in
    let generation : ℕ = sum / nenv * nenv in
    if generation == 0 || leb (2 ^ 31) generation then 4096 else generation

abbrev pub zero_regs : PushRegs
zero_regs = record {
  reg_edi = 0;
  reg_esi = 0;
  reg_ebp = 0;
  reg_oesp = 0;
  reg_ebx = 0;
  reg_edx = 0;
  reg_ecx = 0;
  reg_eax = 0;
}

-- GD_UD | 3, GD_UT | 3 and FL_IF
abbrev pub user_data : ℕ
user_data = 0x23

abbrev pub user_text : ℕ
user_text = 0x1b

abbrev pub fl_if : ℕ
fl_if = 0x200

-- The saved registers of a new environment.
abbrev pub fresh_tf : Trapframe
fresh_tf = record {
  tf_regs = zero_regs;
  tf_es = user_data;
  tf_ds = user_data;
  tf_trapno = 0;
  tf_err = 0;
  tf_eip = 0;
  tf_cs = user_text;
  tf_eflags = bit_or 0 fl_if;
  tf_esp = ustacktop;
  tf_ss = user_data;
}

abbrev pub fresh_env : ℕ → ℕ → Env → Env
fresh_env e parent_id v = record v {
  env_id = bit_or (next_generation v.env_id) e;
  env_parent_id = parent_id;
  env_type = user;
  env_status = runnable;
  env_runs = 0;
  env_tf = fresh_tf;
  env_pgfault_upcall = 0;
  env_ipc_recving = false;
}

-- The part of env_alloc after the page directory is set up.
unfoldable pub commit : ℕ → ℕ → Cmd (Option ℕ × Ret)
commit e parent_id k =
    ok (some e, val 0)
      (record k {
        envs = update k.envs e (fresh_env e parent_id (k.envs e));
        env_free_list = (k.envs e).env_link;
      })

-- The part of env_alloc once a slot is found.
unfoldable pub alloc_slot : ℕ → ℕ → Cmd (Option ℕ × Ret)
alloc_slot e parent_id = do
  r ← env_setup_vm e
  elim r [ err x ↦ pure (none, err x) | val _ ↦ commit e parent_id ]

-- The pointer for `*newenv_store`, and the result.
unfoldable pub env_alloc : ℕ → Cmd (Option ℕ × Ret)
env_alloc parent_id k = elim k.env_free_list [
  | none ↦ ok (none, err no_free_env) k
  | some e ↦ alloc_slot e parent_id k
]
