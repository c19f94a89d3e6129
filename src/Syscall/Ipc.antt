-- ===== src/Syscall/Ipc.antt =====
-- kern/syscall.c: sys_ipc_try_send and sys_ipc_recv.
pub mod Laws
pub mod Recv
use jos_kernel.Base.{
  Bool, Option, bit_and, false, if◌then◌else◌, ltb, none, not, some, true, update, ℕ, ◌%◌, ◌&&◌,
  ◌==◌, ◌||◌,
}
use jos_kernel.Env.Destroy.{directory}
use jos_kernel.Env.Lookup.{envid2env, Found}
use jos_kernel.Kernel.Layout.{page_size, pte_p, pte_u, pte_w, utop}
use jos_kernel.Kernel.Outcome.{
  Cmd, Error, Ret, bad_env, err, fault, get, inval, ipc_not_recv, load, no_mem, ok, pure, put, val,
  ◌>>=◌, ◌>>◌,
}
use jos_kernel.Kernel.State.{Env, Kernel, Slot, not_runnable, runnable}
use jos_kernel.Pmap.Walk.{page_insert, page_lookup}
use jos_kernel.Sched.{sched_yield}
use jos_kernel.Syscall.Envs.{current, deref}
use jos_kernel.Syscall.Pages.{not_syscall}

-- The checks on a page to send, with what page_lookup found: an error, if any.
unfoldable pub check_page : ℕ → ℕ → Option (ℕ × Slot) → Cmd (Option Error)
check_page srcva perm found =
    if not (srcva % page_size == 0)
    then pure (some inval)
    else if not (bit_and perm pte_u == pte_u)
        || not (bit_and perm pte_p == pte_p)
        || not (bit_and perm not_syscall == 0)
    then pure (some inval)
    else elim found [
      | none ↦ pure (some inval)
      | some (pp, slot) ↦
          if not (bit_and perm pte_w == 0)
          then (do entry ← load slot; pure (if bit_and entry pte_w == 0 then some inval else none))
          else pure none
    ]

-- `srcva < UTOP` and the receiver's `env_ipc_dstva < UTOP`: a page is sent and wanted.
abbrev pub transfers : ℕ → ℕ → Kernel → Bool
transfers e srcva k = ltb (k.envs e).env_ipc_dstva utop && ltb srcva utop

-- page_insert of the page found into the receiver's address space.
unfoldable pub transfer : ℕ → ℕ → Option (ℕ × Slot) → Cmd Ret
transfer e perm found = do
  pgdir ← directory e
  k ← get
  elim found [
    | none ↦ λ _. fault
    | some (pp, _) ↦ page_insert pgdir pp (k.envs e).env_ipc_dstva perm
  ]

-- The receiver `v` of a message.
abbrev pub notified : ℕ → ℕ → ℕ → Env → Env
notified value from perm v = record v {
  env_ipc_perm = perm;
  env_ipc_recving = false;
  env_ipc_value = value;
  env_ipc_from = from;
  env_status = runnable;
}

unfoldable pub deliver : ℕ → ℕ → ℕ → ℕ → Cmd Ret
unfolding current
deliver e value srcva perm = do
  c ← current
  k ← get
  put (record k {
    envs =
        update k.envs e
          (notified value (k.envs c).env_id (if transfers e srcva k then perm else 0) (k.envs e));
  })
  pure (val 0)

-- sys_ipc_try_send once the receiver is found.
unfoldable pub send_to : ℕ → ℕ → ℕ → ℕ → Option (ℕ × Slot) → Cmd Ret
unfolding check_page transfer deliver
send_to e value srcva perm found k =
    if not (k.envs e).env_ipc_recving
    then ok (err ipc_not_recv) k
    else (do
      bad ← if ltb srcva utop then check_page srcva perm found else pure none
      elim bad [
        | some x ↦ pure (err x)
        | none ↦ do
          k ← get
          r ← if transfers e srcva k then transfer e perm found else pure (val 0)
          elim r [ err _ ↦ pure (err no_mem) | val _ ↦ deliver e value srcva perm ]
      ])
        k

-- What follows envid2env in sys_ipc_try_send.
unfoldable pub answer : ℕ → ℕ → ℕ → Option (ℕ × Slot) → Found → Cmd Ret
unfolding deref send_to
answer value srcva perm found (dst, r) = elim r [
  | err _ ↦ pure (err bad_env)
  | val _ ↦ do e ← deref dst; send_to e value srcva perm found
]

-- page_lookup comes first, before any test of `srcva`.
unfoldable pub sys_ipc_try_send : ℕ → ℕ → ℕ → ℕ → Cmd Ret
unfolding current answer
sys_ipc_try_send envid value srcva perm = do
  c ← current
  pgdir ← directory c
  found ← page_lookup pgdir srcva
  dst ← envid2env envid false
  answer value srcva perm found dst

-- The receiver `v` before it gives up the CPU.
abbrev pub waiting : ℕ → Env → Env
waiting dstva v = record v {
  env_ipc_dstva = dstva;
  env_ipc_recving = true;
  env_tf = record v.env_tf { tf_regs = record v.env_tf.tf_regs { reg_eax = 0 } };
  env_status = not_runnable;
}

unfoldable pub block : ℕ → ℕ → Cmd (Unit {0})
block c dstva k = ok tt (record k { envs = update k.envs c (waiting dstva (k.envs c)) })

unfoldable pub sys_ipc_recv : ℕ → Cmd Ret
unfolding current block
sys_ipc_recv dstva =
    if ltb dstva utop && not (dstva % page_size == 0)
    then pure (err inval)
    else (do c ← current; block c dstva; sched_yield; pure (val 0))
