-- ===== src/Syscall/Dispatch.antt =====
-- kern/syscall.c: syscall, and the numbers of inc/syscall.h. The handlers of the console, the clock
-- and the network card are a parameter.
use jos_kernel.Base.{List, Option, [], none, some, suc, zero, ℕ, ◌∷◌}
use jos_kernel.Kernel.Outcome.{Cmd, Ret, err, inval, pure, val, ◌>>◌}
use jos_kernel.Sched.{sched_yield}
use jos_kernel.Syscall.Envs.{
  sys_env_destroy, sys_env_set_pgfault_upcall, sys_env_set_status, sys_exofork, sys_getenvid,
}
use jos_kernel.Syscall.Frame.{sys_env_set_trapframe}
use jos_kernel.Syscall.Ipc.{sys_ipc_recv, sys_ipc_try_send}
use jos_kernel.Syscall.Pages.{sys_page_alloc, sys_page_map, sys_page_unmap}

pub data Call : Type 0 where
  cputs cgetc getenvid destroy alloc_page map_page unmap_page exofork new_status : Call
  set_trapframe set_pgfault_upcall yield_cpu ipc_try_send ipc_recv time_msec : Call
  send_packet rcv_packet : Call

abbrev pub calls : List Call
calls =
    cputs ∷ cgetc ∷ getenvid ∷ destroy ∷ alloc_page ∷ map_page ∷ unmap_page ∷ exofork ∷ new_status
    ∷ set_trapframe ∷ set_pgfault_upcall ∷ yield_cpu ∷ ipc_try_send ∷ ipc_recv ∷ time_msec
    ∷ send_packet ∷ rcv_packet ∷ []

abbrev pub nth : List Call → ℕ → Option Call
nth [] n = none
nth (x ∷ xs) zero = some x
nth (x ∷ xs) (suc n) = nth xs n

-- The call with a number.
abbrev pub number : ℕ → Option Call
number n = nth calls n

unfoldable pub sys_yield : Cmd Ret
sys_yield = do sched_yield; pure (val 0)

module _ (device : Call → ℕ → ℕ → Cmd Ret) where
  unfoldable pub dispatch : Call → ℕ → ℕ → ℕ → ℕ → ℕ → Cmd Ret
  unfolding sys_yield
  dispatch getenvid a1 a2 a3 a4 a5 = sys_getenvid
  dispatch destroy a1 a2 a3 a4 a5 = sys_env_destroy a1
  dispatch yield_cpu a1 a2 a3 a4 a5 = sys_yield
  dispatch exofork a1 a2 a3 a4 a5 = sys_exofork
  dispatch new_status a1 a2 a3 a4 a5 = sys_env_set_status a1 a2
  dispatch map_page a1 a2 a3 a4 a5 = sys_page_map a1 a2 a3 a4 a5
  dispatch unmap_page a1 a2 a3 a4 a5 = sys_page_unmap a1 a2
  dispatch alloc_page a1 a2 a3 a4 a5 = sys_page_alloc a1 a2 a3
  dispatch set_pgfault_upcall a1 a2 a3 a4 a5 = sys_env_set_pgfault_upcall a1 a2
  dispatch ipc_recv a1 a2 a3 a4 a5 = sys_ipc_recv a1
  dispatch ipc_try_send a1 a2 a3 a4 a5 = sys_ipc_try_send a1 a2 a3 a4
  dispatch cputs a1 a2 a3 a4 a5 = device cputs a1 a2
  dispatch cgetc a1 a2 a3 a4 a5 = device cgetc a1 a2
  dispatch set_trapframe a1 a2 a3 a4 a5 = sys_env_set_trapframe a1 a2
  dispatch time_msec a1 a2 a3 a4 a5 = device time_msec a1 a2
  dispatch send_packet a1 a2 a3 a4 a5 = device send_packet a1 a2
  dispatch rcv_packet a1 a2 a3 a4 a5 = device rcv_packet a1 a2

  -- A number that is not in the table is refused.
  unfoldable pub syscall : ℕ → ℕ → ℕ → ℕ → ℕ → ℕ → Cmd Ret
  unfolding dispatch
  syscall syscallno a1 a2 a3 a4 a5 = elim (number syscallno) [
    | none ↦ pure (err inval)
    | some c ↦ dispatch c a1 a2 a3 a4 a5
  ]
