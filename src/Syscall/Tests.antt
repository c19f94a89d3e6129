-- ===== src/Syscall/Tests.antt =====
-- The theorems about kern/syscall.c at concrete states.
-- Environment 1 runs and holds the child 7, which waits for a message; 9 runs on another CPU; 2 is
-- the page directory of all. Address 0 and the first address of the kernel are mapped.
use jos_kernel.Base.{
  [], arith, false, if◌then◌else◌, inr, ltb, none, not, refl, true, ℕ, ◌%◌, ◌&&◌, ◌*◌, ◌+◌, ◌==◌,
  ◌||◌, ◌∷◌, ◌≡◌, ◌≢◌, inl,
}
use jos_kernel.Env.Lookup.{MayName}
use jos_kernel.Kernel.Layout.{page_size, utop}
use jos_kernel.Kernel.Outcome.{Leaves, Returns, bad_env, err, inval, ipc_not_recv, ok, val}
use jos_kernel.Kernel.State.{Env, Kernel, not_runnable, running}
use jos_kernel.Pmap.Space.Insert.{Inserted}
use jos_kernel.Pmap.Space.Steps.{page_lookup-unmapped}
use jos_kernel.Pmap.Walk.{page_lookup}
use jos_kernel.Samples.{
  mapped_sample, sample, sample-IsFree, sample-IsTree, sample_env, five-IsCounted,
  mapped_sample-IsTree,
}
use jos_kernel.Syscall.Envs.{
  sys_env_destroy, sys_env_set_pgfault_upcall, sys_env_set_status, sys_exofork,
}
use jos_kernel.Syscall.Envs.Fork.{Forked, sys_exofork_lem}
use jos_kernel.Syscall.Envs.Laws.{strangers_refused}
use jos_kernel.Syscall.Frame.{sys_env_set_trapframe}
use jos_kernel.Syscall.Ipc.{sys_ipc_recv, sys_ipc_try_send}
use jos_kernel.Syscall.Ipc.Laws.{delivered, sys_ipc_try_send_lem, Received}
use jos_kernel.Syscall.Ipc.Recv.{Waits, sys_ipc_recv_lem}
use jos_kernel.Syscall.Pages.{sys_page_alloc, sys_page_map, sys_page_unmap}
use jos_kernel.Syscall.Pages.Laws.{sys_page_alloc_lem, sys_page_map_lem}

abbrev talk_env : ℕ → Env
talk_env i =
    if i == 7
    then record (sample_env 7) {
      env_ipc_recving = true;
      env_ipc_dstva = 0xeec00000;
      env_status = not_runnable;
    }
    else if i == 9
    then record (sample_env 9) { env_status = running; env_parent_id = 4097 }
    else sample_env i

abbrev talk : Kernel
talk = record mapped_sample {
  envs = talk_env;
  word = λ q i.
      if q == 2 && (i == 0 || i == 955)
      then 6 * 4096 + 7
      else if q == 6 && i == 0
      then 5 * 4096 + 7
      else 0;
}

mine : MayName talk 1 4103 true
mine = record { live = λ q. cc; current_id = refl; related = inr (inr refl) }

running_child : MayName talk 1 4105 true
running_child = record { live = λ q. cc; current_id = refl; related = inr (inr refl) }

gone : ¬ MayName talk 1 4100 true
gone m = m.live refl

strangers_refused_example :
    (sys_env_destroy 4100 talk ≡ ok (err bad_env) talk)
    × (sys_env_set_status 4100 2 talk ≡ ok (err bad_env) talk)
    × (sys_env_set_pgfault_upcall 4100 2 talk ≡ ok (err bad_env) talk)
    × (sys_page_alloc 4100 2 7 talk ≡ ok (err bad_env) talk)
    × (sys_page_unmap 4100 2 talk ≡ ok (err bad_env) talk)
    × (sys_page_map 4100 2 7 0 7 talk ≡ ok (err bad_env) talk)
    × (sys_env_set_trapframe 4100 2 talk ≡ ok (err bad_env) talk)
strangers_refused_example = strangers_refused 4100 1 talk refl (omega arith) 2 7 0 7 gone

sys_exofork_lem_example :
    Returns (λ r k'. (r ≡ val (k'.envs 5).env_id) × Forked 5 3 1 sample k') (sys_exofork sample)
sys_exofork_lem_example =
    sys_exofork_lem 5 3 1 (4 ∷ []) sample refl (omega arith) refl sample-IsFree refl

sys_ipc_recv_lem_example :
    ((ltb 4095 utop && not (4095 % page_size == 0)) ≡ true
      → sys_ipc_recv 4095 sample ≡ ok (err inval) sample)
    × ((ltb 4095 utop && not (4095 % page_size == 0)) ≡ false
        → Leaves (Waits 1 4095 sample) (sys_ipc_recv 4095 sample))
sys_ipc_recv_lem_example = sys_ipc_recv_lem 1 4095 sample refl refl λ i h. (2, refl)

unmapped_utop : page_lookup 2 0xeec01000 talk ≡ ok none talk
unmapped_utop = page_lookup-unmapped 2 0xeec01000 talk refl (omega arith) refl

sys_ipc_try_send_lem_example :
    Returns
      (λ r k'.
        (r ≡ val 0)
        × Received 42 4097 (talk.envs 7) (k'.envs 7)
        × ((i : ℕ) → i ≢ 7 → k'.envs i ≡ talk.envs i)
        × (k'.word ≡ talk.word)
        × (sys_ipc_try_send 4103 43 0xeec01000 0 k' ≡ ok (err ipc_not_recv) k'))
      (sys_ipc_try_send 4103 42 0xeec01000 0 talk)
sys_ipc_try_send_lem_example =
    sys_ipc_try_send_lem 1 2 4103 0xeec01000 none talk refl refl unmapped_utop (omega arith)
      (λ q. cc) refl 42 0 43 0 0xeec01000 none refl (omega arith)
      (page_lookup-unmapped 2 0xeec01000 (delivered 7 42 4097 0 talk) refl (omega arith) refl)

live_child : MayName mapped_sample 1 4103 true
live_child = record { live = λ q. cc; current_id = refl; related = inr (inr refl) }

live_sample : MayName sample 1 4103 true
live_sample = record { live = λ q. cc; current_id = refl; related = inr (inr refl) }

sys_page_alloc_lem_example :
    Returns
      (λ r k'. (r ≡ val 0) × Inserted 2 8192 (3 * 4096 + 7) sample k')
      (sys_page_alloc 4103 8192 2 sample)
sys_page_alloc_lem_example =
    sys_page_alloc_lem 4103 1 2 8192 sample (4 ∷ []) refl (omega arith) live_sample refl
      (omega arith) refl 3 2 (omega arith) refl sample-IsTree (inr (λ q. cc)) (λ e q. cc)

sys_page_map_lem_example :
    Returns
      (λ r k'. (r ≡ val 0) × Inserted 2 8192 (5 * 4096 + 7) mapped_sample k')
      (sys_page_map 4103 0 4103 8192 7 mapped_sample)
sys_page_map_lem_example =
    sys_page_map_lem 4103 4103 1 2 2 0 8192 mapped_sample (3 ∷ 4 ∷ []) refl (omega arith)
      (omega arith) live_child live_child refl refl (omega arith) refl (omega arith) refl
      (5 * 4096 + 7) 7 (omega arith) mapped_sample-IsTree refl (omega arith) five-IsCounted
      (inl refl) (λ e q. cc) (omega arith)
