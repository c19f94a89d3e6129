-- ===== src/Syscall/Ipc/Laws.antt =====
-- Messages without a page: sys_ipc_try_send of kern/syscall.c.
use jos_kernel.Base.{
  Option, ap, false, if-true, if◌then◌else◌, inl, not, refl, some, true, update, ℕ, ◌∙◌, ◌≡◌, ◌≢◌,
  ◌≤◌, and-false, if-false, le→ltb, ltb, ==_ne, ==_self, ==_iff, Bool-cases, inr, sym, ◌==◌, subst,
}
use jos_kernel.Env.Destroy.{directory-ok}
use jos_kernel.Env.Lookup.{envid2env_lem, envx, envid2env}
use jos_kernel.Kdebug.Inv.{value}
use jos_kernel.Kernel.Layout.{utop}
use jos_kernel.Kernel.Outcome.{err, ipc_not_recv, ok, val, Returns, returned}
use jos_kernel.Kernel.State.{Kernel, Slot, free, Env, runnable}
use jos_kernel.Pmap.Walk.{page_lookup}
use jos_kernel.Syscall.Envs.{current-ok, deref}
use jos_kernel.Syscall.Ipc.{answer, deliver, notified, send_to, sys_ipc_try_send, transfers}

-- What a message of `value` from `from` without a page makes of the receiver `v`.
pub record Received (value from : ℕ) (v v' : Env) : Type 0 where
  pub value_received : v'.env_ipc_value ≡ value
  pub sender : v'.env_ipc_from ≡ from
  pub no_page : v'.env_ipc_perm ≡ 0
  pub no_longer_waits : v'.env_ipc_recving ≡ false
  pub may_run : v'.env_status ≡ runnable
  pub same_registers : v'.env_tf ≡ v.env_tf
  pub same_space : v'.env_pgdir ≡ v.env_pgdir
  pub same_id : v'.env_id ≡ v.env_id
  pub same_parent : v'.env_parent_id ≡ v.env_parent_id
  pub same_upcall : v'.env_pgfault_upcall ≡ v.env_pgfault_upcall

notified-Received :
    (value from : ℕ) (v v' : Env) → v' ≡ notified value from 0 v → Received value from v v'
notified-Received value from v v' e = subst (Received value from v) (sym e) (record {
  value_received = refl;
  sender = refl;
  no_page = refl;
  no_longer_waits = refl;
  may_run = refl;
  same_registers = refl;
  same_space = refl;
  same_id = refl;
  same_parent = refl;
  same_upcall = refl;
})

-- The state after the delivery of a message to `e`.
abbrev pub delivered : ℕ → ℕ → ℕ → ℕ → Kernel → Kernel
delivered e value from perm k = record k {
  envs = update k.envs e (notified value from perm (k.envs e));
}

pub deliver-delivered :
    (e c value srcva perm : ℕ) (k : Kernel)
    → k.curenv ≡ some c
    → deliver e value srcva perm k
      ≡ ok (val 0) (delivered e value (k.envs c).env_id (if transfers e srcva k then perm else 0) k)
unfolding deliver
deliver-delivered e c value srcva perm k cur = rw (current-ok c k cur)

send_to-value :
    (e c value srcva perm : ℕ) (found : Option (ℕ × Slot)) (k : Kernel)
    → k.curenv ≡ some c
    → (k.envs e).env_ipc_recving ≡ true
    → ltb srcva utop ≡ false
    → send_to e value srcva perm found k ≡ ok (val 0) (delivered e value (k.envs c).env_id 0 k)
unfolding send_to
send_to-value e c value srcva perm found k cur waits high =
    let none_sent : transfers e srcva k ≡ false =
      rw high (and-false (ltb (k.envs e).env_ipc_dstva utop)) in
    if-false _ (ap not waits)
    ∙ rw high (rw none_sent (rw (deliver-delivered e c value srcva perm k cur) (rw none_sent refl)))

delivered_at :
    (e value from perm : ℕ) (k : Kernel)
    → (delivered e value from perm k).envs e ≡ notified value from perm (k.envs e)
delivered_at e value from perm k = rw (==_self e)

runnable-ne : runnable ≢ free
runnable-ne q = cc

-- The caller `c` sends with an address `srcva` whose lookup in its page directory `d` gives `found`,
-- to an environment that is not free.
module _ (c d envid srcva : ℕ) (found : Option (ℕ × Slot)) (k : Kernel) (cur : k.curenv ≡ some c)
    (dir : (k.envs c).env_pgdir ≡ some d) (looked : page_lookup d srcva k ≡ ok found k)
    (ne : envid ≢ 0) (live : (k.envs (envx envid)).env_status ≢ free)
    (id : (k.envs (envx envid)).env_id ≡ envid) where
  abbrev e : ℕ
  e = envx envid

  found_receiver : envid2env envid false k ≡ ok (some e, val 0) k
  found_receiver =
      (envid2env_lem envid c false k cur ne).0
        (record { live = live; current_id = id; related = inl refl })

  pub sys_ipc_try_send-send_to :
      (value perm : ℕ)
      → sys_ipc_try_send envid value srcva perm k ≡ send_to e value srcva perm found k
  unfolding sys_ipc_try_send answer deref
  sys_ipc_try_send-send_to value perm =
      rw (current-ok c k cur) (rw (directory-ok c d k dir) (rw looked (rw found_receiver)))

  pub send-not_receiving :
      (value perm : ℕ)
      → (k.envs e).env_ipc_recving ≡ false
      → sys_ipc_try_send envid value srcva perm k ≡ ok (err ipc_not_recv) k
  unfolding send_to
  send-not_receiving value perm idle = sys_ipc_try_send-send_to value perm ∙ if-true _ (ap not idle)

  pub send-value :
      (value perm : ℕ)
      → (k.envs e).env_ipc_recving ≡ true
      → utop ≤ srcva
      → sys_ipc_try_send envid value srcva perm k
        ≡ ok (val 0) (delivered e value (k.envs c).env_id 0 k)
  send-value value perm waits high =
      sys_ipc_try_send-send_to value perm
      ∙ send_to-value e c value srcva perm found k cur waits (le→ltb srcva utop high)

delivered-pgdir :
    (i e value from perm : ℕ) (k : Kernel)
    → ((delivered e value from perm k).envs i).env_pgdir ≡ (k.envs i).env_pgdir
delivered-pgdir i e value from perm k = elim (Bool-cases (i == e)) [
  | inl q ↦ rw q (ap (λ x. (k.envs x).env_pgdir) (sym ((==_iff i e).0 q)))
  | inr q ↦ rw q
]

module _ (c d envid srcva : ℕ) (found : Option (ℕ × Slot)) (k : Kernel) (cur : k.curenv ≡ some c)
    (dir : (k.envs c).env_pgdir ≡ some d) (looked : page_lookup d srcva k ≡ ok found k)
    (ne : envid ≢ 0) (live : (k.envs (envx envid)).env_status ≢ free)
    (id : (k.envs (envx envid)).env_id ≡ envid) where
  abbrev receiver : ℕ
  receiver = envx envid

  second :
      (value value' perm' srcva' : ℕ) (found' : Option (ℕ × Slot))
      → page_lookup d srcva' (delivered receiver value (k.envs c).env_id 0 k)
        ≡ ok found' (delivered receiver value (k.envs c).env_id 0 k)
      → sys_ipc_try_send envid value' srcva' perm' (delivered receiver value (k.envs c).env_id 0 k)
        ≡ ok (err ipc_not_recv) (delivered receiver value (k.envs c).env_id 0 k)
  second value value' perm' srcva' found' looked' =
      send-not_receiving c d envid srcva' found' (delivered receiver value (k.envs c).env_id 0 k)
        cur (delivered-pgdir c receiver value (k.envs c).env_id 0 k ∙ dir) looked' ne
        (λ q.
          runnable-ne
            (sym (ap Env.env_status (delivered_at receiver value (k.envs c).env_id 0 k)) ∙ q))
        (rw (==_self receiver) id) value' perm' (rw (==_self receiver))

  -- The state after the message.
  abbrev pub after_value : ℕ → Kernel
  after_value value = delivered receiver value (k.envs c).env_id 0 k

  -- A message without a page to an environment that waits in sys_ipc_recv: the send returns 0, the
  -- receiver becomes runnable with the value, the sender's identifier and permission 0, its registers,
  -- address space, identifiers and upcall and the other environments and memory stay, and a further send to it is refused with -E_IPC_NOT_RECV and changes nothing.
  -- Assumed: the lookups of the two source addresses return, the receiver is not free, its envid is
  -- not 0, and the first source address is at least UTOP.
  pub sys_ipc_try_send_lem :
      (value perm value' perm' srcva' : ℕ) (found' : Option (ℕ × Slot))
      → (k.envs receiver).env_ipc_recving ≡ true
      → utop ≤ srcva
      → page_lookup d srcva' (after_value value) ≡ ok found' (after_value value)
      → Returns
          (λ r k'.
            (r ≡ val 0)
            × Received value (k.envs c).env_id (k.envs receiver) (k'.envs receiver)
            × ((i : ℕ) → i ≢ receiver → k'.envs i ≡ k.envs i)
            × (k'.word ≡ k.word)
            × (sys_ipc_try_send envid value' srcva' perm' k' ≡ ok (err ipc_not_recv) k'))
          (sys_ipc_try_send envid value srcva perm k)
  sys_ipc_try_send_lem value perm value' perm' srcva' found' waits high looked' =
      rw (send-value c d envid srcva found k cur dir looked ne live id value perm waits high) (
        returned (
          refl,
          notified-Received value (k.envs c).env_id (k.envs receiver) _ (rw (==_self receiver)),
          λ i n. rw (==_ne i receiver n),
          refl,
          second value value' perm' srcva' found' looked',
        ))
