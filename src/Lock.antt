-- ===== src/Lock.antt =====
-- kern/spinlock.c: spin_lock and spin_unlock on several CPUs, an access to the lock at a time, with
-- DEBUG_SPINLOCK set. The recorded call stacks are left out.
pub mod Exclusion
mod Tests
use jos_kernel.Base.{Option, none, some, update, ℕ, ◌≡◌, ◌≢◌}

-- struct spinlock; `cpu` is none for a null pointer.
pub record SpinLock : Type 0 where
  pub locked : ℕ
  pub cpu : Option ℕ

abbrev pub initlock : SpinLock
initlock = record { locked = 0; cpu = none }

-- Where a CPU stands.
pub data Pc : Type 0 where
  -- outside of the lock
  outside : Pc
  -- in `holding` of spin_lock, with `locked` read and not zero
  lock_check : Pc
  -- before the xchg of spin_lock
  spinning : Pc
  -- after the xchg that found 0
  won : Pc
  -- after spin_lock
  inside : Pc
  -- in `holding` of spin_unlock, with `locked` read and not zero
  unlock_check : Pc
  -- before `lk->cpu = 0`
  dropping : Pc
  -- before the last xchg
  releasing : Pc
  stuck : Pc

-- A step of CPU `i` on the lock `l`.
pub data Move (i : ℕ) (l : SpinLock) : Pc → SpinLock → Pc → Type 0 where
  lock_free : l.locked ≡ 0 → Move i l outside l spinning
  lock_taken : l.locked ≢ 0 → Move i l outside l lock_check
  lock_again : l.cpu ≡ some i → Move i l lock_check l stuck
  lock_other : l.cpu ≢ some i → Move i l lock_check l spinning
  spin : l.locked ≢ 0 → Move i l spinning (record l { locked = 1 }) spinning
  win : l.locked ≡ 0 → Move i l spinning (record l { locked = 1 }) won
  note_cpu : Move i l won (record l { cpu = some i }) inside
  unlock_free : l.locked ≡ 0 → Move i l inside l stuck
  unlock_held : l.locked ≢ 0 → Move i l inside l unlock_check
  unlock_mine : l.cpu ≡ some i → Move i l unlock_check l dropping
  unlock_other : l.cpu ≢ some i → Move i l unlock_check l stuck
  drop_cpu : Move i l dropping (record l { cpu = none }) releasing
  release : Move i l releasing (record l { locked = 0 }) outside

pub record Cpus : Type 0 where
  pub lock : SpinLock
  pub pc : ℕ → Pc

pub data Step (s : Cpus) : Cpus → Type 0 where
  by :
      (i : ℕ) {l : SpinLock} {p : Pc}
      → Move i s.lock (s.pc i) l p
      → Step s (record { lock = l; pc = update s.pc i p })

abbrev pub initial : Cpus
initial = record { lock = initlock; pc = λ i. outside }

pub data Reach : Cpus → Type 0 where
  start : Reach initial
  later : {s t : Cpus} → Reach s → Step s t → Reach t
