-- ===== src/Lock/Tests.antt =====
-- CPU 0 takes the lock while CPU 1 waits for it.
use jos_kernel.Base.{none, refl, true, update, ℕ, ◌≡◌, ◌≢◌}
use jos_kernel.Lock.{Cpus, Reach, by, initial, later, lock_free, spinning, start, stuck, win, won}
use jos_kernel.Lock.Exclusion.{holds, spin_lock_lem}

abbrev contended : Cpus
contended = record {
  lock = record { locked = 1; cpu = none };
  pc = update (update (update initial.pc 0 spinning) 1 spinning) 0 won;
}

contended-Reach : Reach contended
contended-Reach =
    later (later (later start (by 0 (lock_free refl))) (by 1 (lock_free refl))) (by 0 (win refl))

spin_lock_lem_example :
    ((i j : ℕ) → holds (contended.pc i) ≡ true → holds (contended.pc j) ≡ true → i ≡ j)
    × ((i : ℕ) → contended.pc i ≢ stuck)
spin_lock_lem_example = spin_lock_lem contended contended-Reach
