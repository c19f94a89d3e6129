-- ===== src/Lock/Exclusion.antt =====
-- Mutual exclusion of the spin lock.
use jos_kernel.Base.{
  ==_false, ==_iff, Bool, Bool-cases, ap, arith, false, inl, inr, none, refl, some, some_inv, subst,
  sym, true, update, ℕ, ◌==◌, ◌∙◌, ◌≡◌, ◌≢◌,
}
use jos_kernel.Lock.{
  Cpus, Move, Pc, Reach, SpinLock, by, drop_cpu, dropping, initial, inside, later, lock_again,
  lock_check, lock_free, lock_other, lock_taken, note_cpu, outside, release, releasing, spin,
  spinning, start, stuck, unlock_check, unlock_free, unlock_held, unlock_mine, unlock_other, win,
  won,
}

-- From the winning xchg to the last one.
abbrev pub holds : Pc → Bool
holds won = true
holds inside = true
holds unlock_check = true
holds dropping = true
holds releasing = true
holds _ = false

-- `lk->cpu` is this CPU.
abbrev pub owns : Pc → Bool
owns inside = true
owns unlock_check = true
owns dropping = true
owns _ = false

pub record Exclusive (s : Cpus) : Type 0 where
  pub unique : (i j : ℕ) → holds (s.pc i) ≡ true → holds (s.pc j) ≡ true → i ≡ j
  pub taken : (i : ℕ) → holds (s.pc i) ≡ true → s.lock.locked ≡ 1
  pub owner : (i : ℕ) → owns (s.pc i) ≡ true → s.lock.cpu ≡ some i
  pub not_owner : (i : ℕ) → owns (s.pc i) ≡ false → s.lock.cpu ≢ some i
  pub fine : (i : ℕ) → s.pc i ≢ stuck

owns-holds : (p : Pc) → owns p ≡ true → holds p ≡ true
owns-holds inside h = refl
owns-holds unlock_check h = refl
owns-holds dropping h = refl
owns-holds outside h = cc
owns-holds lock_check h = cc
owns-holds spinning h = cc
owns-holds won h = cc
owns-holds releasing h = cc
owns-holds stuck h = cc

-- A property of every CPU after a step of CPU `i`: of its new place, and of the others as they were.
each :
    (P : Pc → ℕ → Type 0) (pc : ℕ → Pc) (i : ℕ) (p : Pc)
    → P p i
    → ((j : ℕ) → j ≢ i → P (pc j) j)
    → (j : ℕ) → P (update pc i p j) j
each P pc i p here there j = elim (Bool-cases (j == i)) [
  | inl e ↦ rw e (subst (λ x. P p x) (sym ((==_iff j i).0 e)) here)
  | inr e ↦ rw e (there j (==_false j i e))
]

unlocked : {n : ℕ} → n ≡ 0 → n ≡ 1 → ⊥
unlocked p q = omega arith

module _ {s : Cpus} (v : Exclusive s) (i : ℕ) where
  -- The invariant after CPU `i` has gone to `p'` and left the lock as `l'`.
  build :
      (l' : SpinLock) (p' : Pc)
      → (holds p' ≡ true → (j : ℕ) → j ≢ i → holds (s.pc j) ≡ true → ⊥)
      → (holds p' ≡ true → l'.locked ≡ 1)
      → ((j : ℕ) → j ≢ i → holds (s.pc j) ≡ true → l'.locked ≡ 1)
      → (owns p' ≡ true → l'.cpu ≡ some i)
      → ((j : ℕ) → j ≢ i → owns (s.pc j) ≡ true → l'.cpu ≡ some j)
      → (owns p' ≡ false → l'.cpu ≢ some i)
      → ((j : ℕ) → j ≢ i → owns (s.pc j) ≡ false → l'.cpu ≢ some j)
      → p' ≢ stuck
      → Exclusive (record { lock = l'; pc = update s.pc i p' })
  build l' p' alone here there owner_here owner_there other_here other_there fine = record {
    unique = λ a b ha hb.
        each (λ p j. holds p ≡ true → j ≡ b) s.pc i p'
          (λ h. sym (
            each (λ p j. holds p ≡ true → j ≡ i) s.pc i p' (λ _. refl)
              (λ j ne k. absurd (alone h j ne k)) b hb))
          (λ j ne h.
            each (λ p k. holds p ≡ true → j ≡ k) s.pc i p' (λ k. absurd (alone k j ne h))
              (λ k _ w. v.unique j k h w) b hb)
          a ha;
    taken = each (λ p j. holds p ≡ true → l'.locked ≡ 1) s.pc i p' here there;
    owner = each (λ p j. owns p ≡ true → l'.cpu ≡ some j) s.pc i p' owner_here owner_there;
    not_owner = each (λ p j. owns p ≡ false → l'.cpu ≢ some j) s.pc i p' other_here other_there;
    fine = each (λ p j. p ≢ stuck) s.pc i p' fine (λ j _. v.fine j);
  }

  -- A step that leaves the lock alone, and keeps what the CPU holds.
  quiet :
      (p p' : Pc)
      → s.pc i ≡ p
      → holds p' ≡ holds p
      → owns p' ≡ owns p
      → p' ≢ stuck
      → Exclusive (record { lock = s.lock; pc = update s.pc i p' })
  quiet p p' at h o fine =
      let held = λ (q : holds p' ≡ true). ap holds at ∙ sym h ∙ q in
      build s.lock p' (λ q j ne k. ne (v.unique j i k (held q))) (λ q. v.taken i (held q))
        (λ j _. v.taken j) (λ q. v.owner i (ap owns at ∙ sym o ∙ q)) (λ j _. v.owner j)
        (λ q. v.not_owner i (ap owns at ∙ sym o ∙ q)) (λ j _. v.not_owner j) fine

  Move-Exclusive :
      {p p' : Pc} {l' : SpinLock}
      → s.pc i ≡ p
      → Move i s.lock p l' p'
      → Exclusive (record { lock = l'; pc = update s.pc i p' })
  Move-Exclusive at (lock_free _) = quiet outside spinning at refl refl (λ q. cc)
  Move-Exclusive at (lock_taken _) = quiet outside lock_check at refl refl (λ q. cc)
  Move-Exclusive at (lock_again mine) = absurd (v.not_owner i (ap owns at) mine)
  Move-Exclusive at (lock_other _) = quiet lock_check spinning at refl refl (λ q. cc)
  Move-Exclusive at (spin _) =
      build (record s.lock { locked = 1 }) spinning (λ q. cc) (λ _. refl) (λ _ _ _. refl) (λ q. cc)
        (λ j _. v.owner j) (λ _. v.not_owner i (ap owns at)) (λ j _. v.not_owner j) (λ q. cc)
  Move-Exclusive at (win idle) =
      build (record s.lock { locked = 1 }) won (λ _ j _ k. omega (arith, v.taken j k)) (λ _. refl)
        (λ _ _ _. refl) (λ q. cc) (λ j _. v.owner j) (λ _. v.not_owner i (ap owns at))
        (λ j _. v.not_owner j) (λ q. cc)
  Move-Exclusive at note_cpu =
      let mine = ap holds at in
      build (record s.lock { cpu = some i }) inside (λ _ j ne k. ne (v.unique j i k mine))
        (λ _. v.taken i mine) (λ j _. v.taken j) (λ _. refl)
        (λ j ne k. absurd (ne (v.unique j i (owns-holds (s.pc j) k) mine))) (λ q. cc)
        (λ j ne _ q. ne (sym (some_inv q))) (λ q. cc)
  Move-Exclusive at (unlock_free idle) = absurd (unlocked idle (v.taken i (ap holds at)))
  Move-Exclusive at (unlock_held _) = quiet inside unlock_check at refl refl (λ q. cc)
  Move-Exclusive at (unlock_mine _) = quiet unlock_check dropping at refl refl (λ q. cc)
  Move-Exclusive at (unlock_other other) = absurd (other (v.owner i (ap owns at)))
  Move-Exclusive at drop_cpu =
      let mine = ap holds at in
      build (record s.lock { cpu = none }) releasing (λ _ j ne k. ne (v.unique j i k mine))
        (λ _. v.taken i mine) (λ j _. v.taken j) (λ q. cc)
        (λ j ne k. absurd (ne (v.unique j i (owns-holds (s.pc j) k) mine))) (λ _ q. cc)
        (λ j ne _ q. cc) (λ q. cc)
  Move-Exclusive at release =
      let mine = ap holds at in
      build (record s.lock { locked = 0 }) outside (λ q. cc) (λ q. cc)
        (λ j ne k. absurd (ne (v.unique j i k mine))) (λ q. cc) (λ j _. v.owner j)
        (λ _. v.not_owner i (ap owns at)) (λ j _. v.not_owner j) (λ q. cc)

Exclusive-initial : Exclusive initial
Exclusive-initial = record {
  unique = λ i j h k. cc;
  taken = λ i h. cc;
  owner = λ i h. cc;
  not_owner = λ i h q. cc;
  fine = λ i q. cc;
}

pub Reach-Exclusive : {s : Cpus} → Reach s → Exclusive s
Reach-Exclusive start = Exclusive-initial
Reach-Exclusive (later {s} r (by i m)) = Move-Exclusive (Reach-Exclusive r) i refl m

-- Whatever the interleaving of any number of CPUs that lock before they unlock: no two of them hold
-- the lock, and no check of spin_lock or spin_unlock panics.
pub spin_lock_lem :
    (s : Cpus)
    → Reach s
    → ((i j : ℕ) → holds (s.pc i) ≡ true → holds (s.pc j) ≡ true → i ≡ j)
      × ((i : ℕ) → s.pc i ≢ stuck)
spin_lock_lem s r = let v = Reach-Exclusive r in (v.unique, v.fine)
