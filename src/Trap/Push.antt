-- ===== src/Trap/Push.antt =====
-- What the stores of a page fault frame write, when they stay in one page.
use jos_kernel.Base.{
  List, [], arith, inl, inr, length, refl, some, true, ℕ, ◌%◌, ◌*◌, ◌+◌, ◌/◌, ◌<◌, ◌∙◌, ◌∷◌, ◌≡◌,
  ◌≢◌, ◌≤◌, ◌⊎◌, Option, ap, ==_ne, suc, zero,
}
use jos_kernel.Kernel.Layout.{page_size, pdx, pgnum, ptx, u32_mod}
use jos_kernel.Kernel.Outcome.{ok}
use jos_kernel.Kernel.State.{Kernel, poke}
use jos_kernel.Pmap.Space.{translate}
use jos_kernel.Pmap.User.{user_slot, slot_at, store_user, writable}
use jos_kernel.Trap.Upcall.{store_words}

-- The kernel can write the page at `base` of the loaded address space, page `p`, which is neither the
-- page directory nor the page table that maps it.
pub record CanWrite (k : Kernel) (base p : ℕ) : Type 0 where
  pub entry : ℕ
  pub aligned : base % page_size ≡ 0
  pub mapped : translate k k.cr3 base ≡ some entry
  pub names : pgnum entry ≡ p
  pub dir_writable : writable (k.word k.cr3 (pdx base)) ≡ true
  pub entry_writable : writable entry ≡ true
  pub not_dir : k.cr3 ≢ p
  pub not_table : pgnum (k.word k.cr3 (pdx base)) ≢ p

-- `ws` in page `p` from word `i` on.
abbrev pub written : (ℕ → ℕ → ℕ) → ℕ → ℕ → List ℕ → ℕ → ℕ → ℕ
written m p i [] = m
written m p i (w ∷ ws) = written (poke m p i w) p (i + 1) ws

abbrev pub HoldsWords : (ℕ → ℕ → ℕ) → ℕ → ℕ → List ℕ → Type 0
HoldsWords m p i [] = Unit {0}
HoldsWords m p i (w ∷ ws) = (m p i ≡ w) × HoldsWords m p (i + 1) ws

-- The word of `ws` with this index.
abbrev pub nth_word : List ℕ → ℕ → ℕ
nth_word [] n = 0
nth_word (w ∷ ws) zero = w
nth_word (w ∷ ws) (suc n) = nth_word ws n

pub HoldsWords-nth_word :
    (m : ℕ → ℕ → ℕ) (p i : ℕ) (ws : List ℕ) (n : ℕ)
    → n < length ws
    → HoldsWords m p i ws
    → m p (i + n) ≡ nth_word ws n
HoldsWords-nth_word m p i [] n low h = absurd (omega arith)
HoldsWords-nth_word m p i (w ∷ ws) zero low (e, h) =
    let z : i + 0 ≡ i = omega arith in ap (m p) z ∙ e
HoldsWords-nth_word m p i (w ∷ ws) (suc n) low (e, h) =
    let z : i + suc n ≡ i + 1 + n = omega arith in
    ap (m p) z ∙ HoldsWords-nth_word m p (i + 1) ws n (omega arith) h

pub written-elsewhere :
    (m : ℕ → ℕ → ℕ) (p i : ℕ) (ws : List ℕ) (q j : ℕ)
    → (q ≢ p) ⊎ (j < i) ⊎ (i + length ws ≤ j)
    → written m p i ws q j ≡ m q j
written-elsewhere m p i [] q j h = refl
written-elsewhere m p i (w ∷ ws) q j h =
    written-elsewhere (poke m p i w) p (i + 1) ws q j (later h) ∙ first h
  where
    later :
        (q ≢ p) ⊎ (j < i) ⊎ (i + length (w ∷ ws) ≤ j)
        → (q ≢ p) ⊎ (j < i + 1) ⊎ (i + 1 + length ws ≤ j)
    later (inl ne) = inl ne
    later (inr (inl lt)) = inr (inl (omega arith))
    later (inr (inr le)) = inr (inr (omega arith))

    first : (q ≢ p) ⊎ (j < i) ⊎ (i + length (w ∷ ws) ≤ j) → poke m p i w q j ≡ m q j
    first h = ground arith

pub written-HoldsWords :
    (m : ℕ → ℕ → ℕ) (p i : ℕ) (ws : List ℕ) → HoldsWords (written m p i ws) p i ws
written-HoldsWords m p i [] = tt
written-HoldsWords m p i (w ∷ ws) =
    let here : poke m p i w p i ≡ w = ground arith in
    (
      written-elsewhere (poke m p i w) p (i + 1) ws p i (inr (inl (omega arith))) ∙ here,
      written-HoldsWords (poke m p i w) p (i + 1) ws,
    )

module _ (base p i : ℕ) (room : i < 1024) (k : Kernel) (can : CanWrite k base p) where
  same_tables : (pdx (base + 4 * i) ≡ pdx base) × (ptx (base + 4 * i) ≡ ptx base)
  same_tables = (omega (arith, can.aligned), omega (arith, can.aligned))

  same_translation : translate k k.cr3 (base + 4 * i) ≡ some can.entry
  same_translation = let (d, t) = same_tables in rw (d, t) can.mapped

  user_slot-can : user_slot (base + 4 * i) k ≡ ok (p, i) k
  unfolding user_slot
  user_slot-can = found (translate k k.cr3 (base + 4 * i)) same_translation
    where
      dir : writable (k.word k.cr3 (pdx (base + 4 * i))) ≡ true
      dir = ap (λ d. writable (k.word k.cr3 d)) same_tables.0 ∙ can.dir_writable

      place : (base + 4 * i) % page_size / 4 ≡ i
      place = omega (arith, can.aligned)

      found :
          (o : Option ℕ)
          → o ≡ some can.entry
          → slot_at o (writable (k.word k.cr3 (pdx (base + 4 * i)))) (base + 4 * i) k ≡ ok (p, i) k
      found o h = rw (h, dir, can.entry_writable, can.names, place)

  store_user-can :
      (w : ℕ) → store_user (base + 4 * i) w k ≡ ok tt (record k { word = poke k.word p i w })
  unfolding store_user
  store_user-can w =
      let straight : (base + 4 * i) % 4 ≡ 0 = omega (arith, can.aligned) in
      rw (straight, user_slot-can)

-- A word stored in the page does not change where the page is mapped.
CanWrite-poke :
    (base p i w : ℕ) (k : Kernel)
    → CanWrite k base p
    → CanWrite (record k { word = poke k.word p i w }) base p
CanWrite-poke base p i w k can =
    let d = ==_ne k.cr3 p can.not_dir in
    let t = ==_ne (pgnum (k.word k.cr3 (pdx base))) p can.not_table in
    record {
      entry = can.entry;
      aligned = can.aligned;
      mapped = rw (d, t) can.mapped;
      names = can.names;
      dir_writable = rw d can.dir_writable;
      entry_writable = can.entry_writable;
      not_dir = can.not_dir;
      not_table = rw d can.not_table;
    }

pub store_words-can :
    (base p i : ℕ) (ws : List ℕ) (k : Kernel)
    → base + page_size < u32_mod
    → i + length ws ≤ 1024
    → CanWrite k base p
    → store_words (base + 4 * i) ws k ≡ ok tt (record k { word = written k.word p i ws })
unfolding store_words
store_words-can base p i [] k top room can = refl
store_words-can base p i (w ∷ ws) k top room can =
    let next : (base + 4 * i + 4) % u32_mod ≡ base + 4 * (i + 1) = omega arith in
    let k' = record k { word = poke k.word p i w } in
    rw (store_user-can base p i (omega arith) k can w, next)
      (store_words-can base p (i + 1) ws k' top (omega arith) (CanWrite-poke base p i w k can))
