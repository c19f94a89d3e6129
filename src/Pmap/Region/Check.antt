-- ===== src/Pmap/Region/Check.antt =====
-- What user_mem_check of kern/pmap.c accepts.
use native.Mathlib.Decide.{ℕ_discrete}
use jos_kernel.Base.{
  Bool, Bool-cases, Option, arith, false, inl, inr, ltb, none, refl, some, subst, suc, true, zero,
  ℕ, ◌%◌, ◌&&◌, ◌*◌, ◌+◌, ◌<◌, ◌≡◌, ◌≤◌, lt→ltb, ap, if◌then◌else◌, ◌==◌, ◌∙◌, ◌-◌, le→ltb, sym,
}
use jos_kernel.Kernel.Layout.{page_size, pdx, pgnum, present, u32_mod, ulim, round_down, round_up}
use jos_kernel.Kernel.Outcome.{Returns, ok, returned, Returns-and_then, Returns-weaken}
use jos_kernel.Kernel.State.{Kernel}
use jos_kernel.Pmap.Region.{user_mem_check, allows, check_loop, page_ok, all_pages, check_range}
use jos_kernel.Pmap.Space.Steps.{pde, pgdir_walk-absent, pgdir_walk-present, pte}

-- The page at `i` has a page table, is below ULIM, and its entry has all of `perm`.
abbrev pub accessible : ℕ → ℕ → Kernel → ℕ → Bool
accessible pgdir perm k i = present (pde pgdir i k) && (ltb i ulim && allows (pte pgdir i k) perm)

-- Every entry of the page directory names an existing page.
abbrev pub TablesExist : ℕ → Kernel → Type 0
TablesExist pgdir k = (i : ℕ) → pgnum (k.word pgdir i) < k.npages

page_ok-accessible :
    (pgdir i perm : ℕ) (k : Kernel)
    → TablesExist pgdir k
    → page_ok pgdir i perm k ≡ ok (accessible pgdir perm k i) k
unfolding page_ok
page_ok-accessible pgdir i perm k tables = elim (Bool-cases (present (pde pgdir i k))) [
  | inl p ↦ rw (pgdir_walk-present pgdir i k false p (tables (pdx i))) (rw p)
  | inr a ↦ rw (pgdir_walk-absent pgdir i k a (tables (pdx i))) (rw a)
]

-- The answer for the pages from `i` to `end`: all are accessible, or the first that is not.
pub data Verdict (pgdir perm : ℕ) (k : Kernel) (i end : ℕ) : Option ℕ → Type 0 where
  accepted :
      ((j : ℕ) → i ≤ j → j < end → j % page_size ≡ 0 → accessible pgdir perm k j ≡ true)
      → Verdict pgdir perm k i end none
  rejected :
      (bad : ℕ)
      → i ≤ bad
      → bad < end
      → accessible pgdir perm k bad ≡ false
      → Verdict pgdir perm k i end (some bad)

extend :
    (pgdir perm : ℕ) (k : Kernel) (i end : ℕ) (r : Option ℕ)
    → i % page_size ≡ 0
    → accessible pgdir perm k i ≡ true
    → Verdict pgdir perm k (i + page_size) end r
    → Verdict pgdir perm k i end r
extend pgdir perm k i end none a good (accepted rest) = accepted λ j u v w. elim (ℕ_discrete i j) [
  | yes at ↦ subst (λ x. accessible pgdir perm k x ≡ true) at good
  | no ne ↦ rest j (omega arith) v w
]
extend pgdir perm k i end (some bad) a good (rejected _ u v w) = rejected bad (omega arith) v w

not_past : (i j end : ℕ) → ltb i end ≡ false → i ≤ j → j < end → ⊥
not_past i j end h u v = cc (lt→ltb i end (omega arith), h)

ltb-lt : (i end : ℕ) → ltb i end ≡ true → i < end
ltb-lt i end h = ground arith

check_loop-Verdict :
    (pgdir perm end fuel i : ℕ) (k : Kernel)
    → TablesExist pgdir k
    → i % page_size ≡ 0
    → end + page_size ≤ u32_mod
    → end ≤ i + fuel * page_size
    → Returns (λ r k'. (k' ≡ k) × Verdict pgdir perm k i end r) (check_loop pgdir perm end fuel i k)
unfolding check_loop
check_loop-Verdict pgdir perm end zero i k tables a top enough =
    returned (refl, accepted λ j u v w. absurd (omega arith))
check_loop-Verdict pgdir perm end (suc fuel) i k tables a top enough =
    elim (Bool-cases (ltb i end)) [
      | inr past ↦ rw past (returned (refl, accepted λ j u v w. absurd (not_past i j end past u v)))
      | inl inside ↦
          let l = ltb-lt i end inside in
          let next : (i + page_size) % u32_mod ≡ i + page_size = omega arith in
          elim (Bool-cases (accessible pgdir perm k i)) [
            | inr bad ↦ rw inside (
                rw (page_ok-accessible pgdir i perm k tables ∙ ap (λ b. ok b k) bad)
                  (returned (refl, rejected i (omega arith) l bad)))
            | inl good ↦
                let rest =
                  check_loop-Verdict pgdir perm end fuel (i + page_size) k tables (omega arith) top
                    (omega arith) in
                rw inside (
                  rw (page_ok-accessible pgdir i perm k tables ∙ ap (λ b. ok b k) good) (
                    rw next (
                      Returns-weaken rest
                        λ r k' (e, v). (e, extend pgdir perm k i end r a good v))))
          ]
    ]

-- What user_mem_check makes of the pages of [va, va + len): it accepts them if all are accessible,
-- and otherwise reports an address in the first that is not.
pub data Checked (pgdir perm : ℕ) (k : Kernel) (va end : ℕ) : Option ℕ → Type 0 where
  all_accessible :
      ((j : ℕ) → round_down va ≤ j → j < end → j % page_size ≡ 0 → accessible pgdir perm k j ≡ true)
      → Checked pgdir perm k va end none
  one_is_not :
      (bad : ℕ)
      → round_down va ≤ bad
      → bad < end
      → accessible pgdir perm k bad ≡ false
      → Checked pgdir perm k va end (some (if bad == round_down va then va else bad))

Verdict-Checked :
    (pgdir perm : ℕ) (k : Kernel) (va end : ℕ) (r : Option ℕ)
    → Verdict pgdir perm k (round_down va) end r
    → Checked pgdir perm k va end
        (elim r [ none ↦ none | some i ↦ some (if i == round_down va then va else i) ])
Verdict-Checked pgdir perm k va end none (accepted h) = all_accessible h
Verdict-Checked pgdir perm k va end (some bad) (rejected _ u v w) = one_is_not bad u v w

check_range-Checked :
    (pgdir va perm end fuel : ℕ) (k : Kernel)
    → TablesExist pgdir k
    → end + page_size ≤ u32_mod
    → end ≤ round_down va + fuel * page_size
    → Returns
        (λ r k'. (k' ≡ k) × Checked pgdir perm k va end r)
        (check_range pgdir va perm end fuel k)
unfolding check_range
check_range-Checked pgdir va perm end fuel k tables top enough =
    Returns-and_then
      (check_loop-Verdict pgdir perm end fuel (round_down va) k tables (omega arith) top enough)
      λ r k' (e, v). returned (e, Verdict-Checked pgdir perm k va end r v)

check_range-empty :
    (pgdir va perm fuel : ℕ) (k : Kernel) → check_range pgdir va perm 0 (suc fuel) k ≡ ok none k
unfolding check_range check_loop
check_range-empty pgdir va perm fuel k = rw (le→ltb (round_down va) 0 (omega arith))

-- For a range that ends, rounded up, a page or more below 2 ^ 32, user_mem_check returns without a
-- change of the state. It accepts the range only if every page of it has a page table, is below
-- ULIM and has all of the permissions; otherwise it reports an address in a page that does not.
-- Assumed: every entry of the page directory names an existing page.
pub user_mem_check_lem :
    (pgdir va len perm : ℕ) (k : Kernel)
    → TablesExist pgdir k
    → va + len + 2 * page_size ≤ u32_mod
    → Returns
        (λ r k'. (k' ≡ k) × Checked pgdir perm k va (round_up (va + len)) r)
        (user_mem_check pgdir va len perm k)
unfolding user_mem_check
user_mem_check_lem pgdir va len perm k tables top =
    let nowrap : (va + len) % u32_mod ≡ va + len = omega arith in
    subst
      (λ e.
        Returns (λ r k'. (k' ≡ k) × Checked pgdir perm k va (round_up (va + len)) r)
          (check_range pgdir va perm (round_up e) all_pages k))
      (sym nowrap)
      (check_range-Checked pgdir va perm (round_up (va + len)) all_pages k tables (omega arith)
        (omega arith))

-- A range that ends in the last page of the address space is accepted, whatever is mapped: its end,
-- rounded up, is 0.
pub user_mem_check-wraps :
    (pgdir va len perm : ℕ) (k : Kernel)
    → va + len < u32_mod
    → u32_mod - page_size < va + len
    → user_mem_check pgdir va len perm k ≡ ok none k
unfolding user_mem_check
user_mem_check-wraps pgdir va len perm k fits top =
    let zero_end : round_up ((va + len) % u32_mod) ≡ 0 = omega arith in
    ap (λ e. check_range pgdir va perm e all_pages k) zero_end
    ∙ check_range-empty pgdir va perm 0xfffff k
