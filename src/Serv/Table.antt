-- ===== src/Serv/Table.antt =====
-- What openfile_alloc hands out, and the ids in the table.
use jos_kernel.Base.{
  ==_false, ==_iff, ==_ne, ==_self, Bool-cases, arith, inl, inr, leb, lt-or-le, none, refl, subst,
  suc, zero, ℕ, ◌%◌, ◌+◌, ◌<◌, ◌==◌, ◌≡◌, ◌≢◌, ◌≤◌,
}
use jos_kernel.Kernel.Layout.{u32_mod}
use jos_kernel.Serv.{
  openfile_lookup, openfile_alloc, openfile_loop, Alloc, Server, claim, e_max_open, e_no_mem, entry,
  maxopen, negative, no_entry, page_and_claim,
}

-- The ids of the entries from 0 to 1023 are in their places.
abbrev pub InPlace : Server → Type 0
InPlace s =
    (i : ℕ)
    → i < maxopen
    → ((s.opentab i).o_fileid % maxopen ≡ i) × ((s.opentab i).o_fileid < u32_mod)

-- Entry `i` is handed out.
pub record Handed (s : Server) (i : ℕ) (t : Server) : Type 0 where
  pub in_table : i < maxopen
  pub not_held : s.refs i ≤ 1
  pub earlier : (j : ℕ) → j < i → 2 ≤ s.refs j
  pub own : t.refs i ≡ 1
  pub new_id : (t.opentab i).o_fileid ≡ ((s.opentab i).o_fileid + maxopen) % u32_mod
  pub at_start : (t.fds i).fd_offset ≡ 0
  pub others :
      (j : ℕ) → j ≢ i → (t.opentab j ≡ s.opentab j) × (t.fds j ≡ s.fds j) × (t.refs j ≡ s.refs j)
  pub same_disk : t.disk ≡ s.disk

-- The three results of openfile_alloc.
pub data Outcome (s : Server) : Alloc → Type 0 where
  handed : {i : ℕ} {t : Server} → Handed s i t → Outcome s (entry i t)
  no_page :
      (i : ℕ)
      → i < maxopen
      → s.refs i ≡ 0
      → ((j : ℕ) → j < i → 2 ≤ s.refs j)
      → s.free_pages ≡ 0
      → Outcome s (no_entry (negative e_no_mem))
  all_open : ((j : ℕ) → j < maxopen → 2 ≤ s.refs j) → Outcome s (no_entry (negative e_max_open))

module _ (s : Server) where
  claim-Handed :
      (i : ℕ)
      → i < maxopen
      → ((j : ℕ) → j < i → 2 ≤ s.refs j)
      → s.refs i ≡ 1
      → Handed s i (claim i s)
  claim-Handed i low before one =
      let here = ==_self i in
      record {
        in_table = low;
        not_held = omega arith;
        earlier = before;
        own = one;
        new_id = rw here refl;
        at_start = rw here refl;
        others = λ j ne. let other = ==_ne j i ne in rw other (refl, refl, refl);
        same_disk = refl;
      }

  page_and_claim-Outcome :
      (i : ℕ)
      → i < maxopen
      → ((j : ℕ) → j < i → 2 ≤ s.refs j)
      → s.refs i ≡ 0
      → Outcome s (page_and_claim i s)
  unfolding page_and_claim
  page_and_claim-Outcome i low before none_has = elim (Bool-cases (s.free_pages == 0)) [
    | inl empty ↦ rw empty (Outcome.no_page i low none_has before ((==_iff s.free_pages 0).0 empty))
    | inr more ↦
        let here = ==_self i in
        rw more (
          Outcome.handed (record {
            in_table = low;
            not_held = omega arith;
            earlier = before;
            own = rw here refl;
            new_id = rw here refl;
            at_start = rw here refl;
            others = λ j ne. let other = ==_ne j i ne in rw other (refl, refl, refl);
            same_disk = refl;
          }))
  ]

  openfile_loop-Outcome :
      (n i : ℕ)
      → i + n ≡ maxopen
      → ((j : ℕ) → j < i → 2 ≤ s.refs j)
      → Outcome s (openfile_loop n i s)
  unfolding openfile_loop
  openfile_loop-Outcome zero i e before = Outcome.all_open (λ j low. before j (omega arith))
  openfile_loop-Outcome (suc n) i e before = elim (Bool-cases (s.refs i == 0)) [
    | inl none_has ↦
        rw none_has
          (page_and_claim-Outcome i (omega arith) before ((==_iff (s.refs i) 0).0 none_has))
    | inr some_has ↦ elim (Bool-cases (s.refs i == 1)) [
      | inl one ↦
          rw (some_has, one)
            (Outcome.handed (claim-Handed i (omega arith) before ((==_iff (s.refs i) 1).0 one)))
      | inr more ↦
          let a = ==_false (s.refs i) 0 some_has in
          let b = ==_false (s.refs i) 1 more in
          rw (some_has, more)
            (openfile_loop-Outcome n (i + 1) (omega arith) (λ j low. elim (lt-or-le j i) [
              | inl earlier ↦ before j earlier
              | inr at_i ↦
                  let q : i ≡ j = omega arith in subst (λ k. 2 ≤ s.refs k) q (omega (arith, a, b))
            ]))
    ]
  ]

-- openfile_alloc hands out the first of the 1024 entries whose Fd page no client has: with the next id
-- of the entry, its page cleared, and every other entry, page and count as it was. It returns -E_NO_MEM
-- if that entry needs a page and there is none, and -E_MAX_OPEN exactly if clients hold all pages.
pub openfile_alloc_lem : (s : Server) → Outcome s (openfile_alloc s)
unfolding openfile_alloc
openfile_alloc_lem s = openfile_loop-Outcome s maxopen 0 refl (λ j low. absurd (omega arith))

-- A file id is refused once openfile_alloc has handed out its entry again, whoever holds the page.
pub openfile_lookup-stale :
    (s t : Server) (i : ℕ) (refs : ℕ → ℕ)
    → InPlace s
    → openfile_alloc s ≡ entry i t
    → openfile_lookup (s.opentab i).o_fileid (record t { refs = refs }) ≡ none
unfolding openfile_lookup
openfile_lookup-stale s t i refs v e = go (subst (Outcome s) e (openfile_alloc_lem s))
  where
    go :
        Outcome s (entry i t)
        → openfile_lookup (s.opentab i).o_fileid (record t { refs = refs }) ≡ none
    go (Outcome.handed h) =
        let (at_i, low) = v i h.in_table in
        let ne : (t.opentab i).o_fileid ≢ (s.opentab i).o_fileid =
          λ q. omega (arith, q, h.new_id, low) in
        let differs = ==_ne (t.opentab i).o_fileid (s.opentab i).o_fileid ne in
        rw at_i (elim (Bool-cases (leb (refs i) 1)) [
          | inl closed ↦ rw closed
          | inr held ↦ rw (held, differs)
        ])
