-- ===== src/Fds/Laws.antt =====
-- What fd_alloc finds, and what close and close_all leave.
use jos_kernel.Base.{
  ==_ne, ==_self, Bool-cases, List, Option, [], arith, inl, inr, leb, lt-or-le, lt→leb, none, refl,
  some, subst, suc, zero, ℕ, ◌+◌, ◌<◌, ◌==◌, ◌∷◌, ◌≡◌, ◌≢◌, ◌≤◌, ◌⊎◌, Option-cases, true,
}
use jos_kernel.Fds.{
  Dev, Mapping, Space, close, close_all, close_dev, close_fd, close_loop, data_page, dev_of,
  fd_alloc, fd_alloc_loop, fd_close, fd_lookup, fd_of, find_dev, is_some, maxfd, page_unmap,
}
use jos_kernel.Serv.{Fd}

-- What a device may do when a descriptor is closed: it changes no page but those of the descriptor, and it
-- maps none.
pub record IsClose (f : ℕ → Space → ℕ × Space) : Type 0 where
  pub others : (fd j : ℕ) (s : Space) → j ≢ fd → j ≢ data_page fd → (f fd s).1.pages j ≡ s.pages j
  pub maps_none : (fd j : ℕ) (s : Space) → s.pages j ≡ none → (f fd s).1.pages j ≡ none

abbrev pub ClosesWell : Option (ℕ → Space → ℕ × Space) → Type 0
ClosesWell none = Unit {0}
ClosesWell (some f) = IsClose f

abbrev pub Devices : List Dev → Type 0
Devices [] = Unit {0}
Devices (dev ∷ devs) = ClosesWell dev.dev_close × Devices devs

-- fd_alloc returns the first of the 32 descriptors whose page is not mapped, which fd_lookup refuses, and
-- -E_MAX_OPEN exactly if all are mapped.
pub fd_alloc_lem :
    (s : Space)
    → ((i : ℕ) × (fd_alloc s ≡ some i)
        × (i < maxfd)
        × (fd_lookup i s ≡ none)
        × ((j : ℕ) → j < i → fd_lookup j s ≡ some j))
      ⊎ ((fd_alloc s ≡ none) × ((j : ℕ) → j < maxfd → fd_lookup j s ≡ some j))
unfolding fd_alloc fd_alloc_loop fd_lookup
fd_alloc_lem s = go maxfd 0 refl (λ j low. absurd (omega arith))
  where
    go :
        (n i : ℕ)
        → i + n ≡ maxfd
        → ((j : ℕ) → j < i → fd_lookup j s ≡ some j)
        → ((k : ℕ) × (fd_alloc_loop n i s ≡ some k)
            × (k < maxfd)
            × (fd_lookup k s ≡ none)
            × ((j : ℕ) → j < k → fd_lookup j s ≡ some j))
          ⊎ ((fd_alloc_loop n i s ≡ none) × ((j : ℕ) → j < maxfd → fd_lookup j s ≡ some j))
    go zero i e before = inr (refl, λ j low. before j (omega arith))
    go (suc n) i e before =
        let in_table = lt→leb maxfd i (omega arith) in
        elim (Bool-cases (is_some (s.pages i))) [
          | inr free ↦ inl (i, rw free refl, omega arith, rw (in_table, free) refl, before)
          | inl mapped ↦ rw mapped (
              go n (i + 1) (omega arith) (λ j low. elim (lt-or-le j i) [
                | inl earlier ↦ before j earlier
                | inr at_i ↦
                    let q : i ≡ j = omega arith in
                    subst (λ k. fd_lookup k s ≡ some k) q (rw (in_table, mapped) refl)
              ]))
        ]

pub fd_lookup-cases :
    (i : ℕ) (s : Space)
    → ((fd_lookup i s ≡ none) × (i < maxfd → s.pages i ≡ none))
      ⊎ ((fd_lookup i s ≡ some i) × (i < maxfd) × (m : Mapping) × (s.pages i ≡ some m))
unfolding fd_lookup
fd_lookup-cases i s = elim (lt-or-le i maxfd) [
  | inr beyond ↦
      let out : leb maxfd i ≡ true = ground arith in inl (rw out refl, λ low. absurd (omega arith))
  | inl low ↦
      let within = lt→leb maxfd i low in
      elim (Option-cases (s.pages i)) [
        | inl free ↦ inl (rw (within, free) refl, λ _. free)
        | inr (m, e) ↦ inr (rw (within, e) refl, low, m, e)
      ]
]

module _ (devtab : List Dev) (ok : Devices devtab) where
  found-ClosesWell :
      (devs : List Dev)
      → Devices devs
      → (id fd : ℕ) (s : Space)
      → ((j : ℕ)
          → j ≢ fd
          → j ≢ data_page fd
          → (close_dev (find_dev devs id) fd s).1.pages j ≡ s.pages j)
        × ((j : ℕ) → s.pages j ≡ none → (close_dev (find_dev devs id) fd s).1.pages j ≡ none)
  found-ClosesWell [] h id fd s = (λ j a b. refl, λ j e. e)
  found-ClosesWell (dev ∷ devs) (h, hs) id fd s = elim (Bool-cases (dev.dev_id == id)) [
    | inr other ↦ rw other (found-ClosesWell devs hs id fd s)
    | inl this ↦ rw this (go dev.dev_close h)
  ]
    where
      go :
          (c : Option (ℕ → Space → ℕ × Space))
          → ClosesWell c
          → ((j : ℕ)
              → j ≢ fd
              → j ≢ data_page fd
              → (close_dev (some (record { dev_id = dev.dev_id; dev_close = c })) fd s).1.pages j
                ≡ s.pages j)
            × ((j : ℕ)
                → s.pages j ≡ none
                → (close_dev (some (record { dev_id = dev.dev_id; dev_close = c })) fd s).1.pages j
                  ≡ none)
      go none w = (λ j a b. refl, λ j e. e)
      go (some f) w = (λ j a b. w.others fd j s a b, λ j e. w.maps_none fd j s e)

  -- What close leaves of the pages.
  pub record Closed (i : ℕ) (s t : Space) : Type 0 where
    pub others : (j : ℕ) → j ≢ i → j ≢ data_page i → t.pages j ≡ s.pages j
    pub maps_none : (j : ℕ) → s.pages j ≡ none → t.pages j ≡ none
    pub gone : i < maxfd → t.pages i ≡ none

  close_fd-Closed : (i : ℕ) (s : Space) → Closed i s (close_fd devtab i s).1
  unfolding close_fd
  close_fd-Closed i s = go (fd_of (s.pages i) s)
    where
      go : (fd : Option Fd) → Closed i s (page_unmap i (close_dev (dev_of devtab fd) i s).1)
      go none = record {
        others = λ j a b. let ne = ==_ne j i a in rw ne refl;
        maps_none =
            λ j e. elim (Bool-cases (j == i)) [ inl here ↦ rw here refl | inr other ↦ rw other e ];
        gone = λ low. let here = ==_self i in rw here refl;
      }
      go (some fd) =
          let (others, maps_none) = found-ClosesWell devtab ok fd.fd_dev_id i s in
          record {
            others = λ j a b. let ne = ==_ne j i a in rw ne (others j a b);
            maps_none = λ j e. elim (Bool-cases (j == i)) [
              | inl here ↦ rw here refl
              | inr other ↦ rw other (maps_none j e)
            ];
            gone = λ low. let here = ==_self i in rw here refl;
          }

  pub close-Closed : (i : ℕ) (s : Space) → Closed i s (close devtab i s).1
  unfolding close fd_close
  close-Closed i s = elim (fd_lookup-cases i s) [
    | inl (e, free) ↦
        rw (close, e) (record { others = λ j a b. refl; maps_none = λ j q. q; gone = free })
    | inr (e, _, _, _) ↦ rw (close, e) (rw (fd_close, e) (close_fd-Closed i s))
  ]

  close_loop-gone :
      (n i : ℕ) (s : Space)
      → i + n ≤ maxfd
      → ((j : ℕ) → s.pages j ≡ none → (close_loop devtab n i s).pages j ≡ none)
        × ((j : ℕ) → i ≤ j → j < i + n → (close_loop devtab n i s).pages j ≡ none)
  unfolding close_loop
  close_loop-gone zero i s low = (λ j e. e, λ j a b. absurd (omega arith))
  close_loop-gone (suc n) i s low =
      let c = close-Closed i s in
      let (stays, range) = close_loop-gone n (i + 1) (close devtab i s).1 (omega arith) in
      (
        λ j e. stays j (c.maps_none j e),
        λ j a b. elim (lt-or-le i j) [
          | inl later ↦ range j (omega arith) (omega arith)
          | inr at_i ↦
              let q : i ≡ j = omega arith in
              subst (λ k. (close_loop devtab n (i + 1) (close devtab i s).1).pages k ≡ none) q
                (stays i (c.gone (omega arith)))
        ],
      )

  -- If the devices change no page but those of the descriptor that is closed, and map none, no descriptor is
  -- open after close_all, and the next fd_alloc returns descriptor 0.
  pub close_all_lem :
      (s : Space)
      → ((fdnum : ℕ) → fd_lookup fdnum (close_all devtab s) ≡ none)
        × (fd_alloc (close_all devtab s) ≡ some 0)
  unfolding close_all fd_lookup fd_alloc fd_alloc_loop
  close_all_lem s =
      let (_, range) = close_loop-gone maxfd 0 s (omega arith) in
      (
        λ fdnum. elim (Bool-cases (leb maxfd fdnum)) [
          | inl beyond ↦ rw beyond refl
          | inr within ↦
              let gone = range fdnum (omega arith) (ground arith) in rw (within, gone) refl
        ],
        let gone = range 0 (omega arith) (omega arith) in rw gone refl,
      )
