-- ===== src/Fds/Dup.antt =====
-- What dup makes of two descriptors.
use jos_kernel.Base.{
  ==_ne, ==_self, Option, Option-cases, ap, arith, bit_and, inl, inr, none, refl, some, sym, update,
  ℕ, ◌<◌, ◌∙◌, ◌≡◌, ◌≢◌, true, ==_false, ==_iff, Bool-cases, List, lt→leb, subst, ◌==◌, ◌⊎◌,
}
use jos_kernel.Fds.{
  Mapping, Space, data_page, dup_fd, dup_pages, maxfd, page_map, dup_failed, is_some, Dev, close,
  dup, fd_lookup,
}
use jos_kernel.Fds.Laws.{Devices, close-Closed, fd_lookup-cases}
use jos_kernel.Kernel.Layout.{pte_syscall}
use jos_kernel.Serv.{e_inval, negative}

-- The mapping that page_map makes of another.
abbrev pub copied : Mapping → Mapping
copied m = record { frame = m.frame; perm = bit_and m.perm pte_syscall }

abbrev pub copied_data : Option Mapping → Option Mapping → Option Mapping
copied_data none new = new
copied_data (some m) new = some (copied m)

-- The pages after dup has succeeded.
pub record Duplicated (old new : ℕ) (s t : Space) : Type 0 where
  pub same_fd : (m : Mapping) → s.pages old ≡ some m → t.pages new ≡ some (copied m)
  pub same_data :
      (m : Mapping) → s.pages (data_page old) ≡ some m → t.pages (data_page new) ≡ some (copied m)
  pub others : (j : ℕ) → j ≢ new → j ≢ data_page new → t.pages j ≡ s.pages j

-- page_map of a page that is mapped.
abbrev mapped_at : ℕ → Mapping → Space → Space
mapped_at dst m s = record s { pages = update s.pages dst (some (copied m)) }

page_map-mapped :
    (src dst : ℕ) (m : Mapping) (s : Space)
    → s.pages src ≡ some m
    → page_map src dst s ≡ some (mapped_at dst m s)
page_map-mapped src dst m s e = rw (page_map, e) refl

dup_pages-both :
    (old new : ℕ) (t t' : Space)
    → page_map (data_page old) (data_page new) t ≡ some t'
    → is_some (t.pages (data_page old)) ≡ true
    → dup_pages old new t ≡ dup_fd old new t'
unfolding dup_pages
dup_pages-both old new t t' c there = rw (dup_pages, there) (ap after_data c)
  where
    after_data : Option Space → ℕ × Space
    after_data r = elim r [ none ↦ dup_failed new t | some u ↦ dup_fd old new u ]

module _ (old new : ℕ) (low_old : old < maxfd) (low_new : new < maxfd) (ne : old ≢ new) where
  dup_fd-Duplicated :
      (m : Mapping) (s t : Space)
      → s.pages old ≡ some m
      → t.pages old ≡ some m
      → ((d : Mapping)
          → s.pages (data_page old) ≡ some d
          → t.pages (data_page new) ≡ some (copied d))
      → ((j : ℕ) → j ≢ new → j ≢ data_page new → t.pages j ≡ s.pages j)
      → (dup_fd old new t ≡ (new, mapped_at new m t)) × Duplicated old new s (mapped_at new m t)
  dup_fd-Duplicated m s t e e' with_data others = (
    rw (dup_fd, e') refl,
    record {
      same_fd = λ m' q. let here = ==_self new in rw here (ap (λ x. copied_fd x) (sym e ∙ q));
      same_data = λ d q.
          let other = ==_ne (data_page new) new (λ z. omega (arith, z)) in rw other (with_data d q);
      others = λ j a b. let other = ==_ne j new a in rw other (others j a b);
    },
  )
    where
      copied_fd : Option Mapping → Option Mapping
      copied_fd none = none
      copied_fd (some x) = some (copied x)

  dup_pages-Duplicated :
      (m : Mapping) (s t : Space)
      → s.pages old ≡ some m
      → ((j : ℕ) → j ≢ new → j ≢ data_page new → t.pages j ≡ s.pages j)
      → (u : Space) × (dup_pages old new t ≡ (new, u)) × Duplicated old new s u
  unfolding dup_pages
  dup_pages-Duplicated m s t e others =
      let old_there : t.pages old ≡ some m = others old ne (λ z. omega (arith, z)) ∙ e in
      let old_data : t.pages (data_page old) ≡ s.pages (data_page old) =
        others (data_page old) (λ z. omega (arith, z)) (λ z. ne (omega (arith, z))) in
      elim (Option-cases (s.pages (data_page old))) [
        | inl none_there ↦
            let q = old_data ∙ none_there in
            let (r, v) =
              dup_fd-Duplicated m s t e old_there (λ d z. absurd (none_some (sym none_there ∙ z)))
                others in
            (mapped_at new m t, rw (dup_pages, q) r, v)
        | inr (d, there) ↦
            let q = old_data ∙ there in
            let t' : Space = mapped_at (data_page new) d t in
            let other = ==_ne old (data_page new) (λ z. omega (arith, z)) in
            let here = ==_self (data_page new) in
            let old_there' : t'.pages old ≡ some m = rw other old_there in
            let (r, v) =
              dup_fd-Duplicated m s t' e old_there'
                (λ d' z. rw here (ap copied_option (sym there ∙ z)))
                (λ j a b. let apart = ==_ne j (data_page new) b in rw apart (others j a b)) in
            let c = page_map-mapped (data_page old) (data_page new) d t q in
            (mapped_at new m t', dup_pages-both old new t t' c (ap is_some q) ∙ r, v)
      ]
    where
      none_some : {x : Mapping} → none ≡ some x → ⊥
      none_some z = absurd cc

      copied_option : Option Mapping → Option Mapping
      copied_option none = none
      copied_option (some x) = some (copied x)

dup_failed-closed : (i : ℕ) (t : Space) → i < maxfd → fd_lookup i (dup_failed i t).1 ≡ none
unfolding fd_lookup
dup_failed-closed i t low =
    let within = lt→leb maxfd i low in
    let other = ==_ne i (data_page i) (λ z. omega (arith, z)) in
    let here = ==_self i in rw within (rw other (rw here refl))

-- On a descriptor that is closed.
dup_pages-closed :
    (i : ℕ) (t : Space)
    → i < maxfd
    → t.pages i ≡ none
    → (u : Space) × (dup_pages i i t ≡ (negative e_inval, u)) × (fd_lookup i u ≡ none)
unfolding dup_pages
dup_pages-closed i t low free = elim (Option-cases (t.pages (data_page i))) [
  | inl no_data ↦ (
    (dup_failed i t).1,
    rw (dup_pages, no_data) (rw (dup_fd, free) refl),
    dup_failed-closed i t low,
  )
  | inr (d, e) ↦
      let u : Space = mapped_at (data_page i) d t in
      let other = ==_ne i (data_page i) (λ z. omega (arith, z)) in
      let c = page_map-mapped (data_page i) (data_page i) d t e in
      (
        (dup_failed i u).1,
        dup_pages-both i i t u c (ap is_some e) ∙ (rw (dup_fd, other) (rw (dup_fd, free) refl)),
        dup_failed-closed i u low,
      )
]

-- dup, for devices that change no page but those of the descriptor that is closed, and map none. A
-- descriptor that is not open is refused, and nothing changes. From an open one to another, dup returns
-- the number of the other, which has then the same Fd page and, if there is one, the same data page,
-- and no further page changes. From a descriptor to itself dup fails with -E_INVAL, and the descriptor is
-- closed.
pub dup_lem :
    (devtab : List Dev) (old new : ℕ) (s : Space)
    → Devices devtab
    → new < maxfd
    → ((fd_lookup old s ≡ none) × (dup devtab old new s ≡ (negative e_inval, s)))
      ⊎ ((old ≢ new) × (t : Space) × (dup devtab old new s ≡ (new, t)) × Duplicated old new s t)
      ⊎ ((old ≡ new)
          × (t : Space) × (dup devtab old new s ≡ (negative e_inval, t))
          × (fd_lookup old t ≡ none))
unfolding dup
dup_lem devtab old new s ok low_new = elim (fd_lookup-cases old s) [
  | inl (e, _) ↦ inl (e, rw (dup, e) refl)
  | inr (e, low_old, m, mapped) ↦
      let c = close-Closed devtab ok new s in
      let t : Space = (close devtab new s).1 in
      elim (Bool-cases (old == new)) [
        | inr apart ↦
            let ne = ==_false old new apart in
            let (u, r, v) = dup_pages-Duplicated old new low_old low_new ne m s t mapped c.others in
            inr (inl (ne, u, rw (dup, e) r, v))
        | inl same_one ↦
            let q : old ≡ new = (==_iff old new).0 same_one in
            let free = subst (λ k. t.pages k ≡ none) (sym q) (c.gone low_new) in
            let (u, r, v) = dup_pages-closed old t low_old free in
            let r' = subst (λ k. dup_pages old k t ≡ (negative e_inval, u)) q r in
            inr (inr (q, u, rw (dup, e) r', v))
      ]
]
