-- ===== src/Fork/Separate.antt =====
-- Stores after fork: each environment has a memory of its own.
use jos_kernel.Base.{
  Bool, List, Option, [], arith, false, if◌then◌else◌, length, none, refl, some, suc, true, ℕ, ◌&&◌,
  ◌==◌, ◌∷◌, ◌≡◌, ◌≢◌, ◌≤◌, ==_false, ==_iff, Bool-cases, ap, inl, inr, subst, sym, ◌∙◌, ==_ne,
  ==_self, ◌⊎◌,
}
use jos_kernel.Fork.{Pte, World, has_bits, poke_byte, pte_share, store_at}
use jos_kernel.Fork.Faults.{stored_copy, stored_copy-elsewhere, store_at-stored_copy}
use jos_kernel.Kernel.Layout.{pte_w}

-- A store of a byte by the environment `env`.
pub record Store : Type 0 where
  pub env : ℕ
  pub page : ℕ
  pub offset : ℕ
  pub value : ℕ

abbrev pub is_at : Store → ℕ → ℕ → ℕ → Bool
is_at st b k i = b == st.env && (k == st.page && i == st.offset)

-- Memories of their own: a store changes one byte of one page of one environment.
abbrev pub separate : List Store → (ℕ → ℕ → ℕ → ℕ) → ℕ → ℕ → ℕ → ℕ
separate [] m = m
separate (st ∷ l) m = separate l (λ b k i. if is_at st b k i then st.value else m b k i)

abbrev pub perform_at : Option Pte → Store → World → Option World
perform_at none st w = none
perform_at (some pte) st w = store_at st.env st.page st.offset st.value pte w

abbrev pub perform : Store → World → Option World
perform st w = perform_at (w.pages st.env st.page) st w

abbrev pub then_perform : (World → Option World) → Option World → Option World
then_perform f none = none
then_perform f (some w) = f w

-- The stores one after the other, as the hardware and pgfault do them.
pub perform_all : List Store → World → Option World
perform_all [] w = some w
perform_all (st ∷ l) w = then_perform (perform_all l) (perform st w)

-- What the programs see of the memory.
abbrev pub Shows : World → (ℕ → ℕ → ℕ → ℕ) → Type 0
Shows w m = (b k i : ℕ) (q : Pte) → w.pages b k ≡ some q → w.mem q.frame i ≡ m b k i

abbrev pub NotIn : ℕ → List ℕ → Type 0
NotIn f [] = Unit {0}
NotIn f (g ∷ gs) = (f ≢ g) × NotIn f gs

abbrev pub Unmapped : ℕ → (ℕ → ℕ → Option Pte) → Type 0
Unmapped f pages = (b k : ℕ) (q : Pte) → pages b k ≡ some q → q.frame ≢ f

abbrev pub Fresh : List ℕ → (ℕ → ℕ → Option Pte) → Type 0
Fresh [] pages = Unit {0}
Fresh (f ∷ fs) pages = Unmapped f pages × NotIn f fs × Fresh fs pages

-- No page has the frame of a page that may be written without a fault, but for shared ones; the free
-- frames are different, and no page has them.
pub record Apart (w : World) : Type 0 where
  pub alone :
      (a j b k : ℕ) (p q : Pte)
      → w.pages a j ≡ some p
      → has_bits pte_w p.perm ≡ true
      → has_bits pte_share p.perm ≡ false
      → w.pages b k ≡ some q
      → q.frame ≡ p.frame
      → (b ≡ a) × (k ≡ j)
  pub fresh : Fresh w.free w.pages

-- The page may be stored to, and is not shared.
abbrev pub IsOwn : World → Store → Type 0
IsOwn w st = (p : Pte) × (w.pages st.env st.page ≡ some p) × (has_bits pte_share p.perm ≡ false)

abbrev pub AreOwn : World → List Store → Type 0
AreOwn w [] = Unit {0}
AreOwn w (st ∷ l) = IsOwn w st × AreOwn w l

-- A page is there.
abbrev pub IsMapped : World → ℕ → ℕ → Type 0
IsMapped w b k = (q : Pte) × (w.pages b k ≡ some q)

-- What a store leaves.
record Performed (st : Store) (w u : World) : Type 0 where
  apart : Apart u
  shows :
      (m : ℕ → ℕ → ℕ → ℕ)
      → Shows w m
      → Shows u (λ b k i. if is_at st b k i then st.value else m b k i)
  own : (st' : Store) → IsOwn w st' → IsOwn u st'
  mapped : (b k : ℕ) → IsMapped w b k → IsMapped u b k
  frames : length w.free ≤ suc (length u.free)
  fails : u.map_fails ≡ w.map_fails

pub some_pte : {p q : Pte} → some p ≡ some q → p ≡ q
some_pte e = cc

is_at-other : (st : Store) (b k i : ℕ) → ¬ ((b ≡ st.env) × (k ≡ st.page)) → is_at st b k i ≡ false
is_at-other st b k i other = elim (Bool-cases (b == st.env)) [
  | inr apart ↦ rw apart refl
  | inl same_env ↦ elim (Bool-cases (k == st.page)) [
    | inr apart ↦ rw (same_env, apart) refl
    | inl same_page ↦ absurd (other ((==_iff b st.env).0 same_env, (==_iff k st.page).0 same_page))
  ]
]

is_at-same : (st : Store) (b k i : ℕ) → b ≡ st.env → k ≡ st.page → is_at st b k i ≡ (i == st.offset)
is_at-same st b k i e q = rw ((==_iff b st.env).1 e, (==_iff k st.page).1 q) refl

module _ (st : Store) (w : World) (v : Apart w) (p : Pte)
    (at_page : w.pages st.env st.page ≡ some p) (own : has_bits pte_share p.perm ≡ false) where
  -- An entry of the page is `p`.
  entry_p : (b k : ℕ) (q : Pte) → w.pages b k ≡ some q → b ≡ st.env → k ≡ st.page → q ≡ p
  entry_p b k q e x y =
      let e' = subst (λ z. w.pages z k ≡ some q) x e in
      let e'' = subst (λ z. w.pages st.env z ≡ some q) y e' in some_pte (sym e'' ∙ at_page)

  -- The page is writable.
  written : has_bits pte_w p.perm ≡ true → Performed st w (poke_byte p.frame st.offset st.value w)
  written writable = record {
    apart = record { alone = v.alone; fresh = v.fresh };
    shows = λ m h b k i q e. elim (Bool-cases (q.frame == p.frame)) [
      | inl same ↦
          let f : q.frame ≡ p.frame = (==_iff q.frame p.frame).0 same in
          let (x, y) = v.alone st.env st.page b k p q at_page writable own e f in
          let there = is_at-same st b k i x y in
          rw (same, there)
            (elim (Bool-cases (i == st.offset)) [
              | inl here ↦ rw here refl
              | inr other ↦ rw other (ap (λ z. w.mem z i) (sym f) ∙ h b k i q e)
            ])
      | inr apart ↦
          let other =
            is_at-other st b k i (λ (x, y).
              ==_false q.frame p.frame apart (ap (λ z. z.frame) (entry_p b k q e x y))) in
          rw (apart, other) (h b k i q e)
    ];
    own = λ st' h. h;
    mapped = λ b k h. h;
    frames = omega arith;
    fails = refl;
  }

  module _ (f : ℕ) (fs : List ℕ) (free : w.free ≡ f ∷ fs) where
    abbrev after_copy : World
    after_copy = stored_copy st.env st.page st.offset st.value p f fs w

    Fresh-f : Fresh (f ∷ fs) w.pages
    Fresh-f = subst (λ l. Fresh l w.pages) free v.fresh

    -- An entry after the store is the new one, or one of before.
    entry_after :
        (b k : ℕ) (q : Pte)
        → after_copy.pages b k ≡ some q
        → ((b ≡ st.env) × (k ≡ st.page) × (q ≡ record { frame = f; perm = 7 }))
          ⊎ (¬ ((b ≡ st.env) × (k ≡ st.page)) × (w.pages b k ≡ some q))
    entry_after b k q e = elim (Bool-cases (b == st.env)) [
      | inr far ↦
          let ne = ==_false b st.env far in
          inr (
            λ (x, y). ne x,
            sym (stored_copy-elsewhere st.env st.page st.offset st.value f fs p w b k (inl ne)) ∙ e,
          )
      | inl same_env ↦ elim (Bool-cases (k == st.page)) [
        | inr far ↦
            let ne = ==_false k st.page far in
            inr (
              λ (x, y). ne y,
              sym (stored_copy-elsewhere st.env st.page st.offset st.value f fs p w b k (inr ne))
                  ∙ e,
            )
        | inl same_page ↦
            let here : after_copy.pages b k ≡ some (record { frame = f; perm = 7 }) =
              rw (same_env, same_page) refl in
            inl (
              (==_iff b st.env).0 same_env,
              (==_iff k st.page).0 same_page,
              some_pte (sym e ∙ here),
            )
      ]
    ]

    Fresh-after : (gs : List ℕ) → NotIn f gs → Fresh gs w.pages → Fresh gs after_copy.pages
    Fresh-after [] n h = tt
    Fresh-after (g ∷ gs) (ne, n) (unmapped, out, h) = (
      λ b k q e. elim (entry_after b k q e) [
        | inl (x, y, z) ↦ λ same. ne (ap (λ t. t.frame) (sym z) ∙ same)
        | inr (other, old) ↦ unmapped b k q old
      ],
      out,
      Fresh-after gs n h,
    )

    alone_after :
        (a j b k : ℕ) (r q : Pte)
        → after_copy.pages a j ≡ some r
        → has_bits pte_w r.perm ≡ true
        → has_bits pte_share r.perm ≡ false
        → after_copy.pages b k ≡ some q
        → q.frame ≡ r.frame
        → (b ≡ a) × (k ≡ j)
    alone_after a j b k r q er wr sr eq same =
        let (unmapped, _, _) = Fresh-f in
        elim (entry_after a j r er) [
          | inl (x, y, z) ↦ elim (entry_after b k q eq) [
            | inl (x', y', _) ↦ (x' ∙ sym x, y' ∙ sym y)
            | inr (_, old) ↦ absurd (unmapped b k q old (same ∙ ap (λ t. t.frame) z))
          ]
          | inr (_, old) ↦ elim (entry_after b k q eq) [
            | inl (_, _, z') ↦ absurd (unmapped a j r old (sym same ∙ ap (λ t. t.frame) z'))
            | inr (_, old') ↦ v.alone a j b k r q old wr sr old' same
          ]
        ]

    copied : has_bits pte_w p.perm ≡ false → Performed st w after_copy
    copied reads = record {
      apart = record { alone = alone_after; fresh = Fresh-after fs Fresh-f.1 Fresh-f.2 };
      shows = λ m h b k i q e. elim (entry_after b k q e) [
        | inl (x, y, z) ↦
            let there = is_at-same st b k i x y in
            let frame_f : q.frame ≡ f = ap (λ t. t.frame) z in
            let here = (==_iff q.frame f).1 frame_f in
            let old = subst (λ t. w.pages t st.page ≡ some p) (sym x) at_page in
            let old' = subst (λ t. w.pages b t ≡ some p) (sym y) old in
            rw (here, there)
              (elim (Bool-cases (i == st.offset)) [
                | inl this ↦ rw this refl
                | inr other ↦ rw other (rw (==_self f) (h b k i p old'))
              ])
        | inr (other, old) ↦
            let far = ==_ne q.frame f (Fresh-f.0 b k q old) in
            let not_there = is_at-other st b k i other in rw (far, not_there) (h b k i q old)
      ];
      own = λ st' (q, e, sh). own_after st' q e sh;
      mapped = λ b k (q, e). mapped_after b k q e;
      frames = omega (arith, ap length free);
      fails = refl;
    }
      where
        mapped_after : (b k : ℕ) (q : Pte) → w.pages b k ≡ some q → IsMapped after_copy b k
        mapped_after b k q e = elim (Bool-cases (b == st.env)) [
          | inr far ↦ (
            q,
            stored_copy-elsewhere st.env st.page st.offset st.value f fs p w b k
                  (inl (==_false b st.env far))
                ∙ e,
          )
          | inl same_env ↦ elim (Bool-cases (k == st.page)) [
            | inr far ↦ (
              q,
              stored_copy-elsewhere st.env st.page st.offset st.value f fs p w b k
                    (inr (==_false k st.page far))
                  ∙ e,
            )
            | inl same_page ↦ (record { frame = f; perm = 7 }, rw (same_env, same_page) refl)
          ]
        ]

        own_after :
            (st' : Store) (q : Pte)
            → w.pages st'.env st'.page ≡ some q
            → has_bits pte_share q.perm ≡ false
            → IsOwn after_copy st'
        own_after st' q e sh = elim (Bool-cases (st'.env == st.env)) [
          | inr far ↦ (
            q,
            stored_copy-elsewhere st.env st.page st.offset st.value f fs p w st'.env st'.page
                  (inl (==_false st'.env st.env far))
                ∙ e,
            sh,
          )
          | inl same_env ↦ elim (Bool-cases (st'.page == st.page)) [
            | inr far ↦ (
              q,
              stored_copy-elsewhere st.env st.page st.offset st.value f fs p w st'.env st'.page
                    (inr (==_false st'.page st.page far))
                  ∙ e,
              sh,
            )
            | inl same_page ↦ (record { frame = f; perm = 7 }, rw (same_env, same_page) refl, refl)
          ]
        ]

perform-Performed :
    (st : Store) (w : World)
    → Apart w
    → IsOwn w st
    → ((a j : ℕ) → w.map_fails a j ≡ false)
    → 1 ≤ length w.free
    → (u : World) × (perform st w ≡ some u) × Performed st w u
unfolding store_at
perform-Performed st w v (p, at_page, own) works enough =
    elim (Bool-cases (has_bits pte_w p.perm)) [
      | inl writable ↦ (
        poke_byte p.frame st.offset st.value w,
        rw at_page (rw writable refl),
        written st w v p at_page own writable,
      )
      | inr reads ↦ go w.free refl reads enough
    ]
  where
    go :
        (l : List ℕ)
        → w.free ≡ l
        → has_bits pte_w p.perm ≡ false
        → 1 ≤ length l
        → (u : World) × (perform st w ≡ some u) × Performed st w u
    go [] e reads one = absurd (omega arith)
    go (f ∷ fs) e reads one = (
      after_copy st w v p at_page own f fs e,
      rw at_page (
          store_at-stored_copy st.env st.page st.offset st.value f fs p w reads
            (works st.env st.page) e),
      copied st w v p at_page own f fs e reads,
    )

AreOwn-Performed :
    (l : List Store) (st : Store) (w u : World) → Performed st w u → AreOwn w l → AreOwn u l
AreOwn-Performed [] st w u v h = tt
AreOwn-Performed (st' ∷ l) st w u v (own, h) = (v.own st' own, AreOwn-Performed l st w u v h)

-- Stores to pages that are not shared, and no more of them than there are free frames, succeed; the
-- programs then have their pages, and see what they would see if each environment had a memory of its own.
pub perform_all-separate :
    (l : List Store) (w : World) (m : ℕ → ℕ → ℕ → ℕ)
    → Apart w
    → AreOwn w l
    → ((a j : ℕ) → w.map_fails a j ≡ false)
    → length l ≤ length w.free
    → Shows w m
    → (u : World) × (perform_all l w ≡ some u)
      × ((b k : ℕ) → IsMapped w b k → IsMapped u b k)
      × Shows u (separate l m)
unfolding perform_all
perform_all-separate [] w m v own works enough h = (w, refl, λ b k h. h, h)
perform_all-separate (st ∷ l) w m v (o, own) works enough h =
    let (x, e, d) = perform-Performed st w v o works (omega (arith, enough)) in
    let (u, e', kept, s) =
      perform_all-separate l x (λ b k i. if is_at st b k i then st.value else m b k i) d.apart
        (AreOwn-Performed l st w x d own) (λ a j. ap (λ g. g a j) d.fails ∙ works a j)
        (omega (arith, d.frames, enough)) (d.shows m h) in
    (u, ap (then_perform (perform_all l)) e ∙ e', λ b k h. kept b k (d.mapped b k h), s)
