-- ===== src/Fork/Faults.antt =====
-- A store to a page that is not writable.
use jos_kernel.Base.{
  ==_iff, ==_ne, ==_self, Bool-cases, List, ap, false, inl, inr, refl, some, sym, update, ℕ, ◌==◌,
  ◌∙◌, ◌∷◌, ◌≡◌, ◌≢◌, ◌⊎◌,
}
use jos_kernel.Fork.{
  Pte, World, copy_frame, has_bits, pgfault, poke_after, poke_byte, poke_page, put_page, store_at,
}
use jos_kernel.Kernel.Layout.{pte_w}

-- The world after pgfault and the store.
abbrev pub stored_copy : ℕ → ℕ → ℕ → ℕ → Pte → ℕ → List ℕ → World → World
stored_copy e pn o v pte f fs w = poke_byte f o v (
    put_page e pn (some (record { frame = f; perm = 7 }))
      (record w { mem = update w.mem f (w.mem pte.frame); free = fs }))

pub store_at-stored_copy :
    (e pn o v f : ℕ) (fs : List ℕ) (pte : Pte) (w : World)
    → has_bits pte_w pte.perm ≡ false
    → w.map_fails e pn ≡ false
    → w.free ≡ f ∷ fs
    → store_at e pn o v pte w ≡ some (stored_copy e pn o v pte f fs w)
unfolding store_at pgfault
store_at-stored_copy e pn o v f fs pte w reads works free =
    let he = ==_self e in
    let hp = ==_self pn in
    rw (store_at, reads)
      (ap (λ l. poke_after e pn o v (copy_frame e pn pte l w)) free
        ∙ (rw works (rw (poke_page, he, hp) refl)))

pub stored_copy-elsewhere :
    (e pn o v f : ℕ) (fs : List ℕ) (pte : Pte) (w : World) (a j : ℕ)
    → (a ≢ e) ⊎ (j ≢ pn)
    → (stored_copy e pn o v pte f fs w).pages a j ≡ w.pages a j
stored_copy-elsewhere e pn o v f fs pte w a j (inl far) = let z = ==_ne a e far in rw z refl
stored_copy-elsewhere e pn o v f fs pte w a j (inr far) =
    let z = ==_ne j pn far in
    elim (Bool-cases (a == e)) [
      | inr other ↦ rw other refl
      | inl here ↦
          let q : a ≡ e = (==_iff a e).0 here in rw (here, z) (ap (λ k. w.pages k j) (sym q))
    ]

-- A store to a page that is not writable, whatever its other flags, succeeds if there is a free frame: the
-- page is then that frame, writable, with the bytes that the program saw and the one that it stored. No
-- other page of any environment, and no other frame, changes.
pub store_at-copies :
    (e pn o v f : ℕ) (fs : List ℕ) (pte : Pte) (w : World)
    → has_bits pte_w pte.perm ≡ false
    → w.map_fails e pn ≡ false
    → w.free ≡ f ∷ fs
    → (u : World) × (store_at e pn o v pte w ≡ some u)
      × (u.pages e pn ≡ some (record { frame = f; perm = 7 }))
      × (u.mem f o ≡ v)
      × ((k : ℕ) → k ≢ o → u.mem f k ≡ w.mem pte.frame k)
      × ((a j : ℕ) → (a ≢ e) ⊎ (j ≢ pn) → u.pages a j ≡ w.pages a j)
      × ((g : ℕ) → g ≢ f → u.mem g ≡ w.mem g)
store_at-copies e pn o v f fs pte w reads works free =
    let he = ==_self e in
    let hp = ==_self pn in
    let hf = ==_self f in
    let ho = ==_self o in
    (
      stored_copy e pn o v pte f fs w,
      store_at-stored_copy e pn o v f fs pte w reads works free,
      rw (he, hp) refl,
      rw (hf, ho) refl,
      λ k far. let z = ==_ne k o far in rw (hf, z) refl,
      λ a j far. stored_copy-elsewhere e pn o v f fs pte w a j far,
      λ g far. let z = ==_ne g f far in rw (z) refl,
    )
