-- ===== src/Pmap/Space/Insert.antt =====
-- page_insert and page_remove: which translations they change.
use jos_kernel.Base.{
  ℕ, ◌+◌, ◌%◌, ◌^◌, ◌<◌, ◌≡◌, ◌≢◌, ◌⊎◌, refl, sym, ap, ◌∙◌, subst, true, false, none, some, List,
  [], ==_iff, bit_or, ◌==◌, update, arith, Bool-cases, inl, inr, ◌*◌, ◌/◌,
}
use jos_kernel.Base.Bits.{bit_or_aligned, bit_or-one}
use jos_kernel.Fs.Dir.Lookup.{entry}
use jos_kernel.Kernel.Layout.{pdx, ptx, pgnum, present, pte_p}
use jos_kernel.Kernel.Outcome.{
  ok, Returns, returned, Returns-weaken, Returns-and_then, val, err, no_mem,
}
use jos_kernel.Kernel.State.{Kernel, poke}
use jos_kernel.Pmap.Alloc.{page2pa, incref}
use jos_kernel.Pmap.Space.{user_entries, translate, IsTree}
use jos_kernel.Pmap.Space.Grow.{
  Walked, pgdir_walk-Walked, pgdir_walk-exhausted, poke_at, poke_other_page, poke_other_word,
  translate-congr,
}
use jos_kernel.Pmap.Space.Steps.{pde, pte, IsCounted, removed, page_remove-removed}
use jos_kernel.Pmap.Walk.{map_slot, page_insert}

-- The entry that page_insert writes.
abbrev pub new_entry : ℕ → ℕ → ℕ
new_entry pp perm = bit_or (bit_or (page2pa pp) perm) pte_p

pub new_entry-present : (pp perm : ℕ) → present (new_entry pp perm) ≡ true
new_entry-present pp perm = (==_iff _ 1).1 (omega (arith, bit_or-one (bit_or (page2pa pp) perm)))

-- With flags below 4096 the entry is the address of the page and the flags, with PTE_P.
pub new_entry_lem : (pp perm : ℕ) → perm < 4096 → new_entry pp perm ≡ pp * 4096 + (perm / 2 * 2 + 1)
new_entry_lem pp perm h =
    omega (arith, bit_or-one (bit_or (page2pa pp) perm), bit_or_aligned pp perm h)

-- It names the page, if the permissions are in the low twelve bits.
pub new_entry-pgnum : (pp perm : ℕ) → perm < 4096 → pgnum (new_entry pp perm) ≡ pp
new_entry-pgnum pp perm h =
    omega (arith, bit_or-one (bit_or (page2pa pp) perm), bit_or_aligned pp perm h)

abbrev pub incremented : ℕ → Kernel → Kernel
incremented pp k = record k {
  pages = update k.pages pp (record (k.pages pp) { pp_ref = ((k.pages pp).pp_ref + 1) % 2 ^ 16 });
}

pub incremented-IsCounted :
    (pp q : ℕ) (k : Kernel)
    → (k.pages pp).pp_ref + 1 < 2 ^ 16
    → IsCounted k q
    → IsCounted (incremented pp k) q
incremented-IsCounted pp q k small c = elim (Bool-cases (q == pp)) [
  | inl e ↦ record {
    exists = c.exists;
    positive = rw e (omega arith);
    small = rw e (omega arith);
    unlinked = rw e (subst (λ x. (k.pages x).pp_link ≡ none) ((==_iff q pp).0 e) c.unlinked);
  }
  | inr e ↦ record {
    exists = c.exists;
    positive = rw e c.positive;
    small = rw e c.small;
    unlinked = rw e c.unlinked;
  }
]

-- The state has the word `v` at (t, i), and the words of `m` elsewhere.
pub record Poked (m : ℕ → ℕ → ℕ) (t i v : ℕ) (k' : Kernel) : Type 0 where
  pub written : k'.word t i ≡ v
  pub page_kept : (q j : ℕ) → q ≢ t → k'.word q j ≡ m q j
  pub word_kept : (q j : ℕ) → j ≢ i → k'.word q j ≡ m q j

module _ (pgdir va pp perm : ℕ) (k : Kernel) where
  abbrev t : ℕ
  t = pgnum (pde pgdir va k)

  pub map_slot-unmapped :
      present (pte pgdir va k) ≡ false
      → map_slot pgdir pp va perm (t, ptx va) k
        ≡ ok
            (val 0)
            (record (incremented pp k) { word = poke k.word t (ptx va) (new_entry pp perm) })
  unfolding map_slot incref
  map_slot-unmapped a = rw a

  pub map_slot-mapped :
      present (pde pgdir va k) ≡ true
      → t < k.npages
      → present (pte pgdir va k) ≡ true
      → IsCounted (incremented pp k) (pgnum (pte pgdir va k))
      → map_slot pgdir pp va perm (t, ptx va) k
        ≡ ok (val 0) (record (removed pgdir va (incremented pp k)) {
          word = poke (poke k.word t (ptx va) 0) t (ptx va) (new_entry pp perm);
        })
  unfolding map_slot incref
  map_slot-mapped p h q c = rw q (rw (page_remove-removed pgdir va (incremented pp k) p h q c))

  -- page_insert writes the slot of `va` and no other word, whether or not a page was mapped there.
  map_slot-Poked :
      present (pde pgdir va k) ≡ true
      → t < k.npages
      → (k.pages pp).pp_ref + 1 < 2 ^ 16
      → (present (pte pgdir va k) ≡ true → IsCounted k (pgnum (pte pgdir va k)))
      → Returns
          (λ r k'. (r ≡ val 0) × Poked k.word t (ptx va) (new_entry pp perm) k')
          (map_slot pgdir pp va perm (t, ptx va) k)
  map_slot-Poked p h small c = elim (Bool-cases (present (pte pgdir va k))) [
    | inr a ↦ rw (map_slot-unmapped a) (
        returned (
          refl,
          record {
            written = poke_at k.word t (ptx va) (new_entry pp perm);
            page_kept = poke_other_page k.word t (ptx va) (new_entry pp perm);
            word_kept = poke_other_word k.word t (ptx va) (new_entry pp perm);
          },
        ))
    | inl q ↦
        let cleared = poke k.word t (ptx va) 0 in
        rw (map_slot-mapped p h q (incremented-IsCounted pp (pgnum (pte pgdir va k)) k small (c q)))
          (returned (
            refl,
            record {
              written = poke_at cleared t (ptx va) (new_entry pp perm);
              page_kept = λ q j ne.
                  poke_other_page cleared t (ptx va) (new_entry pp perm) q j ne
                  ∙ poke_other_page k.word t (ptx va) 0 q j ne;
              word_kept = λ q j ne.
                  poke_other_word cleared t (ptx va) (new_entry pp perm) q j ne
                  ∙ poke_other_word k.word t (ptx va) 0 q j ne;
            },
          ))
  ]

-- What page_insert promises of the address space.
pub record Inserted (pgdir va entry : ℕ) (k k' : Kernel) : Type 0 where
  pub mapped : translate k' pgdir va ≡ some entry
  pub others :
      (va' : ℕ)
      → pdx va' < user_entries
      → pdx va' ≢ pdx va ⊎ ptx va' ≢ ptx va
      → translate k' pgdir va' ≡ translate k pgdir va'

pub translate-none_of_pte :
    (pgdir va : ℕ) (k : Kernel) → present (pte pgdir va k) ≡ false → translate k pgdir va ≡ none
translate-none_of_pte pgdir va k b = elim (Bool-cases (present (pde pgdir va k))) [
  | inl p ↦ rw (p, b)
  | inr a ↦ rw a
]

pub translate-some :
    (pgdir va v : ℕ) (k : Kernel)
    → present (pde pgdir va k) ≡ true
    → pte pgdir va k ≡ v
    → present v ≡ true
    → translate k pgdir va ≡ some v
translate-some pgdir va v k p e q = rw (p, e, q)

module _ (pgdir va v : ℕ) (k k1 k' : Kernel) (w : Walked pgdir va (pgnum (pde pgdir va k1)) k k1)
    (m : Poked k1.word (pgnum (pde pgdir va k1)) (ptx va) v k') where
  root_kept : (j : ℕ) → k'.word pgdir j ≡ k1.word pgdir j
  root_kept j = m.page_kept pgdir j (λ e. w.not_root (sym e))

  pub others_kept :
      (va' : ℕ)
      → pdx va' < user_entries
      → pdx va' ≢ pdx va ⊎ ptx va' ≢ ptx va
      → translate k' pgdir va' ≡ translate k1 pgdir va'
  others_kept va' u' (inl ne) =
      translate-congr pgdir va' k1 k' (root_kept (pdx va'))
        λ p'. m.page_kept (pgnum (pde pgdir va' k1)) (ptx va') (w.apart va' u' ne p')
  others_kept va' u' (inr ne) =
      translate-congr pgdir va' k1 k' (root_kept (pdx va'))
        λ p'. m.word_kept (pgnum (pde pgdir va' k1)) (ptx va') ne

  pub pte_written : pte pgdir va k' ≡ v
  pte_written = ap (λ x. k'.word (pgnum x) (ptx va)) (root_kept (pdx va)) ∙ m.written

  Poked-Inserted : present v ≡ true → Inserted pgdir va v k k'
  Poked-Inserted p = record {
    mapped =
        translate-some pgdir va v k' (ap present (root_kept (pdx va)) ∙ w.is_present) pte_written p;
    others = λ va' u' ne. others_kept va' u' ne ∙ w.same va' u';
  }

-- The page that is mapped at `va`, if there is one, can be unmapped.
abbrev pub IsReplaceable : ℕ → ℕ → Kernel → Type 0
IsReplaceable pgdir va k = (e : ℕ) → translate k pgdir va ≡ some e → IsCounted k (pgnum e)

map_slot_lem :
    (pgdir va pp perm t : ℕ) (k k1 : Kernel)
    → Walked pgdir va t k k1
    → IsReplaceable pgdir va k1
    → (k1.pages pp).pp_ref + 1 < 2 ^ 16
    → Returns
        (λ r k'. (r ≡ val 0) × Inserted pgdir va (new_entry pp perm) k k')
        (map_slot pgdir pp va perm (t, ptx va) k1)
map_slot_lem pgdir va pp perm t k k1 w c small =
    let w' = subst (λ x. Walked pgdir va x k k1) (sym w.names) w in
    subst
      (λ x.
        Returns (λ r k'. (r ≡ val 0) × Inserted pgdir va (new_entry pp perm) k k')
          (map_slot pgdir pp va perm (x, ptx va) k1))
      w.names
      (Returns-weaken
        (map_slot-Poked pgdir va pp perm k1 w'.is_present w'.exists small λ q.
          c (pte pgdir va k1) (translate-some pgdir va (pte pgdir va k1) k1 w.is_present refl q))
        λ r k' (e, m).
          (e, Poked-Inserted pgdir va (new_entry pp perm) k k1 k' w' m (new_entry-present pp perm)))

pub Walked-IsCounted :
    (pgdir va : ℕ) (k k1 : Kernel) (entry t : ℕ)
    → Walked pgdir va t k k1
    → IsReplaceable pgdir va k
    → translate k pgdir va ≡ some entry
    → IsCounted k1 (pgnum entry)
Walked-IsCounted pgdir va k k1 entry t w c e =
    subst (λ x. IsCounted x (pgnum entry)) (sym (w.idle (λ n. cc))) (c entry e)

-- With a page table for `va` or a free page to make one, page_insert returns 0, maps the page at
-- `va` with the permissions and PTE_P, whatever was mapped there before, and changes the
-- translation of no other user page.
pub page_insert_lem :
    (pgdir va pp perm : ℕ) (k : Kernel) (xs : List ℕ)
    → IsTree k pgdir xs
    → pdx va < user_entries
    → present (pde pgdir va k) ≡ true ⊎ xs ≢ []
    → IsReplaceable pgdir va k
    → (k.pages pp).pp_ref + 1 < 2 ^ 16
    → Returns
        (λ r k'. (r ≡ val 0) × Inserted pgdir va (new_entry pp perm) k k')
        (page_insert pgdir pp va perm k)
unfolding page_insert
page_insert_lem pgdir va pp perm k xs tree u room c small =
    Returns-and_then (pgdir_walk-Walked pgdir va k xs tree u room) λ r k1 (t, e, w). rw e (
      map_slot_lem pgdir va pp perm t k k1 w
        (λ entry q. Walked-IsCounted pgdir va k k1 entry t w c (sym (w.same va u) ∙ q))
        (w.counts pp small))

-- With no page table and no free page page_insert returns -E_NO_MEM and changes nothing.
pub page_insert-no_mem :
    (pgdir va pp perm : ℕ) (k : Kernel)
    → IsTree k pgdir []
    → pdx va < user_entries
    → present (pde pgdir va k) ≡ false
    → page_insert pgdir pp va perm k ≡ ok (err no_mem) k
unfolding page_insert
page_insert-no_mem pgdir va pp perm k tree u a = rw (pgdir_walk-exhausted pgdir va k tree u a)
