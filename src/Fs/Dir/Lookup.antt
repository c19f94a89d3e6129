-- ===== src/Fs/Dir/Lookup.antt =====
-- dir_lookup finds an entry with the name if there is one, in a directory whose blocks are direct and
-- present.
use jos_kernel.Base.{
  Bool, Bool-cases, Option, ap, arith, false, inl, inr, none, refl, some, subst, suc, true, zero, ℕ,
  ◌*◌, ◌+◌, ◌<◌, ◌∙◌, ◌≡◌, ◌≤◌, ◌⊎◌, ==_false, ==_iff, List, sym, ◌%◌, ◌/◌, ◌==◌,
}
use jos_kernel.Fs.{
  Answer, Disk, Done, Run, block_words, done, got, is_done, Fs, bind, f_size, failed, not_found,
}
use jos_kernel.Fs.Dir.{
  blkfiles, file_words, find_entry, search_blocks, dir_blocks, dir_lookup, has_name,
}
use jos_kernel.Fs.File.Reading.{HasBlocks, file_get_block-direct}
use jos_kernel.Pmap.Alloc.Free.{has}

-- What find_entry finds among `n` entries from `f` on.
data Entry (test : ℕ → Bool) (f n : ℕ) : Option ℕ → Type 0 where
  entry_at :
      (j : ℕ)
      → j < n
      → test (f + file_words * j) ≡ true
      → Entry test f n (some (f + file_words * j))
  no_entry : ((j : ℕ) → j < n → test (f + file_words * j) ≡ false) → Entry test f n none

-- The same behind an entry that is not it.
Entry-later :
    (test : ℕ → Bool) (f n : ℕ) (r : Option ℕ)
    → test f ≡ false
    → Entry test (f + file_words) n r
    → Entry test f (suc n) r
Entry-later test f n _ h (entry_at j lt yes_it) =
    let e : f + file_words * suc j ≡ f + file_words + file_words * j = omega arith in
    subst (λ a. Entry test f (suc n) (some a)) e
      (entry_at (suc j) (omega arith) (ap test e ∙ yes_it))
Entry-later test f n _ h (no_entry none_of) = no_entry at
  where
    at : (j : ℕ) → j < suc n → test (f + file_words * j) ≡ false
    at zero lt = let e : f + file_words * 0 ≡ f = omega arith in ap test e ∙ h
    at (suc j) lt =
        let e : f + file_words * suc j ≡ f + file_words + file_words * j = omega arith in
        ap test e ∙ none_of j (omega arith)

find_entry-Entry : (test : ℕ → Bool) (n f : ℕ) → Entry test f n (find_entry test n f)
find_entry-Entry test zero f = no_entry λ j lt. absurd (omega arith)
find_entry-Entry test (suc n) f = elim (Bool-cases (test f)) [
  | inl yes_it ↦
      let e : f + file_words * 0 ≡ f = omega arith in
      rw yes_it (
        subst (λ a. Entry test f (suc n) (some a)) e
          (entry_at 0 (omega arith) (ap test e ∙ yes_it)))
  | inr other ↦ rw other (
      Entry-later test f n (find_entry test n (f + file_words)) other
        (find_entry-Entry test n (f + file_words)))
]

-- Entry `j` of block `b`.
abbrev pub entry : (ℕ → ℕ) → ℕ → ℕ → ℕ
entry ptr b j = ptr b * block_words + file_words * j

-- What a search of the blocks from `i` to `n` returns: an entry that passes the test, or that none
-- does.
pub data Search (test : ℕ → Bool) (ptr : ℕ → ℕ) (i n : ℕ) : Answer ⊎ Unit {0} → Type 0 where
  hit :
      (b j : ℕ)
      → i ≤ b
      → b < n
      → j < blkfiles
      → test (entry ptr b j) ≡ true
      → Search test ptr i n (inl (got (entry ptr b j)))
  miss :
      ((b j : ℕ) → i ≤ b → b < n → j < blkfiles → test (entry ptr b j) ≡ false)
      → Search test ptr i n (inr tt)

-- A search that goes on behind a block without a hit.
one_more :
    (test : ℕ → Bool) (ptr : ℕ → ℕ) (i n : ℕ) (r : Answer ⊎ Unit {0})
    → ((j : ℕ) → j < blkfiles → test (entry ptr i j) ≡ false)
    → Search test ptr (i + 1) (i + 1 + n) r
    → Search test ptr i (i + suc n) r
one_more test ptr i n _ none_of (hit b j a c e yes_it) =
    hit b j (omega arith) (omega arith) e yes_it
one_more test ptr i n _ none_of (miss others) = miss λ b j a c e. elim (Bool-cases (b == i)) [
  | inl same_block ↦
      let q : b ≡ i = (==_iff b i).0 same_block in
      subst (λ x. test (entry ptr x j) ≡ false) (sym q) (none_of j e)
  | inr other ↦ let ne = ==_false b i other in others b j (omega arith) (omega arith) e
]

-- A result that holds for the rest holds for the whole.
Done-map :
    {A : Type 0} {P Q : A → Disk → Type 0} {m : Run A}
    → Done P m
    → ((a : A) (d : Disk) → P a d → Q a d)
    → Done Q m
Done-map (is_done p) imp = is_done (imp _ _ p)

Done-bind :
    {A B : Type 0} {P : A → Disk → Type 0} {Q : B → Disk → Type 0} {m : Run A} {f : A → Fs B}
    → Done P m
    → ((a : A) (d : Disk) → P a d → Done Q (f a d))
    → Done Q (bind m f)
Done-bind (is_done p) rest = rest _ _ p

module _ (test : (ℕ → ℕ) → ℕ → Bool) (dir : ℕ) (ptr : ℕ → ℕ) (d : Disk)
    (has : HasBlocks dir ptr d) where
  search_blocks-Search :
      (n i : ℕ)
      → (i + n) * 4096 ≤ d.mem (f_size dir)
      → Done (λ r d'. (d' ≡ d) × Search (test d.mem) ptr i (i + n) r) (search_blocks test dir n i d)
  unfolding search_blocks
  search_blocks-Search zero i low = is_done (refl, miss λ b j a c e. absurd (omega arith))
  search_blocks-Search (suc n) i low = rw (file_get_block-direct dir ptr i d has (omega arith)) (
      round (find_entry (test d.mem) blkfiles (ptr i * block_words))
        (find_entry-Entry (test d.mem) blkfiles (ptr i * block_words))
        (search_blocks-Search n (i + 1) (omega arith)))
    where
      round :
          (r : Option ℕ)
          → Entry (test d.mem) (ptr i * block_words) blkfiles r
          → Done
              (λ r d'. (d' ≡ d) × Search (test d.mem) ptr (i + 1) (i + 1 + n) r)
              (search_blocks test dir n (i + 1) d)
          → Done
              (λ r d'. (d' ≡ d) × Search (test d.mem) ptr i (i + suc n) r)
              ((elim r as (λ _. Run (Answer ⊎ Unit {0})) [
                | some f ↦ done (inl (got f)) d
                | none ↦ search_blocks test dir n (i + 1) d
              ]))
      round _ (entry_at j lt yes_it) others =
          is_done (refl, hit i j (omega arith) (omega arith) lt yes_it)
      round _ (no_entry none_of) others =
          Done-map others λ r d' (e, s). (e, one_more (test d.mem) ptr i n r none_of s)

-- The results of dir_lookup.
pub data Lookup (m : ℕ → ℕ) (ptr : ℕ → ℕ) (nblock : ℕ) (name : List ℕ) : Answer → Type 0 where
  named :
      (b j : ℕ)
      → b < nblock
      → j < blkfiles
      → has_name m (4 * entry ptr b j) name ≡ true
      → Lookup m ptr nblock name (got (entry ptr b j))
  unknown :
      ((b j : ℕ) → b < nblock → j < blkfiles → has_name m (4 * entry ptr b j) name ≡ false)
      → Lookup m ptr nblock name (failed not_found)

Search-Lookup :
    (m : ℕ → ℕ) (ptr : ℕ → ℕ) (d : Disk) (nblock : ℕ) (name : List ℕ) (r : Answer ⊎ Unit {0})
    → Search (λ f. has_name m (4 * f) name) ptr 0 nblock r
    → Done
        (λ a d'. (d' ≡ d) × Lookup m ptr nblock name a)
        ((elim r as (λ _. Fs Answer) [ inl a ↦ done a | inr _ ↦ done (failed not_found) ]) d)
Search-Lookup m ptr d nblock name _ (hit b j a c e yes_it) = is_done (refl, named b j c e yes_it)
Search-Lookup m ptr d nblock name _ (miss none_of) =
    is_done (refl, unknown λ b j c e. none_of b j (omega arith) c e)

-- In a directory whose blocks are direct and present and whose size is a number of blocks, dir_lookup
-- returns an entry with the name, or not found only if no entry of the directory has the name; it
-- does not change the disk.
pub dir_lookup_lem :
    (dir : ℕ) (ptr : ℕ → ℕ) (name : List ℕ) (d : Disk)
    → HasBlocks dir ptr d
    → d.mem (f_size dir) % 4096 ≡ 0
    → Done
        (λ a d'. (d' ≡ d) × Lookup d.mem ptr (d.mem (f_size dir) / 4096) name a)
        (dir_lookup dir name d)
unfolding dir_lookup dir_blocks
dir_lookup_lem dir ptr name d has whole =
    let n : ℕ = d.mem (f_size dir) / 4096 in
    let low = has.direct in
    let start_at : 0 + n ≡ n = omega arith in
    rw whole (
      Done-bind
        (search_blocks-Search (λ m f. has_name m (4 * f) name) dir ptr d has n 0 (omega arith))
        λ r d' (e, s).
          subst
            (λ k.
              Done (λ a d'. (d' ≡ d) × Lookup d.mem ptr n name a)
                ((elim r as (λ _. Fs Answer) [ inl a ↦ done a | inr _ ↦ done (failed not_found) ])
                  k))
            (sym e)
            (Search-Lookup d.mem ptr d n name r
              (subst (λ k. Search (λ f. has_name d.mem (4 * f) name) ptr 0 k r) start_at s)))
