-- ===== src/Fs/Marks.antt =====
-- The bitmap of fs/fs.c after alloc_block takes a block.
use native.Mathlib.Decide.{ℕ_discrete}
use jos_kernel.Base.{
  ==_iff, ==_ne, Bool, ap, arith, bit_and, false, if◌then◌else◌, leb, not, refl, sym, true, ℕ, ◌%◌,
  ◌+◌, ◌==◌, ◌||◌, ◌∙◌, ◌≡◌, ◌≢◌, ==_self,
}
use jos_kernel.Base.Mask.{keep_digit, clear_digit}
use jos_kernel.Fs.{
  Disk, Done, bitmap_word, block_bit, block_is_free, block_words, got, is_done, nblocks, take_block,
}
use jos_kernel.Fs.Bitmap.{allotted, take_block-allotted}

-- The free test on the words: a block below s_nblocks whose bit is set.
free_test_words :
    (i : ℕ) (d d' : Disk)
    → d'.super ≡ d.super
    → nblocks d' ≡ nblocks d
    → (bit_and (d'.mem (bitmap_word i)) (block_bit i) == 0)
      ≡ (bit_and (d.mem (bitmap_word i)) (block_bit i) == 0)
    → block_is_free i d' ≡ block_is_free i d
unfolding block_is_free
free_test_words i d d' s n b = rw (s, n, b)

used_word :
    (i : ℕ) (d : Disk)
    → (bit_and (d.mem (bitmap_word i)) (block_bit i) == 0) ≡ true
    → block_is_free i d ≡ false
unfolding block_is_free
used_word i d b = rw b (at (not d.super || leb (nblocks d) i))
  where
    at : (c : Bool) → (if c then false else false) ≡ false
    at true = refl
    at false = refl

nblocks-allotted : (j : ℕ) (d : Disk) → nblocks (allotted j d) ≡ nblocks d
nblocks-allotted j d = rw (==_ne (block_words + 1) (bitmap_word j) (λ q. omega arith))

kept_word :
    (i j : ℕ) (d : Disk)
    → i ≢ j
    → (bit_and ((allotted j d).mem (bitmap_word i)) (block_bit i) == 0)
      ≡ (bit_and (d.mem (bitmap_word i)) (block_bit i) == 0)
kept_word i j d ne = elim (ℕ_discrete (bitmap_word i) (bitmap_word j)) [
  | no other ↦ rw (==_ne (bitmap_word i) (bitmap_word j) other)
  | yes at ↦
      let other : j % 32 ≢ i % 32 = λ q. ne (omega arith) in
      rw ((==_iff (bitmap_word i) (bitmap_word j)).1 at) (
        keep_digit 32 (j % 32) (i % 32) (d.mem (bitmap_word j)) (omega arith) (omega arith) other
        ∙ ap (λ x. bit_and (d.mem x) (block_bit i) == 0) (sym at))
]

taken_word :
    (j : ℕ) (d : Disk) → (bit_and ((allotted j d).mem (bitmap_word j)) (block_bit j) == 0) ≡ true
taken_word j d =
    rw (==_self (bitmap_word j)) (clear_digit 32 (j % 32) (d.mem (bitmap_word j)) (omega arith))

-- When alloc_block takes block `j` it returns `j`; afterwards block_is_free answers no for `j` and the
-- same as before for every other block.
pub take_block_lem :
    (j : ℕ) (d : Disk)
    → Done
        (λ r d'.
          (r ≡ got j)
          × (block_is_free j d' ≡ false)
          × ((i : ℕ) → i ≢ j → block_is_free i d' ≡ block_is_free i d))
        (take_block j d)
take_block_lem j d = rw (take_block-allotted j d) (
    is_done (
      refl,
      used_word j (allotted j d) (taken_word j d),
      λ i ne. free_test_words i d (allotted j d) refl (nblocks-allotted j d) (kept_word i j d ne),
    ))
