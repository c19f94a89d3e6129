-- ===== src/Fs/Bitmap.antt =====
-- alloc_block of fs/fs.c: the first free block.
use native.Mathlib.Decide.{ℕ_discrete}
use jos_kernel.Base.{
  ap, arith, bit_and, false, if-false, if-true, refl, suc, true, update, zero, ℕ, ◌+◌, ◌-◌, ◌<◌,
  ◌^◌, ◌∙◌, ◌∷◌, ◌≡◌, ◌≤◌,
}
use jos_kernel.Fs.{
  Disk, alloc_block, alloc_loop, bitmap_word, block_bit, block_is_free, done, failed, flush_block,
  got, nblocks, no_disk, take_block,
}

alloc_loop-first :
    (n i j : ℕ) (d : Disk)
    → i ≤ j
    → j < i + n
    → block_is_free j d ≡ true
    → ((h : ℕ) → i ≤ h → h < j → block_is_free h d ≡ false)
    → alloc_loop n i d ≡ take_block j d
unfolding alloc_loop
alloc_loop-first zero i j d a b is none_before = absurd (omega arith)
alloc_loop-first (suc n) i j d a b is none_before = elim (ℕ_discrete i j) [
  | yes at ↦ if-true _ (ap (λ x. block_is_free x d) at ∙ is) ∙ ap (λ x. take_block x d) at
  | no ne ↦
      if-false _ (none_before i (omega arith) (omega arith))
      ∙ alloc_loop-first n (i + 1) j d (omega arith) (omega arith) is
          λ h u v. none_before h (omega arith) v
]

alloc_loop-none :
    (n i : ℕ) (d : Disk)
    → ((h : ℕ) → i ≤ h → h < i + n → block_is_free h d ≡ false)
    → alloc_loop n i d ≡ done (failed no_disk) d
unfolding alloc_loop
alloc_loop-none zero i d h = refl
alloc_loop-none (suc n) i d h =
    if-false _ (h i (omega arith) (omega arith))
    ∙ alloc_loop-none n (i + 1) d (λ x u v. h x (omega arith) (omega arith))

-- The disk after block `j` is taken.
abbrev pub allotted : ℕ → Disk → Disk
allotted j d = record d {
  mem = update d.mem (bitmap_word j) (bit_and (d.mem (bitmap_word j)) (2 ^ 32 - 1 - block_bit j));
  written = 2 ∷ d.written;
}

pub take_block-allotted : (j : ℕ) (d : Disk) → take_block j d ≡ done (got j) (allotted j d)
unfolding take_block flush_block
take_block-allotted j d = refl

-- alloc_block returns the first free block, clears its bit in the bitmap and flushes the first block of
-- the bitmap; without a free block it returns -E_NO_DISK and changes nothing.
pub alloc_block_lem :
    (d : Disk)
    → ((j : ℕ)
        → j < nblocks d
        → block_is_free j d ≡ true
        → ((h : ℕ) → h < j → block_is_free h d ≡ false)
        → alloc_block d ≡ done (got j) (allotted j d))
      × (((h : ℕ) → h < nblocks d → block_is_free h d ≡ false)
          → alloc_block d ≡ done (failed no_disk) d)
unfolding alloc_block
alloc_block_lem d = (
  λ j b is first.
      alloc_loop-first (nblocks d) 0 j d (omega arith) (omega arith) is (λ h _ v. first h v)
      ∙ take_block-allotted j d,
  λ full. alloc_loop-none (nblocks d) 0 d (λ h _ v. full h (omega arith)),
)
