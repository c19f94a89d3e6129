-- ===== src/Fs/Blocks.antt =====
-- file_block_walk and file_get_block of fs/fs.c.
use jos_kernel.Base.{
  ==_ne, and-false, ap, arith, if-false, lt→leb, sym, true, ℕ, ◌*◌, ◌+◌, ◌-◌, ◌<◌, ◌∙◌, ◌≡◌, ◌≢◌,
}
use jos_kernel.Fs.{
  Disk, block_words, diskaddr, done, f_indirect, file_block_walk, file_get_block, fill_slot, got,
  nblocks, ndirect,
}

slot_of_ten : (f : ℕ) → f_indirect f + 10 - ndirect ≡ f_indirect f
slot_of_ten f = omega arith

walk-ten :
    (f : ℕ) (d : Disk)
    → d.mem (f_indirect f) ≢ 0
    → file_block_walk f 10 true d ≡ done (got (f_indirect f)) d
unfolding file_block_walk
walk-ten f d ne = rw (==_ne (d.mem (f_indirect f)) 0 ne) (ap (λ s. done (got s) d) (slot_of_ten f))

diskaddr-ok : (b : ℕ) (d : Disk) → b ≢ 0 → b < nblocks d → diskaddr b d ≡ done (b * block_words) d
unfolding diskaddr
diskaddr-ok b d ne l = rw (==_ne b 0 ne, lt→leb (nblocks d) b l) (rw (and-false d.super))

fill_slot-full :
    (slot b : ℕ) (d : Disk)
    → d.mem slot ≡ b
    → b ≢ 0
    → b < nblocks d
    → fill_slot slot d ≡ done (got (b * block_words)) d
unfolding fill_slot
fill_slot-full slot b d e ne l =
    if-false _ (==_ne (d.mem slot) 0 (λ q. ne (sym e ∙ q))) ∙ rw e (rw (diskaddr-ok b d ne l))

-- In a file with an indirect block `b` the first block after the direct ones is `b` itself: its
-- slot is f_indirect, and file_get_block returns the address of the indirect block.
pub file_get_block-indirect :
    (f b : ℕ) (d : Disk)
    → d.mem (f_indirect f) ≡ b
    → b ≢ 0
    → b < nblocks d
    → file_get_block f 10 d ≡ done (got (b * block_words)) d
unfolding file_get_block
file_get_block-indirect f b d e ne l =
    rw (walk-ten f d (λ q. ne (sym e ∙ q))) (fill_slot-full (f_indirect f) b d e ne l)
