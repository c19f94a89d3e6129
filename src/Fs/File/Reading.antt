-- ===== src/Fs/File/Reading.antt =====
-- What file_read reads from a file whose blocks are direct and present.
use jos_kernel.Base.{
  ==_ne, arith, false, lt→ltb, ℕ, ◌*◌, ◌+◌, ◌<◌, ◌==◌, ◌≡◌, ◌≢◌, ◌≤◌, Bool-cases, ap, inl, inr, ltb,
  none, suc, sym, zero, ◌%◌, ◌++◌, ◌-◌, ◌/◌, ◌∙◌, leb, min,
}
use jos_kernel.Fs.{
  Disk, block_words, diskaddr, done, f_direct, f_size, file_block_walk, file_get_block, fill_slot,
  got, nblocks, ndirect,
}
use jos_kernel.Fs.Bytes.{bytes}
use jos_kernel.Fs.File.{chunk, read_loop, file_read, read_range}
use jos_kernel.Fs.File.Data.{
  direct_bytes, byte_place, bytes-file_bytes, file_bytes, file_bytes-append,
}

-- The struct File `f` on the disk `d` has the direct blocks `ptr`. Its bytes are in them, and those that its
-- size needs are there; the pointers behind its end may be 0.
pub record HasBlocks (f : ℕ) (ptr : ℕ → ℕ) (d : Disk) : Type 0 where
  pub direct : d.mem (f_size f) ≤ direct_bytes
  pub pointers : (b : ℕ) → b < ndirect → d.mem (f_direct f + b) ≡ ptr b
  pub present : (b : ℕ) → b * 4096 < d.mem (f_size f) → ptr b ≢ 0
  pub on_disk : (b : ℕ) → b * 4096 < d.mem (f_size f) → ptr b < nblocks d

module _ (f : ℕ) (ptr : ℕ → ℕ) where
  diskaddr-on_disk :
      (b : ℕ) (d : Disk) → b ≢ 0 → b < nblocks d → diskaddr b d ≡ done (b * block_words) d
  unfolding diskaddr
  diskaddr-on_disk b d present on = ground arith

  pub file_get_block-direct :
      (b : ℕ) (d : Disk)
      → HasBlocks f ptr d
      → b * 4096 < d.mem (f_size f)
      → file_get_block f b d ≡ done (got (ptr b * block_words)) d
  unfolding file_get_block file_block_walk fill_slot
  file_get_block-direct b d h within =
      let low : b < ndirect = omega (arith, h.direct) in
      let there : (ptr b == 0) ≡ false = ==_ne (ptr b) 0 (h.present b within) in
      rw (lt→ltb b ndirect low) (
        rw (h.pointers b low, there)
          (rw (diskaddr-on_disk (ptr b) d (h.present b within) (h.on_disk b within))))

  -- What one round moves, followed by what the others move.
  pub chunk-bounds :
      (pos end : ℕ)
      → pos < end
      → (1 ≤ chunk pos end) × (pos % 4096 + chunk pos end ≤ 4096) × (pos + chunk pos end ≤ end)
  chunk-bounds pos end lt = ground arith

  pub slot-byte_place :
      (pos : ℕ) → ptr (pos / 4096) * block_words * 4 + pos % 4096 ≡ byte_place ptr pos
  slot-byte_place pos = omega arith

  joined :
      (m : ℕ → ℕ) (pos end : ℕ)
      → pos < end
      → bytes m (ptr (pos / 4096) * block_words * 4 + pos % 4096) (chunk pos end)
          ++ file_bytes ptr m (pos + chunk pos end) (end - (pos + chunk pos end))
        ≡ file_bytes ptr m pos (end - pos)
  joined m pos end lt =
      let (a, b, c) = chunk-bounds pos end lt in
      let len : chunk pos end + (end - (pos + chunk pos end)) ≡ end - pos = omega (arith, c) in
      rw (slot-byte_place pos) (
        rw (bytes-file_bytes ptr m pos (chunk pos end) b) (
          sym (file_bytes-append ptr m pos (chunk pos end) (end - (pos + chunk pos end)))
          ∙ ap (file_bytes ptr m pos) len))

  read_loop-direct :
      (n pos end : ℕ) (d : Disk)
      → HasBlocks f ptr d
      → end ≤ d.mem (f_size f)
      → pos ≤ end
      → end ≤ pos + n
      → read_loop f n pos end d ≡ done (none, file_bytes ptr d.mem pos (end - pos)) d
  unfolding read_loop
  read_loop-direct zero pos end d h low le enough = let z : end - pos ≡ 0 = omega arith in rw z
  read_loop-direct (suc n) pos end d h low le enough = elim (Bool-cases (ltb pos end)) [
    | inl more ↦
        let lt : pos < end = ground arith in
        let (a, b, c) = chunk-bounds pos end lt in
        let rest = read_loop-direct n (pos + chunk pos end) end d h low c (omega (arith, a)) in
        rw (more, file_get_block-direct (pos / 4096) d h (omega arith))
          (rw rest (ap (λ l. done (none, l) d) (joined d.mem pos end lt)))
    | inr stop_here ↦ let z : end - pos ≡ 0 = ground arith in rw (stop_here, z)
  ]

  -- For a file whose bytes are all in direct blocks that are present, file_read returns the number of
  -- bytes asked for, or of those behind `offset` if they are fewer, with exactly those bytes of the
  -- file, across the boundaries of blocks, and does not change the disk.
  pub file_read_lem :
      (count offset : ℕ) (d : Disk)
      → HasBlocks f ptr d
      → let n : ℕ = min count (d.mem (f_size f) - offset) in
        file_read f count offset d ≡ done (got n, file_bytes ptr d.mem offset n) d
  unfolding file_read read_range
  file_read_lem count offset d h = elim (Bool-cases (leb (d.mem (f_size f)) offset)) [
    | inl past ↦ let z : min count (d.mem (f_size f) - offset) ≡ 0 = ground arith in rw (past, z)
    | inr within ↦
        let n : ℕ = min count (d.mem (f_size f) - offset) in
        let below : offset + n ≤ d.mem (f_size f) = ground arith in
        let len : offset + n - offset ≡ n = omega arith in
        rw within
          (rw (read_loop-direct n offset (offset + n) d h below (omega arith) (omega arith), len))
  ]
