-- ===== src/Fs/File/RoundTrip.antt =====
-- file_read after file_write.
use jos_kernel.Base.{
  List, [], ap, arith, false, inl, length, le→ltb, ltb, min, refl, subst, ℕ, ◌%◌, ◌+◌, ◌-◌, ◌<◌,
  ◌∙◌, ◌∷◌, ◌≡◌, ◌≢◌, ◌≤◌, ◌⊎◌, sym,
}
use jos_kernel.Fs.{Disk, done, f_size, got}
use jos_kernel.Fs.Bytes.{byte_at, byte_at-other, byte_at-set_byte, set_byte}
use jos_kernel.Fs.File.{extend_file, file_read, file_write, write_range}
use jos_kernel.Fs.File.Data.{byte_place, file_bytes, file_set}
use jos_kernel.Fs.File.Reading.{HasBlocks, file_read_lem}
use jos_kernel.Fs.File.Writing.{
  AreApart, byte_place-distinct, file_set-HasBlocks, file_set-word, write_loop-direct,
}
use jos_kernel.Kernel.Layout.{u32_mod}

abbrev pub AreBytes : List ℕ → Type 0
AreBytes [] = Unit {0}
AreBytes (x ∷ l) = (x < 256) × AreBytes l

module _ (f : ℕ) (ptr : ℕ → ℕ) (size : ℕ) (apart : AreApart f ptr size) where
  -- A byte that is not written stays.
  byte_at-file_set :
      (m : ℕ → ℕ) (i : ℕ) (l : List ℕ) (k : ℕ)
      → AreBytes l
      → i + length l ≤ size
      → k < size
      → (k < i) ⊎ (i + length l ≤ k)
      → byte_at (file_set ptr m i l) (byte_place ptr k) ≡ byte_at m (byte_place ptr k)
  byte_at-file_set m i [] k all fits low out = refl
  byte_at-file_set m i (x ∷ l) k all fits low out =
      let ne : byte_place ptr k ≢ byte_place ptr i =
        λ e. omega (arith, byte_place-distinct f ptr size k i apart low (omega arith) e, out) in
      byte_at-file_set (set_byte m (byte_place ptr i) x) (i + 1) l k all.1 (omega arith) low
        (ground (arith, out))
      ∙ byte_at-other m (byte_place ptr i) x (byte_place ptr k) all.0 ne

  file_bytes-file_set :
      (m : ℕ → ℕ) (i : ℕ) (l : List ℕ)
      → AreBytes l
      → i + length l ≤ size
      → file_bytes ptr (file_set ptr m i l) i (length l) ≡ l
  file_bytes-file_set m i [] all fits = refl
  file_bytes-file_set m i (x ∷ l) all fits =
      let m' = set_byte m (byte_place ptr i) x in
      let first : byte_at (file_set ptr m' (i + 1) l) (byte_place ptr i) ≡ x =
        byte_at-file_set m' (i + 1) l i all.1 (omega arith) (omega arith) (inl (omega arith))
        ∙ byte_at-set_byte m (byte_place ptr i) x all.0 in
      rw (first, file_bytes-file_set m' (i + 1) l all.1 (omega arith))

  file_write-direct :
      (offset : ℕ) (buf : List ℕ) (d : Disk)
      → HasBlocks f ptr d
      → d.mem (f_size f) ≡ size
      → offset + length buf ≤ d.mem (f_size f)
      → file_write f (length buf) offset buf d
        ≡ done (got (length buf)) (record d { mem = file_set ptr d.mem offset buf })
  unfolding file_write extend_file write_range
  file_write-direct offset buf d h sized fits =
      let low = h.direct in
      let nowrap : (offset + length buf) % u32_mod ≡ offset + length buf = omega arith in
      let short : ltb (d.mem (f_size f)) (offset + length buf) ≡ false =
        le→ltb (d.mem (f_size f)) (offset + length buf) fits in
      let end : ℕ = (offset + length buf) % u32_mod in
      rw (nowrap, short)
        (rw (
          write_loop-direct f ptr size (length buf) offset end buf d h sized apart
            (omega (arith, nowrap, sized)) (sym nowrap) (omega (arith, nowrap))))

  -- file_write of bytes within a file whose bytes are all in direct blocks that are present (the pointers
  -- behind its end may be 0): it
  -- returns the number of bytes, every other byte of the file stays as it was, and file_read at the
  -- same place then returns the bytes written. Assumed: the blocks of its bytes are different and hold
  -- neither its struct File nor the super block, and the place is before the end of the file.
  pub file_read-file_write :
      (offset : ℕ) (buf : List ℕ) (d : Disk)
      → HasBlocks f ptr d
      → d.mem (f_size f) ≡ size
      → AreBytes buf
      → offset + length buf ≤ d.mem (f_size f)
      → offset < d.mem (f_size f)
      → (d' : Disk) × (file_write f (length buf) offset buf d ≡ done (got (length buf)) d')
        × (file_read f (length buf) offset d' ≡ done (got (length buf), buf) d')
        × ((k : ℕ)
            → k < d.mem (f_size f)
            → (k < offset) ⊎ (offset + length buf ≤ k)
            → byte_at d'.mem (byte_place ptr k) ≡ byte_at d.mem (byte_place ptr k))
  file_read-file_write offset buf d h sized all fits before =
      let low = h.direct in
      let d' : Disk = record d { mem = file_set ptr d.mem offset buf } in
      let h' = file_set-HasBlocks f ptr size offset buf d h sized apart (omega arith) in
      let same_size : d'.mem (f_size f) ≡ d.mem (f_size f) =
        file_set-word f ptr size d.mem offset buf (f_size f) (omega arith)
          (λ b lo. apart.not_file b 32 lo (omega arith)) in
      let all_of_it : min (length buf) (d'.mem (f_size f) - offset) ≡ length buf =
        omega (arith, same_size) in
      (
        d',
        file_write-direct offset buf d h sized fits,
        subst
              (λ n.
                file_read f (length buf) offset d'
                ≡ done (got n, file_bytes ptr d'.mem offset n) d')
              all_of_it (file_read_lem f ptr (length buf) offset d' h')
            ∙ ap (λ l. done (got (length buf), l) d')
                (file_bytes-file_set d.mem offset buf all (omega arith)),
        λ k lo out. byte_at-file_set d.mem offset buf k all (omega arith) (omega arith) out,
      )
