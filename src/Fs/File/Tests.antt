-- ===== src/Fs/File/Tests.antt =====
-- The theorems about file_read and file_write at a file of 8000 bytes in the blocks from 50 on, across
-- the boundary of its first two blocks; its struct File is in block 40.
use jos_kernel.Base.{
  List, [], arith, if◌then◌else◌, leb, ltb, true, ℕ, ◌&&◌, ◌*◌, ◌+◌, ◌-◌, ◌<◌, ◌==◌, ◌∷◌, ◌≡◌, ◌≤◌,
  ◌⊎◌, refl,
}
use jos_kernel.Fs.{Disk, block_words, done, f_direct, f_size, got}
use jos_kernel.Fs.Bytes.{byte_at}
use jos_kernel.Fs.File.{file_read, file_write}
use jos_kernel.Fs.File.Data.{byte_place}
use jos_kernel.Fs.File.Reading.{HasBlocks, file_read_lem}
use jos_kernel.Fs.File.RoundTrip.{file_read-file_write}
use jos_kernel.Fs.File.Writing.{AreApart}

abbrev file_sample : ℕ
file_sample = 40 * block_words

abbrev blocks_sample : ℕ → ℕ
blocks_sample b = if ltb b 2 then 50 + b else 0

abbrev disk_sample : Disk
disk_sample = record {
  super = true;
  mem = λ a.
      if a == block_words + 1
      then 100
      else if a == f_size file_sample
      then 8000
      else if leb (f_direct file_sample) a && ltb a (f_direct file_sample + 2)
      then 50 + (a - f_direct file_sample)
      else if a == 51 * block_words
      then 0x04030201
      else 0;
  written = [];
}

disk_sample-HasBlocks : HasBlocks file_sample blocks_sample disk_sample
disk_sample-HasBlocks = record {
  direct = omega arith;
  pointers = λ b low. ground arith;
  present = λ b low. ground arith;
  on_disk = λ b low. ground arith;
}

disk_sample-AreApart : AreApart file_sample blocks_sample 8000
disk_sample-AreApart = record {
  distinct = λ a b la lb e. ground arith;
  not_super = λ b low. ground arith;
  not_file = λ b i low lo. ground arith;
}

abbrev buf_sample : List ℕ
buf_sample = 7 ∷ 8 ∷ 9 ∷ []

file_read_lem_example :
    file_read file_sample 4 4094 disk_sample ≡ done (got 4, 0 ∷ 0 ∷ 1 ∷ 2 ∷ []) disk_sample
file_read_lem_example =
    file_read_lem file_sample blocks_sample 4 4094 disk_sample disk_sample-HasBlocks

file_read-file_write_example :
    (d' : Disk) × (file_write file_sample 3 4095 buf_sample disk_sample ≡ done (got 3) d')
    × (file_read file_sample 3 4095 d' ≡ done (got 3, buf_sample) d')
    × ((k : ℕ)
        → k < 8000
        → (k < 4095) ⊎ (4098 ≤ k)
        → byte_at d'.mem (byte_place blocks_sample k)
          ≡ byte_at disk_sample.mem (byte_place blocks_sample k))
file_read-file_write_example =
    file_read-file_write file_sample blocks_sample 8000 disk_sample-AreApart 4095 buf_sample
      disk_sample disk_sample-HasBlocks refl (omega arith, (omega arith, (omega arith, tt)))
      (omega arith) (omega arith)
