-- ===== src/Fs/Tests.antt =====
-- The theorems about fs/fs.c on a disk of sixteen blocks, of which those from 3 on are free; a file
-- in block 3 has the indirect block 5.
use jos_kernel.Base.{[], arith, if◌then◌else◌, refl, true, ◌*◌, ◌==◌, ◌≡◌}
use jos_kernel.Fs.{
  Disk, alloc_block, alloc_loop, block_is_free, done, f_indirect, file_get_block, flush_block, got,
  take_block,
}
use jos_kernel.Fs.Bitmap.{allotted}
use jos_kernel.Fs.Blocks.{file_get_block-indirect}

abbrev disk : Disk
disk = record {
  super = true;
  mem = λ a.
      if a == 1025 then 16 else if a == 2048 then 0xfff8 else if a == f_indirect 3072 then 5 else 0;
  written = [];
}

alloc_block_three : alloc_block disk ≡ done (got 3) (allotted 3 disk)
unfolding alloc_block alloc_loop block_is_free take_block flush_block
alloc_block_three = refl

file_get_block-indirect_example : file_get_block 3072 10 disk ≡ done (got (5 * 1024)) disk
file_get_block-indirect_example =
    file_get_block-indirect 3072 5 disk refl (omega arith) (omega arith)
