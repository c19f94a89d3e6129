-- ===== src/Fs/Dir/Tests.antt =====
-- The theorems about directories at a disk whose root directory has one block, with the file "ab" in
-- its first entry.
use jos_kernel.Base.{
  List, [], arith, if◌then◌else◌, none, refl, some, true, ℕ, ◌*◌, ◌+◌, ◌==◌, ◌∷◌, ◌≡◌,
}
use jos_kernel.Fs.{
  Disk, block_words, diskaddr, done, f_direct, f_size, file_block_walk, file_get_block, fill_slot,
  not_found,
}
use jos_kernel.Fs.Dir.{
  behind, dir_blocks, dir_lookup, element, f_type, ftype_dir, missing, s_root, search_blocks,
  skip_slash, walk_loop, walk_path, walked,
}
use jos_kernel.Fs.Dir.Resolve.{resolve, walk_path-resolve}
use jos_kernel.Fs.File.Reading.{HasBlocks}

abbrev root_blocks : ℕ → ℕ
root_blocks b = if b == 0 then 50 else 0

abbrev root_sample : Disk
root_sample = record {
  super = true;
  mem = λ a.
      if a == block_words + 1
      then 100
      else if a == f_size s_root
      then 4096
      else if a == f_type s_root
      then ftype_dir
      else if a == f_direct s_root
      then 50
      else if a == 50 * block_words
      then 98 * 256 + 97
      else 0;
  written = [];
}

root_sample-HasBlocks : HasBlocks s_root root_blocks root_sample
root_sample-HasBlocks = record {
  direct = omega arith;
  pointers = λ b low. ground arith;
  present = λ b low. ground arith;
  on_disk = λ b low. ground arith;
}

-- "ab"
abbrev ab : List ℕ
ab = 97 ∷ 98 ∷ []

-- "/ab//"
walk_path-resolve_example :
    walk_path (47 ∷ 97 ∷ 98 ∷ 47 ∷ 47 ∷ []) root_sample ≡ resolve (ab ∷ []) none s_root root_sample
walk_path-resolve_example = walk_path-resolve (47 ∷ 97 ∷ 98 ∷ 47 ∷ 47 ∷ []) root_sample

-- The file is found, and a file to create would be in the root directory.
walk_path_runs :
    (walk_path (47 ∷ ab) root_sample ≡ done (walked (some s_root) (50 * block_words)) root_sample)
    × (walk_path (47 ∷ 97 ∷ []) root_sample
        ≡ done (missing not_found (some s_root) (97 ∷ [])) root_sample)
unfolding walk_path walk_loop skip_slash element behind dir_lookup search_blocks dir_blocks
    file_get_block file_block_walk fill_slot diskaddr
walk_path_runs = (refl, refl)
