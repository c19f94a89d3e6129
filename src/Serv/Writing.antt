-- ===== src/Serv/Writing.antt =====
-- What serve_write does when file_write fails.
use jos_kernel.Base.{
  ==_self, Bool-cases, List, arith, false, if◌then◌else◌, inl, inr, le→ltb, ltb, lt→leb, min, refl,
  some, suc, true, update, zero, ℕ, ◌%◌, ◌*◌, ◌+◌, ◌-◌, ◌/◌, ◌<◌, ◌^◌, ◌∷◌, ◌≡◌, ◌≤◌,
}
use jos_kernel.Fs.{
  Disk, bad_argument, block_words, disk_blocks, done, f_size, failed, file_block_walk,
  file_get_block, file_set_size, flush_block, got, ndirect, nindirect,
}
use jos_kernel.Fs.Bytes.{take}
use jos_kernel.Fs.File.{extend_file, file_write, write_loop, write_range}
use jos_kernel.Kernel.Layout.{u32_mod}
use jos_kernel.Serv.{
  Server, advance, e_inval, negative, only, openfile_lookup, req_buf_size, serve_write, served,
  with_open,
}

-- The bytes that a file can have: its blocks are NDIRECT + NINDIRECT.
abbrev pub max_file_bytes : ℕ
max_file_bytes = (ndirect + nindirect) * 4096

file_get_block-past_end :
    (f b : ℕ) (d : Disk)
    → ndirect + nindirect ≤ b
    → file_get_block f b d ≡ done (failed bad_argument) d
unfolding file_get_block file_block_walk
file_get_block-past_end f b d past =
    rw (le→ltb b ndirect (omega arith), le→ltb b (ndirect + nindirect) past)

write_range-past_end :
    (f count offset : ℕ) (buf : List ℕ) (d : Disk)
    → max_file_bytes ≤ offset
    → 1 ≤ count
    → offset + count < u32_mod
    → write_range f count offset buf d ≡ done (failed bad_argument) d
unfolding write_range write_loop
write_range-past_end f zero offset buf d past some_bytes fits = absurd (omega arith)
write_range-past_end f (suc n) offset buf d past some_bytes fits =
    let more : ltb offset ((offset + suc n) % u32_mod) ≡ true = ground arith in
    rw (more, file_get_block-past_end f (offset / 4096) d (omega arith)) refl

-- The disk after the file has been made `end` bytes long, if it was shorter.
abbrev pub grown : ℕ → ℕ → Disk → Disk
grown f end d =
    if ltb (d.mem (f_size f)) end
    then record d { mem = update d.mem (f_size f) end; written = (f / block_words) ∷ d.written }
    else d

extend_file-grown :
    (f end : ℕ) (d : Disk)
    → f < disk_blocks * block_words
    → (a : ℕ) × (extend_file f end d ≡ done (got a) (grown f end d))
unfolding extend_file file_set_size flush_block
extend_file-grown f end d on = elim (Bool-cases (ltb (d.mem (f_size f)) end)) [
  | inl less ↦
      let not_less : ltb end (d.mem (f_size f)) ≡ false = ground arith in
      let in_range = lt→leb disk_blocks (f / block_words) (omega arith) in
      (0, rw less (rw not_less (rw in_range refl)))
  | inr fine ↦ (0, rw fine refl)
]

-- A write that starts behind the last byte that a file can have fails, and yet moves: the reply is
-- -E_INVAL, the file has the size that the write would have given it, and the offset of the client
-- is three bytes before where it was.
pub serve_write-past_end :
    (s : Server) (fileid i n : ℕ) (buf : List ℕ)
    → openfile_lookup fileid s ≡ some i
    → (s.opentab i).o_file < disk_blocks * block_words
    → max_file_bytes ≤ (s.fds i).fd_offset
    → (s.fds i).fd_offset < 2 ^ 31
    → 1 ≤ n
    → (t : Server) × (serve_write fileid n buf s ≡ served (only (negative e_inval)) t)
      × (t.disk ≡ grown (s.opentab i).o_file ((s.fds i).fd_offset + min n req_buf_size) s.disk)
      × ((t.fds i).fd_offset ≡ (s.fds i).fd_offset - e_inval)
unfolding serve_write file_write
serve_write-past_end s fileid i n buf is_open on past low some_bytes =
    let off : ℕ = (s.fds i).fd_offset in
    let count : ℕ = min n req_buf_size in
    let f : ℕ = (s.opentab i).o_file in
    let whole : (off + count) % u32_mod ≡ off + count = omega arith in
    let (a, e) = extend_file-grown f (off + count) s.disk on in
    let fails =
      write_range-past_end f count off (take count buf) (grown f (off + count) s.disk) past
        (omega arith) (omega arith) in
    (
      advance i (negative e_inval) (record s { disk = grown f (off + count) s.disk }),
      rw (with_open, is_open) (rw whole (rw e (rw fails refl))),
      refl,
      let here = ==_self i in rw here (omega arith),
    )
