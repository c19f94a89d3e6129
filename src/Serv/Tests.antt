-- ===== src/Serv/Tests.antt =====
-- The server with a disk whose root directory has one file, "ab", of 5000 bytes in the blocks from 60 on.
use jos_kernel.Base.{
  List, [], arith, if◌then◌else◌, leb, ltb, refl, some, true, update, ℕ, ◌&&◌, ◌*◌, ◌+◌, ◌-◌, ◌==◌,
  ◌∷◌, ◌≡◌,
}
use jos_kernel.Fs.{
  Disk, block_words, diskaddr, done, f_direct, f_size, file_block_walk, file_get_block, fill_slot,
  got,
}
use jos_kernel.Fs.Dir.{
  behind, dir_blocks, dir_lookup, element, f_type, file_open, ftype_dir, s_root, search_blocks,
  skip_slash, walk_loop, walk_path,
}
use jos_kernel.Fs.File.Data.{file_bytes}
use jos_kernel.Fs.File.Reading.{HasBlocks}
use jos_kernel.Serv.{
  Reply, Server, claim, create_or_open, entry, maxopen, open_path, openfile_alloc, openfile_lookup,
  openfile_loop, page_and_claim, serve_init, serve_open, serve_read, served, unused_entry, Fsipc,
  advance, e_inval, negative, only, serve, serve_write, set_open,
}
use jos_kernel.Serv.Opening.{read_bytes, serve_open-serve_read, serve_open-opens}
use jos_kernel.Serv.Reading.{serve_read-open, serve_reads, serve_reads-file_bytes}
use jos_kernel.Serv.Turns.{Runs, Runs-InPlace, sent, Turn, WhileHeld, open_file-stays}
use jos_kernel.Serv.Writing.{grown, max_file_bytes, serve_write-past_end}

abbrev file_ab : ℕ
file_ab = 50 * block_words

abbrev blocks_ab : ℕ → ℕ
blocks_ab b = if ltb b 2 then 60 + b else 0

abbrev disk_ab : Disk
disk_ab = record {
  super = true;
  mem = λ a.
      if a == block_words + 1
      then 100
      else if a == f_size s_root
      then 4096
      else if a == f_type s_root
      then ftype_dir
      else if a == f_direct s_root
      then 50
      else if a == file_ab
      then 98 * 256 + 97
      else if a == f_size file_ab
      then 5000
      else if leb (f_direct file_ab) a && ltb a (f_direct file_ab + 2)
      then 60 + (a - f_direct file_ab)
      else if a == 60 * block_words
      then 0x04030201
      else 0;
  written = [];
}

disk_ab-HasBlocks : HasBlocks file_ab blocks_ab disk_ab
disk_ab-HasBlocks = record {
  direct = omega arith;
  pointers = λ b low. ground arith;
  present = λ b low. ground arith;
  on_disk = λ b low. ground arith;
}

-- "/ab"
abbrev path_ab : List ℕ
path_ab = 47 ∷ 97 ∷ 98 ∷ []

abbrev started : Server
started = record {
  opentab = serve_init maxopen 0 unused_entry;
  fds = λ i. record { fd_dev_id = 0; fd_offset = 0; fd_omode = 0; id = 0 };
  refs = λ i. 0;
  free_pages = 2;
  disk = disk_ab;
}

started-Runs : Runs started
started-Runs = Runs.at_first 2 disk_ab

abbrev claimed : Server
claimed = claim 0 (record started { refs = update started.refs 0 1; free_pages = 1 })

openfile_alloc-started : openfile_alloc started ≡ entry 0 claimed
unfolding openfile_alloc openfile_loop page_and_claim
openfile_alloc-started = refl

claimed_id : (claimed.opentab 0).o_fileid ≡ 1024
unfolding serve_init
claimed_id = refl

open_path_ab : open_path path_ab 0 disk_ab ≡ done (got file_ab) disk_ab
unfolding open_path create_or_open file_open walk_path walk_loop skip_slash element behind
    dir_lookup search_blocks dir_blocks file_get_block file_block_walk fill_slot diskaddr
open_path_ab = refl

serve_open-serve_read_example :
    (u : Server) × (reply : Reply) × (t' : Server) × (serve_open path_ab 0 started ≡ served reply u)
    × (reply.word ≡ 0)
    × (reply.pg_store ≡ some 0)
    × (serve_read (u.fds 0).id 6 (sent reply.pg_store u)
        ≡ served (read_bytes 6 (file_bytes blocks_ab disk_ab.mem 0 6)) t')
serve_open-serve_read_example =
    serve_open-serve_read started claimed 0 file_ab path_ab 0 disk_ab
      (Runs-InPlace started started-Runs) openfile_alloc-started (omega (arith, claimed_id))
      open_path_ab blocks_ab 6 disk_ab-HasBlocks (omega arith)

-- A client has opened the file.
abbrev held : Server
held = sent (some 0) (set_open 0 file_ab 0 claimed)

held-Runs : Runs held
unfolding serve
held-Runs = Runs.next started-Runs (
    Turn.request (Fsipc.open_req path_ab 0) (
      serve_open-opens started claimed 0 file_ab path_ab 0 disk_ab
        (Runs-InPlace started started-Runs) openfile_alloc-started (omega (arith, claimed_id))
        open_path_ab))

held_lookup : openfile_lookup 1024 held ≡ some 0
unfolding openfile_lookup serve_init
held_lookup = refl

held_id : (held.opentab 0).o_fileid ≡ 1024
unfolding serve_init
held_id = refl

-- It reads, and shares the page with another environment.
abbrev shared : Server
shared = let t = advance 0 6 held in record t { refs = update t.refs 0 (t.refs 0 + 1) }

shared-WhileHeld : WhileHeld 0 held shared
unfolding serve
shared-WhileHeld =
    WhileHeld.then_turn
      (WhileHeld.then_turn WhileHeld.no_turn (omega arith) (
        Turn.request (Fsipc.read_req 1024 6)
          (serve_read-open held 1024 0 blocks_ab held_lookup disk_ab-HasBlocks 6 (omega arith))))
      (omega arith) (Turn.share 0 (omega arith))

open_file-stays_example :
    (openfile_lookup (held.opentab 0).o_fileid shared ≡ some 0)
    × (shared.opentab 0 ≡ held.opentab 0)
open_file-stays_example =
    open_file-stays held shared 0 held-Runs (omega arith) shared-WhileHeld (omega arith)

serve_reads-file_bytes_example :
    (t : Server) × (serve_reads 1024 (4096 ∷ 902 ∷ 7 ∷ []) held
      ≡ served (file_bytes blocks_ab disk_ab.mem 0 5000) t)
    × ((t.fds 0).fd_offset ≡ 5000)
    × (t.disk ≡ disk_ab)
serve_reads-file_bytes_example =
    serve_reads-file_bytes (4096 ∷ 902 ∷ 7 ∷ []) held 1024 0 blocks_ab held_lookup disk_ab-HasBlocks
      (omega arith) (omega arith, (omega arith, (omega arith, tt)))

-- The client has moved its offset to the end of the largest file.
abbrev far : Server
far = record held { fds = update held.fds 0 (record (held.fds 0) { fd_offset = max_file_bytes }) }

far_lookup : openfile_lookup 1024 far ≡ some 0
unfolding openfile_lookup serve_init
far_lookup = refl

serve_write-past_end_example :
    (t : Server) × (serve_write 1024 1 (7 ∷ []) far ≡ served (only (negative e_inval)) t)
    × (t.disk ≡ grown file_ab (max_file_bytes + 1) disk_ab)
    × ((t.fds 0).fd_offset ≡ max_file_bytes - e_inval)
serve_write-past_end_example =
    serve_write-past_end far 1024 0 1 (7 ∷ []) far_lookup (omega arith) (omega arith) (omega arith)
      (omega arith)
