-- ===== src/Serv.antt =====
-- fs/serv.c: the table of open files and the requests of clients. What the server keeps in memory is
-- the table, the Fd pages, which it shares with the clients that hold the file open, and the disk of
-- fs/fs.c. `refs i` is what pageref says of the Fd page of entry `i`: how many address spaces have the
-- page, the server's own among them. A result is the 32-bit word that is sent, an error its negative.
pub mod Table
pub mod Leaves
pub mod Turns
pub mod Reading
pub mod Writing
pub mod Opening
mod Tests
use jos_kernel.Base.{
  Bool, List, Option, [], bit_and, false, if◌then◌else◌, leb, min, none, not, some, suc, true,
  update, zero, ℕ, ◌%◌, ◌&&◌, ◌+◌, ◌-◌, ◌==◌, ◌^◌, ◌||◌, length, ltb,
}
use jos_kernel.Fs.{
  Answer, Disk, Fs, FsError, Run, bad_argument, bad_path, done, failed, file_exists, file_set_size,
  got, no_disk, not_found, panicked, ◌>>=◌, ◌>>◌, fs_sync, sync_loop,
}
use jos_kernel.Fs.Bytes.{take}
use jos_kernel.Fs.Dir.{file_create, file_flush, file_open}
use jos_kernel.Fs.File.{file_read, file_write}
use jos_kernel.Kernel.Layout.{u32_mod}

-- MAXOPEN, and the modes
abbrev pub maxopen : ℕ
maxopen = 1024

abbrev pub o_accmode : ℕ
o_accmode = 0x0003

abbrev pub o_creat : ℕ
o_creat = 0x0100

abbrev pub o_trunc : ℕ
o_trunc = 0x0200

abbrev pub o_excl : ℕ
o_excl = 0x0400

-- devfile.dev_id
abbrev pub devfile_dev_id : ℕ
devfile_dev_id = 102

-- An entry; its o_fd is the page of the same index and is not changed after serve_init.
pub record OpenFile : Type 0 where
  pub o_fileid : ℕ
  pub o_file : ℕ
  pub o_mode : ℕ

-- A struct Fd of a file.
pub record Fd : Type 0 where
  pub fd_dev_id : ℕ
  pub fd_offset : ℕ
  pub fd_omode : ℕ
  pub id : ℕ

pub record Server : Type 0 where
  pub opentab : ℕ → OpenFile
  pub fds : ℕ → Fd
  pub refs : ℕ → ℕ
  -- the pages that sys_page_alloc may still give to the server
  pub free_pages : ℕ
  pub disk : Disk

-- What is sent back: the word, the bytes in the request page, and the Fd page that is shared.
pub record Reply : Type 0 where
  pub word : ℕ
  pub ret_buf : List ℕ
  pub pg_store : Option ℕ

-- The server goes on, or it has panicked; or it goes on after it has written more than a page of bytes to the
-- request page. The disk map is behind that page, so that the disk is then not known.
pub data Served (A : Type 0) : Type 0 where
  served : A → Server → Served A
  server_panicked : Served A
  overrun : Server → Served A

-- `-e` as a word
abbrev pub negative : ℕ → ℕ
negative e = u32_mod - e

-- `r < 0` of a word that is an int
abbrev pub is_negative : ℕ → Bool
is_negative r = leb (2 ^ 31) r

-- inc/error.h
abbrev pub code : FsError → ℕ
code bad_argument = 3
code no_disk = 9
code not_found = 11
code bad_path = 12
code file_exists = 13

abbrev pub e_inval : ℕ
e_inval = 3

abbrev pub e_no_mem : ℕ
e_no_mem = 4

abbrev pub e_max_open : ℕ
e_max_open = 10

-- The result of a function of fs.c as an int.
abbrev pub to_word : Answer → ℕ
to_word (got n) = n
to_word (failed x) = negative (code x)

-- A reply that is only a word.
abbrev pub only : ℕ → Reply
only r = record { word = r; ret_buf = []; pg_store = none }

-- The server calls a function of fs.c and goes on with its result.
abbrev pub on_disk : {A B : Type 0} → Run A → Server → (A → Server → Served B) → Served B
on_disk (done a d) s f = f a (record s { disk = d })
on_disk panicked s f = server_panicked

-- The table before main.
abbrev pub unused_entry : ℕ → OpenFile
unused_entry i = record { o_fileid = 0; o_file = 0; o_mode = if i == 0 then 1 else 0 }

-- The loop of serve_init, with the rounds left.
unfoldable pub serve_init : ℕ → ℕ → (ℕ → OpenFile) → ℕ → OpenFile
serve_init zero i tab = tab
serve_init (suc n) i tab = serve_init n (i + 1) (update tab i (record (tab i) { o_fileid = i }))

-- `case 1`: the entry gets its next id, and its page is cleared.
abbrev pub claim : ℕ → Server → Server
claim i s = record s {
  opentab =
      update s.opentab i
        (record (s.opentab i) { o_fileid = ((s.opentab i).o_fileid + maxopen) % u32_mod });
  fds = update s.fds i (record { fd_dev_id = 0; fd_offset = 0; fd_omode = 0; id = 0 });
}

-- What openfile_alloc finds: an entry, or a negative word.
pub data Alloc : Type 0 where
  entry : ℕ → Server → Alloc
  no_entry : ℕ → Alloc

-- `case 0`: sys_page_alloc maps a page at o_fd before.
unfoldable pub page_and_claim : ℕ → Server → Alloc
page_and_claim i s =
    if s.free_pages == 0
    then no_entry (negative e_no_mem)
    else entry i (claim i (record s { refs = update s.refs i 1; free_pages = s.free_pages - 1 }))

-- The loop of openfile_alloc, with the rounds left.
unfoldable pub openfile_loop : ℕ → ℕ → Server → Alloc
unfolding page_and_claim
openfile_loop zero i s = no_entry (negative e_max_open)
openfile_loop (suc n) i s =
    let rest = openfile_loop n (i + 1) s in
    if s.refs i == 0
    then page_and_claim i s
    else if s.refs i == 1
    then entry i (claim i s)
    else rest

unfoldable pub openfile_alloc : Server → Alloc
unfolding openfile_loop
openfile_alloc s = openfile_loop maxopen 0 s

-- The entry of a file id, or none where openfile_lookup returns -E_INVAL.
unfoldable pub openfile_lookup : ℕ → Server → Option ℕ
openfile_lookup fileid s =
    if leb (s.refs (fileid % maxopen)) 1 || not ((s.opentab (fileid % maxopen)).o_fileid == fileid)
    then none
    else some (fileid % maxopen)

abbrev pub is_file_exists : FsError → Bool
is_file_exists file_exists = true
is_file_exists _ = false

-- A flag of the mode.
abbrev pub has_flag : ℕ → ℕ → Bool
has_flag flag omode = not (bit_and omode flag == 0)

-- serve_open's `file_create`, and its `file_open` behind try_open.
unfoldable pub create_or_open : List ℕ → ℕ → Fs Answer
unfolding file_create file_open
create_or_open path omode =
    if has_flag o_creat omode
    then (do
      r ← file_create path
      elim r [
        | got f ↦ done (got f)
        | failed x ↦
            if not (has_flag o_excl omode) && is_file_exists x
            then file_open path
            else done (failed x)
      ])
    else file_open path

-- The file that serve_open opens: created or not, truncated or not, and then looked up again.
unfoldable pub open_path : List ℕ → ℕ → Fs Answer
unfolding create_or_open file_open
open_path path omode = do
  r ← create_or_open path omode
  elim r [
    | failed x ↦ done (failed x)
    | got f ↦ do
      t ← if has_flag o_trunc omode then file_set_size f 0 else done (got 0)
      elim t [ failed x ↦ done (failed x) | got _ ↦ file_open path ]
  ]

-- The entry and its page, filled in.
abbrev pub set_open : ℕ → ℕ → ℕ → Server → Server
set_open i f omode s = record s {
  opentab = update s.opentab i (record (s.opentab i) { o_file = f; o_mode = omode });
  fds = update s.fds i (record (s.fds i) {
    fd_dev_id = devfile_dev_id;
    fd_omode = bit_and omode o_accmode;
    id = (s.opentab i).o_fileid;
  });
}

abbrev pub opened : ℕ → ℕ → Answer → Server → Served Reply
opened i omode (failed x) s = served (only (negative (code x))) s
opened i omode (got f) s =
    served (record { word = 0; ret_buf = []; pg_store = some i }) (set_open i f omode s)

-- serve_open once it has an entry; an id of more than 31 bits is taken for an error.
unfoldable pub open_entry : ℕ → List ℕ → ℕ → Server → Served Reply
unfolding open_path
open_entry i path omode s =
    if is_negative (s.opentab i).o_fileid
    then served (only (s.opentab i).o_fileid) s
    else on_disk (open_path (take (1024 - 1) path) omode s.disk) s (opened i omode)

unfoldable pub serve_open : List ℕ → ℕ → Server → Served Reply
unfolding openfile_alloc open_entry
serve_open path omode s = elim (openfile_alloc s) [
  | no_entry r ↦ served (only r) s
  | entry i t ↦ open_entry i path omode t
]

-- A request that names a file id.
abbrev pub with_open : ℕ → Server → (ℕ → Served Reply) → Served Reply
with_open fileid s f = elim (openfile_lookup fileid s) [
  | none ↦ served (only (negative e_inval)) s
  | some i ↦ f i
]

unfoldable pub serve_set_size : ℕ → ℕ → Server → Served Reply
unfolding openfile_lookup
serve_set_size fileid size s = with_open fileid s (λ i.
    on_disk (file_set_size (s.opentab i).o_file size s.disk) s (λ a t. served (only (to_word a)) t))

-- `o_fd->fd_offset += r`
abbrev pub advance : ℕ → ℕ → Server → Server
advance i r s = record s {
  fds = update s.fds i (record (s.fds i) { fd_offset = ((s.fds i).fd_offset + r) % u32_mod });
}

-- The bytes were put into the request page.
abbrev pub into_page : List ℕ → Server → Served Reply → Served Reply
into_page l s r = if ltb 4096 (length l) then overrun s else r

abbrev pub read_reply : ℕ → Answer × List ℕ → Server → Served Reply
read_reply i (failed x, l) s =
    into_page l s (served (record (only (negative (code x))) { ret_buf = l }) s)
read_reply i (got n, l) s =
    into_page l (advance i n s) (served (record (only n) { ret_buf = l }) (advance i n s))

-- `req_n` is not limited to the page.
unfoldable pub serve_read : ℕ → ℕ → Server → Served Reply
unfolding openfile_lookup file_read
serve_read fileid req_n s = with_open fileid s (λ i.
    on_disk (file_read (s.opentab i).o_file req_n (s.fds i).fd_offset s.disk) s (read_reply i))

-- The room for bytes in a request to write.
abbrev pub req_buf_size : ℕ
req_buf_size = 4096 - (4 + 4)

-- `nbytes` is unsigned, so that `nbytes >= 0` holds of errors, too.
unfoldable pub serve_write : ℕ → ℕ → List ℕ → Server → Served Reply
unfolding openfile_lookup file_write
serve_write fileid req_n req_buf s =
    let nbytes : ℕ = min req_n req_buf_size in
    with_open fileid s (λ i.
      on_disk
        (file_write (s.opentab i).o_file nbytes (s.fds i).fd_offset (take nbytes req_buf) s.disk) s
        (λ a t. served (only (to_word a)) (advance i (to_word a) t)))

unfoldable pub serve_flush : ℕ → Server → Served Reply
unfolding openfile_lookup file_flush
serve_flush fileid s =
    with_open fileid s
      (λ i. on_disk (file_flush (s.opentab i).o_file s.disk) s (λ _ t. served (only 0) t))

unfoldable pub serve_sync : Server → Served Reply
unfolding sync_loop
serve_sync s = on_disk (fs_sync s.disk) s (λ _ t. served (only 0) t)

-- The requests with a handler here, all but `stat`; `remove` has none in the source.
pub data Fsipc : Type 0 where
  open_req : (req_path : List ℕ) (req_omode : ℕ) → Fsipc
  set_size_req : (req_fileid req_size : ℕ) → Fsipc
  read_req : (req_fileid req_n : ℕ) → Fsipc
  write_req : (req_fileid req_n : ℕ) (req_buf : List ℕ) → Fsipc
  flush_req : (req_fileid : ℕ) → Fsipc
  sync_req : Fsipc
  remove_req : (req_path : List ℕ) → Fsipc

-- A round of serve up to ipc_send, for a request with its page; serve ignores one without.
unfoldable pub serve : Fsipc → Server → Served Reply
unfolding serve_open serve_set_size serve_read serve_write serve_flush serve_sync
serve (open_req path omode) s = serve_open path omode s
serve (set_size_req fileid size) s = serve_set_size fileid size s
serve (read_req fileid n) s = serve_read fileid n s
serve (write_req fileid n buf) s = serve_write fileid n buf s
serve (flush_req fileid) s = serve_flush fileid s
serve sync_req s = serve_sync s
serve (remove_req path) s = served (only (negative e_inval)) s
