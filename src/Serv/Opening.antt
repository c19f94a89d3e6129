-- ===== src/Serv/Opening.antt =====
-- From serve_open to the first serve_read.
use jos_kernel.Base.{
  ==_self, List, [], ap, arith, false, leb, lt→leb, min, none, refl, some, subst, ℕ, ◌%◌, ◌+◌, ◌-◌,
  ◌<◌, ◌^◌, ◌∙◌, ◌≡◌, sym, ◌≤◌,
}
use jos_kernel.Fs.{Disk, done, f_size, got}
use jos_kernel.Fs.Bytes.{take}
use jos_kernel.Fs.File.Data.{file_bytes}
use jos_kernel.Fs.File.Reading.{HasBlocks}
use jos_kernel.Serv.{
  Reply, Server, entry, maxopen, open_entry, open_path, openfile_alloc, openfile_lookup, serve_open,
  serve_read, served, set_open, advance,
}
use jos_kernel.Serv.Reading.{serve_read-open}
use jos_kernel.Serv.Table.{Handed, InPlace, Outcome, openfile_alloc_lem}
use jos_kernel.Serv.Turns.{sent}

-- A reply with `n` bytes.
abbrev pub read_bytes : ℕ → List ℕ → Reply
read_bytes n l = record { word = n; ret_buf = l; pg_store = none }

module _ (s t : Server) (i f : ℕ) (path : List ℕ) (omode : ℕ) (d : Disk) (ids : InPlace s)
    (alloc : openfile_alloc s ≡ entry i t) (positive : (t.opentab i).o_fileid < 2 ^ 31)
    (file : open_path (take (1024 - 1) path) omode s.disk ≡ done (got f) d) where
  alloc-Handed : Handed s i t
  alloc-Handed = go (subst (Outcome s) alloc (openfile_alloc_lem s))
    where
      go : Outcome s (entry i t) → Handed s i t
      go (Outcome.handed h) = h

  -- The server after the reply.
  abbrev opened_server : Server
  opened_server = sent (some i) (set_open i f omode (record t { disk = d }))

  pub serve_open-opens :
      serve_open path omode s
      ≡ served
          (record { word = 0; ret_buf = []; pg_store = some i })
          (set_open i f omode (record t { disk = d }))
  unfolding serve_open open_entry
  serve_open-opens =
      let fine = lt→leb (2 ^ 31) (t.opentab i).o_fileid positive in
      let at_disk =
        ap (λ x. open_path (take (1024 - 1) path) omode x) alloc-Handed.same_disk ∙ file in
      rw (serve_open, alloc) (rw fine (rw at_disk refl))

  id_in_place : (t.opentab i).o_fileid % maxopen ≡ i
  id_in_place =
      let (at_i, low) = ids i alloc-Handed.in_table in omega (arith, alloc-Handed.new_id, at_i)

  opened_server-lookup : openfile_lookup (t.opentab i).o_fileid opened_server ≡ some i
  unfolding openfile_lookup
  opened_server-lookup =
      let here = ==_self i in
      let held : leb (t.refs i + 1) 1 ≡ false = ground (arith, alloc-Handed.own) in
      let same_id = ==_self (t.opentab i).o_fileid in
      rw (id_in_place, here) (rw (held, same_id) refl)

  -- If openfile_alloc hands out an entry, with an id of at most 31 bits, and the path names a file when it
  -- has been created and truncated as the mode asks, serve_open replies 0 with the Fd page of the entry.
  -- The client that has mapped the page reads, with the id that stands in it and a request of at most
  -- a page, the file from its first byte on.
  pub serve_open-serve_read :
      (ptr : ℕ → ℕ) (n : ℕ)
      → HasBlocks f ptr d
      → n ≤ 4096
      → let k : ℕ = min n (d.mem (f_size f)) in
        (u : Server) × (reply : Reply) × (t' : Server) × (serve_open path omode s ≡ served reply u)
        × (reply.word ≡ 0)
        × (reply.pg_store ≡ some i)
        × (serve_read (u.fds i).id n (sent reply.pg_store u)
            ≡ served (read_bytes k (file_bytes ptr d.mem 0 k)) t')
  serve_open-serve_read ptr n blocks small =
      let here = ==_self i in
      let file_now : (opened_server.opentab i).o_file ≡ f = rw here refl in
      let id_now : (opened_server.fds i).id ≡ (t.opentab i).o_fileid = rw here refl in
      let offset_now : (opened_server.fds i).fd_offset ≡ 0 = rw here alloc-Handed.at_start in
      let k : ℕ = min n (d.mem (f_size f)) in
      let blocks' = subst (λ g. HasBlocks g ptr d) (sym file_now) blocks in
      let reads =
        serve_read-open opened_server (t.opentab i).o_fileid i ptr opened_server-lookup blocks' n
          small in
      let amount : min n
            (d.mem (f_size (opened_server.opentab i).o_file) - (opened_server.fds i).fd_offset)
          ≡ k =
        rw (file_now, offset_now) (omega arith) in
      let last : Server =
        advance i
          (min n
            (d.mem (f_size (opened_server.opentab i).o_file) - (opened_server.fds i).fd_offset))
          opened_server in
      (
        set_open i f omode (record t { disk = d }),
        record { word = 0; ret_buf = []; pg_store = some i },
        last,
        serve_open-opens,
        refl,
        refl,
        ap (λ q. serve_read q n opened_server) id_now
            ∙ reads
            ∙ ap
                (λ q.
                  served (read_bytes q (file_bytes ptr d.mem (opened_server.fds i).fd_offset q))
                    last)
                amount
            ∙ ap (λ o. served (read_bytes k (file_bytes ptr d.mem o k)) last) offset_now,
      )
