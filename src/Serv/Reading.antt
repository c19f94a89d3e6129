-- ===== src/Serv/Reading.antt =====
-- What serve_read reads, one request after the other.
use jos_kernel.Base.{
  List, [], arith, min, none, refl, some, ℕ, ◌++◌, ◌+◌, ◌-◌, ◌<◌, ◌^◌, ◌∷◌, ◌≡◌, ==_self, ap, subst,
  sym, ◌∙◌, false, if-false, length, le→ltb, ltb, suc, zero, ◌≤◌,
}
use jos_kernel.Fs.{f_size}
use jos_kernel.Fs.File.Data.{file_bytes, file_bytes-append}
use jos_kernel.Fs.File.Reading.{HasBlocks, file_read_lem}
use jos_kernel.Kernel.Layout.{u32_mod}
use jos_kernel.Serv.{
  Served, Server, advance, openfile_lookup, serve_read, served, server_panicked, with_open, Reply,
  overrun,
}

-- Requests of at most a page.
abbrev pub AreShort : List ℕ → Type 0
AreShort [] = Unit {0}
AreShort (n ∷ ns) = (n ≤ 4096) × AreShort ns

length-file_bytes : (ptr m : ℕ → ℕ) (i n : ℕ) → length (file_bytes ptr m i n) ≡ n
length-file_bytes ptr m i zero = refl
length-file_bytes ptr m i (suc n) = ap suc (length-file_bytes ptr m (i + 1) n)

module _ (s : Server) (fileid i : ℕ) (ptr : ℕ → ℕ) (is_open : openfile_lookup fileid s ≡ some i)
    (blocks : HasBlocks (s.opentab i).o_file ptr s.disk) where
  -- The bytes that a request of `n` bytes gets.
  abbrev available : ℕ → ℕ
  available n = min n (s.disk.mem (f_size (s.opentab i).o_file) - (s.fds i).fd_offset)

  pub serve_read-open :
      (n : ℕ)
      → n ≤ 4096
      → serve_read fileid n s
        ≡ served
            (record {
              word = available n;
              ret_buf = file_bytes ptr s.disk.mem (s.fds i).fd_offset (available n);
              pg_store = none;
            })
            (advance i (available n) s)
  unfolding serve_read
  serve_read-open n small =
      let fits : ltb 4096 (length (file_bytes ptr s.disk.mem (s.fds i).fd_offset (available n)))
          ≡ false =
        le→ltb _ _
          (omega (arith, length-file_bytes ptr s.disk.mem (s.fds i).fd_offset (available n))) in
      let r = file_read_lem (s.opentab i).o_file ptr n (s.fds i).fd_offset s.disk blocks in
      rw (with_open, is_open) (rw r (if-false _ fits))

openfile_lookup-advance :
    (fileid i k : ℕ) (s : Server)
    → openfile_lookup fileid (advance i k s) ≡ openfile_lookup fileid s
unfolding openfile_lookup
openfile_lookup-advance fileid i k s = refl

advance-offset :
    (i k : ℕ) (s : Server)
    → (s.fds i).fd_offset + k < u32_mod
    → ((advance i k s).fds i).fd_offset ≡ (s.fds i).fd_offset + k
advance-offset i k s low = let here = ==_self i in rw here (omega arith)

-- The bytes of some requests of a client, one after the other.
abbrev pub serve_reads : ℕ → List ℕ → Server → Served (List ℕ)
serve_reads fileid [] s = served [] s
serve_reads fileid (n ∷ ns) s = elim (serve_read fileid n s) [
  | server_panicked ↦ server_panicked
  | overrun t ↦ overrun t
  | served reply t ↦ elim (serve_reads fileid ns t) [
    | server_panicked ↦ server_panicked
    | overrun u ↦ overrun u
    | served l u ↦ served (reply.ret_buf ++ l) u
  ]
]

serve_reads-cons :
    (fileid n : ℕ) (ns l : List ℕ) (reply : Reply) (s t u : Server)
    → serve_read fileid n s ≡ served reply t
    → serve_reads fileid ns t ≡ served l u
    → serve_reads fileid (n ∷ ns) s ≡ served (reply.ret_buf ++ l) u
serve_reads-cons fileid n ns l reply s t u e e' = ap first_then e ∙ ap and_then e'
  where
    first_then : Served Reply → Served (List ℕ)
    first_then r = elim r [
      | server_panicked ↦ server_panicked
      | overrun t ↦ overrun t
      | served reply t ↦ elim (serve_reads fileid ns t) [
        | server_panicked ↦ server_panicked
        | overrun u ↦ overrun u
        | served l u ↦ served (reply.ret_buf ++ l) u
      ]
    ]

    and_then : Served (List ℕ) → Served (List ℕ)
    and_then r = elim r [
      | server_panicked ↦ server_panicked
      | overrun u ↦ overrun u
      | served l u ↦ served (reply.ret_buf ++ l) u
    ]

abbrev pub sum : List ℕ → ℕ
sum [] = 0
sum (n ∷ ns) = n + sum ns

-- For an open file whose bytes are all in direct blocks that are present, any requests to read, each of
-- at most a page, one after the other get, together, the bytes from the file's offset on: as many as they ask for, or up to the
-- end of the file. The offset ends behind them, and the disk is not changed.
pub serve_reads-file_bytes :
    (ns : List ℕ) (s : Server) (fileid i : ℕ) (ptr : ℕ → ℕ)
    → openfile_lookup fileid s ≡ some i
    → HasBlocks (s.opentab i).o_file ptr s.disk
    → (s.fds i).fd_offset < 2 ^ 31
    → AreShort ns
    → let total : ℕ =
        min (sum ns) (s.disk.mem (f_size (s.opentab i).o_file) - (s.fds i).fd_offset) in
      (t : Server) × (serve_reads fileid ns s
        ≡ served (file_bytes ptr s.disk.mem (s.fds i).fd_offset total) t)
      × ((t.fds i).fd_offset ≡ (s.fds i).fd_offset + total)
      × (t.disk ≡ s.disk)
serve_reads-file_bytes [] s fileid i ptr is_open blocks low short =
    let z : min 0 (s.disk.mem (f_size (s.opentab i).o_file) - (s.fds i).fd_offset) ≡ 0 =
      omega arith in
    (s, rw z refl, omega arith, refl)
serve_reads-file_bytes (n ∷ ns) s fileid i ptr is_open blocks low (one, short) =
    let size : ℕ = s.disk.mem (f_size (s.opentab i).o_file) in
    let off : ℕ = (s.fds i).fd_offset in
    let k : ℕ = min n (size - off) in
    let small : off + k < 2 ^ 31 = omega (arith, blocks.direct) in
    let moved = advance-offset i k s (omega arith) in
    let (t, e, o, d) =
      serve_reads-file_bytes ns (advance i k s) fileid i ptr
        (openfile_lookup-advance fileid i k s ∙ is_open) blocks (omega (arith, moved)) short in
    let first = serve_read-open s fileid i ptr is_open blocks n one in
    let left_over : ℕ = min (sum ns) (size - (off + k)) in
    let split_total : min (n + sum ns) (size - off) ≡ k + left_over = omega arith in
    let e' =
      subst
        (λ q.
          serve_reads fileid ns (advance i k s)
          ≡ served (file_bytes ptr s.disk.mem q (min (sum ns) (size - q))) t)
        moved e in
    (
      t,
      serve_reads-cons fileid n ns (file_bytes ptr s.disk.mem (off + k) left_over)
            (record { word = k; ret_buf = file_bytes ptr s.disk.mem off k; pg_store = none }) s
            (advance i k s) t first e'
          ∙ ap (λ l. served l t)
              (sym (file_bytes-append ptr s.disk.mem off k left_over)
                ∙ ap (file_bytes ptr s.disk.mem off) (sym split_total)),
      omega (arith, o, moved, split_total),
      d,
    )
