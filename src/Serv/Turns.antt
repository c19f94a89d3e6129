-- ===== src/Serv/Turns.antt =====
-- The server with its clients: the requests that it serves, and what the clients do with the Fd pages that
-- they share with it.
use jos_kernel.Base.{
  ==_iff, Option, ap, arith, inl, inr, none, some, subst, sym, update, ℕ, ◌+◌, ◌-◌, ◌≡◌, ◌≤◌, refl,
  ==_ne, ==_self, lt-or-le, suc, zero, ◌<◌, ◌∙◌, lt→leb,
}
use jos_kernel.Fs.{Disk}
use jos_kernel.Serv.{
  openfile_lookup, Fd, Fsipc, Reply, Server, maxopen, serve, serve_init, served, unused_entry,
  OpenFile, overrun,
}
use jos_kernel.Serv.Leaves.{Leaves, Leaving, serve-Leaving, opentab-Leaves}
use jos_kernel.Serv.Table.{InPlace}

-- ipc_send maps the page of the reply in the client.
abbrev pub sent : Option ℕ → Server → Server
sent none s = s
sent (some i) s = record s { refs = update s.refs i (s.refs i + 1) }

-- A request with its reply, and with any disk after a read that overran its page; a client shares the page of an open file with another environment,
-- unmaps it, or writes to it.
pub data Turn (s : Server) : Server → Type 0 where
  request :
      (r : Fsipc) {t : Server} {reply : Reply}
      → serve r s ≡ served reply t
      → Turn s (sent reply.pg_store t)
  overran :
      (r : Fsipc) {t : Server}
      → serve r s ≡ overrun t
      → (disk : Disk) → Turn s (record t { disk = disk })
  share : (i : ℕ) → 2 ≤ s.refs i → Turn s (record s { refs = update s.refs i (s.refs i + 1) })
  unmap : (i : ℕ) → 2 ≤ s.refs i → Turn s (record s { refs = update s.refs i (s.refs i - 1) })
  store : (i : ℕ) (fd : Fd) → 2 ≤ s.refs i → Turn s (record s { fds = update s.fds i fd })

-- The turns while some client holds the page of entry `i`.
pub data WhileHeld (i : ℕ) (s : Server) : Server → Type 0 where
  no_turn : WhileHeld i s s
  then_turn : {t u : Server} → WhileHeld i s t → 2 ≤ t.refs i → Turn t u → WhileHeld i s u

-- serve_init on the table before main, with no Fd page mapped.
pub data Runs : Server → Type 0 where
  at_first :
      (free_pages : ℕ) (disk : Disk)
      → Runs (record {
        opentab = serve_init maxopen 0 unused_entry;
        fds = λ i. record { fd_dev_id = 0; fd_offset = 0; fd_omode = 0; id = 0 };
        refs = λ i. 0;
        free_pages = free_pages;
        disk = disk;
      })
  next : {s t : Server} → Runs s → Turn s t → Runs t

Leaves-InPlace : (s t : Server) → Leaves s t → InPlace s → InPlace t
Leaves-InPlace s t v h i low =
    let (at_i, word) = h i low in
    elim (v.ids i) [
      | inl as_before ↦ rw as_before (at_i, word)
      | inr next_id ↦ rw next_id (omega (arith, at_i), omega arith)
    ]

Turn-Leaves : (s t : Server) → Turn s t → Leaves s t
Turn-Leaves s u (Turn.request r {t} {reply} e) =
    go reply.pg_store (subst (Leaving s) e (serve-Leaving r s))
  where
    go : (pg : Option ℕ) → Leaving s (served reply t) → Leaves s (sent pg t)
    go none (Leaving.goes_on v) = v
    go (some i) (Leaving.goes_on v) = record { ids = v.ids; held = v.held }
Turn-Leaves s u (Turn.overran r {t} e disk) = go (subst (Leaving s) e (serve-Leaving r s))
  where
    go : Leaving s (overrun t) → Leaves s (record t { disk = disk })
    go (Leaving.overruns v) = record { ids = v.ids; held = v.held }
Turn-Leaves s t (Turn.share i two) = opentab-Leaves s t refl
Turn-Leaves s t (Turn.unmap i two) = opentab-Leaves s t refl
Turn-Leaves s t (Turn.store i fd two) = opentab-Leaves s t refl

serve_init-before : (n i k : ℕ) (tab : ℕ → OpenFile) → k < i → serve_init n i tab k ≡ tab k
unfolding serve_init
serve_init-before zero i k tab before = refl
serve_init-before (suc n) i k tab before =
    let ne = ==_ne k i (λ e. omega arith) in
    serve_init-before n (i + 1) k (update tab i (record (tab i) { o_fileid = i })) (omega arith)
    ∙ (rw ne refl)

serve_init_lem :
    (n i k : ℕ) (tab : ℕ → OpenFile) → i ≤ k → k < i + n → (serve_init n i tab k).o_fileid ≡ k
unfolding serve_init
serve_init_lem zero i k tab lo hi = absurd (omega arith)
serve_init_lem (suc n) i k tab lo hi =
    let next_tab = update tab i (record (tab i) { o_fileid = i }) in
    elim (lt-or-le i k) [
      | inl later ↦ serve_init_lem n (i + 1) k next_tab (omega arith) (omega arith)
      | inr at_i ↦
          let e : k ≡ i = omega arith in
          ap (λ x. x.o_fileid) (serve_init-before n (i + 1) k next_tab (omega arith))
          ∙ (rw ((==_iff k i).1 e) (sym e))
    ]

-- The ids of the table stay in their places, whatever the clients do.
pub Runs-InPlace : (s : Server) → Runs s → InPlace s
Runs-InPlace s (Runs.at_first free_pages disk) i low =
    let e = serve_init_lem maxopen 0 i unused_entry (omega arith) low in
    rw e (omega arith, omega arith)
Runs-InPlace s (Runs.next {s = s0} r turn) i low =
    Leaves-InPlace s0 s (Turn-Leaves s0 s turn) (Runs-InPlace s0 r) i low

WhileHeld-entry : (i : ℕ) (s t : Server) → WhileHeld i s t → t.opentab i ≡ s.opentab i
WhileHeld-entry i s t WhileHeld.no_turn = refl
WhileHeld-entry i s u (WhileHeld.then_turn {t = t} w two turn) =
    (Turn-Leaves t u turn).held i two ∙ WhileHeld-entry i s t w

-- From any state of the running server, and whatever requests to open, set the size, read, write, flush, sync or
-- remove it serves, also when a read overruns its page, and whatever its clients do as long as some client holds the Fd page of entry `i`: the id of the entry is that of the same file,
-- opened in the same mode, and openfile_lookup finds the entry by it.
pub open_file-stays :
    (s t : Server) (i : ℕ)
    → Runs s
    → i < maxopen
    → WhileHeld i s t
    → 2 ≤ t.refs i
    → (openfile_lookup (s.opentab i).o_fileid t ≡ some i) × (t.opentab i ≡ s.opentab i)
unfolding openfile_lookup
open_file-stays s t i r low w two =
    let same_entry = WhileHeld-entry i s t w in
    let (at_i, word) = Runs-InPlace s r i low in
    (rw at_i (rw (lt→leb (t.refs i) 1 two, same_entry, ==_self (s.opentab i).o_fileid)), same_entry)
