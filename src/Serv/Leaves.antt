-- ===== src/Serv/Leaves.antt =====
-- What the requests leave of the table.
use jos_kernel.Base.{
  ==_false, ==_iff, Bool-cases, List, Option-cases, ap, arith, inl, inr, min, refl, subst, sym, ℕ,
  ◌%◌, ◌+◌, ◌-◌, ◌==◌, ◌≡◌, ◌≢◌, ◌≤◌, ◌⊎◌, length, ltb,
}
use jos_kernel.Fs.{Answer, Disk, Run, done, failed, file_set_size, got, panicked, fs_sync}
use jos_kernel.Fs.Bytes.{take}
use jos_kernel.Fs.Dir.{file_flush}
use jos_kernel.Fs.File.{file_read, file_write}
use jos_kernel.Kernel.Layout.{u32_mod}
use jos_kernel.Serv.{
  openfile_alloc, open_path, open_entry, opened, openfile_lookup, Alloc, Fsipc, Reply, Served,
  Server, advance, entry, is_negative, maxopen, no_entry, on_disk, only, read_reply, req_buf_size,
  serve, serve_flush, serve_open, serve_read, serve_set_size, serve_write, served, server_panicked,
  set_open, to_word, with_open, into_page, overrun, serve_sync,
}
use jos_kernel.Serv.Table.{Handed, Outcome, openfile_alloc_lem}

-- What a request leaves of the table: the ids, but that an entry may have its next one, and each entry
-- whose page a client holds.
pub record Leaves (s t : Server) : Type 0 where
  pub ids :
      (j : ℕ)
      → ((t.opentab j).o_fileid ≡ (s.opentab j).o_fileid)
        ⊎ ((t.opentab j).o_fileid ≡ ((s.opentab j).o_fileid + maxopen) % u32_mod)
  pub held : (j : ℕ) → 2 ≤ s.refs j → t.opentab j ≡ s.opentab j

pub data Leaving (s : Server) : Served Reply → Type 0 where
  goes_on : {reply : Reply} {t : Server} → Leaves s t → Leaving s (served reply t)
  panics : Leaving s server_panicked
  overruns : {t : Server} → Leaves s t → Leaving s (overrun t)

pub opentab-Leaves : (s t : Server) → t.opentab ≡ s.opentab → Leaves s t
opentab-Leaves s t e = record {
  ids = λ j. inl (ap (λ tab. (tab j).o_fileid) e);
  held = λ j two. ap (λ tab. tab j) e;
}

Handed-Leaves : (s t : Server) (i : ℕ) → Handed s i t → Leaves s t
Handed-Leaves s t i h = record {
  ids = λ j. elim (Bool-cases (j == i)) [
    | inl here ↦
        let e : i ≡ j = sym ((==_iff j i).0 here) in
        inr (
          subst (λ k. (t.opentab k).o_fileid ≡ ((s.opentab k).o_fileid + maxopen) % u32_mod) e
            h.new_id)
    | inr other ↦ inl (ap (λ x. x.o_fileid) (h.others j (==_false j i other)).0)
  ];
  held = λ j two. (h.others j (λ e. held_ne h two e)).0;
}
  where
    held_ne : {i j : ℕ} → Handed s i t → 2 ≤ s.refs j → j ≢ i
    held_ne {i} {j} h two e =
        let q : i ≡ j = sym e in
        let one = subst (λ k. s.refs k ≤ 1) q h.not_held in absurd (omega arith)

set_open-Leaves :
    (s t : Server) (i f omode : ℕ) → s.refs i ≤ 1 → Leaves s t → Leaves s (set_open i f omode t)
set_open-Leaves s t i f omode not_held v = record {
  ids = λ j. elim (Bool-cases (j == i)) [
    | inl here ↦
        let e : i ≡ j = sym ((==_iff j i).0 here) in
        rw here (
          subst
            (λ k.
              ((t.opentab i).o_fileid ≡ (s.opentab k).o_fileid)
              ⊎ ((t.opentab i).o_fileid ≡ ((s.opentab k).o_fileid + maxopen) % u32_mod))
            e (v.ids i))
    | inr other ↦ rw other (v.ids j)
  ];
  held = λ j two. elim (Bool-cases (j == i)) [
    | inl here ↦
        let e : i ≡ j = sym ((==_iff j i).0 here) in
        let one = subst (λ k. s.refs k ≤ 1) e not_held in absurd (omega arith)
    | inr other ↦ rw other (v.held j two)
  ];
}

on_disk-Leaving :
    {A : Type 0} (s t : Server) (r : Run A) (f : A → Server → Served Reply)
    → ((a : A) (d : Disk) → Leaving s (f a (record t { disk = d })))
    → Leaving s (on_disk r t f)
on_disk-Leaving s t (done a d) f h = h a d
on_disk-Leaving s t panicked f h = Leaving.panics

with_open-Leaving :
    (fileid : ℕ) (s : Server) (f : ℕ → Served Reply)
    → ((i : ℕ) → Leaving s (f i))
    → Leaving s (with_open fileid s f)
with_open-Leaving fileid s f h = elim (Option-cases (openfile_lookup fileid s)) [
  | inl nothing ↦ rw (with_open, nothing) (Leaving.goes_on (opentab-Leaves s s refl))
  | inr (i, e) ↦ rw (with_open, e) (h i)
]

opened-Leaving :
    (s t : Server) (i omode : ℕ) (a : Answer)
    → s.refs i ≤ 1
    → Leaves s t
    → Leaving s (opened i omode a t)
opened-Leaving s t i omode (failed x) not_held v = Leaving.goes_on v
opened-Leaving s t i omode (got f) not_held v =
    Leaving.goes_on (set_open-Leaves s t i f omode not_held v)

open_entry-Leaving :
    (s t : Server) (i omode : ℕ) (path : List ℕ)
    → s.refs i ≤ 1
    → Leaves s t
    → Leaving s (open_entry i path omode t)
unfolding open_entry
open_entry-Leaving s t i omode path not_held v =
    elim (Bool-cases (is_negative (t.opentab i).o_fileid)) [
      | inl large ↦ rw large (Leaving.goes_on v)
      | inr fine ↦ rw fine (
          on_disk-Leaving s t (open_path (take (1024 - 1) path) omode t.disk) (opened i omode)
            (λ a d.
              opened-Leaving s (record t { disk = d }) i omode a not_held
                (record { ids = v.ids; held = v.held })))
    ]

serve_open-Leaving : (s : Server) (path : List ℕ) (omode : ℕ) → Leaving s (serve_open path omode s)
unfolding serve_open
serve_open-Leaving s path omode = go (openfile_alloc s) (openfile_alloc_lem s)
  where
    go :
        (r : Alloc)
        → Outcome s r
        → Leaving s
            (elim r [ no_entry w ↦ served (only w) s | entry i t ↦ open_entry i path omode t ])
    go r (Outcome.handed {i} {t} h) =
        open_entry-Leaving s t i omode path h.not_held (Handed-Leaves s t i h)
    go r (Outcome.no_page i low zero_refs before empty) = Leaving.goes_on (opentab-Leaves s s refl)
    go r (Outcome.all_open all) = Leaving.goes_on (opentab-Leaves s s refl)

into_page-Leaving :
    (s t : Server) (l : List ℕ) (r : Served Reply)
    → Leaves s t
    → Leaving s r
    → Leaving s (into_page l t r)
into_page-Leaving s t l r v h = elim (Bool-cases (ltb 4096 (length l))) [
  | inl long ↦ rw long (Leaving.overruns v)
  | inr short ↦ rw short h
]

read_reply-Leaving :
    (s t : Server) (i : ℕ) (a : Answer × List ℕ)
    → t.opentab ≡ s.opentab
    → Leaving s (read_reply i a t)
read_reply-Leaving s t i (failed x, l) e =
    into_page-Leaving s t l _ (opentab-Leaves s t e) (Leaving.goes_on (opentab-Leaves s t e))
read_reply-Leaving s t i (got n, l) e =
    into_page-Leaving s (advance i n t) l _ (opentab-Leaves s (advance i n t) e)
      (Leaving.goes_on (opentab-Leaves s (advance i n t) e))

-- A call of fs.c for an open file.
called-Leaving :
    {A : Type 0} (fileid : ℕ) (s : Server) (run : ℕ → Run A) (f : ℕ → A → Server → Served Reply)
    → ((i : ℕ) (a : A) (d : Disk) → Leaving s (f i a (record s { disk = d })))
    → Leaving s (with_open fileid s (λ i. on_disk (run i) s (f i)))
called-Leaving fileid s run f h =
    with_open-Leaving fileid s (λ i. on_disk (run i) s (f i))
      (λ i. on_disk-Leaving s s (run i) (f i) (h i))

-- What every request leaves.
pub serve-Leaving : (r : Fsipc) (s : Server) → Leaving s (serve r s)
unfolding serve serve_set_size serve_read serve_write serve_flush serve_sync
serve-Leaving (Fsipc.open_req path omode) s = serve_open-Leaving s path omode
serve-Leaving (Fsipc.set_size_req fileid size) s =
    called-Leaving {A = Answer} fileid s (λ i. file_set_size (s.opentab i).o_file size s.disk)
      (λ i a t. served (only (to_word a)) t)
      (λ i a d.
        Leaving.goes_on {reply = only (to_word a)} (opentab-Leaves s (record s { disk = d }) refl))
serve-Leaving (Fsipc.read_req fileid n) s =
    called-Leaving {A = Answer × List ℕ} fileid s
      (λ i. file_read (s.opentab i).o_file n (s.fds i).fd_offset s.disk) read_reply
      (λ i a d. read_reply-Leaving s (record s { disk = d }) i a refl)
serve-Leaving (Fsipc.write_req fileid n buf) s =
    let nbytes : ℕ = min n req_buf_size in
    called-Leaving {A = Answer} fileid s
      (λ i. file_write (s.opentab i).o_file nbytes (s.fds i).fd_offset (take nbytes buf) s.disk)
      (λ i a t. served (only (to_word a)) (advance i (to_word a) t))
      (λ i a d.
        Leaving.goes_on {reply = only (to_word a)}
          (opentab-Leaves s (advance i (to_word a) (record s { disk = d })) refl))
serve-Leaving (Fsipc.flush_req fileid) s =
    called-Leaving {A = Unit {0}} fileid s (λ i. file_flush (s.opentab i).o_file s.disk)
      (λ i a t. served (only 0) t)
      (λ i a d. Leaving.goes_on {reply = only 0} (opentab-Leaves s (record s { disk = d }) refl))
serve-Leaving Fsipc.sync_req s =
    on_disk-Leaving {A = Unit {0}} s s (fs_sync s.disk) (λ _ t. served (only 0) t)
      (λ a d. Leaving.goes_on {reply = only 0} (opentab-Leaves s (record s { disk = d }) refl))
serve-Leaving (Fsipc.remove_req path) s = Leaving.goes_on (opentab-Leaves s s refl)
