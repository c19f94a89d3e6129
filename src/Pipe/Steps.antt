-- ===== src/Pipe/Steps.antt =====
-- One process in devpipe_read and one in devpipe_write, an access to the shared buffer at a time.
use jos_kernel.Base.{List, [], false, true, ℕ, ◌++◌, ◌+◌, ◌<◌, ◌∷◌, ◌≡◌, ◌≤◌}
use jos_kernel.Pipe.{Pipe, advance_read, advance_write, is_empty, is_full, next_byte, store_byte}

-- Where devpipe_read stands: in no call with the result of the last, at the head of its loops with
-- `n` and `i`, past the empty test, or with a byte copied and `p_rpos` not yet moved.
pub data Reader : Type 0 where
  read_done : (count : ℕ) → Reader
  read_head : (n i : ℕ) → Reader
  read_ready : (n i : ℕ) → Reader
  read_took : (n i b : ℕ) → Reader

-- Where devpipe_write stands, with the bytes left to write.
pub data Writer : Type 0 where
  write_done : (count : ℕ) → Writer
  write_head : (rest : List ℕ) (i : ℕ) → Writer
  write_ready : (b : ℕ) (rest : List ℕ) (i : ℕ) → Writer
  write_stored : (b : ℕ) (rest : List ℕ) (i : ℕ) → Writer

-- The pipe, the two processes, and the bytes that the writer has written and the reader has read
-- since the start.
pub record System : Type 0 where
  pub pipe : Pipe
  pub reader : Reader
  pub writer : Writer
  pub sent : List ℕ
  pub received : List ℕ

-- A step of the reader. A call that waits on an empty pipe goes round its loop; whether it finds all
-- writers gone is left open.
pub data Read (s : System) : Reader → System → Type 0 where
  call : {c n : ℕ} → Read s (read_done c) (record s { reader = read_head n 0 })
  complete : {n i : ℕ} → n ≤ i → Read s (read_head n i) (record s { reader = read_done i })
  some_data :
      {n i : ℕ}
      → i < n
      → is_empty s.pipe ≡ false
      → Read s (read_head n i) (record s { reader = read_ready n i })
  no_more :
      {n i : ℕ}
      → i < n
      → is_empty s.pipe ≡ true
      → 0 < i
      → Read s (read_head n i) (record s { reader = read_done i })
  end_of_file :
      {n i : ℕ}
      → i < n
      → is_empty s.pipe ≡ true
      → i ≡ 0
      → Read s (read_head n i) (record s { reader = read_done 0 })
  wait :
      {n i : ℕ}
      → i < n
      → is_empty s.pipe ≡ true
      → i ≡ 0
      → Read s (read_head n i) (record s { reader = read_head n i })
  take_byte :
      {n i : ℕ} → Read s (read_ready n i) (record s { reader = read_took n i (next_byte s.pipe) })
  advance :
      {n i b : ℕ}
      → Read s (read_took n i b) (record s {
        reader = read_head n (i + 1);
        pipe = advance_read s.pipe;
        received = s.received ++ (b ∷ []);
      })

-- A step of the writer.
pub data Write (s : System) : Writer → System → Type 0 where
  call :
      {c : ℕ} {bytes : List ℕ} → Write s (write_done c) (record s { writer = write_head bytes 0 })
  complete : {i : ℕ} → Write s (write_head [] i) (record s { writer = write_done i })
  some_room :
      {b i : ℕ} {rest : List ℕ}
      → is_full s.pipe ≡ false
      → Write s (write_head (b ∷ rest) i) (record s { writer = write_ready b rest i })
  closed :
      {b i : ℕ} {rest : List ℕ}
      → is_full s.pipe ≡ true
      → Write s (write_head (b ∷ rest) i) (record s { writer = write_done 0 })
  wait :
      {b i : ℕ} {rest : List ℕ}
      → is_full s.pipe ≡ true
      → Write s (write_head (b ∷ rest) i) (record s { writer = write_head (b ∷ rest) i })
  put_byte :
      {b i : ℕ} {rest : List ℕ}
      → Write s
          (write_ready b rest i)
          (record s { writer = write_stored b rest i; pipe = store_byte b s.pipe })
  advance :
      {b i : ℕ} {rest : List ℕ}
      → Write s (write_stored b rest i) (record s {
        writer = write_head rest (i + 1);
        pipe = advance_write s.pipe;
        sent = s.sent ++ (b ∷ []);
      })

pub data Step (s : System) : System → Type 0 where
  by_reader : {t : System} → Read s s.reader t → Step s t
  by_writer : {t : System} → Write s s.writer t → Step s t

-- A new pipe: its page is zero.
abbrev pub new_pipe : Pipe
new_pipe = record { p_rpos = 0; p_wpos = 0; p_buf = λ i. 0 }

abbrev pub initial : System
initial = record {
  pipe = new_pipe;
  reader = read_done 0;
  writer = write_done 0;
  sent = [];
  received = [];
}

pub data Reach : System → Type 0 where
  start : Reach initial
  later : {s t : System} → Reach s → Step s t → Reach t
