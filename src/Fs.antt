-- ===== src/Fs.antt =====
-- fs/fs.c: the free block bitmap and the block pointers of a file; fs/bc.c: diskaddr and the calls
-- of flush_block. The file server's view of the disk is one array of 32-bit words, in which the disk block
-- `b` starts at word 1024 * b; a `struct File *` is the number of its first word. File sizes are not
-- negative.
pub mod Bitmap
pub mod Marks
pub mod Blocks
pub mod Bytes
pub mod File
pub mod Dir
mod Tests
use jos_kernel.Base.{
  Bool, List, bit_and, bit_or, false, if◌then◌else◌, leb, ltb, not, suc, true, update, zero, ℕ, ◌%◌,
  ◌&&◌, ◌*◌, ◌+◌, ◌-◌, ◌/◌, ◌==◌, ◌^◌, ◌||◌, ◌∷◌,
}

pub record Disk : Type 0 where
  -- whether `super` is set
  pub super : Bool
  pub mem : ℕ → ℕ
  -- the blocks given to flush_block, the latest first
  pub written : List ℕ

-- The error codes of inc/error.h that these functions return.
pub data FsError : Type 0 where
  no_disk bad_argument not_found bad_path file_exists : FsError

pub data Answer : Type 0 where
  got : ℕ → Answer
  failed : FsError → Answer

pub data Run (A : Type 0) : Type 0 where
  done : A → Disk → Run A
  panicked : Run A

abbrev pub Fs : Type 0 → Type 0
Fs A = Disk → Run A

module _ {A B : Type 0} where
  abbrev pub bind : Run A → (A → Fs B) → Run B
  bind (done a d) f = f a d
  bind panicked f = panicked

  infixl 5 ◌>>=◌ ◌>>◌
  abbrev pub ◌>>=◌ : Fs A → (A → Fs B) → Fs B
  m >>= f = λ d. bind (m d) f

  abbrev pub ◌>>◌ : Fs A → Fs B → Fs B
  m >> n = m >>= λ _. n

abbrev pub peek : ℕ → Fs ℕ
peek a d = done (d.mem a) d

abbrev pub write : ℕ → ℕ → Fs (Unit {0})
write a v d = done tt (record d { mem = update d.mem a v })

-- The function returns, and the result and the disk are as `P` says.
pub data Done {A : Type 0} (P : A → Disk → Type 0) : Run A → Type 0 where
  is_done : {a : A} {d : Disk} → P a d → Done P (done a d)

-- Words in a block.
abbrev pub block_words : ℕ
block_words = 1024

-- super->s_nblocks
abbrev pub nblocks : Disk → ℕ
nblocks d = d.mem (block_words + 1)

-- The word of the bitmap that holds the bit of a block.
abbrev pub bitmap_word : ℕ → ℕ
bitmap_word blockno = 2 * block_words + blockno / 32

-- `1 << (blockno % 32)`
abbrev pub block_bit : ℕ → ℕ
block_bit blockno = 2 ^ (blockno % 32)

unfoldable pub diskaddr : ℕ → Fs ℕ
diskaddr blockno d =
    if blockno == 0 || d.super && leb (nblocks d) blockno
    then panicked
    else done (blockno * block_words) d

-- DISKSIZE / BLKSIZE
abbrev pub disk_blocks : ℕ
disk_blocks = 0xc0000

-- flush_block of the address of a word
unfoldable pub flush_block : ℕ → Fs (Unit {0})
flush_block a d =
    if leb disk_blocks (a / block_words)
    then panicked
    else done tt (record d { written = (a / block_words) ∷ d.written })

-- The loop of fs_sync, with the rounds left.
unfoldable pub sync_loop : ℕ → ℕ → Fs (Unit {0})
unfolding diskaddr flush_block
sync_loop zero i = done tt
sync_loop (suc n) i = do a ← diskaddr i; flush_block a; sync_loop n (i + 1)

-- fs_sync
abbrev pub fs_sync : Fs (Unit {0})
fs_sync d = sync_loop (nblocks d - 1) 1 d

unfoldable pub block_is_free : ℕ → Disk → Bool
block_is_free blockno d =
    if not d.super || leb (nblocks d) blockno
    then false
    else not (bit_and (d.mem (bitmap_word blockno)) (block_bit blockno) == 0)

unfoldable pub free_block : ℕ → Fs (Unit {0})
free_block blockno d =
    if blockno == 0
    then panicked
    else write (bitmap_word blockno) (bit_or (d.mem (bitmap_word blockno)) (block_bit blockno)) d

-- The body of the loop of alloc_block once a free block is found.
unfoldable pub take_block : ℕ → Fs Answer
take_block i d =
    (do
      write (bitmap_word i) (bit_and (d.mem (bitmap_word i)) (2 ^ 32 - 1 - block_bit i))
      flush_block (2 * block_words)
      done (got i))
      d

-- The loop, with the rounds left.
unfoldable pub alloc_loop : ℕ → ℕ → Fs Answer
alloc_loop zero i d = done (failed no_disk) d
alloc_loop (suc n) i d =
    let rest = alloc_loop n (i + 1) d in if block_is_free i d then take_block i d else rest

unfoldable pub alloc_block : Fs Answer
alloc_block d = alloc_loop (nblocks d) 0 d

-- memset(addr, 0, BLKSIZE)
abbrev pub clear_block : ℕ → Fs (Unit {0})
clear_block a d =
    done tt (record d { mem = λ x. if leb a x && ltb x (a + block_words) then 0 else d.mem x })

-- Fields of a struct File: f_size, f_direct and f_indirect.
abbrev pub f_size : ℕ → ℕ
f_size f = f + 32

abbrev pub f_direct : ℕ → ℕ
f_direct f = f + 34

abbrev pub f_indirect : ℕ → ℕ
f_indirect f = f + 44

-- NDIRECT and NINDIRECT
abbrev pub ndirect : ℕ
ndirect = 10

abbrev pub nindirect : ℕ
nindirect = 1024

-- A new indirect block, and the slot.
unfoldable pub add_indirect : ℕ → ℕ → Fs Answer
add_indirect f filebno = do
  r ← alloc_block
  elim r [
    | failed _ ↦ done (failed no_disk)
    | got r ↦ do
      write (f_indirect f) r
      a ← diskaddr r
      clear_block a
      done (got (f_indirect f + filebno - ndirect))
  ]

-- The slot, or the error.
unfoldable pub file_block_walk : ℕ → ℕ → Bool → Fs Answer
file_block_walk f filebno alloc d =
    if ltb filebno ndirect
    then done (got (f_direct f + filebno)) d
    else if ltb filebno (ndirect + nindirect)
    then (if not (d.mem (f_indirect f) == 0)
        then done (got (f_indirect f + filebno - ndirect)) d
        else if alloc
        then add_indirect f filebno d
        else done (failed not_found) d)
    else done (failed bad_argument) d

-- file_get_block once it has the slot: the address of the block.
unfoldable pub fill_slot : ℕ → Fs Answer
fill_slot slot d =
    if d.mem slot == 0
    then (do
      r ← alloc_block
      elim r [ failed x ↦ done (failed x) | got r ↦ do write slot r; a ← diskaddr r; done (got a) ])
        d
    else (do a ← diskaddr (d.mem slot); done (got a)) d

unfoldable pub file_get_block : ℕ → ℕ → Fs Answer
file_get_block f filebno = do
  r ← file_block_walk f filebno true
  elim r [ failed x ↦ done (failed x) | got slot ↦ fill_slot slot ]

unfoldable pub empty_slot : ℕ → Fs (Unit {0})
empty_slot slot d =
    if d.mem slot == 0 then done tt d else (do free_block (d.mem slot); write slot 0) d

unfoldable pub file_free_block : ℕ → ℕ → Fs Answer
file_free_block f filebno = do
  r ← file_block_walk f filebno false
  elim r [ failed x ↦ done (failed x) | got slot ↦ (empty_slot slot >> done (got 0)) ]

-- The loop of file_truncate_blocks, with the rounds left; an error is only reported.
unfoldable pub free_blocks : ℕ → ℕ → ℕ → Fs (Unit {0})
free_blocks f zero bno = done tt
free_blocks f (suc n) bno = do file_free_block f bno; free_blocks f n (bno + 1)

-- `(size + BLKSIZE - 1) / BLKSIZE`
abbrev pub size_blocks : ℕ → ℕ
size_blocks size = (size + 4096 - 1) / 4096

unfoldable pub drop_indirect : ℕ → ℕ → Fs (Unit {0})
drop_indirect f new_nblocks d =
    if leb new_nblocks ndirect && not (d.mem (f_indirect f) == 0)
    then (do free_block (d.mem (f_indirect f)); write (f_indirect f) 0) d
    else done tt d

unfoldable pub file_truncate_blocks : ℕ → ℕ → Fs (Unit {0})
file_truncate_blocks f newsize d =
    (do
      free_blocks f (size_blocks (d.mem (f_size f)) - size_blocks newsize) (size_blocks newsize)
      drop_indirect f (size_blocks newsize))
      d

unfoldable pub file_set_size : ℕ → ℕ → Fs Answer
file_set_size f newsize d =
    (do
      if ltb newsize (d.mem (f_size f)) then file_truncate_blocks f newsize else done tt
      write (f_size f) newsize
      flush_block f
      done (got 0))
      d
