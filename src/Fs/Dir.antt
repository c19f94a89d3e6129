-- ===== src/Fs/Dir.antt =====
-- fs/fs.c: directories and paths. A path is only read forwards, so that a `const char *` into it is the
-- list of the characters from there to the end of the string, without the zero.
pub mod Names
pub mod Resolve
pub mod Lookup
mod Tests
use jos_kernel.Base.{
  Bool, List, Option, [], false, if◌then◌else◌, inl, inr, leb, length, none, not, some, suc, true,
  zero, ℕ, ◌%◌, ◌&&◌, ◌*◌, ◌+◌, ◌/◌, ◌==◌, ◌∷◌, ◌⊎◌, ◌++◌,
}
use jos_kernel.Fs.{
  Answer, Fs, FsError, bad_path, bind, block_words, done, f_size, failed, file_get_block, got,
  not_found, panicked, peek, write, ◌>>=◌, ◌>>◌, diskaddr, f_indirect, file_block_walk, file_exists,
  flush_block, size_blocks,
}
use jos_kernel.Fs.Bytes.{byte_at}
use jos_kernel.Fs.File.{move_in}

-- MAXNAMELEN, BLKFILES and FTYPE_DIR
abbrev pub maxnamelen : ℕ
maxnamelen = 128

abbrev pub blkfiles : ℕ
blkfiles = 16

abbrev pub ftype_dir : ℕ
ftype_dir = 1

-- Words in a struct File, and the field f_type.
abbrev pub file_words : ℕ
file_words = 64

abbrev pub f_type : ℕ → ℕ
f_type f = f + 33

-- `&super->s_root`
abbrev pub s_root : ℕ
s_root = block_words + 2

-- Whether strcmp of the string at byte address `a` with `name` is 0.
abbrev pub has_name : (ℕ → ℕ) → ℕ → List ℕ → Bool
has_name m a [] = byte_at m a == 0
has_name m a (c ∷ name) = byte_at m a == c && has_name m (a + 1) name

-- The loop over the entries of a block, with the rounds left.
abbrev pub find_entry : (ℕ → Bool) → ℕ → ℕ → Option ℕ
find_entry test zero f = none
find_entry test (suc n) f = if test f then some f else find_entry test n (f + file_words)

-- The loop over the blocks of a directory, with the rounds left: the first entry that `test` accepts
-- on the disk, if there is one.
unfoldable pub search_blocks : ((ℕ → ℕ) → ℕ → Bool) → ℕ → ℕ → ℕ → Fs (Answer ⊎ Unit {0})
search_blocks test dir zero i = done (inr tt)
search_blocks test dir (suc n) i = do
  r ← file_get_block dir i
  elim r [
    | failed x ↦ done (inl (failed x))
    | got blk ↦ λ d. elim (find_entry (test d.mem) blkfiles blk) [
      | some f ↦ done (inl (got f)) d
      | none ↦ search_blocks test dir n (i + 1) d
    ]
  ]

-- `assert((dir->f_size % BLKSIZE) == 0)`, and the number of blocks
unfoldable pub dir_blocks : ℕ → Fs ℕ
dir_blocks dir d =
    if d.mem (f_size dir) % 4096 == 0 then done (d.mem (f_size dir) / 4096) d else panicked

unfoldable pub dir_lookup : ℕ → List ℕ → Fs Answer
unfolding search_blocks dir_blocks
dir_lookup dir name = do
  nblock ← dir_blocks dir
  r ← search_blocks (λ m f. has_name m (4 * f) name) dir nblock 0
  elim r [ inl a ↦ done a | inr _ ↦ done (failed not_found) ]

-- dir_alloc_file behind its loop: the directory grows by a block.
unfoldable pub grow_dir : ℕ → ℕ → Fs Answer
grow_dir dir nblock = do
  size ← peek (f_size dir)
  write (f_size dir) (size + 4096)
  file_get_block dir nblock

unfoldable pub dir_alloc_file : ℕ → Fs Answer
unfolding search_blocks dir_blocks grow_dir
dir_alloc_file dir = do
  nblock ← dir_blocks dir
  r ← search_blocks (λ m f. byte_at m (4 * f) == 0) dir nblock 0
  elim r [ inl a ↦ done a | inr _ ↦ grow_dir dir nblock ]

abbrev pub slash : ℕ
slash = 47

unfoldable pub skip_slash : List ℕ → List ℕ
skip_slash [] = []
skip_slash (c ∷ p) = if c == slash then skip_slash p else c ∷ p

-- The characters up to the next slash or the end, and what follows them.
unfoldable pub element : List ℕ → List ℕ
element [] = []
element (c ∷ p) = if c == slash then [] else c ∷ element p

unfoldable pub behind : List ℕ → List ℕ
behind [] = []
behind (c ∷ p) = if c == slash then c ∷ p else behind p

-- What walk_path returns: the file with its directory, or an error with `*pdir` and `lastelem`.
pub data Walk : Type 0 where
  walked : (dir : Option ℕ) (f : ℕ) → Walk
  missing : FsError → (dir : Option ℕ) (lastelem : List ℕ) → Walk

abbrev pub is_not_found : FsError → Bool
is_not_found not_found = true
is_not_found _ = false

-- dir_lookup has failed, with `path` left.
abbrev pub missed : FsError → ℕ → List ℕ → List ℕ → Walk
missed x dir name [] = if is_not_found x then missing x (some dir) name else missing x none []
missed x dir name (c ∷ path) = missing x none []

-- The loop of walk_path on fuel.
unfoldable pub walk_loop : ℕ → List ℕ → Option ℕ → ℕ → Fs Walk
unfolding dir_lookup skip_slash element behind
walk_loop zero path dir f = done (walked dir f)
walk_loop (suc n) [] dir f = done (walked dir f)
walk_loop (suc n) (c ∷ path) dir f = λ d.
    let name = element (c ∷ path) in
    let rest = skip_slash (behind (c ∷ path)) in
    if leb maxnamelen (length name)
    then done (missing bad_path none []) d
    else if not (d.mem (f_type f) == ftype_dir)
    then done (missing not_found none []) d
    else bind (dir_lookup f name d)
        λ r. elim r [ failed x ↦ done (missed x f name rest) | got g ↦ walk_loop n rest (some f) g ]

-- Every round reads a character, so that the length of the path is enough.
unfoldable pub walk_path : List ℕ → Fs Walk
unfolding walk_loop
walk_path path = walk_loop (length path) (skip_slash path) none s_root

unfoldable pub file_open : List ℕ → Fs Answer
unfolding walk_path
file_open path = do
  w ← walk_path path
  done (elim w [ walked _ f ↦ got f | missing x _ _ ↦ failed x ])

-- A block that a slot names, if it names one, is flushed.
unfoldable pub flush_slot : ℕ → Fs (Unit {0})
flush_slot slot d =
    if d.mem slot == 0 then done tt d else (do a ← diskaddr (d.mem slot); flush_block a) d

-- The loop of file_flush, with the rounds left.
unfoldable pub flush_blocks : ℕ → ℕ → ℕ → Fs (Unit {0})
unfolding flush_slot
flush_blocks f zero i = done tt
flush_blocks f (suc n) i = do
  r ← file_block_walk f i false
  elim r [ failed _ ↦ done tt | got slot ↦ flush_slot slot ]
  flush_blocks f n (i + 1)

unfoldable pub file_flush : ℕ → Fs (Unit {0})
unfolding flush_blocks
file_flush f = do
  size ← peek (f_size f)
  flush_blocks f (size_blocks size) 0
  flush_block f
  flush_slot (f_indirect f)

-- file_create once it has the new entry of `dir`.
unfoldable pub name_file : ℕ → List ℕ → ℕ → Fs Answer
unfolding file_flush
name_file dir name f = do move_in (4 * f) (name ++ (0 ∷ [])); file_flush dir; done (got f)

unfoldable pub file_create : List ℕ → Fs Answer
unfolding walk_path dir_alloc_file name_file
file_create path = do
  w ← walk_path path
  elim w [
    | walked _ _ ↦ done (failed file_exists)
    | missing x none _ ↦ done (failed x)
    | missing x (some dir) name ↦
        if is_not_found x
        then (do
          r ← dir_alloc_file dir
          elim r [ failed y ↦ done (failed y) | got f ↦ name_file dir name f ])
        else done (failed x)
  ]
