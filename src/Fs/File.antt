-- ===== src/Fs/File.antt =====
-- fs/fs.c: file_read and file_write. The bytes that file_read moves to its buffer are part of the result;
-- those of the buffer of file_write are an argument.
pub mod Data
pub mod Reading
pub mod Writing
pub mod RoundTrip
mod Tests
use jos_kernel.Base.{
  List, Option, [], if◌then◌else◌, leb, ltb, min, none, some, suc, zero, ℕ, ◌%◌, ◌*◌, ◌++◌, ◌+◌,
  ◌-◌, ◌/◌,
}
use jos_kernel.Fs.{
  Answer, Fs, FsError, bind, done, f_size, failed, file_get_block, file_set_size, got, ◌>>=◌, ◌>>◌,
}
use jos_kernel.Fs.Bytes.{bytes, drop, set_bytes, take}
use jos_kernel.Kernel.Layout.{u32_mod}

-- How many bytes a round of the loops moves.
abbrev pub chunk : ℕ → ℕ → ℕ
chunk pos end = min (4096 - pos % 4096) (end - pos)

-- The error, if there was one, and the bytes moved.
abbrev pub Moved : Type 0
Moved = Option FsError × List ℕ

abbrev pub after : List ℕ → Moved → Moved
after l (e, rest) = (e, l ++ rest)

-- The loop of file_read on fuel.
unfoldable pub read_loop : ℕ → ℕ → ℕ → ℕ → Fs Moved
read_loop f zero pos end = done (none, [])
read_loop f (suc fuel) pos end =
    if ltb pos end
    then (do
      r ← file_get_block f (pos / 4096)
      elim r [
        | failed x ↦ done (some x, [])
        | got blk ↦ λ d.
            bind (read_loop f fuel (pos + chunk pos end) end d)
              λ rest. done (after (bytes d.mem (blk * 4 + pos % 4096) (chunk pos end)) rest)
      ])
    else done (none, [])

-- The result of both functions after their loop.
abbrev pub result : ℕ → Option FsError → Answer
result count none = got count
result count (some x) = failed x

-- file_read once `count` is cut; every round moves a byte, so that `count` rounds are enough.
unfoldable pub read_range : ℕ → ℕ → ℕ → Fs (Answer × List ℕ)
unfolding read_loop
read_range f count offset = do
  r ← read_loop f count offset (offset + count)
  let (e, l) = r in done (result count e, l)

unfoldable pub file_read : ℕ → ℕ → ℕ → Fs (Answer × List ℕ)
unfolding read_range
file_read f count offset d =
    if leb (d.mem (f_size f)) offset
    then done (got 0, []) d
    else read_range f (min count (d.mem (f_size f) - offset)) offset d

abbrev pub move_in : ℕ → List ℕ → Fs (Unit {0})
move_in a l d = done tt (record d { mem = set_bytes d.mem a l })

-- The loop of file_write on fuel, with the bytes of the buffer that are left.
unfoldable pub write_loop : ℕ → ℕ → ℕ → ℕ → List ℕ → Fs (Option FsError)
write_loop f zero pos end buf = done none
write_loop f (suc fuel) pos end buf =
    if ltb pos end
    then (do
      r ← file_get_block f (pos / 4096)
      elim r [
        | failed x ↦ done (some x)
        | got blk ↦ (do
          move_in (blk * 4 + pos % 4096) (take (chunk pos end) buf)
          write_loop f fuel (pos + chunk pos end) end (drop (chunk pos end) buf))
      ])
    else done none

-- The sum is of unsigned numbers.
unfoldable pub extend_file : ℕ → ℕ → Fs Answer
extend_file f end d = if ltb (d.mem (f_size f)) end then file_set_size f end d else done (got 0) d

-- `count` is the length of `buf`.
unfoldable pub write_range : ℕ → ℕ → ℕ → List ℕ → Fs Answer
unfolding write_loop
write_range f count offset buf = do
  e ← write_loop f count offset ((offset + count) % u32_mod) buf
  done (result count e)

unfoldable pub file_write : ℕ → ℕ → ℕ → List ℕ → Fs Answer
unfolding extend_file write_range
file_write f count offset buf = do
  r ← extend_file f ((offset + count) % u32_mod)
  elim r [ failed x ↦ done (failed x) | got _ ↦ write_range f count offset buf ]
