-- ===== src/Fs/File/Data.antt =====
-- The bytes of a file whose blocks are direct and present.
use jos_kernel.Base.{
  List, [], ap, arith, length, refl, suc, sym, zero, ℕ, ◌%◌, ◌*◌, ◌++◌, ◌+◌, ◌/◌, ◌∙◌, ◌∷◌, ◌≡◌,
  ◌≤◌,
}
use jos_kernel.Fs.Bytes.{byte_at, bytes, set_byte, set_bytes}

-- The number of bytes in the direct blocks.
abbrev pub direct_bytes : ℕ
direct_bytes = 40960

module _ (ptr : ℕ → ℕ) where
  -- Where byte `i` of the file is on the disk, the blocks being `ptr`.
  abbrev pub byte_place : ℕ → ℕ
  byte_place i = 4096 * ptr (i / 4096) + i % 4096

  -- The `n` bytes of the file from `i` on.
  abbrev pub file_bytes : (ℕ → ℕ) → ℕ → ℕ → List ℕ
  file_bytes m i zero = []
  file_bytes m i (suc n) = byte_at m (byte_place i) ∷ file_bytes m (i + 1) n

  -- The memory with the bytes `l` of the file from `i` on.
  abbrev pub file_set : (ℕ → ℕ) → ℕ → List ℕ → ℕ → ℕ
  file_set m i [] = m
  file_set m i (v ∷ vs) = file_set (set_byte m (byte_place i) v) (i + 1) vs

  pub file_bytes-append :
      (m : ℕ → ℕ) (i a b : ℕ) → file_bytes m i (a + b) ≡ file_bytes m i a ++ file_bytes m (i + a) b
  file_bytes-append m i zero b =
      let e : i + 0 ≡ i = omega arith in let z : 0 + b ≡ b = omega arith in rw (z, e)
  file_bytes-append m i (suc a) b =
      let e : i + suc a ≡ i + 1 + a = omega arith in
      let s : suc a + b ≡ suc (a + b) = omega arith in
      rw (s, e) (ap (λ l. byte_at m (byte_place i) ∷ l) (file_bytes-append m (i + 1) a b))

  pub file_set-append :
      (m : ℕ → ℕ) (i : ℕ) (a b : List ℕ)
      → file_set m i (a ++ b) ≡ file_set (file_set m i a) (i + length a) b
  file_set-append m i [] b = let e : i + 0 ≡ i = omega arith in ap (λ j. file_set m j b) (sym e)
  file_set-append m i (x ∷ a) b =
      let e : i + 1 + length a ≡ i + suc (length a) = omega arith in
      let m' = set_byte m (byte_place i) x in
      file_set-append m' (i + 1) a b ∙ ap (λ j. file_set (file_set m' (i + 1) a) j b) e

  -- Within a block the bytes of the file are consecutive on the disk.
  pub bytes-file_bytes :
      (m : ℕ → ℕ) (i n : ℕ) → i % 4096 + n ≤ 4096 → bytes m (byte_place i) n ≡ file_bytes m i n
  bytes-file_bytes m i zero h = refl
  bytes-file_bytes m i (suc zero) h = refl
  bytes-file_bytes m i (suc (suc n)) h =
      let same_block : (i + 1) / 4096 ≡ i / 4096 = omega arith in
      let next : byte_place i + 1 ≡ byte_place (i + 1) = rw same_block (omega arith) in
      ap (λ l. byte_at m (byte_place i) ∷ l)
        (ap (λ a. bytes m a (suc n)) next ∙ bytes-file_bytes m (i + 1) (suc n) (omega arith))

  pub set_bytes-file_set :
      (m : ℕ → ℕ) (i : ℕ) (l : List ℕ)
      → i % 4096 + length l ≤ 4096
      → set_bytes m (byte_place i) l ≡ file_set m i l
  set_bytes-file_set m i [] h = refl
  set_bytes-file_set m i (x ∷ []) h = refl
  set_bytes-file_set m i (x ∷ y ∷ l) h =
      let same_block : (i + 1) / 4096 ≡ i / 4096 = omega arith in
      let next : byte_place i + 1 ≡ byte_place (i + 1) = rw same_block (omega arith) in
      let m' = set_byte m (byte_place i) x in
      ap (λ a. set_bytes m' a (y ∷ l)) next ∙ set_bytes-file_set m' (i + 1) (y ∷ l) (omega arith)
