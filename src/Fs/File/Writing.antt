-- ===== src/Fs/File/Writing.antt =====
-- What file_write writes to a file whose blocks are direct and present.
use jos_kernel.Base.{
  ==_ne, List, [], arith, length, refl, subst, sym, ℕ, ◌+◌, ◌/◌, ◌<◌, ◌∙◌, ◌∷◌, ◌≡◌, ◌≢◌, ◌≤◌,
  Bool-cases, ap, inl, inr, ltb, none, suc, zero, ◌%◌, ◌*◌,
}
use jos_kernel.Fs.{Disk, block_words, f_direct, f_size, done}
use jos_kernel.Fs.Bytes.{set_byte, drop, length-drop, length-take, set_bytes, take, take-drop}
use jos_kernel.Fs.File.{chunk, write_loop}
use jos_kernel.Fs.File.Data.{byte_place, file_set, file_set-append, set_bytes-file_set}
use jos_kernel.Fs.File.Reading.{HasBlocks, chunk-bounds, file_get_block-direct, slot-byte_place}

-- The blocks of a file of `size` bytes are different, and hold neither the struct File nor the super block.
pub record AreApart (f : ℕ) (ptr : ℕ → ℕ) (size : ℕ) : Type 0 where
  pub distinct : (a b : ℕ) → a * 4096 < size → b * 4096 < size → ptr a ≡ ptr b → a ≡ b
  pub not_super : (b : ℕ) → b * 4096 < size → ptr b ≢ 1
  pub not_file : (b i : ℕ) → b * 4096 < size → i < 64 → (f + i) / block_words ≢ ptr b

module _ (f : ℕ) (ptr : ℕ → ℕ) (size : ℕ) where
  -- A word in none of the blocks stays as it was.
  pub file_set-word :
      (m : ℕ → ℕ) (i : ℕ) (l : List ℕ) (w : ℕ)
      → i + length l ≤ size
      → ((b : ℕ) → b * 4096 < size → w / block_words ≢ ptr b)
      → file_set ptr m i l w ≡ m w
  file_set-word m i [] w h out = refl
  file_set-word m i (x ∷ l) w h out =
      let ne : w ≢ byte_place ptr i / 4 = λ e. out (i / 4096) (omega arith) (omega (arith, e)) in
      file_set-word (set_byte m (byte_place ptr i) x) (i + 1) l w (omega arith) out
      ∙ rw (==_ne w (byte_place ptr i / 4) ne)

  pub file_set-HasBlocks :
      (i : ℕ) (l : List ℕ) (d : Disk)
      → HasBlocks f ptr d
      → d.mem (f_size f) ≡ size
      → AreApart f ptr size
      → i + length l ≤ size
      → HasBlocks f ptr (record d { mem = file_set ptr d.mem i l })
  file_set-HasBlocks i l d h sized apart fits =
      let same_size =
        file_set-word d.mem i l (f_size f) fits (λ b low. apart.not_file b 32 low (omega arith)) in
      let super =
        file_set-word d.mem i l (block_words + 1) fits
          (λ b low e. apart.not_super b low (omega (arith, e))) in
      record {
        direct = rw same_size h.direct;
        pointers = λ b low.
            let at : f_direct f + b ≡ f + (34 + b) = omega arith in
            file_set-word d.mem i l (f_direct f + b) fits (λ c lo.
              subst (λ x. x / block_words ≢ ptr c) (sym at)
                (apart.not_file c (34 + b) lo (omega arith)))
            ∙ h.pointers b low;
        present = λ b low. h.present b (omega (arith, low, same_size));
        on_disk = λ b low. rw super (h.on_disk b (omega (arith, low, same_size)));
      }

  pub byte_place-distinct :
      (i j : ℕ)
      → AreApart f ptr size
      → i < size
      → j < size
      → byte_place ptr i ≡ byte_place ptr j
      → i ≡ j
  byte_place-distinct i j apart a b e =
      let same_ptr : ptr (i / 4096) ≡ ptr (j / 4096) = omega (arith, e) in
      let same_block = apart.distinct (i / 4096) (j / 4096) (omega arith) (omega arith) same_ptr in
      omega (arith, e, same_ptr, same_block)

  -- The bytes of one round, followed by those of the others.
  file_set-chunk :
      (m : ℕ → ℕ) (pos c : ℕ) (buf : List ℕ)
      → pos % 4096 + c ≤ 4096
      → c ≤ length buf
      → file_set ptr
          (set_bytes m (ptr (pos / 4096) * block_words * 4 + pos % 4096) (take c buf))
          (pos + c)
          (drop c buf)
        ≡ file_set ptr m pos buf
  file_set-chunk m pos c buf h le =
      let len = length-take c buf le in
      rw (slot-byte_place f ptr pos) (
        rw (set_bytes-file_set ptr m pos (take c buf) (omega (arith, len))) (
          ap (λ n. file_set ptr (file_set ptr m pos (take c buf)) (pos + n) (drop c buf)) (sym len)
          ∙ sym (file_set-append ptr m pos (take c buf) (drop c buf))
          ∙ ap (file_set ptr m pos) (take-drop c buf)))

  file_set-empty :
      (m : ℕ → ℕ) (pos : ℕ) (buf : List ℕ) → length buf ≡ 0 → file_set ptr m pos buf ≡ m
  file_set-empty m pos [] h = refl
  file_set-empty m pos (x ∷ buf) h = ground arith

  pub write_loop-direct :
      (n pos end : ℕ) (buf : List ℕ) (d : Disk)
      → HasBlocks f ptr d
      → d.mem (f_size f) ≡ size
      → AreApart f ptr size
      → end ≤ size
      → pos + length buf ≡ end
      → end ≤ pos + n
      → write_loop f n pos end buf d ≡ done none (record d { mem = file_set ptr d.mem pos buf })
  unfolding write_loop
  write_loop-direct zero pos end buf d h sized apart low len enough =
      rw (file_set-empty d.mem pos buf (omega (arith, len)))
  write_loop-direct (suc n) pos end buf d h sized apart low len enough =
      elim (Bool-cases (ltb pos end)) [
        | inl more ↦
            let lt : pos < end = ground arith in
            let c = chunk pos end in
            let (a, b, e) = chunk-bounds f ptr pos end lt in
            let fits : c ≤ length buf = omega (arith, len, e) in
            let placed = slot-byte_place f ptr pos in
            let m' =
              set_bytes d.mem (ptr (pos / 4096) * block_words * 4 + pos % 4096) (take c buf) in
            let len-take = length-take c buf fits in
            let moved : m' ≡ file_set ptr d.mem pos (take c buf) =
              rw placed (set_bytes-file_set ptr d.mem pos (take c buf) (omega (arith, len-take))) in
            let h' : HasBlocks f ptr (record d { mem = m' }) =
              rw moved (
                file_set-HasBlocks pos (take c buf) d h sized apart (omega (arith, len-take, e))) in
            let sized' : m' (f_size f) ≡ size = rw moved (
              file_set-word d.mem pos (take c buf) (f_size f) (omega (arith, len-take, e))
                (λ b lo. apart.not_file b 32 lo (omega arith))
              ∙ sized) in
            let rest =
              write_loop-direct n (pos + c) end (drop c buf) (record d { mem = m' }) h' sized' apart
                low (omega (arith, length-drop c buf, len, fits)) (omega (arith, a)) in
            rw (more, file_get_block-direct f ptr (pos / 4096) d h (omega (arith, sized)))
              (rw rest (
                ap (λ m. done none (record d { mem = m })) (file_set-chunk d.mem pos c buf b fits)))
        | inr stop_here ↦
            let z : length buf ≡ 0 = ground (arith, len) in
            rw (stop_here, file_set-empty d.mem pos buf z)
      ]
