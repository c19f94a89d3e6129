-- ===== src/Printf/Buffer.antt =====
-- vsnprintf stays within its buffer.
use jos_kernel.Base.{
  ==_ne, ==_self, Bool-cases, List, [], ap, arith, false, if-false, if-true, inl, inr, length, ltb,
  min, refl, some, subst, suc, sym, update, zero, ℕ, ◌%◌, ◌+◌, ◌-◌, ◌<◌, ◌==◌, ◌^◌, ◌||◌, ◌∙◌, ◌∷◌,
  ◌≡◌, ◌≢◌, ◌≤◌, ◌⊎◌,
}
use jos_kernel.Kernel.Layout.{u32_mod}
use jos_kernel.Printf.{char_at, positive}
use jos_kernel.Printf.Format.{SprintBuf, put_buffer, putch_all, sprintputch, vprintfmt, vsnprintf}
use jos_kernel.Printf.Total.{AllStrings, vprintfmt-IsSome}

-- From `b` to `b'`, the characters `l` were put: as many as the buffer has room for are in it.
record Taken (l : List ℕ) (b b' : SprintBuf) : Type 0 where
  at_buf : b'.buf ≡ b.buf + min (length l) (b.ebuf - b.buf)
  counted : b'.cnt ≡ (b.cnt + length l) % u32_mod
  character : (i : ℕ) → i < min (length l) (b.ebuf - b.buf) → b'.mem (b.buf + i) ≡ char_at l i % 256
  before : (a : ℕ) → a < b.buf → b'.mem a ≡ b.mem a
  behind : (a : ℕ) → b.buf + min (length l) (b.ebuf - b.buf) ≤ a → b'.mem a ≡ b.mem a

update_other : (m : ℕ → ℕ) (p x a : ℕ) → a ≢ p → update m p x a ≡ m a
update_other m p x a ne = if-false x (==_ne a p ne)

-- sprintputch with room left.
abbrev pub kept : ℕ → SprintBuf → SprintBuf
kept ch b = record b {
  cnt = (b.cnt + 1) % u32_mod;
  mem = update b.mem b.buf (ch % 256);
  buf = b.buf + 1;
}

room-Taken :
    (ch : ℕ) (l : List ℕ) (b b' : SprintBuf)
    → b.buf < b.ebuf
    → Taken l (kept ch b) b'
    → Taken (ch ∷ l) b b'
room-Taken ch l b b' room t =
    let n : min (length (ch ∷ l)) (b.ebuf - b.buf) ≡ suc (min (length l) (b.ebuf - (b.buf + 1))) =
      omega arith in
    let written : b'.mem b.buf ≡ ch % 256 =
      t.before b.buf (omega arith) ∙ if-true _ (==_self b.buf) in
    record {
      at_buf = t.at_buf ∙ omega arith;
      counted = t.counted ∙ omega arith;
      character = λ i less. character i (omega (arith, n, less)) written;
      before = λ a h. t.before a (omega (arith, h)) ∙ other a (omega (arith, h));
      behind = λ a h. t.behind a (omega (arith, h, n)) ∙ other a (omega (arith, h, n));
    }
  where
    other : (a : ℕ) → a ≢ b.buf → update b.mem b.buf (ch % 256) a ≡ b.mem a
    other = update_other b.mem b.buf (ch % 256)

    character :
        (i : ℕ)
        → i < suc (min (length l) (b.ebuf - (b.buf + 1)))
        → b'.mem b.buf ≡ ch % 256
        → b'.mem (b.buf + i) ≡ char_at (ch ∷ l) i % 256
    character zero less first = let e : b.buf + 0 ≡ b.buf = omega arith in ap b'.mem e ∙ first
    character (suc j) less first =
        let e : b.buf + suc j ≡ b.buf + 1 + j = omega arith in
        ap b'.mem e ∙ t.character j (omega (arith, less))

full-Taken :
    (ch : ℕ) (l : List ℕ) (b b' : SprintBuf)
    → b.ebuf ≤ b.buf
    → Taken l (record b { cnt = (b.cnt + 1) % u32_mod }) b'
    → Taken (ch ∷ l) b b'
full-Taken ch l b b' full t = record {
  at_buf = t.at_buf ∙ omega arith;
  counted = t.counted ∙ omega arith;
  character = λ i less. absurd (omega (arith, less, full));
  before = t.before;
  behind = λ a h. t.behind a (omega (arith, h, full));
}

putch_all-Taken : (l : List ℕ) (b : SprintBuf) → b.cnt < u32_mod → Taken l b (putch_all l b)
unfolding putch_all sprintputch
putch_all-Taken [] b small = record {
  at_buf = omega arith;
  counted = omega arith;
  character = λ i less. absurd (omega (arith, less));
  before = λ a h. refl;
  behind = λ a h. refl;
}
putch_all-Taken (ch ∷ l) b small = elim (Bool-cases (ltb b.buf b.ebuf)) [
  | inl room ↦
      subst (λ x. Taken (ch ∷ l) b (putch_all l x)) (sym (if-true _ room))
        (room-Taken ch l b _ (ground arith) (putch_all-Taken l (kept ch b) (omega arith)))
  | inr full ↦
      subst (λ x. Taken (ch ∷ l) b (putch_all l x)) (sym (if-false _ full))
        (full-Taken ch l b _ (ground arith)
          (putch_all-Taken l (record b { cnt = (b.cnt + 1) % u32_mod }) (omega arith)))
]

-- What vsnprintf leaves of `n` bytes from `buf` on for the characters `l`.
pub record Truncated (buf n : ℕ) (l : List ℕ) (m m' : ℕ → ℕ) : Type 0 where
  pub character : (i : ℕ) → i < min (length l) (n - 1) → m' (buf + i) ≡ char_at l i % 256
  pub zero_byte : m' (buf + min (length l) (n - 1)) ≡ 0
  pub elsewhere : (a : ℕ) → (a < buf) ⊎ (buf + n ≤ a) → m' a ≡ m a

terminated-Truncated :
    (buf n : ℕ) (l : List ℕ) (m : ℕ → ℕ) (b : SprintBuf)
    → 1 ≤ n
    → Taken l (record { buf = buf; ebuf = buf + n - 1; cnt = 0; mem = m }) b
    → Truncated buf n l m (update b.mem b.buf 0)
terminated-Truncated buf n l m b some_room t =
    let k : min (length l) (buf + n - 1 - buf) ≡ min (length l) (n - 1) = omega arith in
    let place = t.at_buf in
    record {
      character = λ i less.
          update_other b.mem b.buf 0 (buf + i) (λ e. omega (arith, e, less, place))
          ∙ t.character i (omega (arith, less));
      zero_byte = if-true (b.mem (buf + min (length l) (n - 1))) (ground arith);
      elsewhere = λ a h. elim h [
        | inl low ↦
            update_other b.mem b.buf 0 a (λ e. omega (arith, e, low, place)) ∙ t.before a low
        | inr high ↦
            update_other b.mem b.buf 0 a (λ e. omega (arith, e, high, place, some_room))
            ∙ t.behind a (omega (arith, high, some_room))
      ];
    }

-- For a buffer of `n` bytes, 0 < n < 2^31, that is not NULL, vsnprintf returns, if a zero byte follows
-- from the address in every word of the arguments but 0 and no word is 2^31: the result is the number of characters that
-- vprintfmt puts out, modulo 2^32, also when they have no room; the buffer holds the first of them, n - 1
-- at most, and a zero byte behind them; and nothing outside the buffer changes.
pub vsnprintf_lem :
    (buf n va : ℕ) (fmt : List ℕ) (stack m : ℕ → ℕ)
    → buf ≢ 0
    → 1 ≤ n
    → n < 2 ^ 31
    → AllStrings m stack
    → (l : List ℕ) × (vprintfmt m stack fmt va ≡ some l)
      × ((m' : ℕ → ℕ) × (vsnprintf buf n fmt stack va m ≡ some (length l % u32_mod, m'))
          × Truncated buf n l m m')
unfolding vsnprintf
vsnprintf_lem buf n va fmt stack m address some_room small strings =
    let (l, e) = vprintfmt-IsSome m stack strings fmt va in
    let b : SprintBuf = record { buf = buf; ebuf = buf + n - 1; cnt = 0; mem = m } in
    let t = putch_all-Taken l b (omega arith) in
    let b' : SprintBuf = putch_all l b in
    let counted : b'.cnt ≡ length l % u32_mod = t.counted ∙ omega arith in
    let guard : (buf == 0 || positive n == 0) ≡ false = ground arith in
    (
      l,
      e,
      (
        update b'.mem b'.buf 0,
        if-false (some (u32_mod - 3, m)) guard
            ∙ ap (put_buffer buf n m) e
            ∙ ap (λ c. some (c, update b'.mem b'.buf 0)) counted,
        terminated-Truncated buf n l m b' some_room t,
      ),
    )
