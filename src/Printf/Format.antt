-- ===== src/Printf/Format.antt =====
-- lib/printfmt.c: the switch and the loop of vprintfmt, and vsnprintf.
use jos_kernel.Base.{
  List, Option, [], false, if◌then◌else◌, leb, length, ltb, none, some, suc, true, update, zero, ℕ,
  ◌%◌, ◌*◌, ◌+◌, ◌-◌, ◌==◌, ◌||◌, ◌∷◌,
}
use jos_kernel.Kernel.Layout.{u32_mod}
use jos_kernel.Number.{printnum}
use jos_kernel.Printf.{
  Escape, Put, Spec, codes, convert_string, in_front, initial_spec, is_digit, is_negative,
  null_text, positive, process_precision, put, put_error, put_number, put_signed, putting,
  read_width, u64_mod, unrecognized,
}

module _ (m stack : ℕ → ℕ) where
  -- The switch, from `reswitch` on, with the rounds left.
  unfoldable pub reswitch : ℕ → List ℕ → Spec → ℕ → Option Escape
  unfolding read_width
  reswitch zero fmt spec va = none
  reswitch (suc fuel) [] spec va = some (record { ch = 0; rest = []; spec = spec; ap = va })
  reswitch (suc fuel) (ch ∷ fmt) spec va =
      let minus = reswitch fuel fmt (record spec { padc = b'-' }) va in
      let padded = reswitch fuel fmt (record spec { padc = b'0' }) va in
      let (precision, behind) = read_width 0 (ch ∷ fmt) in
      let sized = reswitch fuel behind (process_precision precision spec) va in
      let star = reswitch fuel fmt (process_precision (stack va) spec) (va + 1) in
      let dot =
        reswitch fuel fmt (record spec { width = if is_negative spec.width then 0 else spec.width })
          va in
      let alt = reswitch fuel fmt (record spec { altflag = true }) va in
      let long = reswitch fuel fmt (record spec { lflag = spec.lflag + 1 }) va in
      if ch == b'-'
      then minus
      else if ch == b'0'
      then padded
      else if is_digit ch
      then sized
      else if ch == b'*'
      then star
      else if ch == b'.'
      then dot
      else if ch == b'#'
      then alt
      else if ch == b'l'
      then long
      else some (record { ch = ch; rest = fmt; spec = spec; ap = va })

  -- A long long.
  abbrev pub two_words : ℕ → ℕ
  two_words va = stack va + u32_mod * stack (va + 1)

  abbrev pub sign_extended : ℕ → ℕ
  sign_extended x = if is_negative x then u64_mod - u32_mod + x else x

  -- getuint and getint, and how many words they take.
  abbrev pub getuint : ℕ → ℕ → ℕ
  getuint va lflag = if leb 2 lflag then two_words va else stack va

  abbrev pub getint : ℕ → ℕ → ℕ
  getint va lflag = if leb 2 lflag then two_words va else sign_extended (stack va)

  abbrev pub int_words : ℕ → ℕ
  int_words lflag = if leb 2 lflag then 2 else 1

  -- The cases that put something out.
  unfoldable pub convert : ℕ → Spec → ℕ → Option Put
  unfolding convert_string put_error put_signed printnum
  convert ch spec va =
      if ch == b'c'
      then some (put (stack va ∷ []) (va + 1))
      else if ch == b'e'
      then putting (va + 1) (put_error (stack va))
      else if ch == b's'
      then putting (va + 1) (
          if stack va == 0
          then convert_string null_text 0 spec
          else convert_string m (stack va) spec)
      else if ch == b'd'
      then putting (va + int_words spec.lflag) (put_signed (getint va spec.lflag) spec)
      else if ch == b'u'
      then putting (va + int_words spec.lflag) (put_number (getuint va spec.lflag) 10 spec)
      else if ch == b'o'
      then some (put (codes "XXX") va)
      else if ch == b'p'
      then putting (va + 1) (in_front (codes "0x") (put_number (stack va) 16 spec))
      else if ch == b'x'
      then putting (va + int_words spec.lflag) (put_number (getuint va spec.lflag) 16 spec)
      else if ch == b'%'
      then some (put (b'%' ∷ []) va)
      else some unrecognized

  -- A round with an escape sequence, whose `%` is before `fmt`, and the rounds that follow.
  abbrev pub put_escape : (List ℕ → ℕ → Option (List ℕ)) → List ℕ → Option Escape → Option (List ℕ)
  put_escape next fmt none = none
  put_escape next fmt (some x) = elim (convert x.ch x.spec x.ap) [
    | none ↦ none
    | some unrecognized ↦ in_front (b'%' ∷ []) (next fmt x.ap)
    | some (put l va) ↦ in_front l (next x.rest va)
  ]

  -- vprintfmt on fuel.
  unfoldable pub vprintfmt_loop : ℕ → List ℕ → ℕ → Option (List ℕ)
  unfolding reswitch convert
  vprintfmt_loop zero fmt va = none
  vprintfmt_loop (suc fuel) [] va = some []
  vprintfmt_loop (suc fuel) (ch ∷ fmt) va = elim (ch == b'%') [
    | false ↦ in_front (ch ∷ []) (vprintfmt_loop fuel fmt va)
    | true ↦ put_escape (vprintfmt_loop fuel) fmt (reswitch (suc (length fmt)) fmt initial_spec va)
  ]

  -- Every round reads a character of the format.
  unfoldable pub vprintfmt : List ℕ → ℕ → Option (List ℕ)
  unfolding vprintfmt_loop
  vprintfmt fmt va = vprintfmt_loop (suc (length fmt)) fmt va

-- struct sprintbuf, with the memory of the buffer
pub record SprintBuf : Type 0 where
  pub buf : ℕ
  pub ebuf : ℕ
  pub cnt : ℕ
  pub mem : ℕ → ℕ

unfoldable pub sprintputch : ℕ → SprintBuf → SprintBuf
sprintputch ch b =
    if ltb b.buf b.ebuf
    then record b {
      cnt = (b.cnt + 1) % u32_mod;
      mem = update b.mem b.buf (ch % 256);
      buf = b.buf + 1;
    }
    else record b { cnt = (b.cnt + 1) % u32_mod }

unfoldable pub putch_all : List ℕ → SprintBuf → SprintBuf
unfolding sprintputch
putch_all [] b = b
putch_all (ch ∷ l) b = putch_all l (sprintputch ch b)

abbrev pub terminated : SprintBuf → ℕ × (ℕ → ℕ)
terminated b = (b.cnt, update b.mem b.buf 0)

abbrev pub put_buffer : ℕ → ℕ → (ℕ → ℕ) → Option (List ℕ) → Option (ℕ × (ℕ → ℕ))
put_buffer buf n m none = none
put_buffer buf n m (some l) =
    some (terminated (putch_all l (record { buf = buf; ebuf = buf + n - 1; cnt = 0; mem = m })))

-- The result, and the memory.
unfoldable pub vsnprintf : ℕ → ℕ → List ℕ → (ℕ → ℕ) → ℕ → (ℕ → ℕ) → Option (ℕ × (ℕ → ℕ))
unfolding vprintfmt putch_all
vsnprintf buf n fmt stack va m =
    if buf == 0 || positive n == 0
    then some (u32_mod - 3, m)
    else put_buffer buf n m (vprintfmt m stack fmt va)
