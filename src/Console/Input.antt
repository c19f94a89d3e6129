-- ===== src/Console/Input.antt =====
-- The input ring is a queue, until it has 512 characters.
use mathlib.Core.List.{append-nil}
use jos_kernel.Base.{
  List, [], arith, if◌then◌else◌, length, update, ℕ, ◌%◌, ◌++◌, ◌+◌, ◌<◌, ◌==◌, ◌∙◌, ◌∷◌, ◌≡◌,
  ==_ne, ==_self, Bool-cases, ap, append_assoc, if-false, if-true, inl, inr, length-append,
  length-snoc, refl, subst, suc, sym, ◌≢◌,
}
use jos_kernel.Console.{Cons, cons_getc, cons_intr, consbufsize, next_pos, next_char, store_char}

-- The bytes that arrive: zeros are left out.
abbrev pub arrived : List ℕ → List ℕ
arrived [] = []
arrived (c ∷ l) = if c == 0 then arrived l else (c % 256) ∷ arrived l

-- What may happen: an interrupt with its characters, and cons_getc with what it finds at the serial port
-- and at the keyboard.
pub data Event : Type 0 where
  interrupt : List ℕ → Event
  getc : List ℕ → List ℕ → Event

-- The results of the calls of cons_getc, and the ring.
abbrev pub with_result : ℕ → List ℕ × Cons → List ℕ × Cons
with_result c (l, s) = (c ∷ l, s)

abbrev pub run : List Event → Cons → List ℕ × Cons
run [] s = ([], s)
run (interrupt l ∷ es) s = run es (cons_intr l s)
run (getc serial kbd ∷ es) s = let (c, s') = cons_getc serial kbd s in with_result c (run es s')

-- The same of a queue: its first byte, or 0.
abbrev pub first_of : List ℕ → ℕ
first_of [] = 0
first_of (c ∷ q) = c

abbrev pub rest_of : List ℕ → List ℕ
rest_of [] = []
rest_of (c ∷ q) = q

abbrev pub results : List Event → List ℕ → List ℕ
results [] q = []
results (interrupt l ∷ es) q = results es (q ++ arrived l)
results (getc serial kbd ∷ es) q =
    let q' : List ℕ = (q ++ arrived serial) ++ arrived kbd in first_of q' ∷ results es (rest_of q')

-- Never are 512 characters in the queue.
abbrev pub Fits : List Event → List ℕ → Type 0
Fits [] q = length q < consbufsize
Fits (interrupt l ∷ es) q = (length (q ++ arrived l) < consbufsize) × Fits es (q ++ arrived l)
Fits (getc serial kbd ∷ es) q =
    (length ((q ++ arrived serial) ++ arrived kbd) < consbufsize)
    × Fits es (rest_of ((q ++ arrived serial) ++ arrived kbd))

-- The bytes of `q` stand in the ring from `r` on.
abbrev pub Ring : (ℕ → ℕ) → ℕ → List ℕ → ℕ → Type 0
Ring buf r [] w = r ≡ w
Ring buf r (c ∷ q) w = (buf r ≡ c) × Ring buf (next_pos r) q w

pub record Queues (s : Cons) (q : List ℕ) : Type 0 where
  pub ring : Ring s.buf s.rpos q s.wpos
  pub inside : s.rpos < consbufsize

-- The end of the bytes.
Ring-end :
    (buf : ℕ → ℕ) (r : ℕ) (q : List ℕ) (w : ℕ)
    → r < consbufsize
    → Ring buf r q w
    → w ≡ (r + length q) % consbufsize
Ring-end buf r [] w small h = omega (arith, h)
Ring-end buf r (c ∷ q) w small (e, h) =
    let next : next_pos r ≡ (r + 1) % consbufsize = ground arith in
    Ring-end buf (next_pos r) q w (omega (arith, next)) h ∙ omega (arith, next)

-- The end of the bytes is not their start, unless there are none.
ends_apart :
    (r n w : ℕ) → r < consbufsize → n + 1 < consbufsize → w ≡ (r + suc n) % consbufsize → r ≢ w
ends_apart r n w small room e q = omega (arith, q, e)

next_pos-inside : (r : ℕ) → r < consbufsize → next_pos r < consbufsize
next_pos-inside r small = ground arith

-- A byte is stored behind them.
Ring-store :
    (buf : ℕ → ℕ) (r : ℕ) (q : List ℕ) (w c : ℕ)
    → r < consbufsize
    → length q + 1 < consbufsize
    → Ring buf r q w
    → Ring (update buf w c) r (q ++ (c ∷ [])) (next_pos w)
Ring-store buf r [] w c small room h =
    (subst (λ x. update buf w c x ≡ c) (sym h) (if-true (buf w) (==_self w)), ap next_pos h)
Ring-store buf r (x ∷ q) w c small room (v, h) =
    let e = Ring-end buf r (x ∷ q) w small (v, h) in
    (
      if-false c (==_ne r w (ends_apart r (length q) w small (omega arith) e)) ∙ v,
      Ring-store buf (next_pos r) q w c (next_pos-inside r small) (omega arith) h,
    )

cons_intr-Queues :
    (l : List ℕ) (s : Cons) (q : List ℕ)
    → length (q ++ arrived l) < consbufsize
    → Queues s q
    → Queues (cons_intr l s) (q ++ arrived l)
unfolding cons_intr store_char
cons_intr-Queues [] s q room h = subst (Queues s) (sym (append-nil q)) h
cons_intr-Queues (c ∷ l) s q room h = elim (Bool-cases (c == 0)) [
  | inl nothing ↦
      let e : arrived (c ∷ l) ≡ arrived l = if-true _ nothing in
      subst (λ a. Queues (cons_intr (c ∷ l) s) (q ++ a)) (sym e)
        (subst (λ x. Queues (cons_intr l x) (q ++ arrived l)) (sym (if-true _ nothing))
          (cons_intr-Queues l s q (subst (λ a. length (q ++ a) < consbufsize) e room) h))
  | inr byte ↦
      let e : q ++ arrived (c ∷ l) ≡ (q ++ ((c % 256) ∷ [])) ++ arrived l =
        ap (λ a. q ++ a) (if-false _ byte) ∙ sym (append_assoc q ((c % 256) ∷ []) (arrived l)) in
      let room' = subst (λ a. length a < consbufsize) e room in
      let short : length q + 1 < consbufsize = omega (
        arith,
        room',
        length-append (q ++ ((c % 256) ∷ [])) (arrived l),
        length-snoc q (c % 256),
      ) in
      subst (Queues (cons_intr (c ∷ l) s)) (sym e) (
        subst (λ x. Queues (cons_intr l x) ((q ++ ((c % 256) ∷ [])) ++ arrived l))
          (sym (if-false _ byte))
          (cons_intr-Queues l
            (record s { buf = update s.buf s.wpos (c % 256); wpos = next_pos s.wpos })
            (q ++ ((c % 256) ∷ [])) room'
            (record {
              ring = Ring-store s.buf s.rpos q s.wpos (c % 256) h.inside short h.ring;
              inside = h.inside;
            })))
]

next_char-Queues :
    (s : Cons) (q : List ℕ)
    → length q < consbufsize
    → Queues s q
    → ((next_char s).0 ≡ first_of q) × Queues ((next_char s).1) (rest_of q)
unfolding next_char
next_char-Queues s [] room h =
    rw (next_char, ap (λ r. r == s.wpos) h.ring ∙ ==_self s.wpos) (refl, h)
next_char-Queues s (c ∷ q) room h =
    let (v, t) = h.ring in
    let e = Ring-end s.buf s.rpos (c ∷ q) s.wpos h.inside h.ring in
    rw
      (
        next_char,
        ==_ne s.rpos s.wpos (ends_apart s.rpos (length q) s.wpos h.inside (omega arith) e),
      )
      (v, record { ring = t; inside = next_pos-inside s.rpos h.inside })

-- In any order of interrupts and calls of cons_getc, from a ring that holds the bytes of a queue on: as
-- long as the queue never has 512 bytes, the results of cons_getc are those of a queue that bytes are
-- appended to, from an interrupt or from the serial port and then the keyboard when cons_getc begins, zeros
-- left out, and that cons_getc takes the first byte of, or 0 when it is empty.
pub run-results :
    (es : List Event) (s : Cons) (q : List ℕ) → Fits es q → Queues s q → (run es s).0 ≡ results es q
unfolding cons_getc
run-results [] s q fits h = refl
run-results (interrupt l ∷ es) s q (room, fits) h =
    run-results es (cons_intr l s) (q ++ arrived l) fits (cons_intr-Queues l s q room h)
run-results (getc serial kbd ∷ es) s q (room, fits) h =
    let q1 = q ++ arrived serial in
    let room1 : length q1 < consbufsize = omega (arith, room, length-append q1 (arrived kbd)) in
    let h1 = cons_intr-Queues serial s q room1 h in
    let h2 = cons_intr-Queues kbd (cons_intr serial s) q1 room h1 in
    let (v, h3) =
      next_char-Queues (cons_intr kbd (cons_intr serial s)) (q1 ++ arrived kbd) room h2 in
    ap (λ c. c ∷ (run es ((cons_getc serial kbd s).1)).0) v
    ∙ ap (λ l. first_of (q1 ++ arrived kbd) ∷ l)
        (run-results es ((cons_getc serial kbd s).1) (rest_of (q1 ++ arrived kbd)) fits h3)
