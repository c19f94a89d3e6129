-- ===== src/Console/Tests.antt =====
-- kern/console.c run on characters.
use jos_kernel.Base.{List, [], arith, refl, ◌+◌, ◌-◌, ◌∷◌, ◌≡◌}
use jos_kernel.Console.{Cons, Crt, blank, cga_puts}
use jos_kernel.Console.Input.{Event, Queues, getc, interrupt, results, run, run-results}
use jos_kernel.Console.Screen.{Paper}

abbrev empty : Cons
empty = record { buf = λ i. 0; rpos = 511; wpos = 511 }

empty-Queues : Queues empty []
empty-Queues = record { ring = refl; inside = omega arith }

-- Two characters, over the end of the ring.
abbrev events : List Event
events =
    interrupt (b'a' ∷ (0 ∷ (b'b' ∷ [])))
    ∷ (getc [] [] ∷ (getc (b'c' ∷ []) [] ∷ (getc [] [] ∷ (getc [] [] ∷ []))))

run-results_example : (run events empty).0 ≡ results events []
run-results_example =
    run-results events empty []
      (omega arith, (omega arith, (omega arith, (omega arith, (omega arith, omega arith)))))
      empty-Queues

results_test : results events [] ≡ b'a' ∷ (b'b' ∷ (b'c' ∷ (0 ∷ [])))
results_test = refl

abbrev cleared : Crt
cleared = record { crt_buf = λ i. blank; crt_pos = 1999 }

abbrev blank_paper : Paper
blank_paper = record { cells = λ a. blank; pos = 1999; top = 0 }

cga_puts_test : (cga_puts (b'a' ∷ (10 ∷ [])) cleared).crt_pos ≡ 1920 + 80 - 80
unfolding cga_puts
cga_puts_test = refl
