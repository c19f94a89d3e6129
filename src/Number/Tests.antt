-- ===== src/Number/Tests.antt =====
-- Numbers as text, at concrete values.
use jos_kernel.Base.{List, [], arith, length, refl, some, ℕ, ◌+◌, ◌∷◌, ◌≡◌}
use jos_kernel.Number.{printnum, printnum_loop, strtol}
use jos_kernel.Number.RoundTrip.{put_text, strtol-printnum}

strtol-printnum_example :
    (out : List ℕ) × (printnum 255 16 4 b'0' ≡ some out)
    × (strtol (put_text (λ a. 7) 100 out) 100 16 ≡ some (255, 100 + length out))
strtol-printnum_example =
    strtol-printnum (λ a. 7) 100 255 16 4 (omega arith) (omega arith) (omega arith) (omega arith)

printnum_run : printnum 255 16 4 b'0' ≡ some (b'0' ∷ b'0' ∷ b'f' ∷ b'f' ∷ [])
unfolding printnum printnum_loop
printnum_run = refl
