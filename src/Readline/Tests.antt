-- ===== src/Readline/Tests.antt =====
-- lib/readline.c run on keys.
use jos_kernel.Base.{List, [], refl, some, ℕ, ◌∷◌, ◌≡◌}
use jos_kernel.Readline.{Line, entered, readline}
use jos_kernel.Readline.Edit.{Finished, readline_lem, typed}

-- "ab", backspace, "c", enter, "x"
abbrev keys : List ℕ
keys = b'a' ∷ (b'b' ∷ (8 ∷ (b'c' ∷ (13 ∷ (b'x' ∷ [])))))

typed_test : typed keys [] ≡ some (b'c' ∷ (b'a' ∷ []), b'x' ∷ [])
typed_test = refl

-- A delete at the start of the line is a character.
delete_test : typed (127 ∷ (b'a' ∷ (10 ∷ []))) [] ≡ some (b'a' ∷ (127 ∷ []), [])
delete_test = refl

readline_lem_example :
    (s : Line) × (readline keys (λ a. 7) ≡ (entered s, b'x' ∷ []))
    × Finished (λ a. 7) (b'c' ∷ (b'a' ∷ [])) s
readline_lem_example = readline_lem keys (λ a. 7)
