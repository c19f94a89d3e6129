-- ===== src/Printf/Tests.antt =====
-- lib/printfmt.c run on formats.
use jos_kernel.Base.{
  List, [], arith, if◌then◌else◌, length, refl, some, suc, zero, ℕ, ◌%◌, ◌-◌, ◌==◌, ◌∷◌, ◌≡◌,
}
use jos_kernel.Kernel.Layout.{u32_mod}
use jos_kernel.Printf.{codes, put_string}
use jos_kernel.Printf.Buffer.{Truncated, vsnprintf_lem}
use jos_kernel.Printf.Conversions.{digits_of}
use jos_kernel.Printf.Format.{vprintfmt, vsnprintf}
use jos_kernel.Printf.Pieces.{
  Piece, format_of, hexadecimal, minus_flag, no_flag, number_arg, percent, plain_char, signed,
  string_arg, text_of,
}
use jos_kernel.Printf.Pieces.Text.{vprintfmt_lem}
use jos_kernel.Printf.Total.{AllStrings, vprintfmt-IsSome}
use jos_kernel.Str.{strnlen}

-- "hi" at 100, and zeros.
abbrev memory : ℕ → ℕ
memory a = if a == 100 then b'h' else if a == 101 then b'i' else 0

abbrev arguments : ℕ → ℕ
arguments i = if i == 0 then 100 else if i == 1 then u32_mod - 5 else if i == 2 then 42 else 0

arguments-strings : AllStrings memory arguments
arguments-strings zero ne = (2, (omega arith, (omega arith, refl)), omega arith, omega arith)
arguments-strings (suc zero) ne = (0, refl, omega arith, omega arith)
arguments-strings (suc (suc zero)) ne = (0, refl, omega arith, omega arith)
arguments-strings (suc (suc (suc i))) ne = absurd (ne (ground arith))

-- "%s: %-5d%x%%"
abbrev pieces : List Piece
pieces =
    string_arg 100 2
    ∷ (plain_char b':'
        ∷ (number_arg minus_flag 5 signed (u32_mod - 5)
            ∷ (number_arg no_flag 0 hexadecimal 42 ∷ (percent ∷ []))))

pieces_test : format_of pieces ≡ codes "%s:%-5d%x%%"
pieces_test = refl

text_test : text_of memory arguments pieces ≡ codes "hi:-----52a%"
unfolding digits_of
text_test = refl

vprintfmt_lem_example :
    vprintfmt memory arguments (format_of pieces) 0 ≡ some (text_of memory arguments pieces)
vprintfmt_lem_example = vprintfmt_lem memory arguments pieces 0 (
  refl,
  omega arith,
  (omega arith, (omega arith, refl)),
  omega arith,
  (omega arith, (refl, omega arith, omega arith, (refl, omega arith, omega arith, tt))),
)

vprintfmt-IsSome_example : (l : List ℕ) × (vprintfmt memory arguments (codes "%s %l") 0 ≡ some l)
vprintfmt-IsSome_example = vprintfmt-IsSome memory arguments arguments-strings (codes "%s %l") 0

vsnprintf_lem_example :
    (l : List ℕ) × (vprintfmt memory arguments (codes "%s %d") 0 ≡ some l)
    × ((m' : ℕ → ℕ) × (vsnprintf 500 4 (codes "%s %d") arguments 0 memory
          ≡ some (length l % u32_mod, m'))
        × Truncated 500 4 l memory m')
vsnprintf_lem_example =
    vsnprintf_lem 500 4 0 (codes "%s %d") arguments memory (omega arith) (omega arith) (omega arith)
      arguments-strings

-- The result counts what has no room.
vsnprintf_test : vprintfmt memory arguments (codes "%s %d") 0 ≡ some (codes "hi -5")
unfolding vprintfmt put_string strnlen
vsnprintf_test = refl
