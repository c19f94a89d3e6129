-- ===== src/Str/Tests.antt =====
-- The theorems about lib/string.c at a concrete memory: "ab" at 10 and at 20.
use jos_kernel.Base.{arith, if◌then◌else◌, refl, ℕ, ◌==◌, ◌||◌}
use jos_kernel.Str.Length.{IsString}

abbrev memory : ℕ → ℕ
memory a = if a == 10 || a == 20 then 97 else if a == 11 || a == 21 then 98 else 0

ab-IsString : IsString memory 10 2
ab-IsString = (omega arith, (omega arith, refl))
