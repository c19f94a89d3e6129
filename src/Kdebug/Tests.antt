-- ===== src/Kdebug/Tests.antt =====
-- stab_binsearch on three stabs of type 100 with stabs of another type between them.
use jos_kernel.Base.{arith, if◌then◌else◌, refl, some, ℕ, ◌==◌, ◌≡◌, ◌⊎◌}
use jos_kernel.Kdebug.{Stab, stab_binsearch}
use jos_kernel.Kdebug.Inv.{IsTable}
use jos_kernel.Kdebug.Result.{IsRegion, stab_binsearch_lem, AllBehind}
use jos_kernel.Kdebug.Scans.{HasType}

abbrev stabs_sample : ℕ → Stab
stabs_sample i =
    if i == 1
    then record { n_type = 100; n_value = 0 }
    else if i == 4
    then record { n_type = 100; n_value = 64 }
    else if i == 6
    then record { n_type = 100; n_value = 65 }
    else record { n_type = 36; n_value = 7 }

typed_cases : (i : ℕ) → HasType stabs_sample 100 i → (i ≡ 1) ⊎ (i ≡ 4) ⊎ (i ≡ 6)
typed_cases i ty = ground arith

stabs_sample-IsTable : IsTable stabs_sample 100 1 8 70
stabs_sample-IsTable = record {
  positive = omega arith;
  ordered = λ i j a b c ti tj. ground arith;
  none_next = λ i a b ti e. ground arith;
  in_range = omega arith;
}

stab_binsearch_lem_example :
    (lft : ℕ) × (rgt : ℕ) × (stab_binsearch stabs_sample 100 1 8 70 ≡ some (lft, rgt))
    × (IsRegion stabs_sample 100 1 8 70 stabs_sample-IsTable lft rgt
        ⊎ AllBehind stabs_sample 100 1 8 70 stabs_sample-IsTable 9)
stab_binsearch_lem_example = stab_binsearch_lem stabs_sample 100 1 8 70 stabs_sample-IsTable

-- The address of a stab, with another stab one behind it: the search goes on to that one.
stab_binsearch_one_behind : stab_binsearch stabs_sample 100 1 8 64 ≡ some (6, 8)
unfolding stab_binsearch
stab_binsearch_one_behind = refl
