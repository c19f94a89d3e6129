-- ===== src/Env/Tests.antt =====
-- The theorems about kern/env.c at concrete states.
-- Environment 1 names its child 7, and may not name a free slot.
use jos_kernel.Base.{arith, bit_or, none, refl, some, true, ◌≡◌}
use jos_kernel.Env.Create.{next_generation}
use jos_kernel.Env.Lookup.{MayName, envid2env, envid2env_lem}
use jos_kernel.Kernel.Outcome.{bad_env, err, ok, val}
use jos_kernel.Samples.{sample}

envid2env_lem_example :
    (MayName sample 1 4103 true → envid2env 4103 true sample ≡ ok (some 7, val 0) sample)
    × (¬ MayName sample 1 4103 true → envid2env 4103 true sample ≡ ok (none, err bad_env) sample)
envid2env_lem_example = envid2env_lem 4103 1 true sample refl (omega arith)

-- The generation wraps round to its first value.
new_id_wraps : bit_or (next_generation 0x7ffff005) 5 ≡ 0x1005
unfolding next_generation
new_id_wraps = refl
