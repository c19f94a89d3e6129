-- ===== src/Env/Create/Ids.antt =====
-- The identifiers that env_alloc gives out.
-- The generation is a positive multiple of NENV below 2 ^ 31, and not that of the old identifier.
use jos_kernel.Base.{arith, bit_or, subst, sym, ℕ, ◌*◌, ◌+◌, ◌/◌, ◌<◌, ◌^◌, ◌≡◌, ◌≢◌}
use jos_kernel.Base.Bits.{bit_or-shifted}
use jos_kernel.Env.Create.{next_generation}
use jos_kernel.Env.Lookup.{envx, nenv}

next_generation_lem :
    (env_id : ℕ)
    → env_id < 2 ^ 31
    → let g = next_generation env_id in
      (g ≡ g / 1024 * 1024) × (0 < g) × (g < 2 ^ 31) × (g ≢ env_id / 1024 * 1024)
unfolding next_generation
next_generation_lem env_id h = ground arith

id_sum : (g e : ℕ) → g ≡ g / 1024 * 1024 → e < 1024 → bit_or g e ≡ g + e
id_sum g e m h = subst (λ x. bit_or x e ≡ x + e) (sym m) (bit_or-shifted 10 (g / 1024) e h)

-- The identifier of a new environment in slot `e` is positive as an int32_t, keeps the slot in its
-- low bits, and is not the identifier that the slot had before.
pub new_id_lem :
    (env_id e : ℕ)
    → env_id < 2 ^ 31
    → e < nenv
    → let id = bit_or (next_generation env_id) e in
      (0 < id) × (id < 2 ^ 31) × (envx id ≡ e) × (id ≢ env_id)
new_id_lem env_id e h he =
    let g = next_generation_lem env_id h in
    let s = id_sum (next_generation env_id) e g.0 he in
    rw s (omega arith, omega arith, omega arith, λ q. omega arith)
