-- ===== src/Env.antt =====
-- kern/env.c: the environments. `envs` is an array of NENV slots; an environment is its index.
pub mod Lookup
pub mod Create
pub mod Run
pub mod Destroy
mod Tests
