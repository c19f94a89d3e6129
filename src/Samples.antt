-- ===== src/Samples.antt =====
-- Concrete states for the tests: sixteen pages, of which 3 and 4 are free; page 2 is the page
-- directory of environment 1, which runs; environment 5 is free and 7 is runnable.
use jos_kernel.Base.{
  [], arith, false, if◌then◌else◌, none, refl, some, true, ℕ, ◌&&◌, ◌*◌, ◌+◌, ◌==◌, ◌∷◌, ==_iff,
  Bool-cases, ap, inl, inr, sym,
}
use jos_kernel.Env.Create.{fresh_tf}
use jos_kernel.Env.Run.Switch.{OnlyCurrent}
use jos_kernel.Kernel.State.{Env, Kernel, PageInfo, free, runnable, running, user}
use jos_kernel.Pmap.Alloc.FreeList.{IsFree}
use jos_kernel.Pmap.Space.{IsTree}
use jos_kernel.Pmap.Space.Steps.{IsCounted}
use jos_kernel.Pmap.Tree.{IsData}

abbrev pub sample_page : ℕ → PageInfo
sample_page p =
    if p == 3
    then record { pp_link = some 4; pp_ref = 0 }
    else record { pp_link = none; pp_ref = if p == 4 then 0 else 1 }

abbrev pub sample_env : ℕ → Env
sample_env i = record {
  env_tf = fresh_tf;
  env_link = none;
  env_id = 4096 + i;
  env_parent_id = if i == 7 then 4097 else 0;
  env_type = user;
  env_status = if i == 1 then running else if i == 7 then runnable else free;
  env_runs = 1;
  env_cpunum = 0;
  env_pgdir = some 2;
  env_pgfault_upcall = 0;
  env_ipc_recving = false;
  env_ipc_dstva = 0;
  env_ipc_value = 0;
  env_ipc_from = 0;
  env_ipc_perm = 0;
}

abbrev pub sample : Kernel
sample = record {
  npages = 16;
  kern_pgdir = 1;
  pages = sample_page;
  page_free_list = some 3;
  word = λ q i. 0;
  flushed = [];
  envs = sample_env;
  env_free_list = some 5;
  curenv = some 1;
  cr3 = 2;
  cpu = 0;
  cpu_halted = false;
  kernel_locked = true;
}

pub sample-IsFree : IsFree sample (3 ∷ 4 ∷ [])
sample-IsFree = (refl, omega arith, refl, refl, (refl, omega arith, refl, refl, tt))

pub sample-IsTree : IsTree sample 2 (3 ∷ 4 ∷ [])
sample-IsTree = record {
  free = sample-IsFree;
  exists = λ i u. omega arith;
  apart = λ i j u v p q e. cc;
  not_root = λ i u p e. cc;
  in_use = λ i u p. cc;
  root_in_use = refl;
}

-- The same with page 5 mapped at address 0 through the page table 6.
abbrev pub mapped_sample : Kernel
mapped_sample = record sample {
  word = λ q i.
      if q == 2 && i == 0 then 6 * 4096 + 7 else if q == 6 && i == 0 then 5 * 4096 + 7 else 0;
}

pub sample-OnlyCurrent : OnlyCurrent sample
sample-OnlyCurrent i h = elim (Bool-cases (i == 1)) [
  | inl e ↦ ap some (sym ((==_iff i 1).0 e))
  | inr e ↦ ground arith
]

pub mapped_sample-IsTree : IsTree mapped_sample 2 (3 ∷ 4 ∷ [])
mapped_sample-IsTree = record {
  free = sample-IsFree;
  exists = λ i u. ground arith;
  apart = λ i j u v p q e. ground arith;
  not_root = λ i u p e. ground arith;
  in_use = λ i u p. elim (Bool-cases (i == 0)) [ inl q ↦ rw q | inr q ↦ rw q ];
  root_in_use = refl;
}

-- Page 5 may be unmapped.
pub five-IsCounted : IsCounted mapped_sample 5
five-IsCounted = record {
  exists = omega arith;
  positive = omega arith;
  small = omega arith;
  unlinked = refl;
}

-- Page 4 is the only free page.
abbrev pub one_left : Kernel
one_left = record sample { page_free_list = some 4 }

pub one_left-IsTree : IsTree one_left 2 (4 ∷ [])
one_left-IsTree = record {
  free = (refl, omega arith, refl, refl, tt);
  exists = λ i u. omega arith;
  apart = λ i j u v p q e. cc;
  not_root = λ i u p e. cc;
  in_use = λ i u p. cc;
  root_in_use = refl;
}

pub five-IsData : IsData mapped_sample 2 (3 ∷ 4 ∷ []) 5
five-IsData = record {
  off_list = refl;
  not_root = λ e. omega arith;
  not_table = λ i u p e. ground arith;
}
