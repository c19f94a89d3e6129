-- ===== src/Kernel.antt =====
-- The kernel's global variables and the shape of a kernel function: kern/pmap.h, inc/memlayout.h
-- (struct PageInfo), inc/env.h (struct Env) and the globals of kern/pmap.c and kern/env.c.
--
-- A function of the kernel is a command over this state. It returns, or panics, or reads through a
-- null pointer, or leaves the kernel for good (env_run, sched_halt), which ends its callers too.
pub mod Layout
pub mod Outcome
pub mod State
