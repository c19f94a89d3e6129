-- ===== src/Syscall.antt =====
-- kern/syscall.c: the system calls on environments, address spaces and messages, and their dispatch.
pub mod Envs
pub mod Pages
pub mod Ipc
pub mod Frame
pub mod Dispatch
mod Tests
