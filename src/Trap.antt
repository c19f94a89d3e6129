-- ===== src/Trap.antt =====
-- kern/trap.c: page faults of user environments, the dispatch of a trap, and trap.
pub mod Upcall
pub mod Dispatch
pub mod Push
pub mod Fault
pub mod SystemCall
mod Tests
