-- ===== src/Pmap.antt =====
-- kern/pmap.c: the physical page allocator, the page tables and the checks of user memory.
pub mod Alloc
pub mod Walk
pub mod Space
pub mod Tree
pub mod Region
pub mod User
mod Tests
