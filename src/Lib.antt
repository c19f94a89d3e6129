-- ===== src/Lib.antt =====
-- Verification of the JOS kernel: page tables, environments, traps, the scheduler and its lock,
-- system calls, the file system, pipes, the network card's rings, the console, and the string library
-- with its formats.
--
-- Parts. The kernel keeps physical pages and page tables (kern/pmap.c), environments (kern/env.c),
-- a scheduler under one big lock (kern/sched.c, kern/spinlock.c), and serves system calls
-- (kern/syscall.c) that combine them. The file server (fs/serv.c, on fs/fs.c and the block cache fs/bc.c)
-- is a user program, and lib/string.c and lib/printfmt.c are linked into both. A trap (kern/trap.c)
-- enters the kernel, which serves a system call, hands a page fault to the program's upcall, or runs another environment. Processes
-- talk through pipes (lib/pipe.c).
--
-- State. Kernel/State.antt is the global state of the kernel: `pages`, `page_free_list`, `envs`,
-- `env_free_list`, `curenv`, the page directory in CR3, the lock, the addresses flushed from the TLB,
-- and physical memory as words. A `struct PageInfo *` and a `struct Env *` are indices into `pages`
-- and `envs`; a page directory is its physical page; a `pte_t *` is a page with the index of a
-- word. A physical address is its page where the code only passes it to KADDR or pa2page.
-- Kernel/Outcome.antt is what a function does: it returns, panics, reads through a null pointer, or
-- leaves the kernel for good (env_run, sched_halt), which ends its callers. Base.antt has the
-- shared names, Base/Bits.antt and Base/Mask.antt the laws of `|` and `&`, Kernel/Layout.antt the
-- constants and macros of inc/mmu.h and inc/memlayout.h.
--
-- Files.
--   Pmap/Alloc.antt: page_alloc, page_free, page_decref; the free list in Alloc/FreeList.antt and
--     Alloc/Free.antt.
--   Pmap/Walk.antt: pgdir_walk, page_lookup, page_remove, tlb_invalidate, page_insert; what the
--     hardware sees of them in Pmap/Space.antt and the files below it.
--   Pmap/User.antt: loads and stores of the kernel at a program's addresses.
--   Pmap/Region.antt: boot_alloc, page_init, boot_map_region, mmio_map_region, user_mem_check.
--   Env/Lookup.antt: envid2env. Env/Create.antt: env_init, env_setup_vm, env_alloc. Env/Run.antt:
--     env_run. Env/Destroy.antt: env_free, env_destroy.
--   Trap/Upcall.antt: page_fault_handler. Trap/Dispatch.antt: trap and trap_dispatch of kern/trap.c.
--   Sched.antt: sched_yield, sched_halt.
--   Syscall/Envs.antt, Syscall/Pages.antt, Syscall/Ipc.antt, Syscall/Frame.antt,
--     Syscall/Dispatch.antt: kern/syscall.c.
--   Fs.antt: the bitmap and the block pointers of fs/fs.c. Fs/File.antt: its file_read and file_write.
--     Fs/Dir.antt: dir_lookup, dir_alloc_file, walk_path, file_open, file_create, file_flush.
--   Serv.antt: fs/serv.c, over the two; the open file table in Serv/Table.antt, the server with its
--     clients in Serv/Turns.antt.
--   Str.antt: lib/string.c. Number.antt: its strtol, and printnum of lib/printfmt.c.
--   Printf.antt: vprintfmt and vsnprintf of lib/printfmt.c, in Printf/Format.antt, with the arguments as
--     an array of words; formats made of pieces in Printf/Pieces.antt.
--   Console.antt: the input ring and cga_putc of kern/console.c; the queue in Console/Input.antt, the
--     paper of which the screen is a window in Console/Screen.antt. Readline.antt: lib/readline.c.
--   Pipe.antt: the buffer of lib/pipe.c; its reader and writer as interleaved steps in Pipe/Steps.antt.
--   Fds.antt: the descriptors of lib/fd.c; dup in Fds/Dup.antt.
--   Fork.antt: lib/fork.c, over the pages of all environments. Fork/Separate.antt: memories that are
--     separate from the start, which the copy-on-write pages of a parent and its child implement.
--   Lock.antt: kern/spinlock.c on several CPUs, a step for each access to the lock.
--   Kdebug.antt: stab_binsearch of kern/kdebug.c; its loop in Kdebug/Inv.antt.
--   Net.antt: the rings of kern/e1000.c. Net/Transmit.antt: nic_transmit; Net/Receive.antt: e1000_receive;
--     both with the steps of the card. A driver's function is one step, since it moves the tail last.
--   The modules named Tests apply the theorems at the states of Samples.antt and run the code.
--
-- Numbers. Words wrap at 2 ^ 32 and reference counts at 2 ^ 16 where the code's types do. A loop
-- with a bound is a recursion on the rounds left. Two kinds of loop have no bound of their own: that of
-- user_mem_check has a round for each page of the address space, and the string loops one for
-- each address, so that every string in memory ends before the rounds do. printnum has a round for
-- each value up to its number, since each call divides the number; vprintfmt has a round for each
-- character of the format and one more, of which a theorem says that they are enough; walk_path has a
-- round for each character of the path, file_read and file_write have one for each byte, and
-- stab_binsearch has two for each stab of the range and two more, of which a theorem says that they
-- are enough.
--
-- Not modelled: code that runs once at boot, the filling of the descriptor tables, and devices but for
-- the rings of the network card, the ring of the console and its screen; the loading of programs; the
-- kernel on several CPUs, but for its lock; of the user library all but strings, numbers, formats, line
-- input, descriptors, pipes and fork; the network server, which moves messages to and from lwIP, and the
-- copy of lwIP. What cprintf prints is left out where the kernel calls it. The file server's reply to a
-- request for the name and size of a file is left out, and after a read of more than a page, which
-- overruns the request page into the disk map, its disk is any. Frames that fork and pgfault leave without a
-- page are not given back.
pub mod Base
pub mod Kernel
pub mod Pmap
pub mod Env
pub mod Sched
pub mod Syscall
pub mod Str
pub mod Number
pub mod Fs
pub mod Pipe
pub mod Lock
pub mod Trap
pub mod Kdebug
pub mod Net
pub mod Serv
pub mod Fds
pub mod Fork
pub mod Printf
pub mod Console
pub mod Readline
mod Samples
