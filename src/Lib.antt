-- ===== src/Lib.antt =====
-- Verification library for the xv6 kernel of this repository (kernel/), with its tracing of system
-- calls and its race demonstration.
--
-- Parts and files:
--   Base: shared names, lists and functions updated at a point, machine words (Base/Words), and
--   Outcome, what a kernel function does besides returning: panic, or run out of the model's fuel.
--   Layout: sizes and addresses of kernel/riscv.h, kernel/memlayout.h, kernel/param.h.
--   Kalloc: kernel/kalloc.c. Memory is a function from the addresses of 64-bit words; kmem.freelist
--   is an address, and the list runs through the first words of the free pages. Chain says which
--   list of pages a state stands for, Refine is about kalloc and kfree, Init about kinit.
--   Proc: kernel/proc.c. The table is a function from indices (below NPROC) to entries; a pointer
--   to an entry is its index, its address as a sleep channel is a parameter. Find is about the
--   searches, Wake about wakeup, sleep and reparent, Alloc and Fork about allocproc and kfork, Exit,
--   Wait and Kill about kexit, kwait and kkill, Valid about the well-formedness of the table, System
--   about any sequence of calls.
--   Syscall: kernel/syscall.c and kernel/sysproc.c. Handlers are functions from the calling
--   process and the kernel's state to how they end. Trace is about the dispatcher, Handlers has the
--   handlers of sysproc.c, Handlers/Traced is about trace and exit, Handlers/Sbrk about sbrk and pause.
--   Log: kernel/log.c, with bread, bwrite, bpin and bunpin of kernel/bio.c. The disk is the history of
--   the blocks written since boot, so that a crash is an earlier history (Writes). Buffers is about
--   the cache, Header about the header block, Loops about write_log and install_trans, Commit and
--   Recovery about what a commit and a recovery do as a whole, Crash and Restart about crashes in
--   them, Allowance, Turns and Space about begin_op, end_op and the space that they keep free, Entries
--   about what a call of log_write takes.
--   Bio: kernel/bio.c and kernel/sleeplock.c. The links of the buffers are kept as the source keeps them.
--   Ring says in which order they run through the buffers, Init is about binit, Search about the loops of
--   bget, Cache about bget and brelse, Cache/Reach about any sequence of calls.
--   Race: kernel/race.c. A step is one access to what the threads share, and a schedule is the list of
--   the threads that take the steps. Locked says what holds when every thread uses the lock, Steps
--   that each step keeps it.
--   Spin: kernel/spinlock.c. A step is one access of a CPU to the lock. Invariant and Exclusion are about
--   acquire and release on several CPUs, Nesting about push_off and pop_off on one.
--   Pipe: kernel/pipe.c. Ring says which queue of bytes a ring stands for, Passes what pipewrite and
--   piperead do to the queue up to their next sleep.
--   Strings: kernel/string.c and the string functions of user/ulib.c. Moves is about memmove and
--   memset, Copies about safestrcpy.
--   Printf: kernel/printk.c and user/printf.c. Digits is about printint and atoi, Agree about the two
--   format loops.
--   Grep: user/grep.c. Meaning says what a pattern means, Lines what is printed of an input.
--   Fs: kernel/fs.c, its free map and the content of inodes. Words is about the entries of an indirect
--   block, Blocks about balloc and what an inode refers to, Direct, Bmap and Mapping about bmap,
--   Content about the bytes of a file, Spending and Budget about what writei takes of the log, Journal
--   about the blocks that it leaves there, Touched about how many blocks a write touches, Rounds and
--   Write about writei, Reading about readi, RoundTrip about both, Trunc about itrunc.
--   Itable: the inode table of kernel/fs.c. Getting is about iget, Putting about iput, which empties a file
--   by Fs, Valid about any sequence of calls.
--   Path: skipelem and the loop of namex in kernel/fs.c. Names says which names a path has.
--
-- Integers are bit patterns: an int or a uint is a number below 2 ^ 32, a uint64 below 2 ^ 64, and
-- wrap-around is written out. A call that holds its locks from start to end is one step. What
-- a modelled function asks of a part that is not modelled (page tables, user memory, files) comes in
-- as the result of that call. Most loops are structural. Where one runs on fuel (freerange, readi,
-- writei, the loops of bget and namex, and the loops over digits and formats), the caller gives as much
-- as the loop has rounds at most: a page below PHYSTOP, a byte, a buffer or a character for each.
--
-- Not modelled: the calls of log_write outside of writei, kernel stacks and context switches, assembly,
-- hardware registers and devices, page tables, directories, open files, the shell and the other
-- user programs.
pub mod Base
pub mod Layout
pub mod Kalloc
pub mod Proc
pub mod Syscall
pub mod Log
pub mod Race
pub mod Pipe
pub mod Grep
pub mod Strings
pub mod Printf
pub mod Fs
pub mod Spin
pub mod Bio
pub mod Itable
pub mod Path
