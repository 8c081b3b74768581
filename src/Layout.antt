-- ===== src/Layout.antt =====
-- kernel/riscv.h, kernel/memlayout.h, kernel/param.h, kernel/fs.h: sizes and addresses.
use model_lib.Base.{ℕ, ◌+◌, ◌-◌, ◌*◌, ◌/◌, ◌^◌}
use model_lib.Base.Words.{u64}

abbrev pub pgsize : ℕ
pgsize = 4096

abbrev pub kernbase : ℕ
kernbase = 0x80000000

abbrev pub phystop : ℕ
phystop = kernbase + 128 * 1024 * 1024

abbrev pub maxva : ℕ
maxva = 2 ^ (9 + 9 + 9 + 12 - 1)

abbrev pub trampoline : ℕ
trampoline = maxva - pgsize

abbrev pub trapframe : ℕ
trapframe = trampoline - pgsize

-- `& ~(PGSIZE - 1)` clears the low twelve bits.
abbrev pub pg_round_up : ℕ → ℕ
pg_round_up sz = u64 (sz + (pgsize - 1)) / pgsize * pgsize

abbrev pub pg_round_down : ℕ → ℕ
pg_round_down a = a / pgsize * pgsize

abbrev pub maxopblocks : ℕ
maxopblocks = 10

abbrev pub logblocks : ℕ
logblocks = maxopblocks * 3

-- BSIZE / sizeof(uint): the 32-bit words of a disk block.
abbrev pub block_words : ℕ
block_words = 1024 / 4
