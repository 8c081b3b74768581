-- ===== src/Fs/Trunc.antt =====
-- kernel/fs.c: itrunc, which frees the blocks of an inode.
pub mod Freeing
pub mod Emptied
use model_lib.Base.{ℕ, zero, suc, ◌+◌, ◌==◌, if◌then◌else◌, update}
use model_lib.Base.Outcome.{Outcome, done, panic, ◌>>=◌}
use model_lib.Fs.{Fs, Inode, ndirect, nindirect, word, bfree}

-- The loop over the entries of the inode, from `i` on, with `n` to go.
pub free_direct : ℕ → ℕ → Inode → Fs → Outcome (Inode × Fs)
free_direct zero i ip fs = done (ip, fs)
free_direct (suc n) i ip fs =
    let skip = free_direct n (i + 1) ip fs in
    let free = bfree (ip.addrs i) fs >>= λ fs1.
    free_direct n (i + 1) (record ip { addrs = update ip.addrs i 0 }) fs1 in
    if ip.addrs i == 0 then skip else free

-- The loop over the entries `a` of the indirect block.
pub free_entries : ℕ → ℕ → (ℕ → ℕ) → Fs → Outcome Fs
free_entries zero j a fs = done fs
free_entries (suc n) j a fs =
    let skip = free_entries n (j + 1) a fs in
    let free = bfree (a j) fs >>= λ fs1. free_entries n (j + 1) a fs1 in
    if a j == 0 then skip else free

-- The indirect block and what its entries refer to.
pub free_indirect : Inode → Fs → Outcome (Inode × Fs)
free_indirect ip fs =
    let free = free_entries nindirect 0 (word (fs.bytes (ip.addrs ndirect))) fs >>= λ fs1.
    bfree (ip.addrs ndirect) fs1 >>= λ fs2.
    done (record ip { addrs = update ip.addrs ndirect 0 }, fs2) in
    if ip.addrs ndirect == 0 then done (ip, fs) else free

-- itrunc(ip)
pub itrunc : Inode → Fs → Outcome (Inode × Fs)
itrunc ip fs = free_direct ndirect 0 ip fs >>= λ p.
    free_indirect p.0 p.1 >>= λ q. done (record (q.0) { size = 0 }, q.1)
