-- ===== src/Fs.antt =====
-- kernel/fs.c: disk blocks and the content of inodes. The bits of the free map and the bytes of the
-- other blocks are two fields: mkfs marks the map, the inodes and the log in use, so that balloc does
-- not return one of their blocks. What either_copyin and either_copyout do comes in as a parameter.
-- Writing goes through the log: writei makes its calls of log_write, and before each bmap those that bmap
-- makes, on the log of kernel/log.c. Elsewhere (bfree and itrunc, and readi, which makes
-- some only where a block is missing) the calls of log_write are left out: there the model is about
-- calls that the log has room for.
pub mod Words
pub mod Blocks
pub mod Direct
pub mod Bmap
pub mod Mapping
pub mod Content
pub mod Rounds
pub mod Spending
pub mod Budget
pub mod Journal
pub mod Touched
pub mod Write
pub mod Reading
pub mod RoundTrip
pub mod Trunc
mod Tests
use model_lib.Base.{
  ℕ, zero, suc, ◌+◌, ◌-◌, ◌*◌, ◌/◌, ◌%◌, ◌^◌, Bool, true, false, not, ◌==◌, ◌&&◌, ◌||◌, ltb, leb,
  if◌then◌else◌, Option, none, some, List, [], ◌∷◌, ◌++◌, update, min,
}
use model_lib.Base.Words.{u32, minus_one}
use model_lib.Base.Outcome.{Outcome, done, panic, ◌>>=◌}
use model_lib.Log.{Log, log_write}

abbrev pub bsize : ℕ
bsize = 1024

abbrev pub ndirect : ℕ
ndirect = 12

abbrev pub nindirect : ℕ
nindirect = 256

abbrev pub maxfile : ℕ
maxfile = ndirect + nindirect

abbrev pub Content : Type 0
Content = ℕ → ℕ

pub record Fs : Type 0 where
  pub in_use : ℕ → Bool
  pub bytes : ℕ → Content
  pub size : ℕ

-- The fields of `struct inode` that its content is found by.
pub record Inode : Type 0 where
  pub addrs : ℕ → ℕ
  pub size : ℕ

-- The `i`th uint of a block.
abbrev pub word : Content → ℕ → ℕ
word blk i =
    blk (4 * i) + 256 * blk (4 * i + 1) + 65536 * blk (4 * i + 2) + 16777216 * blk (4 * i + 3)

pub set_word : ℕ → ℕ → Content → Content
set_word i w blk =
    update
      (update (update (update blk (4 * i) (w % 256)) (4 * i + 1) (w / 256 % 256)) (4 * i + 2)
        (w / 65536 % 256))
      (4 * i + 3) (w / 16777216 % 256)

-- bzero(dev, bno)
pub bzero : ℕ → Fs → Fs
bzero b fs = record fs { bytes = update fs.bytes b (λ i. 0) }

-- The search of balloc, which goes through the bits of all map blocks in order.
pub find_free : ℕ → ℕ → (ℕ → Bool) → Option ℕ
find_free zero b in_use = none
find_free (suc n) b in_use =
    let later = find_free n (b + 1) in_use in if in_use b then later else some b

-- balloc(dev); 0 if there is no block.
pub balloc : Fs → ℕ × Fs
balloc fs = elim (find_free fs.size 0 fs.in_use) [
  | none ↦ (0, fs)
  | some b ↦ (b, bzero b (record fs { in_use = update fs.in_use b true }))
]

-- bfree(dev, b)
pub bfree : ℕ → Fs → Outcome Fs
bfree b fs =
    if not (fs.in_use b)
    then panic "freeing free block"
    else done (record fs { in_use = update fs.in_use b false })

-- The entries of an inode: `addr = ip->addrs[i]`, allocated if it is 0.
pub bmap_direct : ℕ → Inode → Fs → ℕ × Inode × Fs
bmap_direct i ip fs =
    let addr = ip.addrs i in
    let (a, fs1) = balloc fs in
    if addr == 0
    then (if a == 0 then (0, ip, fs1) else (a, record ip { addrs = update ip.addrs i a }, fs1))
    else (addr, ip, fs)

-- The entry `i` of the indirect block `addr`.
pub bmap_entry : ℕ → ℕ → Fs → ℕ × Fs
bmap_entry addr i fs =
    let entry = word (fs.bytes addr) i in
    let (a, fs1) = balloc fs in
    if entry == 0
    then (if a == 0
        then (0, fs1)
        else (a, record fs1 { bytes = update fs1.bytes addr (set_word i a (fs1.bytes addr)) }))
    else (entry, fs)

-- The part of bmap behind the direct blocks.
pub bmap_indirect : ℕ → Inode → Fs → ℕ × Inode × Fs
bmap_indirect i ip fs =
    let (addr, ip1, fs1) = bmap_direct ndirect ip fs in
    let (r, fs2) = bmap_entry addr i fs1 in if addr == 0 then (0, ip1, fs1) else (r, ip1, fs2)

-- bmap(ip, bn); 0 if there is no block.
pub bmap : ℕ → Inode → Fs → Outcome (ℕ × Inode × Fs)
bmap bn ip fs =
    if ltb bn ndirect
    then done (bmap_direct bn ip fs)
    else if ltb (bn - ndirect) nindirect
    then done (bmap_indirect (bn - ndirect) ip fs)
    else panic "bmap: out of range"

-- The calls of log_write that balloc and bmap make, by their block numbers in order, `bmapstart` being the first
-- block of the free map. As long as log_write returns, it changes nothing that they look at.
abbrev pub bblock : ℕ → ℕ → ℕ
bblock bmapstart b = b / (bsize * 8) + bmapstart

pub balloc_writes : ℕ → Fs → List ℕ
balloc_writes bmapstart fs = elim (find_free fs.size 0 fs.in_use) [
  | none ↦ []
  | some b ↦ bblock bmapstart b ∷ b ∷ []
]

pub direct_writes : ℕ → ℕ → Inode → Fs → List ℕ
direct_writes bmapstart i ip fs = if ip.addrs i == 0 then balloc_writes bmapstart fs else []

pub entry_writes : ℕ → ℕ → ℕ → Fs → List ℕ
entry_writes bmapstart addr i fs =
    if word (fs.bytes addr) i == 0
    then balloc_writes bmapstart fs ++ (if (balloc fs).0 == 0 then [] else addr ∷ [])
    else []

pub bmap_writes : ℕ → ℕ → Inode → Fs → List ℕ
bmap_writes bmapstart bn ip fs =
    let (addr, ip1, fs1) = bmap_direct ndirect ip fs in
    let behind =
      direct_writes bmapstart ndirect ip fs
      ++ (if addr == 0 then [] else entry_writes bmapstart addr (bn - ndirect) fs1) in
    if ltb bn ndirect then direct_writes bmapstart bn ip fs else behind

pub log_all : List ℕ → Log → Outcome Log
log_all [] s = done s
log_all (b ∷ bs) s = log_write b s >>= log_all bs

-- `m` bytes from `src + tot` on are copied to `o` in a block.
abbrev pub write_bytes : Content → ℕ → (ℕ → ℕ) → ℕ → ℕ → Content
write_bytes blk o src tot m b = if leb o b && ltb b (o + m) then src (tot + (b - o)) else blk b

-- The state of the loop of writei: `tot`, `off`, the inode, the disk and the log.
pub record Written : Type 0 where
  pub tot : ℕ
  pub off : ℕ
  pub inode : Inode
  pub disk : Fs
  pub log : Log

-- The loop of writei, in at most `fuel` rounds. `fails tot` is `some k` if the copy from `src + tot`
-- fails once it has copied `k` bytes.
pub writei_from : ℕ → ℕ → ℕ → (ℕ → ℕ) → (ℕ → Option ℕ) → Written → Outcome Written
writei_from zero bmapstart n src fails w = done w
writei_from (suc fuel) bmapstart n src fails w =
    let m = min (n - w.tot) (bsize - w.off % bsize) in
    let round = log_all (bmap_writes bmapstart (w.off / bsize) w.inode w.disk) w.log >>= λ log1.
    bmap (w.off / bsize) w.inode w.disk >>= λ p.
    let (addr, ip, fs) = p in
    let copy = λ (k : ℕ). record fs {
      bytes = update fs.bytes addr (write_bytes (fs.bytes addr) (w.off % bsize) src w.tot k);
    } in
    let stopped = λ (k : ℕ). done (record w { inode = ip; disk = copy k; log = log1 }) in
    let next = log_write addr log1 >>= λ log2.
    writei_from fuel bmapstart n src fails
      (record { tot = w.tot + m; off = w.off + m; inode = ip; disk = copy m; log = log2 }) in
    if addr == 0
    then done (record w { inode = ip; disk = fs; log = log1 })
    else (elim (fails w.tot) [ none ↦ next | some k ↦ stopped k ]) in
    if ltb w.tot n then round else done w

-- The end of writei: the size grows, and iupdate writes the inode.
abbrev pub grown : Written → Inode
grown w = if ltb w.inode.size w.off then record (w.inode) { size = w.off } else w.inode

-- writei(ip, user_src, src, off, n); `iblock` is the block that iupdate passes to log_write.
pub writei :
    (bmapstart iblock : ℕ)
    → (ℕ → ℕ)
    → (ℕ → Option ℕ)
    → ℕ
    → ℕ
    → Inode
    → Fs
    → Log
    → Outcome (ℕ × Inode × Fs × Log)
writei bmapstart iblock src fails off n ip fs log =
    if ltb ip.size off || ltb (u32 (off + n)) off
    then done (minus_one, ip, fs, log)
    else if ltb (maxfile * bsize) (off + n)
    then done (minus_one, ip, fs, log)
    else writei_from n bmapstart n src fails
        (record { tot = 0; off = off; inode = ip; disk = fs; log = log })
      >>= λ w. log_write iblock w.log >>= λ log1. done (w.tot, grown w, w.disk, log1)

-- `m` bytes of a block from `o` on.
pub slice : Content → ℕ → ℕ → List ℕ
slice blk o zero = []
slice blk o (suc m) = blk o ∷ slice blk (o + 1) m

-- The state of the loop of readi, with the bytes that were copied out; `failed` if a copy failed.
pub record Read : Type 0 where
  pub tot : ℕ
  pub off : ℕ
  pub out : List ℕ
  pub failed : Bool
  pub inode : Inode
  pub disk : Fs

-- The loop of readi, in at most `fuel` rounds; `copies tot` says whether the copy to `dst + tot`
-- succeeds.
pub readi_from : ℕ → ℕ → (ℕ → Bool) → Read → Outcome Read
readi_from zero n copies r = done r
readi_from (suc fuel) n copies r =
    let m = min (n - r.tot) (bsize - r.off % bsize) in
    let round = bmap (r.off / bsize) r.inode r.disk >>= λ p.
    let (addr, ip, fs) = p in
    let next = readi_from fuel n copies (record {
      tot = r.tot + m;
      off = r.off + m;
      out = r.out ++ slice (fs.bytes addr) (r.off % bsize) m;
      failed = false;
      inode = ip;
      disk = fs;
    }) in
    if addr == 0
    then done (record r { inode = ip; disk = fs })
    else if copies r.tot
    then next
    else done (record r { failed = true; inode = ip; disk = fs }) in
    if ltb r.tot n then round else done r

-- readi(ip, user_dst, dst, off, n)
pub readi : (ℕ → Bool) → ℕ → ℕ → Inode → Fs → Outcome (ℕ × List ℕ × Inode × Fs)
readi copies off n ip fs =
    let n1 = if ltb ip.size (off + n) then ip.size - off else n in
    if ltb ip.size off || ltb (u32 (off + n)) off
    then done (0, [], ip, fs)
    else readi_from n1 n1 copies
        (record { tot = 0; off = off; out = []; failed = false; inode = ip; disk = fs })
      >>= λ r. done (if r.failed then minus_one else r.tot, r.out, r.inode, r.disk)
