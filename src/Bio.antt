-- ===== src/Bio.antt =====
-- kernel/bio.c and kernel/sleeplock.c: the buffer cache, with its list of buffers in the order of
-- their last use, and the lock of a buffer. A buffer is its index in bcache.buf, and the list head has
-- the index NBUF. What stands between acquire and release of bcache.lock or of the spin lock in a
-- sleep lock is one step.
mod Init
pub mod Ring
pub mod Search
pub mod Cache
mod Tests
use model_lib.Base.{
  ℕ, zero, suc, ◌+◌, ◌-◌, ◌*◌, ◌^◌, ◌%◌, Bool, true, false, not, ◌&&◌, ◌==◌, ltb, if◌then◌else◌,
  Option, none, some, update,
}
use model_lib.Base.Words.{u32}
use model_lib.Base.Outcome.{Outcome, done, panic, no_fuel, ◌>>=◌}

abbrev pub nbuf : ℕ
nbuf = 30

-- The index of bcache.head.
abbrev pub head : ℕ
head = nbuf

-- `struct sleeplock`, without its spin lock.
pub record Sleeplock : Type 0 where
  pub locked : Bool
  pub pid : ℕ

-- A pass of the loop of acquiresleep by the process `pid`; none if it goes to sleep.
pub acquiresleep_pass : ℕ → Sleeplock → Option Sleeplock
acquiresleep_pass pid l = if l.locked then none else some (record { locked = true; pid = pid })

-- releasesleep(lk), up to the wakeup of those that wait for it.
unfoldable pub releasesleep : Sleeplock → Sleeplock
releasesleep l = record { locked = false; pid = 0 }

-- holdingsleep(lk) by the process `pid`.
unfoldable pub holdingsleep : ℕ → Sleeplock → Bool
holdingsleep pid l = l.locked && (l.pid == pid)

-- `struct buf`, without its contents and its links.
pub record Buf : Type 0 where
  pub valid : Bool
  pub dev : ℕ
  pub blockno : ℕ
  pub lock : Sleeplock
  pub refcnt : ℕ

-- `bcache`; the links of the buffers and of the head.
pub record Bcache : Type 0 where
  pub bufs : ℕ → Buf
  pub next : ℕ → ℕ
  pub prev : ℕ → ℕ

abbrev pub set_buf : ℕ → Buf → Bcache → Bcache
set_buf b x s = record s { bufs = update s.bufs b x }

abbrev pub set_next : ℕ → ℕ → Bcache → Bcache
set_next b c s = record s { next = update s.next b c }

abbrev pub set_prev : ℕ → ℕ → Bcache → Bcache
set_prev b c s = record s { prev = update s.prev b c }

-- `b` goes between the head and the first buffer.
pub push_front : ℕ → Bcache → Bcache
push_front b s =
    let s1 = set_prev b head (set_next b (s.next head) s) in
    set_next head b (set_prev (s1.next head) b s1)

-- `b` leaves the list.
pub unlink : ℕ → Bcache → Bcache
unlink b s = let s1 = set_prev (s.next b) (s.prev b) s in set_next (s1.prev b) (s1.next b) s1

-- The loop of binit, from the buffer `b` on, with `n` to go.
pub binit_from : ℕ → ℕ → Bcache → Bcache
binit_from zero b s = s
binit_from (suc n) b s = binit_from n (b + 1) (push_front b s)

-- binit(), on memory that is zero.
pub binit : Bcache
binit =
    let zeroed : Buf = record {
      valid = false;
      dev = 0;
      blockno = 0;
      lock = record { locked = false; pid = 0 };
      refcnt = 0;
    } in
    binit_from nbuf 0 (record { bufs = λ b. zeroed; next = λ b. head; prev = λ b. head })

-- A loop of bget along the links `link`, from `b` to the head, for a buffer with the property `test`.
pub scan : ℕ → (Buf → Bool) → (ℕ → ℕ) → ℕ → (ℕ → Buf) → Outcome (Option ℕ)
scan zero test link b bufs = no_fuel
scan (suc fuel) test link b bufs =
    let rest = scan fuel test link (link b) bufs in
    if b == head then done none else if test (bufs b) then done (some b) else rest

abbrev pub caches : ℕ → ℕ → Buf → Bool
caches dev blockno x = (x.dev == dev) && (x.blockno == blockno)

abbrev pub unused : Buf → Bool
unused x = x.refcnt == 0

-- The second loop of bget: a buffer for a block that is not cached.
pub recycle : ℕ → ℕ → Bcache → Outcome (ℕ × Bcache)
recycle dev blockno s = scan (nbuf + 1) unused s.prev (s.prev head) s.bufs >>= λ found. elim found [
  | none ↦ panic "bget: no buffers"
  | some b ↦ done (
    b,
    set_buf b (record (s.bufs b) { dev = dev; blockno = blockno; valid = false; refcnt = 1 }) s,
  )
]

abbrev pub count_up : ℕ → Bcache → Bcache
count_up b s = set_buf b (record (s.bufs b) { refcnt = u32 ((s.bufs b).refcnt + 1) }) s

abbrev pub count_down : ℕ → Bcache → Bcache
count_down b s = set_buf b (record (s.bufs b) { refcnt = u32 ((s.bufs b).refcnt + (2 ^ 32 - 1)) }) s

-- bget(dev, blockno), up to acquiresleep.
pub bget : ℕ → ℕ → Bcache → Outcome (ℕ × Bcache)
bget dev blockno s = scan (nbuf + 1) (caches dev blockno) s.next (s.next head) s.bufs >>= λ found.
    elim found [ none ↦ recycle dev blockno s | some b ↦ done (b, count_up b s) ]

-- The last user of a buffer moves it to the front.
pub brelse_unlocked : ℕ → Bcache → Bcache
brelse_unlocked b s =
    let s1 = count_down b s in if unused (s1.bufs b) then push_front b (unlink b s1) else s1

-- brelse(b) by the process `pid`.
pub brelse : ℕ → ℕ → Bcache → Outcome Bcache
brelse pid b s =
    if not (holdingsleep pid (s.bufs b).lock)
    then panic "brelse"
    else done (
        brelse_unlocked b (set_buf b (record (s.bufs b) { lock = releasesleep (s.bufs b).lock }) s))

-- bpin(b)
pub bpin : ℕ → Bcache → Bcache
bpin b s = count_up b s

-- bunpin(b)
pub bunpin : ℕ → Bcache → Bcache
bunpin b s = count_down b s
