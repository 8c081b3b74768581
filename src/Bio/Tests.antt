-- ===== src/Bio/Tests.antt =====
-- kernel/bio.c: runs from binit on.
use model_lib.Base.{none, some, ℕ, ◌≡◌, refl, arith, true}
use model_lib.Base.Outcome.{Outcome, done, panic, no_fuel}
use model_lib.Bio.{
  Bcache, nbuf, set_buf, bget, brelse, bpin, holdingsleep, acquiresleep_pass, binit, scan,
  binit_from, push_front, recycle,
}
use model_lib.Bio.Init.{newest_first, age}
use model_lib.Bio.Cache.{Got, bget-Got, Released, brelse-Released}
use model_lib.Bio.Cache.Reach.{IsValid, start, more, pins, Order-binit, Reach-IsValid_cache}

-- The least recently used buffer is recycled first.
abbrev got : Outcome (ℕ × Bcache) → ℕ
got (done (b, s)) = b
got (panic w) = 100
got no_fuel = 100

bget-first : got (bget 1 5 binit) ≡ 0
unfolding bget binit scan binit_from push_front recycle
bget-first = refl

bget-Got_example : Got 1 5 binit (age nbuf) (bget 1 5 binit)
bget-Got_example = bget-Got 1 5 binit (newest_first nbuf) (age nbuf) Order-binit

-- Process 7 is the only user of buffer 3.
abbrev in_use : Bcache
in_use =
    set_buf 3 (record (binit.bufs 3) { refcnt = 1; lock = record { locked = true; pid = 7 } }) binit

in_use-holds : holdingsleep 7 (in_use.bufs 3).lock ≡ true
unfolding holdingsleep
in_use-holds = refl

brelse-Released_example :
    (t : Bcache) × (brelse 7 3 in_use ≡ done t) × Released in_use t (newest_first nbuf) (age nbuf) 3
brelse-Released_example =
    brelse-Released 7 in_use (newest_first nbuf) (age nbuf) 3 Order-binit (omega arith) in_use-holds

Reach-IsValid_cache_example : IsValid (bpin 0 binit)
Reach-IsValid_cache_example =
    Reach-IsValid_cache (bpin 0 binit) (more binit (bpin 0 binit) start (pins 0 (omega arith)))

-- A process that finds the lock free holds it.
free_lock : acquiresleep_pass 7 (binit.bufs 3).lock ≡ some (record { locked = true; pid = 7 })
unfolding acquiresleep_pass binit binit_from push_front
free_lock = refl

held_lock : acquiresleep_pass 8 (in_use.bufs 3).lock ≡ none
unfolding acquiresleep_pass
held_lock = refl
