-- ===== src/Race/Tests.antt =====
-- Two threads with one increment each: interleavings with the lock, and one without it.
use model_lib.Base.{
  ℕ, ◌+◌, ◌≡◌, arith, refl, Bool, true, false, ltb, if◌then◌else◌, none, List, [], ◌∷◌,
}
use model_lib.Base.Words.{u32}
use model_lib.Race.{Race, head, step, step_at, try_acquire, run}
use model_lib.Race.Locked.{inside, owed_by}
use model_lib.Race.Steps.{Starts, run-counts, run-exclusive}

abbrev two_threads : Bool → Race
two_threads locking = record {
  holder = none;
  counter = 0;
  total_ops = 0;
  threads = λ t. record { left = if ltb t 2 then 1 else 0; use_lock = locking; pc = head };
}

two_threads-Starts : Starts 2 (two_threads true)
two_threads-Starts = record {
  free = refl;
  heads = λ t. refl;
  locking = λ t. refl;
  only = λ t h. ground arith;
}

-- Without the lock both threads read 0, and an increment is lost.
lost_update : (run (0 ∷ 1 ∷ 0 ∷ 0 ∷ 0 ∷ 1 ∷ 1 ∷ 1 ∷ []) (two_threads false)).counter ≡ 1
unfolding run step step_at
lost_update = refl

-- With the lock the second thread waits for the first.
abbrev interleaving : List ℕ
interleaving = 0 ∷ 1 ∷ 0 ∷ 1 ∷ 0 ∷ 0 ∷ 0 ∷ 0 ∷ 1 ∷ 1 ∷ []

run-counts_example :
    u32 (
      (run interleaving (two_threads true)).counter
      + owed_by 2 (run interleaving (two_threads true)).threads)
    ≡ u32 (0 + owed_by 2 (two_threads true).threads)
run-counts_example = run-counts 2 interleaving (two_threads true) two_threads-Starts

abbrev waiting : Race
waiting = run (0 ∷ 1 ∷ 0 ∷ []) (two_threads true)

run-exclusive_example : inside (waiting.threads 1).pc ≡ false
unfolding run step step_at try_acquire inside
run-exclusive_example =
    run-exclusive 2 (0 ∷ 1 ∷ 0 ∷ []) (two_threads true) 0 1 two_threads-Starts
      (λ e. omega (arith, e)) refl
