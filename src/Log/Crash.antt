-- ===== src/Log/Crash.antt =====
-- A crash in the middle of commit of kernel/log.c, and the recovery after it.
use model_lib.Base.{
  ℕ, ◌+◌, ◌≤◌, ◌<◌, ◌≡◌, ◌⊎◌, inl, inr, arith, refl, false, if◌then◌else◌, List, [], ◌∷◌, get_or,
  ◌∙◌, sym, ap, ap₂, length, subst, get_or-set_self,
}
use model_lib.Log.{Log, Block, replay, disk, buf, commit, initlog}
use model_lib.Log.Header.{header-count, header-entry, length-header}
use model_lib.Log.Writes.{
  Outside, installs, logs, listed, replay-installs, replay-logs_other, replay-logs-entry, Earlier,
  now, before, Earlier-cons, Earlier-installs, Earlier-logs, listed_more, listed_inside,
}
use model_lib.Log.Commit.{Fits, contents, full_header, commit_writes, commit-writes, commit-base}
use model_lib.Log.Recovery.{Saved, disk-initlog}

Earlier-length {ℓ} : {A : Type ℓ} {v w : List A} → Earlier v w → (v ≡ w) ⊎ (length v < length w)
Earlier-length now = inl refl
Earlier-length (before e) = elim (Earlier-length e) [
  | inl same ↦ inr (omega (arith, ap length same))
  | inr less ↦ inr (omega arith)
]

Earlier-antisym {ℓ} : {A : Type ℓ} {v w : List A} → Earlier v w → Earlier w v → v ≡ w
Earlier-antisym e e1 = elim (Earlier-length e) [
  | inl same ↦ same
  | inr less ↦ elim (Earlier-length e1) [ inl same ↦ sym same | inr more ↦ absurd (omega arith) ]
]

-- The disk after a recovery from the disk `d`.
abbrev recovered : ℕ → (ℕ → Block) → ℕ → Block
recovered start d = disk (initlog d start)

-- Two disks that agree outside the log at `start`.
abbrev pub SameOutside : ℕ → (ℕ → Block) → (ℕ → Block) → Type 0
SameOutside start d e = (b : ℕ) → Outside start b → d b ≡ e b

-- A recovery from a header without entries changes nothing outside the log.
recovered-empty :
    (d : ℕ → Block) (start : ℕ) → get_or (d start) 0 0 ≡ 0 → SameOutside start (recovered start d) d
unfolding listed
recovered-empty d start count b o =
    disk-initlog d start 0 [] d (omega arith) (λ j h. absurd (omega arith))
      record {
        count = count;
        entries = λ j h. absurd (omega arith);
        contents = λ j h. absurd (omega arith);
      }
      b
    ∙ ground arith

module _ (s : Log) (fits : Fits s) (empty : get_or (disk s s.start) 0 0 ≡ 0) where
  -- The writes up to the header, and what they leave outside the log.
  abbrev saved_writes : List (ℕ × Block)
  saved_writes = (s.start, full_header s) ∷ logs (contents s) s.block s.start s.n 0 s.written

  -- The disk with the transaction.
  abbrev new_disk : ℕ → Block
  new_disk b = if listed (contents s) s.block s.n 0 b then contents s b else disk s b

  -- The disk after `j` rounds of the installation.
  abbrev partly : ℕ → ℕ → Block
  partly j = replay s.base (installs (contents s) s.block j 0 saved_writes)

  inside :
      (j b : ℕ)
      → j ≤ s.n
      → s.start ≤ b
      → b ≤ s.start + 30
      → listed (contents s) s.block j 0 b ≡ false
  inside j b h = listed_inside (contents s) s.block s.start j b (λ i l. fits.out i (omega arith))

  partly-head : (j : ℕ) → j ≤ s.n → partly j s.start ≡ full_header s
  unfolding replay
  partly-head j h =
      replay-installs (contents s) s.block s.base j 0 s.start saved_writes
      ∙ ground (arith, inside j s.start h (omega arith) (omega arith))

  partly-entry :
      (j i : ℕ) → j ≤ s.n → i < s.n → partly j (s.start + i + 1) ≡ contents s (get_or s.block i 0)
  unfolding replay
  partly-entry j i h l =
      replay-installs (contents s) s.block s.base j 0 (s.start + i + 1) saved_writes
      ∙ ground (
        arith,
        inside j (s.start + i + 1) h (omega arith) (omega (arith, fits.small)),
        replay-logs-entry (contents s) s.block s.base s.start s.n 0 i s.written (omega arith)
            (omega arith),
      )

  partly-outside :
      (j b : ℕ)
      → Outside s.start b
      → partly j b ≡ (if listed (contents s) s.block j 0 b then contents s b else disk s b)
  unfolding replay disk
  partly-outside j b o =
      replay-installs (contents s) s.block s.base j 0 b saved_writes
      ∙ ground (
        arith,
        o,
        fits.small,
        replay-logs_other (contents s) s.block s.base s.start s.n 0 b s.written
            (omega (arith, o, fits.small)),
      )

  partly-Saved : (j : ℕ) → j ≤ s.n → Saved (contents s) s.start s.n s.block (partly j)
  partly-Saved j h = record {
    count =
        ap (λ (d : Block). get_or d 0 0) (partly-head j h)
        ∙ header-count s.n s.block (buf s.start s) (omega (arith, fits.room));
    entries = λ i l.
        ap (λ (d : Block). get_or d (i + 1) 0) (partly-head j h)
        ∙ header-entry s.n i s.block (buf s.start s) l (omega (arith, fits.room, fits.small));
    contents = λ i l. partly-entry j i h l;
  }

  -- A crash after the header was written.
  recovered-partly : (j : ℕ) → j ≤ s.n → SameOutside s.start (recovered s.start (partly j)) new_disk
  recovered-partly j h b o =
      disk-initlog (contents s) s.start s.n s.block (partly j) fits.small fits.out
        (partly-Saved j h) b
      ∙ ground (arith, o, partly-outside j b o, listed_more (contents s) s.block j s.n 0 b h)

  -- A crash while the log was being written.
  recovered-logs :
      (j : ℕ)
      → j ≤ s.n
      → SameOutside s.start
          (recovered s.start (replay s.base (logs (contents s) s.block s.start j 0 s.written)))
          (disk s)
  unfolding disk
  recovered-logs j h b o =
      recovered-empty _ s.start
        (ap (λ (d : Block). get_or d 0 0) (unchanged s.start (inl (omega arith))) ∙ empty) b o
      ∙ unchanged b (omega (arith, o, h, fits.small))
    where
      unchanged :
          (c : ℕ)
          → (c ≤ s.start + 0) ⊎ (s.start + 0 + j < c)
          → replay s.base (logs (contents s) s.block s.start j 0 s.written) c
            ≡ replay s.base s.written c
      unchanged c = replay-logs_other (contents s) s.block s.base s.start j 0 c s.written

  -- The disk once the commit is complete.
  committed : SameOutside s.start (replay s.base (commit_writes s)) new_disk
  unfolding replay
  committed b o = ground (arith, o, partly-outside s.n b o)

  committed-count : get_or (replay s.base (commit_writes s) s.start) 0 0 ≡ 0
  unfolding replay
  committed-count = ground (
    arith,
    get_or-set_self (full_header s) 0 0 0
        (omega (arith, length-header s.n s.block (buf s.start s), fits.room)),
  )

  recovered-committed :
      SameOutside s.start (recovered s.start (replay s.base (commit_writes s))) new_disk
  recovered-committed b o = recovered-empty _ s.start committed-count b o ∙ committed b o

  abbrev OldOrNew : List (ℕ × Block) → Type 0
  OldOrNew v =
      SameOutside s.start (recovered s.start (replay s.base v)) (disk s)
      ⊎ SameOutside s.start (recovered s.start (replay s.base v)) new_disk

  crash-logs :
      (v : List (ℕ × Block))
      → Earlier s.written v
      → Earlier v (logs (contents s) s.block s.start s.n 0 s.written)
      → OldOrNew v
  unfolding logs
  crash-logs v since e = elim (Earlier-logs (contents s) s.block s.start s.n 0 s.written v e) [
    | inl older ↦
        subst OldOrNew (Earlier-antisym since older) (inl (recovered-logs 0 (omega arith)))
    | inr (j, h, same) ↦ subst OldOrNew (sym same) (inl (recovered-logs j h))
  ]

  crash-saved : (v : List (ℕ × Block)) → Earlier s.written v → Earlier v saved_writes → OldOrNew v
  unfolding installs
  crash-saved v since e = elim (Earlier-cons e) [
    | inl same ↦ subst OldOrNew (sym same) (inr (recovered-partly 0 (omega arith)))
    | inr older ↦ crash-logs v since older
  ]

  crash-installs :
      (v : List (ℕ × Block))
      → Earlier s.written v
      → Earlier v (installs (contents s) s.block s.n 0 saved_writes)
      → OldOrNew v
  crash-installs v since e = elim (Earlier-installs (contents s) s.block s.n 0 saved_writes v e) [
    | inl older ↦ crash-saved v since older
    | inr (j, h, same) ↦ subst OldOrNew (sym same) (inr (recovered-partly j h))
  ]

  crash : (v : List (ℕ × Block)) → Earlier s.written v → Earlier v (commit_writes s) → OldOrNew v
  crash v since e = elim (Earlier-cons e) [
    | inl same ↦ subst OldOrNew (sym same) (inr recovered-committed)
    | inr older ↦ crash-installs v since older
  ]

  pub disk-commit : 0 < s.n → SameOutside s.start (disk (commit s)) new_disk
  unfolding disk
  disk-commit h b o =
      ap₂ (λ base w. replay base w b) (commit-base s fits h) (commit-writes s fits h)
      ∙ committed b o

  -- Once a commit is complete, outside the log each block of the transaction holds what the cache
  -- holds of it, each other block what it held, and the header on the disk is without entries: for
  -- a transaction of at least one block that fits the log, over a header without entries.
  pub commit-disk :
      0 < s.n
      → ((b : ℕ)
          → Outside s.start b
          → disk (commit s) b ≡ (if listed (contents s) s.block s.n 0 b then buf b s else disk s b))
        × (get_or (disk (commit s) s.start) 0 0 ≡ 0)
  unfolding disk
  commit-disk h = (
    disk-commit h,
    ap₂ (λ base w. get_or (replay base w s.start) 0 0) (commit-base s fits h)
          (commit-writes s fits h)
        ∙ committed-count,
  )

  -- A crash at any point of a commit, and a recovery after it, leave each block outside the log as
  -- if the commit had not been, or each as if it had been completed: for a transaction of at least
  -- one block that fits the log, over a header without entries.
  pub commit-atomic :
      0 < s.n
      → (v : List (ℕ × Block)) → Earlier s.written v
      → Earlier v (commit s).written
      → SameOutside s.start (disk (initlog (replay s.base v) s.start)) (disk s)
        ⊎ SameOutside s.start (disk (initlog (replay s.base v) s.start)) (disk (commit s))
  commit-atomic h v since e = elim (crash v since (subst (Earlier v) (commit-writes s fits h) e)) [
    | inl old ↦ inl old
    | inr new ↦ inr (λ b o. new b o ∙ sym (disk-commit h b o))
  ]
