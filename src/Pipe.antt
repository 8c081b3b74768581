-- ===== src/Pipe.antt =====
-- kernel/pipe.c: the ring of bytes, and the passes of pipewrite and piperead over it up to their
-- next sleep. What copyin reads and whether copyout succeeds come in as parameters. The wakeups are
-- left to the process table.
pub mod Ring
pub mod Passes
mod Tests
use model_lib.Base.{
  ℕ, zero, suc, ◌+◌, ◌%◌, Bool, true, false, ◌&&◌, ◌||◌, not, ◌==◌, if◌then◌else◌, Option, none,
  some, List, [], ◌∷◌, update,
}
use model_lib.Base.Words.{u32, minus_one}

abbrev pub pipesize : ℕ
pipesize = 512

pub record Pipe : Type 0 where
  pub data_at : ℕ → ℕ
  pub nread : ℕ
  pub nwrite : ℕ
  pub readopen : Bool
  pub writeopen : Bool

-- What pipealloc makes of a page.
pub fresh : Pipe → Pipe
fresh p = record p { readopen = true; writeopen = true; nwrite = 0; nread = 0 }

-- pipeclose, and whether the page is freed.
pub pipeclose : Bool → Pipe → Pipe × Bool
pipeclose writable p =
    let p1 = if writable then record p { writeopen = false } else record p { readopen = false } in
    (p1, not p1.readopen && not p1.writeopen)

abbrev pub is_full : Pipe → Bool
is_full p = p.nwrite == u32 (p.nread + pipesize)

-- `pi->data[pi->nwrite++ % PIPESIZE] = ch`
pub put : ℕ → Pipe → Pipe
put ch p = record p {
  data_at = update p.data_at (p.nwrite % pipesize) ch;
  nwrite = u32 (p.nwrite + 1);
}

-- How a pass ends: with the value that the call returns, or asleep after `i` bytes.
pub data Pass : Type 0 where
  ended : ℕ → Pipe → Pass
  asleep : ℕ → Pipe → Pass

-- pipewrite from its `i`th byte on; a byte is `none` where copyin fails, and `is_killed i` is what
-- killed(pr) returns in the round of the byte `i`.
pub pipewrite_from : (ℕ → Bool) → List (Option ℕ) → ℕ → Pipe → Pass
pipewrite_from is_killed [] i p = ended i p
pipewrite_from is_killed (b ∷ bs) i p =
    if not p.readopen || is_killed i
    then ended minus_one p
    else if is_full p
    then asleep i p
    else elim b [ none ↦ ended i p | some ch ↦ pipewrite_from is_killed bs (i + 1) (put ch p) ]

-- piperead's copy of at most `n` bytes, the `i`th next; `copies j` says whether the `j`th copyout
-- succeeds. The bytes that reach the user come with the returned value.
pub piperead_from : (ℕ → Bool) → ℕ → ℕ → Pipe → ℕ × List ℕ × Pipe
piperead_from copies zero i p = (i, [], p)
piperead_from copies (suc n) i p =
    let (r, out, q) = piperead_from copies n (i + 1) (record p { nread = u32 (p.nread + 1) }) in
    if p.nread == p.nwrite
    then (i, [], p)
    else if copies i
    then (r, p.data_at (p.nread % pipesize) ∷ out, q)
    else (if i == 0 then minus_one else i, [], p)

-- One test of piperead's loop, and the copy if it does not sleep; `none` means that it sleeps.
pub piperead_pass : Bool → (ℕ → Bool) → ℕ → Pipe → Option (ℕ × List ℕ × Pipe)
piperead_pass is_killed copies n p =
    if p.nread == p.nwrite && p.writeopen
    then if is_killed then some (minus_one, [], p) else none
    else some (piperead_from copies n 0 p)
