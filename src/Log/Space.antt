-- ===== src/Log/Space.antt =====
-- The space of the log of kernel/log.c, which begin_op reserves and log_write uses.
use model_lib.Base.{
  ℕ, suc, ◌+◌, ◌≤◌, ◌<◌, ◌≡◌, inl, inr, arith, refl, ◌==◌, Bool, true, false, if◌then◌else◌, List,
  [], ◌∷◌, ◌++◌, ◌∙◌, sym, ap, length, subst, Bool-cases, some, length-append,
}
use model_lib.Base.Outcome.{done, done_injective}
use model_lib.Layout.{maxopblocks}
use model_lib.Log.{Log, begin_op, end_op_start, end_op_commit, log_write}
use model_lib.Log.Allowance.{
  total, total-append, total_among, Allowed, nobody, one_more, total_bound, Allowed-remove,
  Allowed-use,
}
use model_lib.Log.Turns.{
  begin_op-some, entered, log_write-entered, entered-n, entered-outstanding, ended,
  end_op_start-ended, ended-n, ended-outstanding, end_op_commit-free,
}

-- The log, and for each system call that is using it, how many blocks it may still write.
abbrev pub Shared : Type 0
Shared = Log × List ℕ

-- What happens to the log: a system call begins, which may then write `maxopblocks` blocks, a
-- system call writes a block, a system call ends, and the last one to end commits.
pub data Step : Shared → Shared → Type 0 where
  begins :
      {s t : Log} {left : List ℕ} → begin_op s ≡ some t → Step (s, left) (t, maxopblocks ∷ left)
  writes :
      {s t : Log} (before : List ℕ) (r : ℕ) (after : List ℕ) (b : ℕ)
      → log_write b s ≡ done t
      → Step (s, before ++ suc r ∷ after) (t, before ++ r ∷ after)
  ends :
      {s t : Log} (before : List ℕ) (r : ℕ) (after : List ℕ) {last : Bool}
      → end_op_start s ≡ done (last, t)
      → Step (s, before ++ r ∷ after) (t, before ++ after)
  commits : {s : Log} {left : List ℕ} → s.committing ≡ true → Step (s, left) (end_op_commit s, left)

pub data Reach : Shared → Type 0 where
  boots : {s : Log} → s.outstanding ≡ 0 → s.n ≡ 0 → s.committing ≡ false → Reach (s, [])
  steps : {x y : Shared} → Reach x → Step x y → Reach y

-- Room for everything that the system calls may still write.
record Reserved (s : Log) (left : List ℕ) : Type 0 where
  pub counted : s.outstanding ≡ length left
  pub few : length left ≤ 3
  pub bounded : Allowed left
  pub room : s.n + total left ≤ 30
  pub alone : s.committing ≡ true → length left ≡ 0
  pub idle : s.committing ≡ false → length left ≡ 0 → s.n ≡ 0

begins-Reserved :
    (s t : Log) (left : List ℕ)
    → Reserved s left
    → begin_op s ≡ some t
    → Reserved t (maxopblocks ∷ left)
unfolding total
begins-Reserved s t left inv e =
    let (free, fits, same) = begin_op-some s t e in
    subst (λ u. Reserved u (maxopblocks ∷ left)) (sym same)
      record {
        counted = omega (arith, inv.counted);
        few = omega (arith, inv.counted);
        bounded = one_more (omega arith) inv.bounded;
        room = omega (arith, inv.counted, total_bound inv.bounded, fits);
        alone = λ busy. ground (arith, busy, free);
        idle = λ f none_left. ground (arith, none_left);
      }

-- The reservation of a system call that is among the others.
module _ (s : Log) (left right : List ℕ) (r : ℕ) (inv : Reserved s (left ++ r ∷ right)) where
  among :
      (length (left ++ r ∷ right) ≡ length left + length right + 1)
      × (total (left ++ r ∷ right) ≡ total left + r + total right)
  among = (omega (arith, length-append left (r ∷ right)), omega (arith, total_among left right r))

  inside_one : 0 < s.outstanding
  inside_one = omega (arith, inv.counted, among.0)

  few_inside : s.outstanding ≤ 3
  few_inside = omega (arith, inv.counted, inv.few)

  free_inside : s.committing ≡ false
  free_inside = elim (Bool-cases s.committing) [
    | inl busy ↦ absurd (omega (arith, inv.alone busy, among.0))
    | inr free ↦ free
  ]

  has_space : 0 < r → s.n < 30
  has_space h = omega (arith, inv.room, among.1)

writes-Reserved :
    (b r : ℕ) (s t : Log) (left right : List ℕ)
    → Reserved s (left ++ suc r ∷ right)
    → log_write b s ≡ done t
    → Reserved t (left ++ r ∷ right)
writes-Reserved b r s t left right inv e =
    let inside = inside_one s left right (suc r) inv in
    let few = few_inside s left right (suc r) inv in
    let space = has_space s left right (suc r) inv (omega arith) in
    let was = among s left right (suc r) inv in
    let n = entered-n b s space inside few in
    let same = entered-outstanding b s space inside few in
    let long : length (left ++ r ∷ right) ≡ length left + length right + 1 =
      omega (arith, length-append left (r ∷ right)) in
    let result : entered b s space inside few ≡ t =
      done_injective (sym (log_write-entered b s space inside few) ∙ e) in
    subst (λ u. Reserved u (left ++ r ∷ right)) result
      record {
        counted = omega (arith, same.0, inv.counted, was.0, long);
        few = omega (arith, inv.few, was.0, long);
        bounded = Allowed-use left r right inv.bounded;
        room = omega (arith, inv.room, was.1, n, total_among left right r);
        alone = λ busy. ground (arith, busy, same.1, free_inside s left right (suc r) inv);
        idle = λ f none_left. absurd (omega (arith, long, none_left));
      }

ends-Reserved :
    (r : ℕ) (s t : Log) (left right : List ℕ) (last : Bool)
    → Reserved s (left ++ r ∷ right)
    → end_op_start s ≡ done (last, t)
    → Reserved t (left ++ right)
ends-Reserved r s t left right last inv e =
    let inside = inside_one s left right r inv in
    let few = few_inside s left right r inv in
    let was = among s left right r inv in
    let out = ended-outstanding s inside few in
    let free = free_inside s left right r inv in
    let result : ended s inside few ≡ t =
      ap (λ p. p.1) (done_injective (sym (end_op_start-ended s inside few free) ∙ e)) in
    subst (λ u. Reserved u (left ++ right)) result
      record {
        counted = omega (arith, out.0, inv.counted, was.0, length-append left right);
        few = omega (arith, inv.few, was.0, length-append left right);
        bounded = Allowed-remove left r right inv.bounded;
        room = omega (arith, inv.room, was.1, ended-n s inside few, total-append left right);
        alone =
            λ busy. ground (arith, busy, out, free, inv.counted, was.0, length-append left right);
        idle = λ f none_left.
            ground (arith, f, out, none_left, inv.counted, was.0, length-append left right);
      }

commits-Reserved :
    (s : Log) (left : List ℕ)
    → Reserved s left
    → s.committing ≡ true
    → Reserved (end_op_commit s) left
commits-Reserved s left inv busy =
    let (n, same, free) = end_op_commit-free s in
    record {
      counted = same ∙ inv.counted;
      few = inv.few;
      bounded = inv.bounded;
      room = omega (arith, n, inv.room);
      alone = λ again. ground (arith, again, free);
      idle = λ f none_left. n;
    }

Reserved-Step : {x y : Shared} → Step x y → Reserved x.0 x.1 → Reserved y.0 y.1
Reserved-Step (begins e) inv = begins-Reserved _ _ _ inv e
Reserved-Step (writes left r right b e) inv = writes-Reserved b r _ _ left right inv e
Reserved-Step (ends left r right e) inv = ends-Reserved r _ _ left right _ inv e
Reserved-Step (commits e) inv = commits-Reserved _ _ inv e

Reserved-Reach : {x : Shared} → Reach x → Reserved x.0 x.1
unfolding total
Reserved-Reach (boots o n f) = record {
  counted = o;
  few = omega arith;
  bounded = nobody;
  room = omega (arith, n);
  alone = λ busy. refl;
  idle = λ c l. n;
}
Reserved-Reach (steps r h) = Reserved-Step h (Reserved-Reach r)

-- In every state that the log can reach, a system call that may still write a block can write any
-- block: log_write neither finds the log full nor itself outside of a transaction.
pub log_write-succeeds :
    (s : Log) (before after : List ℕ) (r b : ℕ)
    → Reach (s, before ++ suc r ∷ after)
    → (t : Log) × (log_write b s ≡ done t)
log_write-succeeds s before after r b reach =
    let inv = Reserved-Reach reach in
    (
      _,
      log_write-entered b s (has_space s before after (suc r) inv (omega arith))
          (inside_one s before after (suc r) inv) (few_inside s before after (suc r) inv),
    )

-- In every state that the log can reach, end_op of a system call does not find a commit under way,
-- and starts one if and only if no other system call is using the log.
pub end_op_start-succeeds :
    (s : Log) (before after : List ℕ) (r : ℕ)
    → Reach (s, before ++ r ∷ after)
    → (t : Log) × (end_op_start s ≡ done (length (before ++ after) == 0, t))
end_op_start-succeeds s before after r reach =
    let inv = Reserved-Reach reach in
    let inside = inside_one s before after r inv in
    let few = few_inside s before after r inv in
    let was = among s before after r inv in
    (
      ended s inside few,
      end_op_start-ended s inside few (free_inside s before after r inv)
          ∙ ap (λ c. done (c, ended s inside few))
              (ground (arith, inv.counted, was.0, length-append before after)),
    )

begin_op-idle :
    (s : Log)
    → s.committing ≡ false
    → s.n ≡ 0
    → s.outstanding ≡ 0
    → (t : Log) × (begin_op s ≡ some t)
unfolding begin_op
begin_op-idle s free n o =
    (record s { outstanding = s.outstanding + 1 }, ground (arith, free, n, o))

-- In every state that the log can reach in which no system call is using it, begin_op does not
-- sleep: at once, or else once the commit that is under way is complete.
pub begin_op-admits :
    (s : Log)
    → Reach (s, [])
    → (t : Log) × (begin_op (if s.committing then end_op_commit s else s) ≡ some t)
begin_op-admits s reach =
    let inv = Reserved-Reach reach in
    let (n, same, free) = end_op_commit-free s in
    elim (Bool-cases s.committing) [
      | inl busy ↦
          subst (λ (c : Bool). (t : Log) × (begin_op (if c then end_op_commit s else s) ≡ some t))
            (sym busy) (begin_op-idle (end_op_commit s) free n (same ∙ inv.counted))
      | inr idle ↦
          subst (λ (c : Bool). (t : Log) × (begin_op (if c then end_op_commit s else s) ≡ some t))
            (sym idle) (begin_op-idle s idle (inv.idle idle refl) inv.counted)
    ]
