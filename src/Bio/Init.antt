-- ===== src/Bio/Init.antt =====
-- kernel/bio.c: the list that binit builds.
use model_lib.Base.{
  ℕ, zero, suc, ◌+◌, ◌-◌, ◌≤◌, ◌<◌, ◌≡◌, ◌≢◌, ◌∙◌, ap, sym, refl, arith, subst, ◌==◌, if◌then◌else◌,
}
use mathlib.Core.Path.{subst₂}
use model_lib.Bio.{Bcache, nbuf, head, push_front, binit_from, binit}
use model_lib.Bio.Ring.{Ring, after, before}

abbrev pushed_at : ℕ → (ℕ → ℕ) → ℕ → ℕ
pushed_at b at k = if k == 0 then head else if k == 1 then b else at (k - 1)

abbrev pushed_rank : ℕ → (ℕ → ℕ) → ℕ → ℕ
pushed_rank b rank c = if c == head then 0 else if c == b then 1 else rank c + 1

module _ (n : ℕ) (s : Bcache) (at rank : ℕ → ℕ) (ring : Ring n s.next s.prev at rank) (b : ℕ)
    (absent : (k : ℕ) → k ≤ n → at k ≢ b) where
  not_head : b ≢ head
  not_head e = absent 0 (omega arith) (ring.at_head ∙ sym e)

  at_pos : (k : ℕ) → 0 < k → k ≤ n → at k ≢ head
  at_pos k h l e = absurd (
      ground (
        arith,
        h,
        sym (ring.rank_at k l) ∙ ap rank (e ∙ sym ring.at_head) ∙ ring.rank_at 0 (omega arith),
      ))

  next_head : s.next head ≡ at (after n 0)
  next_head = ap s.next (sym ring.at_head) ∙ ring.next_at 0 (omega arith)

  prev_head : s.prev head ≡ at n
  prev_head = ap s.prev (sym ring.at_head) ∙ ring.prev_at 0 (omega arith)

  next_pushed :
      (k : ℕ)
      → k ≤ n + 1
      → (push_front b s).next (pushed_at b at k) ≡ pushed_at b at (after (n + 1) k)
  unfolding push_front
  next_pushed zero l = ground arith
  next_pushed (suc zero) l = ground (arith, not_head, next_head, ring.at_head)
  next_pushed (suc (suc j)) l = ground (
    arith,
    at_pos (j + 1) (omega arith) (omega arith),
    absent (j + 1) (omega arith),
    ring.next_at (j + 1) (omega arith),
    ring.at_head,
  )

  prev_pushed :
      (k : ℕ)
      → k ≤ n + 1
      → (push_front b s).prev (pushed_at b at k) ≡ pushed_at b at (before (n + 1) k)
  unfolding push_front
  prev_pushed zero l = ground (arith, not_head, next_head, prev_head, ring.at_head, at_pos 1)
  prev_pushed (suc zero) l = ground (arith, not_head, next_head, absent 0, absent 1)
  prev_pushed (suc (suc j)) l = ground (
    arith,
    not_head,
    next_head,
    at_pos (j + 1) (omega arith) (omega arith),
    absent (j + 1) (omega arith),
    ring.prev_at (j + 1) (omega arith),
    ring.rank_at 1,
    ring.rank_at (j + 1) (omega arith),
    ring.at_head,
  )

-- The order after the first `b` buffers: the newest is the first.
abbrev pub newest_first : ℕ → ℕ → ℕ
newest_first b k = if k == 0 then head else b - k

abbrev pub age : ℕ → ℕ → ℕ
age b c = if c == head then 0 else b - c

Ring-push_front :
    (b : ℕ) (s : Bcache)
    → b < nbuf
    → Ring b s.next s.prev (newest_first b) (age b)
    → Ring (b + 1) (push_front b s).next (push_front b s).prev (newest_first (b + 1)) (age (b + 1))
Ring-push_front b s l ring = record {
  at_head = refl;
  rank_at = λ k h. ground (arith, l);
  next_at = λ k h.
      subst₂ (λ x y. (push_front b s).next x ≡ y) (same k) (same (after (b + 1) k))
        (next_pushed b s (newest_first b) (age b) ring b absent k h);
  prev_at = λ k h.
      subst₂ (λ x y. (push_front b s).prev x ≡ y) (same k) (same (before (b + 1) k))
        (prev_pushed b s (newest_first b) (age b) ring b absent k h);
}
  where
    absent : (k : ℕ) → k ≤ b → newest_first b k ≢ b
    absent k h = ground (arith, l)

    same : (k : ℕ) → pushed_at b (newest_first b) k ≡ newest_first (b + 1) k
    same k = ground arith

Ring-binit_from :
    (n b : ℕ) (s : Bcache)
    → b + n ≡ nbuf
    → Ring b s.next s.prev (newest_first b) (age b)
    → Ring nbuf (binit_from n b s).next (binit_from n b s).prev (newest_first nbuf) (age nbuf)
unfolding binit_from
Ring-binit_from zero b s e ring =
    subst (λ m. Ring m s.next s.prev (newest_first m) (age m)) (omega arith) ring
Ring-binit_from (suc n) b s e ring =
    Ring-binit_from n (b + 1) (push_front b s) (omega arith)
      (Ring-push_front b s (omega arith) ring)

-- binit puts all buffers in the list.
pub Ring-binit : Ring nbuf binit.next binit.prev (newest_first nbuf) (age nbuf)
unfolding binit
Ring-binit = Ring-binit_from nbuf 0 _ refl record {
  at_head = refl;
  rank_at = λ k h. ground arith;
  next_at = λ k h. ground arith;
  prev_at = λ k h. ground arith;
}
