-- ===== src/Bio/Ring.antt =====
-- kernel/bio.c: the list of buffers. Position 0 is the head, position 1 is the buffer that was used last, and
-- the last position is the buffer that was used least recently.
use model_lib.Base.{
  ℕ, ◌+◌, ◌-◌, ◌≤◌, ◌<◌, ◌≡◌, ◌∙◌, ap, ap₂, sym, arith, subst, ◌==◌, leb, ltb, if◌then◌else◌,
  update, update_self, update_ne,
}
use native.Mathlib.Decide.{ℕ_discrete}
use model_lib.Bio.{Bcache, head, push_front, unlink}

-- The positions after and before a position, among the head and `n` buffers.
abbrev pub after : ℕ → ℕ → ℕ
after n k = if k == n then 0 else k + 1

abbrev pub before : ℕ → ℕ → ℕ
before n k = if k == 0 then n else k - 1

-- The links lead through the head and `n` buffers; `at` is what stands at a position, and the other way
-- about `rank` is where a buffer stands.
pub record Ring (n : ℕ) (next prev at rank : ℕ → ℕ) : Type 0 where
  pub at_head : at 0 ≡ head
  pub rank_at : (k : ℕ) → k ≤ n → rank (at k) ≡ k
  pub next_at : (k : ℕ) → k ≤ n → next (at k) ≡ at (after n k)
  pub prev_at : (k : ℕ) → k ≤ n → prev (at k) ≡ at (before n k)

-- An update of links, at positions.
update-at :
    (n : ℕ) (at rank f g : ℕ → ℕ) (i v : ℕ)
    → ((k : ℕ) → k ≤ n → rank (at k) ≡ k)
    → i ≤ n
    → ((k : ℕ) → k ≤ n → f (at k) ≡ at (g k))
    → (k : ℕ) → k ≤ n
    → update f (at i) (at v) (at k) ≡ at (update g i v k)
update-at n at rank f g i v inj hi h k hk = elim (ℕ_discrete i k) [
  | yes e ↦
      subst (λ j. update f (at i) (at v) (at j) ≡ at (update g i v j)) e
        (update_self f (at i) (at v) ∙ ap at (sym (update_self g i v)))
  | no ne ↦
      update_ne f (at i) (at k) (at v) (λ e. ne (sym (inj i hi) ∙ ap rank e ∙ inj k hk))
      ∙ h k hk
      ∙ ap at (sym (update_ne g i k v ne))
]

-- The order after the buffer at position `r` has moved to the front.
abbrev pub moved_from : ℕ → ℕ → ℕ
moved_from r k = if k == 0 then 0 else if k == 1 then r else if leb k r then k - 1 else k

-- Where the buffer at position `k` is then.
abbrev pub moved_to : ℕ → ℕ → ℕ
moved_to r k = if k == 0 then 0 else if k == r then 1 else if ltb k r then k + 1 else k

abbrev pub moved : ℕ → (ℕ → ℕ) → ℕ → ℕ
moved r at k = at (moved_from r k)

-- The links after the move, as positions.
next_links : ℕ → ℕ → ℕ → ℕ
next_links n r =
    let unlinked = update (after n) (before n r) (after n r) in
    update (update unlinked r (unlinked 0)) 0 r

prev_links : ℕ → ℕ → ℕ → ℕ
prev_links n r =
    let unlinked = update (before n) (after n r) (before n r) in
    update (update unlinked r 0) (update (after n) (before n r) (after n r) 0) r

next_links-moved_from :
    (n r k : ℕ) → 0 < r → r ≤ n → k ≤ n → next_links n r (moved_from r k) ≡ moved_from r (after n k)
unfolding next_links
next_links-moved_from n r k h0 hr hk = ground arith

prev_links-moved_from :
    (n r k : ℕ)
    → 0 < r
    → r ≤ n
    → k ≤ n
    → prev_links n r (moved_from r k) ≡ moved_from r (before n k)
unfolding prev_links
prev_links-moved_from n r k h0 hr hk = ground arith

module _ (n : ℕ) (s : Bcache) (at rank : ℕ → ℕ) (ring : Ring n s.next s.prev at rank) (r : ℕ)
    (positive : 0 < r) (inside : r ≤ n) where
  abbrev b : ℕ
  b = at r

  abbrev p : ℕ
  p = before n r

  abbrev q : ℕ
  q = after n r

  p-inside : p ≤ n
  p-inside = ground (arith, positive, inside)

  q-inside : q ≤ n
  q-inside = ground (arith, positive, inside)

  -- The links of unlink are the ones of the source, at positions.
  abbrev next1 : ℕ → ℕ
  next1 = update s.next (at p) (at q)

  abbrev prev1 : ℕ → ℕ
  prev1 = update s.prev (at q) (at p)

  next1-at : (k : ℕ) → k ≤ n → next1 (at k) ≡ at (update (after n) p q k)
  next1-at k h = update-at n at rank s.next (after n) p q ring.rank_at p-inside ring.next_at k h

  prev1-at : (k : ℕ) → k ≤ n → prev1 (at k) ≡ at (update (before n) q p k)
  prev1-at k h = update-at n at rank s.prev (before n) q p ring.rank_at q-inside ring.prev_at k h

  prev_same : (f : ℕ → ℕ) (a c : ℕ) → update f a (f c) c ≡ f c
  prev_same f a c = ground arith

  unlink-at : unlink b s ≡ record s { next = next1; prev = prev1 }
  unfolding unlink
  unlink-at =
      let to_q = ring.next_at r inside in
      let to_p = ring.prev_at r inside in
      ap₂ (λ x y. record s { next = update s.next x y; prev = update s.prev (s.next b) (s.prev b) })
        (prev_same s.prev (s.next b) b ∙ to_p) to_q
      ∙ ap₂ (λ x y. record s { next = next1; prev = update s.prev x y }) to_q to_p

  abbrev first : ℕ
  first = update (after n) p q 0

  first-inside : first ≤ n
  first-inside = ground (arith, positive, inside)

  next2-at :
      (k : ℕ)
      → k ≤ n
      → update next1 b (at first) (at k) ≡ at (update (update (after n) p q) r first k)
  next2-at k h =
      update-at n at rank next1 (update (after n) p q) r first ring.rank_at inside next1-at k h

  next3-at :
      (k : ℕ) → k ≤ n → update (update next1 b (at first)) (at 0) b (at k) ≡ at (next_links n r k)
  unfolding next_links
  next3-at k h =
      update-at n at rank (update next1 b (at first)) (update (update (after n) p q) r first) 0 r
        ring.rank_at (omega arith) next2-at k h

  prev2-at :
      (k : ℕ) → k ≤ n → update prev1 b (at 0) (at k) ≡ at (update (update (before n) q p) r 0 k)
  prev2-at k h =
      update-at n at rank prev1 (update (before n) q p) r 0 ring.rank_at inside prev1-at k h

  prev3-at :
      (k : ℕ) → k ≤ n → update (update prev1 b (at 0)) (at first) b (at k) ≡ at (prev_links n r k)
  unfolding prev_links
  prev3-at k h =
      update-at n at rank (update prev1 b (at 0)) (update (update (before n) q p) r 0) first r
        ring.rank_at first-inside prev2-at k h

  next1-head : next1 head ≡ at first
  next1-head = ap next1 (sym ring.at_head) ∙ next1-at 0 (omega arith)

  pushed : push_front b (unlink b s) ≡ record s {
    next = update (update next1 b (at first)) (at 0) b;
    prev = update (update prev1 b (at 0)) (at first) b;
  }
  unfolding push_front
  pushed = rw unlink-at (
      ap
        (λ f. record s {
          next = update (update next1 b (next1 head)) head b;
          prev = update (update prev1 b head) f b;
        })
        (prev_same next1 b head)
      ∙ ap₂
          (λ h f. record s {
            next = update (update next1 b f) h b;
            prev = update (update prev1 b h) f b;
          })
          (sym ring.at_head) next1-head)

  moved_from-inside : (k : ℕ) → k ≤ n → moved_from r k ≤ n
  moved_from-inside k h = ground (arith, positive, inside)

  -- Moving a buffer to the front gives the list in the new order.
  pub push_front-unlink :
      Ring n
        (push_front b (unlink b s)).next
        (push_front b (unlink b s)).prev
        (moved r at)
        (λ c. moved_to r (rank c))
  push_front-unlink = rw pushed record {
    at_head = ring.at_head;
    rank_at = λ k h.
        ground (arith, ring.rank_at (moved_from r k) (moved_from-inside k h), positive, inside);
    next_at = λ k h.
        next3-at (moved_from r k) (moved_from-inside k h)
        ∙ ap at (next_links-moved_from n r k positive inside h);
    prev_at = λ k h.
        prev3-at (moved_from r k) (moved_from-inside k h)
        ∙ ap at (prev_links-moved_from n r k positive inside h);
  }
