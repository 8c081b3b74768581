-- ===== src/Bio/Cache.antt =====
-- kernel/bio.c: bget and brelse on the list of buffers, and one buffer for each block.
pub mod Reach
use model_lib.Base.{
  ℕ, zero, suc, ◌+◌, ◌-◌, ◌^◌, ◌≤◌, ◌<◌, ◌≡◌, ◌≢◌, ◌∙◌, ap, sym, refl, arith, subst, Bool, true,
  false, not, inl, inr, Bool-cases, ◌&&◌, ◌==◌, leb, ltb, if◌then◌else◌, Option, none, some, update,
}
use native.Mathlib.Decide.{ℕ_discrete}
use model_lib.Base.Words.{u32}
use model_lib.Base.Outcome.{Outcome, done, panic, no_fuel, ◌>>=◌}
use model_lib.Bio.{
  Buf, Bcache, nbuf, head, set_buf, scan, caches, unused, count_up, count_down, recycle, bget,
  push_front, unlink, brelse_unlocked, brelse, holdingsleep, releasesleep,
}
use model_lib.Bio.Ring.{Ring, after, before, moved, moved_from, moved_to, push_front-unlink}
use model_lib.Bio.Search.{Found, nowhere, somewhere, scan-Found}

-- The links of `s` run through all buffers, in the order of their last use: the buffer `b` is at
-- position `rank b`.
pub record Order (next prev at rank : ℕ → ℕ) : Type 0 where
  pub ring : Ring nbuf next prev at rank
  pub buffer : (k : ℕ) → 0 < k → k ≤ nbuf → at k < nbuf
  pub placed : (b : ℕ) → b < nbuf → (0 < rank b) × (rank b ≤ nbuf) × (at (rank b) ≡ b)

-- What bget does.
pub data Got (dev blockno : ℕ) (s : Bcache) (rank : ℕ → ℕ) : Outcome (ℕ × Bcache) → Type 0 where
  cached :
      (b : ℕ)
      → b < nbuf
      → caches dev blockno (s.bufs b) ≡ true
      → Got dev blockno s rank (done (b, count_up b s))
  recycled :
      (b : ℕ)
      → b < nbuf
      → ((c : ℕ) → c < nbuf → caches dev blockno (s.bufs c) ≡ false)
      → unused (s.bufs b) ≡ true
      → ((c : ℕ) → c < nbuf → rank b < rank c → unused (s.bufs c) ≡ false)
      → Got dev blockno s rank (
          done (
            b,
            set_buf b
                (record (s.bufs b) { dev = dev; blockno = blockno; valid = false; refcnt = 1 })
                s,
          ))
  all_used :
      ((c : ℕ) → c < nbuf → caches dev blockno (s.bufs c) ≡ false)
      → ((c : ℕ) → c < nbuf → unused (s.bufs c) ≡ false)
      → Got dev blockno s rank (panic "bget: no buffers")

module _ (dev blockno : ℕ) (s : Bcache) (at rank : ℕ → ℕ)
    (order : Order s.next s.prev at rank) where
  not_head : (k : ℕ) → 0 < k → k ≤ nbuf → at k ≢ head
  not_head k h l e = absurd (ground (arith, order.buffer k h l, e))

  -- The buffers from the most and from the least recently used on.
  abbrev down : ℕ → ℕ
  down j = at (if j == nbuf + 1 then 0 else j)

  abbrev up : ℕ → ℕ
  up j = at (nbuf + 1 - j)

  downward :
      (test : Buf → Bool)
      → Found nbuf test s.bufs down 1 (scan (nbuf + 1) test s.next (s.next head) s.bufs)
  downward test =
      subst (λ b. Found nbuf test s.bufs down 1 (scan (nbuf + 1) test s.next b s.bufs))
        (sym (ap s.next (sym order.ring.at_head) ∙ order.ring.next_at 0 (omega arith)))
        (scan-Found (nbuf + 1) nbuf test s.next s.bufs down 1
          (λ j h l. ground (arith, not_head j h l))
          (λ j h l. ground (arith, order.ring.next_at j l, h, l)) order.ring.at_head (omega arith)
          (omega arith) (omega arith))

  upward :
      (test : Buf → Bool)
      → Found nbuf test s.bufs up 1 (scan (nbuf + 1) test s.prev (s.prev head) s.bufs)
  upward test =
      subst (λ b. Found nbuf test s.bufs up 1 (scan (nbuf + 1) test s.prev b s.bufs))
        (sym (ap s.prev (sym order.ring.at_head) ∙ order.ring.prev_at 0 (omega arith)))
        (scan-Found (nbuf + 1) nbuf test s.prev s.bufs up 1
          (λ j h l. not_head (nbuf + 1 - j) (omega arith) (omega arith))
          (λ j h l. order.ring.prev_at (nbuf + 1 - j) (omega arith) ∙ ap at (ground (arith, h, l)))
          order.ring.at_head (omega arith) (omega arith) (omega arith))

  -- What is so for the buffers at all positions is so for all buffers.
  at_all : (P : ℕ → Type 0) → ((k : ℕ) → 0 < k → k ≤ nbuf → P (at k)) → (c : ℕ) → c < nbuf → P c
  at_all P h c l = let p = order.placed c l in subst P p.2 (h (rank c) p.0 p.1)

  recycle-Got :
      ((c : ℕ) → c < nbuf → caches dev blockno (s.bufs c) ≡ false)
      → {o : Outcome (Option ℕ)} → Found nbuf unused s.bufs up 1 o
      → Got dev blockno s rank (
          o >>= λ found. elim found [
            | none ↦ panic "bget: no buffers"
            | some b ↦ done (
              b,
              set_buf b
                  (record (s.bufs b) { dev = dev; blockno = blockno; valid = false; refcnt = 1 })
                  s,
            )
          ])
  recycle-Got out (nowhere used) = all_used out (
      at_all (λ c. unused (s.bufs c) ≡ false)
        (λ k h l.
          subst (λ i. unused (s.bufs (at i)) ≡ false)
            (let e : nbuf + 1 - (nbuf + 1 - k) ≡ k = omega arith in e)
            (used (nbuf + 1 - k) (omega arith) (omega arith))))
  recycle-Got out (somewhere i h l t used) =
      recycled (up i) (order.buffer (nbuf + 1 - i) (omega arith) (omega arith)) out t (
        at_all (λ c. rank (up i) < rank c → unused (s.bufs c) ≡ false)
          (λ k hk lk less.
            subst (λ i. unused (s.bufs (at i)) ≡ false)
              (let e : nbuf + 1 - (nbuf + 1 - k) ≡ k = omega arith in e)
              (used (nbuf + 1 - k) (omega arith) (
                omega (
                  arith,
                  order.ring.rank_at k lk,
                  order.ring.rank_at (nbuf + 1 - i) (omega arith),
                  less,
                )))))

  bget-Got_cases :
      {o : Outcome (Option ℕ)}
      → Found nbuf (caches dev blockno) s.bufs down 1 o
      → Got dev blockno s rank (
          o >>= λ found. elim found [
            | none ↦ recycle dev blockno s
            | some b ↦ done (b, count_up b s)
          ])
  unfolding recycle
  bget-Got_cases (nowhere out) =
      recycle-Got
        (at_all (λ c. caches dev blockno (s.bufs c) ≡ false)
          (λ k h l. ground (arith, out k h l, l)))
        (upward unused)
  bget-Got_cases (somewhere i h l t miss) =
      cached (down i) (ground (arith, order.buffer i h l, l)) t

  -- bget returns a buffer that has the block if there is one. If none has it, it takes the unused buffer whose last use is the
  -- longest ago, which then has the block, is not valid and has one user; it panics only if all buffers are in use.
  pub bget-Got : Got dev blockno s rank (bget dev blockno s)
  unfolding bget
  bget-Got = bget-Got_cases (downward (caches dev blockno))

-- brelse frees the lock of the buffer `b` and counts one user less.
pub record Counted (old new : ℕ → Buf) (b : ℕ) : Type 0 where
  pub count : (new b).refcnt ≡ u32 ((old b).refcnt + (2 ^ 32 - 1))
  pub free : (new b).lock.locked ≡ false
  pub same_block : ((new b).dev ≡ (old b).dev) × ((new b).blockno ≡ (old b).blockno)
  pub others : (c : ℕ) → c ≢ b → new c ≡ old c

-- The last user of the buffer `b` makes it the first in the list.
pub record Released (s t : Bcache) (at rank : ℕ → ℕ) (b : ℕ) : Type 0 where
  pub counted : Counted s.bufs t.bufs b
  pub first :
      unused (t.bufs b) ≡ true
      → Order t.next t.prev (moved (rank b) at) (λ c. moved_to (rank b) (rank c))
  pub same_order : unused (t.bufs b) ≡ false → (t.next ≡ s.next) × (t.prev ≡ s.prev)

Order-moved :
    (s : Bcache) (at rank : ℕ → ℕ) (b : ℕ)
    → Order s.next s.prev at rank
    → b < nbuf
    → Order
        (push_front b (unlink b s)).next
        (push_front b (unlink b s)).prev
        (moved (rank b) at)
        (λ c. moved_to (rank b) (rank c))
Order-moved s at rank b order l =
    let p = order.placed b l in
    record {
      ring =
          subst
            (λ c.
              Ring nbuf (push_front c (unlink c s)).next (push_front c (unlink c s)).prev
                (moved (rank b) at) (λ c. moved_to (rank b) (rank c)))
            p.2 (push_front-unlink nbuf s at rank order.ring (rank b) p.0 p.1);
      buffer = λ k h lk.
          order.buffer (moved_from (rank b) k) (ground (arith, p.0, h)) (ground (arith, p.1, lk));
      placed = λ c lc.
          let q = order.placed c lc in
          (
            ground (arith, q.0, p.0),
            ground (arith, q.1, p.1),
            ap at (
                  let e : moved_from (rank b) (moved_to (rank b) (rank c)) ≡ rank c =
                    ground (arith, q.0, p.0) in
                  e)
                ∙ q.2,
          );
    }

push_front-unlink_bufs : (b : ℕ) (s : Bcache) → (push_front b (unlink b s)).bufs ≡ s.bufs
unfolding push_front unlink
push_front-unlink_bufs b s = refl

-- brelse of a locked buffer returns: it frees the lock, counts one user less and changes no other buffer; if that was the last
-- user, the buffer becomes the most recently used one and the others keep their order, and else all keep it.
pub brelse-Released :
    (pid : ℕ) (s : Bcache) (at rank : ℕ → ℕ) (b : ℕ)
    → Order s.next s.prev at rank
    → b < nbuf
    → holdingsleep pid (s.bufs b).lock ≡ true
    → (t : Bcache) × (brelse pid b s ≡ done t) × Released s t at rank b
unfolding brelse brelse_unlocked releasesleep
brelse-Released pid s at rank b order l held =
    let s1 = set_buf b (record (s.bufs b) { lock = releasesleep (s.bufs b).lock }) s in
    let s2 = count_down b s1 in
    let changed : Counted s.bufs s2.bufs b = record {
      count = ground arith;
      free = ground arith;
      same_block = (ground arith, ground arith);
      others = λ c ne. ground (arith, ne);
    } in
    let same = push_front-unlink_bufs b s2 in
    (
      brelse_unlocked b s1,
      ground (arith, held),
      elim (Bool-cases (unused (s2.bufs b))) [
        | inl last ↦
            subst (λ t. Released s t at rank b)
              (let e : push_front b (unlink b s2) ≡ brelse_unlocked b s1 = ground (arith, last) in
                e)
              record {
                counted = subst (λ f. Counted s.bufs f b) (sym same) changed;
                first = λ u. Order-moved s2 at rank b order l;
                same_order =
                    λ u. absurd (ground (arith, last, ap (λ f. unused (f b)) (sym same) ∙ u));
              }
        | inr more ↦
            subst (λ t. Released s t at rank b)
              (let e : s2 ≡ brelse_unlocked b s1 = ground (arith, more) in e)
              record {
                counted = changed;
                first = λ u. absurd (ground (arith, u, more));
                same_order = λ u. (refl, refl);
              }
      ],
    )
