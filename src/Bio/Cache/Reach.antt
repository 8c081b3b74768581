-- ===== src/Bio/Cache/Reach.antt =====
-- kernel/bio.c: what holds of the cache after any calls.
use model_lib.Base.{
  ℕ, zero, suc, ◌+◌, ◌<◌, ◌≡◌, ◌≢◌, ◌∙◌, ap, sym, refl, arith, subst, true, false, inl, inr,
  Bool-cases, some,
}
use native.Mathlib.Decide.{ℕ_discrete}
use mathlib.Core.Path.{subst₂}
use model_lib.Base.Outcome.{Outcome, done, done_injective}
use model_lib.Bio.{
  Sleeplock, acquiresleep_pass, holdingsleep, Buf, Bcache, nbuf, set_buf, caches, unused, bget,
  brelse, bpin, bunpin, push_front, binit_from, binit,
}
use model_lib.Bio.Init.{newest_first, age, Ring-binit}
use model_lib.Bio.Cache.{
  Order, Got, cached, recycled, all_used, bget-Got, Released, brelse-Released,
}

-- Two buffers have the same block of a device. Device 0, which a buffer has before its first use, is none.
abbrev pub SameBlock : Bcache → ℕ → ℕ → Type 0
SameBlock s b c =
    ((s.bufs b).dev ≢ 0)
    × ((s.bufs b).dev ≡ (s.bufs c).dev)
    × ((s.bufs b).blockno ≡ (s.bufs c).blockno)

-- All buffers are in the list, and none has the block of another.
pub record IsValid (s : Bcache) : Type 0 where
  pub at : ℕ → ℕ
  pub rank : ℕ → ℕ
  pub order : Order s.next s.prev at rank
  pub one : (b c : ℕ) → b < nbuf → c < nbuf → SameBlock s b c → b ≡ c

-- A call on a buffer, or a pass of acquiresleep on its lock. bread sets `valid`.
pub data Step (s : Bcache) : Bcache → Type 0 where
  gets : (dev blockno b : ℕ) (t : Bcache) → bget dev blockno s ≡ done (b, t) → Step s t
  locks :
      (pid b : ℕ) (l : Sleeplock)
      → b < nbuf
      → acquiresleep_pass pid (s.bufs b).lock ≡ some l
      → Step s (set_buf b (record (s.bufs b) { lock = l }) s)
  reads : (b : ℕ) → b < nbuf → Step s (set_buf b (record (s.bufs b) { valid = true }) s)
  releases : (pid b : ℕ) (t : Bcache) → b < nbuf → brelse pid b s ≡ done t → Step s t
  pins : (b : ℕ) → b < nbuf → Step s (bpin b s)
  unpins : (b : ℕ) → b < nbuf → Step s (bunpin b s)

pub data Reach : Bcache → Type 0 where
  start : Reach binit
  more : (s t : Bcache) → Reach s → Step s t → Reach t

-- The blocks of the buffers stay.
abbrev Same : Bcache → Bcache → Type 0
Same s t = (c : ℕ) → ((t.bufs c).dev ≡ (s.bufs c).dev) × ((t.bufs c).blockno ≡ (s.bufs c).blockno)

one-Same :
    (s t : Bcache)
    → IsValid s
    → Same s t
    → (b c : ℕ) → b < nbuf
    → c < nbuf
    → SameBlock t b c
    → b ≡ c
one-Same s t v same b c lb lc (nz, d, n) =
    v.one b c lb lc
      (λ z. nz ((same b).0 ∙ z), sym (same b).0 ∙ d ∙ (same c).0, sym (same b).1 ∙ n ∙ (same c).1)

IsValid-set_buf :
    (s : Bcache) (b : ℕ) (x : Buf)
    → IsValid s
    → x.dev ≡ (s.bufs b).dev
    → x.blockno ≡ (s.bufs b).blockno
    → IsValid (set_buf b x s)
IsValid-set_buf s b x v d n = record {
  at = v.at;
  rank = v.rank;
  order = v.order;
  one = one-Same s (set_buf b x s) v (λ c. (ground (arith, d), ground (arith, n)));
}

-- A recycled buffer is the only one for its block.
IsValid-recycled :
    (dev blockno b : ℕ) (s : Bcache) (x : Buf)
    → IsValid s
    → ((c : ℕ) → c < nbuf → caches dev blockno (s.bufs c) ≡ false)
    → x.dev ≡ dev
    → x.blockno ≡ blockno
    → IsValid (set_buf b x s)
IsValid-recycled dev blockno b s x v out d n = record {
  at = v.at;
  rank = v.rank;
  order = v.order;
  one = λ i j li lj (nz, ed, en). elim (ℕ_discrete b i) [
    | yes ei ↦ elim (ℕ_discrete b j) [
      | yes ej ↦ sym ei ∙ ej
      | no nj ↦ absurd (ground (arith, out j lj, ei, nj, ed, en, d, n))
    ]
    | no ni ↦ elim (ℕ_discrete b j) [
      | yes ej ↦ absurd (ground (arith, out i li, ej, ni, ed, en, d, n))
      | no nj ↦
          v.one i j li lj
            (ground (arith, nz, ni), ground (arith, ed, ni, nj), ground (arith, en, ni, nj))
    ]
  ];
}

IsValid-Got :
    (dev blockno : ℕ) (s : Bcache) (b : ℕ) (t : Bcache) (o : Outcome (ℕ × Bcache))
    → (v : IsValid s) → Got dev blockno s v.rank o
    → o ≡ done (b, t)
    → IsValid t
IsValid-Got dev blockno s b t _ v (cached c l h) e =
    subst IsValid (ap (λ p. p.1) (done_injective e)) (IsValid-set_buf s c _ v refl refl)
IsValid-Got dev blockno s b t _ v (recycled c l out u order) e =
    subst IsValid (ap (λ p. p.1) (done_injective e))
      (IsValid-recycled dev blockno c s _ v out refl refl)
IsValid-Got dev blockno s b t _ v (all_used out used) e = absurd (ground (arith, e))

IsValid-brelse :
    (pid b : ℕ) (s t : Bcache) → IsValid s → b < nbuf → brelse pid b s ≡ done t → IsValid t
unfolding brelse
IsValid-brelse pid b s t v l e = elim (Bool-cases (holdingsleep pid (s.bufs b).lock)) [
  | inr free ↦ absurd (ground (arith, free, e))
  | inl held ↦
      let (u, ok, r) = brelse-Released pid s v.at v.rank b v.order l held in
      subst IsValid (done_injective (sym ok ∙ e)) (released u r)
]
  where
    released : (u : Bcache) → Released s u v.at v.rank b → IsValid u
    released u r =
        let same : Same s u = λ c. elim (ℕ_discrete c b) [
          | yes e ↦
              subst
                (λ c. ((u.bufs c).dev ≡ (s.bufs c).dev) × ((u.bufs c).blockno ≡ (s.bufs c).blockno))
                (sym e) r.counted.same_block
          | no ne ↦
              (ap (λ x. x.dev) (r.counted.others c ne), ap (λ x. x.blockno) (r.counted.others c ne))
        ] in
        elim (Bool-cases (unused (u.bufs b))) [
          | inl last ↦ record { at = _; rank = _; order = r.first last; one = one-Same s u v same }
          | inr used ↦
              let (n, p) = r.same_order used in
              record {
                at = v.at;
                rank = v.rank;
                order = subst₂ (λ n p. Order n p v.at v.rank) (sym n) (sym p) v.order;
                one = one-Same s u v same;
              }
        ]

IsValid-step : (s t : Bcache) → IsValid s → Step s t → IsValid t
unfolding bpin bunpin
IsValid-step s _ v (gets dev blockno b t e) =
    IsValid-Got dev blockno s b t (bget dev blockno s) v
      (bget-Got dev blockno s v.at v.rank v.order) e
IsValid-step s _ v (locks pid b l lb e) =
    IsValid-set_buf s b (record (s.bufs b) { lock = l }) v refl refl
IsValid-step s _ v (reads b lb) =
    IsValid-set_buf s b (record (s.bufs b) { valid = true }) v refl refl
IsValid-step s _ v (releases pid b t lb e) = IsValid-brelse pid b s t v lb e
IsValid-step s _ v (pins b lb) = IsValid-set_buf s b _ v refl refl
IsValid-step s _ v (unpins b lb) = IsValid-set_buf s b _ v refl refl

binit_from-bufs : (n b : ℕ) (s : Bcache) → (binit_from n b s).bufs ≡ s.bufs
unfolding binit_from push_front
binit_from-bufs zero b s = refl
binit_from-bufs (suc n) b s = binit_from-bufs n (b + 1) (push_front b s)

pub Order-binit : Order binit.next binit.prev (newest_first nbuf) (age nbuf)
Order-binit = record {
  ring = Ring-binit;
  buffer = λ k h l. ground (arith, h);
  placed = λ b l. (ground (arith, l), ground (arith, l), ground (arith, l));
}

IsValid-binit : IsValid binit
unfolding binit
IsValid-binit = record {
  at = newest_first nbuf;
  rank = age nbuf;
  order = Order-binit;
  one = λ b c lb lc (nz, d, n). absurd (nz (ap (λ f. (f b).dev) (binit_from-bufs nbuf 0 _)));
}

-- From binit on, after any calls of bget, brelse, bpin and bunpin and any use of the locks of the buffers, in any
-- order, the list runs through every buffer once, in both directions, and no two buffers have the same block.
pub Reach-IsValid_cache : (s : Bcache) → Reach s → IsValid s
Reach-IsValid_cache _ start = IsValid-binit
Reach-IsValid_cache _ (more s t r st) = IsValid-step s t (Reach-IsValid_cache s r) st
