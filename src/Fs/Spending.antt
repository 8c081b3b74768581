-- ===== src/Fs/Spending.antt =====
-- kernel/fs.c: what the calls of log_write in balloc and bmap take of the log, on a disk whose free map is one
-- block. A block that is in the log already takes nothing.
use model_lib.Base.{
  ℕ, ◌+◌, ◌*◌, ◌≤◌, ◌<◌, ◌≡◌, ◌⊎◌, inl, inr, arith, refl, ◌==◌, ◌∙◌, ap, subst, true, if◌then◌else◌,
  Option, none, some, List, [], ◌∷◌, ◌++◌, update,
}
use native.Mathlib.Decide.{ℕ_discrete}
use mathlib.Core.Path.{subst₂}
use model_lib.Base.Outcome.{Outcome, done, panic, no_fuel, ◌>>=◌}
use model_lib.Layout.{logblocks}
use model_lib.Log.{Log, log_write}
use model_lib.Log.Entries.{Open, missing, log_write-Logged}
use model_lib.Fs.{
  Fs, Inode, bsize, word, bzero, find_free, balloc, bmap_direct, bmap_entry, bblock, balloc_writes,
  direct_writes, entry_writes, log_all,
}
use model_lib.Fs.Blocks.{find_free-some}

-- A free map of one block.
abbrev pub map_bits : ℕ
map_bits = bsize * 8

pub missing_bound : (b : ℕ) (s : Log) → missing b s ≤ 1
missing_bound b s = ground arith

pub log_all-append : (xs ys : List ℕ) (s : Log) → log_all (xs ++ ys) s ≡ log_all xs s >>= log_all ys
unfolding log_all
log_all-append [] ys s = refl
log_all-append (x ∷ xs) ys s = after (log_all-append xs ys) (log_write x s)
  where
    after :
        ((t : Log) → log_all (xs ++ ys) t ≡ log_all xs t >>= log_all ys)
        → (o : Outcome Log) → (o >>= log_all (xs ++ ys)) ≡ (o >>= log_all xs >>= log_all ys)
    after rest (done t) = rest t
    after rest (panic w) = refl
    after rest no_fuel = refl

-- The calls of balloc: none, and it finds no block, or the map's and the new block's.
balloc_writes-cases :
    (m : ℕ) (fs : Fs)
    → fs.size ≤ map_bits
    → (balloc_writes m fs ≡ []) ⊎ (balloc_writes m fs ≡ m ∷ (balloc fs).0 ∷ [])
unfolding balloc_writes balloc
balloc_writes-cases m fs small = by_case (find_free fs.size 0 fs.in_use) refl
  where
    by_case :
        (o : Option ℕ)
        → find_free fs.size 0 fs.in_use ≡ o
        → (elim o as (λ x. List ℕ) [ none ↦ [] | some b ↦ bblock m b ∷ b ∷ [] ] ≡ [])
          ⊎ (elim o as (λ x. List ℕ) [ none ↦ [] | some b ↦ bblock m b ∷ b ∷ [] ]
              ≡ m
                ∷ (elim o as (λ x. ℕ × Fs) [
                  | none ↦ (0, fs)
                  | some b ↦ (b, bzero b (record fs { in_use = update fs.in_use b true }))
                ]).0
                ∷ [])
    by_case none e = inl refl
    by_case (some b) e =
        let found = find_free-some fs.size 0 b fs.in_use e in
        inr (ap (λ k. k ∷ b ∷ []) (omega (arith, found, small)))

-- After some calls the log has room for `d` entries less, where the map's block `m` and the block `x` may count
-- among those that are there.
pub record Spent (m x d : ℕ) (s t : Log) : Type 0 where
  pub still_open : Open t
  pub kept : (c : ℕ) → missing c t ≤ missing c s
  pub paid : t.n + missing m t + missing x t ≤ s.n + missing m s + d

Spent-nothing : (m x d : ℕ) (s : Log) → Open s → missing x s ≤ d → Spent m x d s s
Spent-nothing m x d s o h = record {
  still_open = o;
  kept = λ c. omega arith;
  paid = omega (arith, h);
}

abbrev pub Runs : List ℕ → Log → (Log → Type 0) → Type 0
Runs bs s P = (t : Log) × (log_all bs s ≡ done t) × P t

balloc-Spent :
    (m : ℕ) (fs : Fs) (s : Log)
    → fs.size ≤ map_bits
    → Open s
    → s.n + missing m s + 1 < logblocks
    → Runs (balloc_writes m fs) s (Spent m (balloc fs).0 1 s)
unfolding log_all
balloc-Spent m fs s small o room = elim (balloc_writes-cases m fs small) [
  | inl nothing ↦ (
    s,
    ap (λ l. log_all l s) nothing,
    Spent-nothing m (balloc fs).0 1 s o (missing_bound (balloc fs).0 s),
  )
  | inr two ↦
      let (t1, e1, l1) = log_write-Logged m s o (omega (arith, room)) in
      let (t2, e2, l2) =
        log_write-Logged (balloc fs).0 t1 l1.still_open (omega (arith, l1.count, room)) in
      (
        t2,
        ap (λ l. log_all l s) two
            ∙ ap (λ o. o >>= log_all ((balloc fs).0 ∷ [])) e1
            ∙ ap (λ o. o >>= log_all []) e2,
        record {
          still_open = l2.still_open;
          kept = λ c. omega (arith, l1.kept c, l2.kept c);
          paid = omega (
            arith,
            l1.count,
            l1.there,
            l2.count,
            l2.there,
            l2.kept m,
            missing_bound (balloc fs).0 t1,
          );
        },
      )
]

balloc-size : (fs : Fs) → (balloc fs).1.size ≡ fs.size
unfolding balloc bzero
balloc-size fs = by_case (find_free fs.size 0 fs.in_use)
  where
    by_case :
        (o : Option ℕ)
        → (elim o as (λ x. ℕ × Fs) [
          | none ↦ (0, fs)
          | some b ↦ (b, bzero b (record fs { in_use = update fs.in_use b true }))
        ]).1.size
          ≡ fs.size
    by_case none = refl
    by_case (some b) = refl

pub direct-size : (i : ℕ) (ip : Inode) (fs : Fs) → (bmap_direct i ip fs).2.size ≡ fs.size
unfolding bmap_direct
direct-size i ip fs = ground (arith, balloc-size fs)

direct-number :
    (i : ℕ) (ip : Inode) (fs : Fs)
    → (bmap_direct i ip fs).0 ≡ (if ip.addrs i == 0 then (balloc fs).0 else ip.addrs i)
unfolding bmap_direct
direct-number i ip fs = ground arith

pub direct-others :
    (i j : ℕ) (ip : Inode) (fs : Fs)
    → (bmap_direct i ip fs).1.addrs j ≡ (if i == j then (bmap_direct i ip fs).0 else ip.addrs j)
unfolding bmap_direct
direct-others i j ip fs = ground arith

pub direct-Spent :
    (m i : ℕ) (ip : Inode) (fs : Fs) (s : Log)
    → fs.size ≤ map_bits
    → Open s
    → s.n + missing m s + 1 < logblocks
    → Runs
        (direct_writes m i ip fs)
        s
        (Spent m (bmap_direct i ip fs).0 (if ip.addrs i == 0 then 1 else missing (ip.addrs i) s) s)
unfolding direct_writes log_all
direct-Spent m i ip fs s small o room = elim (ℕ_discrete (ip.addrs i) 0) [
  | yes z ↦
      let (t, e, p) = balloc-Spent m fs s small o room in
      (
        t,
        ground (arith, z, e),
        subst₂ (λ x d. Spent m x d s t)
            (let number : (balloc fs).0 ≡ (bmap_direct i ip fs).0 =
                ground (arith, z, direct-number i ip fs) in
              number)
            (ground (arith, z)) p,
      )
  | no nz ↦
      (s, ground (arith, nz), Spent-nothing m _ _ s o (ground (arith, nz, direct-number i ip fs)))
]

-- The same for an entry of the indirect block `addr`.
pub record SpentEntry (m addr r : ℕ) (s t : Log) : Type 0 where
  pub still_open : Open t
  pub kept : (c : ℕ) → missing c t ≤ missing c s
  pub paid :
      t.n + missing m t + missing addr t + missing r t ≤ s.n + missing m s + missing addr s + 1

entry-number :
    (addr i : ℕ) (fs : Fs)
    → (bmap_entry addr i fs).0
      ≡ (if word (fs.bytes addr) i == 0 then (balloc fs).0 else word (fs.bytes addr) i)
unfolding bmap_entry
entry-number addr i fs = ground arith

new_entry-Spent :
    (m addr : ℕ) (fs : Fs) (s : Log)
    → fs.size ≤ map_bits
    → Open s
    → s.n + missing m s + missing addr s + 1 < logblocks
    → Runs
        (balloc_writes m fs ++ (if (balloc fs).0 == 0 then [] else addr ∷ []))
        s
        (SpentEntry m addr (balloc fs).0 s)
unfolding log_all
new_entry-Spent m addr fs s small o room =
    let (t, e, p) = balloc-Spent m fs s small o (omega (arith, room)) in
    let last = if (balloc fs).0 == 0 then [] else addr ∷ [] in
    let run = log_all-append (balloc_writes m fs) last s ∙ ap (λ o. o >>= log_all last) e in
    elim (ℕ_discrete (balloc fs).0 0) [
      | yes z ↦ (
        t,
        run ∙ ground (arith, z),
        record {
          still_open = p.still_open;
          kept = p.kept;
          paid = omega (arith, p.paid, p.kept addr);
        },
      )
      | no nz ↦
          let (u, e2, l) = log_write-Logged addr t p.still_open (omega (arith, p.paid, room)) in
          (
            u,
            run ∙ ground (arith, nz, e2),
            record {
              still_open = l.still_open;
              kept = λ c. omega (arith, p.kept c, l.kept c);
              paid =
                  omega
                    (arith, p.paid, p.kept addr, l.count, l.there, l.kept m, l.kept (balloc fs).0);
            },
          )
    ]

pub entry-Spent :
    (m addr i : ℕ) (fs : Fs) (s : Log)
    → fs.size ≤ map_bits
    → Open s
    → s.n + missing m s + missing addr s + 1 < logblocks
    → Runs (entry_writes m addr i fs) s (SpentEntry m addr (bmap_entry addr i fs).0 s)
unfolding entry_writes log_all
entry-Spent m addr i fs s small o room = elim (ℕ_discrete (word (fs.bytes addr) i) 0) [
  | yes z ↦
      let (t, e, p) = new_entry-Spent m addr fs s small o room in
      (
        t,
        ground (arith, z, e),
        subst (λ r. SpentEntry m addr r s t)
            (let number : (balloc fs).0 ≡ (bmap_entry addr i fs).0 =
                ground (arith, z, entry-number addr i fs) in
              number)
            p,
      )
  | no nz ↦ (
    s,
    ground (arith, nz),
    record {
      still_open = o;
      kept = λ c. omega arith;
      paid = omega (arith, missing_bound (bmap_entry addr i fs).0 s);
    },
  )
]
