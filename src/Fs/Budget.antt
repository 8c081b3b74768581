-- ===== src/Fs/Budget.antt =====
-- kernel/fs.c: what the calls of log_write in a round of writei take of the log, on a disk whose free map is one
-- block. A block that is in the log already takes nothing.
use model_lib.Base.{
  ℕ, suc, ◌+◌, ◌-◌, ◌≤◌, ◌<◌, ◌≡◌, arith, ◌==◌, ◌∙◌, ap, sym, subst, if◌then◌else◌, [], ◌++◌,
}
use native.Mathlib.Decide.{ℕ_discrete, dec_lt}
use model_lib.Base.Outcome.{done, ◌>>=◌, done_injective}
use model_lib.Layout.{logblocks}
use model_lib.Log.{Log, log_write}
use model_lib.Log.Entries.{Logged, Open, missing, log_write-Logged}
use model_lib.Fs.{
  Fs, Inode, ndirect, maxfile, bmap_direct, bmap_entry, bmap_indirect, bmap, direct_writes,
  entry_writes, bmap_writes, log_all,
}
use model_lib.Fs.Spending.{
  map_bits, log_all-append, Runs, direct-size, direct-others, direct-Spent, entry-Spent,
}

-- 1 if the indirect block is not allocated or not in the log.
abbrev pub missing_indirect : Inode → Log → ℕ
missing_indirect ip s = if ip.addrs ndirect == 0 then 1 else missing (ip.addrs ndirect) s

-- The log has room for `k` rounds: for a block in each, the map's block `m`, the block of the inode and the indirect block.
pub record Room (m iblock k : ℕ) (ip : Inode) (s : Log) : Type 0 where
  pub still_open : Open s
  pub room : s.n + missing m s + missing iblock s + missing_indirect ip s + k < logblocks

-- The same in a round that has found block `r`, and `k` more; the log was `s0` at its start.
pub record RoomAfter (m iblock k r : ℕ) (ip : Inode) (s0 s : Log) : Type 0 where
  pub still_open : Open s
  pub kept : (c : ℕ) → missing c s ≤ missing c s0
  pub room :
      s.n + missing m s + missing iblock s + missing_indirect ip s + missing r s + k < logblocks

module _ (m iblock k : ℕ) (ip : Inode) (fs : Fs) (s : Log) (small : fs.size ≤ map_bits)
    (enough : Room m iblock (suc k) ip s) where
  direct-RoomAfter :
      (i : ℕ)
      → i < ndirect
      → Runs
          (direct_writes m i ip fs)
          s
          (RoomAfter m iblock k (bmap_direct i ip fs).0 (bmap_direct i ip fs).1 s)
  direct-RoomAfter i l =
      let (t, e, p) =
        direct-Spent m i ip fs s small enough.still_open (omega (arith, enough.room)) in
      let cost : (if ip.addrs i == 0 then 1 else missing (ip.addrs i) s) ≤ 1 = ground arith in
      let ind : missing_indirect (bmap_direct i ip fs).1 t ≤ missing_indirect ip s =
        ground (arith, l, direct-others i ndirect ip fs, p.kept (ip.addrs ndirect)) in
      (
        t,
        e,
        record {
          still_open = p.still_open;
          kept = p.kept;
          room = omega (arith, enough.room, p.paid, cost, ind, p.kept iblock);
        },
      )

  abbrev addr : ℕ
  addr = (bmap_direct ndirect ip fs).0

  abbrev ip1 : Inode
  ip1 = (bmap_direct ndirect ip fs).1

  abbrev fs1 : Fs
  fs1 = (bmap_direct ndirect ip fs).2

  indirect-RoomAfter :
      (i : ℕ)
      → fs1.size ≤ map_bits
      → Runs
          (direct_writes m ndirect ip fs ++ (if addr == 0 then [] else entry_writes m addr i fs1))
          s
          (RoomAfter m iblock k (if addr == 0 then 0 else (bmap_entry addr i fs1).0) ip1 s)
  unfolding log_all
  indirect-RoomAfter i small1 =
      let (t, e, p) =
        direct-Spent m ndirect ip fs s small enough.still_open (omega (arith, enough.room)) in
      let rest = if addr == 0 then [] else entry_writes m addr i fs1 in
      let run =
        log_all-append (direct_writes m ndirect ip fs) rest s ∙ ap (λ o. o >>= log_all rest) e in
      let entry : ip1.addrs ndirect ≡ addr = direct-others ndirect ndirect ip fs in
      elim (ℕ_discrete addr 0) [
        | yes z ↦
            let found : (if addr == 0 then 0 else (bmap_entry addr i fs1).0) ≡ addr =
              ground (arith, z) in
            let count = ap (λ b. missing b t) found in
            let ind : missing_indirect ip1 t ≤ 1 = ground arith in
            (
              t,
              run ∙ ground (arith, z),
              record {
                still_open = p.still_open;
                kept = p.kept;
                room = omega (arith, enough.room, p.paid, count, ind, p.kept iblock);
              },
            )
        | no nz ↦
            let (u, e2, q) =
              entry-Spent m addr i fs1 t small1 p.still_open (omega (arith, p.paid, enough.room)) in
            (
              u,
              run ∙ ground (arith, nz, e2),
              record {
                still_open = q.still_open;
                kept = λ c. omega (arith, p.kept c, q.kept c);
                room =
                    let found : (if addr == 0 then 0 else (bmap_entry addr i fs1).0)
                        ≡ (bmap_entry addr i fs1).0 =
                      ground (arith, nz) in
                    let count = ap (λ b. missing b u) found in
                    let ind : missing_indirect ip1 u ≡ missing addr u =
                      ap (λ a. if a == 0 then 1 else missing a u) entry ∙ ground (arith, nz) in
                    omega (
                      arith,
                      enough.room,
                      p.paid,
                      q.paid,
                      count,
                      ind,
                      p.kept iblock,
                      q.kept iblock,
                    );
              },
            )
      ]

  -- A round of writei for block `bn`: the calls that bmap makes return, and there is room for the block.
  pub bmap_writes-RoomAfter :
      (bn r : ℕ) (ip2 : Inode) (fs2 : Fs)
      → bn < maxfile
      → bmap bn ip fs ≡ done (r, ip2, fs2)
      → Runs (bmap_writes m bn ip fs) s (RoomAfter m iblock k r ip2 s)
  unfolding bmap_writes bmap bmap_indirect log_all
  bmap_writes-RoomAfter bn r ip2 fs2 inside e = elim (dec_lt bn ndirect) [
    | yes d ↦
        let (t, ran, room) = direct-RoomAfter bn d in
        let same : bmap_direct bn ip fs ≡ (r, ip2, fs2) = done_injective (ground (arith, d, e)) in
        (t, ground (arith, d, ran), subst (λ x. RoomAfter m iblock k x.0 x.1 s t) same room)
    | no nd ↦
        let (t, ran, room) =
          indirect-RoomAfter (bn - ndirect)
            (subst (λ d. d ≤ map_bits) (sym (direct-size ndirect ip fs)) small) in
        let i = bn - ndirect in
        elim (ℕ_discrete addr 0) [
          | yes z ↦
              let same : ◌≡◌ {A = ℕ × Inode × Fs} (0, ip1, fs1) (r, ip2, fs2) =
                done_injective (ground (arith, nd, inside, z, e)) in
              let number : ◌≡◌ {A = ℕ} (if addr == 0 then 0 else (bmap_entry addr i fs1).0) 0 =
                ground (arith, z) in
              (
                t,
                ground (arith, nd, ran),
                subst (λ x. RoomAfter m iblock k x.0 x.1 s t) same
                    (subst (λ x. RoomAfter m iblock k x ip1 s t) number room),
              )
          | no nz ↦
              let entry = bmap_entry addr i fs1 in
              let same : ◌≡◌ {A = ℕ × Inode × Fs} (entry.0, ip1, entry.1) (r, ip2, fs2) =
                done_injective (ground (arith, nd, inside, nz, e)) in
              let number : (if addr == 0 then 0 else entry.0) ≡ entry.0 = ground (arith, nz) in
              (
                t,
                ground (arith, nd, ran),
                subst (λ x. RoomAfter m iblock k x.0 x.1 s t) same
                    (subst (λ x. RoomAfter m iblock k x ip1 s t) number room),
              )
        ]
  ]

-- The block that the round writes.
pub log_write-Room :
    (m iblock k r : ℕ) (ip : Inode) (s0 s : Log)
    → RoomAfter m iblock k r ip s0 s
    → (t : Log) × (log_write r s ≡ done t) × Room m iblock k ip t × Logged r s t
log_write-Room m iblock k r ip s0 s a =
    let (t, e, l) = log_write-Logged r s a.still_open (omega (arith, a.room)) in
    let ind : missing_indirect ip t ≤ missing_indirect ip s =
      ground (arith, l.kept (ip.addrs ndirect)) in
    (
      t,
      e,
      record {
        still_open = l.still_open;
        room = omega (arith, a.room, l.count, l.there, l.kept m, l.kept iblock, ind);
      },
      l,
    )

-- iupdate's call at the end.
pub iupdate-succeeds :
    (iblock : ℕ) (s : Log)
    → Open s
    → s.n < logblocks
    → (t : Log) × (log_write iblock s ≡ done t) × Logged iblock s t
iupdate-succeeds iblock s o room = log_write-Logged iblock s o room
