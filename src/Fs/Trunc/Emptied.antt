-- ===== src/Fs/Trunc/Emptied.antt =====
-- kernel/fs.c: itrunc as a whole.
use model_lib.Base.{
  ℕ, ◌+◌, ◌-◌, ◌≤◌, ◌<◌, ◌≡◌, ◌≢◌, ◌∙◌, ap, sym, refl, arith, Bool, true, false, ◌==◌,
  if◌then◌else◌, update,
}
use native.Mathlib.Decide.{ℕ_discrete, dec_lt}
use model_lib.Base.Outcome.{done, ◌>>=◌}
use model_lib.Fs.{Fs, Inode, ndirect, nindirect, maxfile, word, bfree}
use model_lib.Fs.Blocks.{lookup, Good}
use model_lib.Fs.Trunc.{free_direct, free_entries, free_indirect, itrunc}
use model_lib.Fs.Trunc.Freeing.{Ready, Freed, free_entries-Freed, free_direct-Freed}

-- The block `b` belongs to no file position, and is not the indirect block.
pub record Elsewhere (ip : Inode) (fs : Fs) (b : ℕ) : Type 0 where
  pub not_direct : (bn : ℕ) → bn < maxfile → lookup ip fs bn ≢ 0 → lookup ip fs bn ≢ b
  pub not_indirect : ip.addrs ndirect ≢ 0 → ip.addrs ndirect ≢ b

-- The inode and the disk after all blocks of the inode were freed.
pub record Emptied (ip : Inode) (fs : Fs) (ip1 : Inode) (fs1 : Fs) : Type 0 where
  pub length : ip1.size ≡ 0
  pub no_blocks : (i : ℕ) → i ≤ ndirect → ip1.addrs i ≡ 0
  pub freed : (bn : ℕ) → bn < maxfile → lookup ip fs bn ≢ 0 → fs1.in_use (lookup ip fs bn) ≡ false
  pub freed_indirect : ip.addrs ndirect ≢ 0 → fs1.in_use (ip.addrs ndirect) ≡ false
  pub kept : (b : ℕ) → Elsewhere ip fs b → fs1.in_use b ≡ fs.in_use b
  pub same_bytes : fs1.bytes ≡ fs.bytes

free_indirect-none :
    (ip : Inode) (fs : Fs) → ip.addrs ndirect ≡ 0 → free_indirect ip fs ≡ done (ip, fs)
unfolding free_indirect
free_indirect-none ip fs z = ground (arith, z)

free_indirect-some :
    (ip : Inode) (fs : Fs) (b : ℕ) (new : ℕ → Bool)
    → ip.addrs ndirect ≡ b
    → b ≢ 0
    → free_entries nindirect 0 (word (fs.bytes b)) fs ≡ done (record fs { in_use = new })
    → new b ≡ true
    → free_indirect ip fs
      ≡ done (
        record ip { addrs = update ip.addrs ndirect 0 },
        record fs { in_use = update new b false },
      )
unfolding free_indirect bfree
free_indirect-some ip fs b new here nz e u = rw here (
    ap
      (λ o.
        if b == 0
        then done (ip, fs)
        else o >>= λ fs1.
            bfree b fs1 >>= λ fs2. done (record ip { addrs = update ip.addrs ndirect 0 }, fs2))
      e
    ∙ ground (arith, nz, u))

itrunc-done :
    (ip ip1 ip2 : Inode) (fs fs1 fs2 : Fs)
    → free_direct ndirect 0 ip fs ≡ done (ip1, fs1)
    → free_indirect ip1 fs1 ≡ done (ip2, fs2)
    → itrunc ip fs ≡ done (record ip2 { size = 0 }, fs2)
unfolding itrunc
itrunc-done ip ip1 ip2 fs fs1 fs2 e e2 =
    ap (λ o. o >>= λ p. free_indirect p.0 p.1 >>= λ q. done (record (q.0) { size = 0 }, q.1)) e
    ∙ ap (λ o. o >>= λ q. done (record (q.0) { size = 0 }, q.1)) e2

module _ (ip : Inode) (fs : Fs) (good : Good ip fs) where
  abbrev indirect : ℕ
  indirect = ip.addrs ndirect

  abbrev entries : ℕ → ℕ
  entries = word (fs.bytes indirect)

  direct-lookup : (i : ℕ) → i < ndirect → lookup ip fs i ≡ ip.addrs i
  direct-lookup i l = ground (arith, l)

  entries-lookup : (j : ℕ) → j < nindirect → indirect ≢ 0 → lookup ip fs (ndirect + j) ≡ entries j
  entries-lookup j l nz =
      ground (arith, l, nz, ap entries (let e : ndirect + j - ndirect ≡ j = omega arith in e))

  Ready-direct : Ready ip.addrs 0 ndirect fs.in_use
  Ready-direct = record {
    used = λ i h l nz. ap fs.in_use (sym (direct-lookup i l)) ∙ good.used i (omega arith);
    differ = λ i j h l hj lj nz e.
        good.differ i j (omega arith) (omega arith) (λ z. nz (sym (direct-lookup i l) ∙ z))
          (direct-lookup i l ∙ e ∙ sym (direct-lookup j lj));
  }

  -- The entries of the indirect block are in use when the blocks of the inode are freed.
  Ready-entries :
      (new : ℕ → Bool)
      → indirect ≢ 0
      → Freed ip.addrs 0 ndirect fs.in_use new
      → Ready entries 0 nindirect new
  Ready-entries new nz f = record {
    used = λ j h l ne.
        f.kept (entries j) (λ i hi li ni e. absurd (
          omega (
            arith,
            good.differ i (ndirect + j) (omega arith) (omega arith)
                (λ z. ni (sym (direct-lookup i li) ∙ z))
                (direct-lookup i li ∙ e ∙ sym (entries-lookup j l nz)),
          )))
        ∙ ap fs.in_use (sym (entries-lookup j l nz))
        ∙ good.used (ndirect + j) (omega arith);
    differ = λ i j h l hj lj ne e.
        let same : ndirect + i ≡ ndirect + j =
          good.differ (ndirect + i) (ndirect + j) (omega arith) (omega arith)
            (λ z. ne (sym (entries-lookup i l nz) ∙ z))
            (entries-lookup i l nz ∙ e ∙ sym (entries-lookup j lj nz)) in
        omega (arith, same);
  }

  indirect-new :
      (new : ℕ → Bool) → Freed ip.addrs 0 ndirect fs.in_use new → new indirect ≡ fs.in_use indirect
  indirect-new new f = f.kept indirect (λ i h l nz e.
      good.not_indirect i (omega arith) (λ z. nz (sym (direct-lookup i l) ∙ z))
        (direct-lookup i l ∙ e))

  indirect-newer :
      (new newer : ℕ → Bool)
      → indirect ≢ 0
      → Freed ip.addrs 0 ndirect fs.in_use new
      → Freed entries 0 nindirect new newer
      → newer indirect ≡ true
  indirect-newer new newer nz f g =
      g.kept indirect (λ j h l ne e.
        good.not_indirect (ndirect + j) (omega arith) (λ z. ne (sym (entries-lookup j l nz) ∙ z))
          (entries-lookup j l nz ∙ e))
      ∙ indirect-new new f
      ∙ good.used_indirect

  freed_now : (b : ℕ) (newer : ℕ → Bool) → newer b ≡ false → update newer indirect false b ≡ false
  freed_now b newer e = ground (arith, e)

  -- After both loops the blocks of all positions are free.
  Freed-newer :
      (new newer : ℕ → Bool)
      → indirect ≢ 0
      → Freed ip.addrs 0 ndirect fs.in_use new
      → Freed entries 0 nindirect new newer
      → (bn : ℕ) → bn < maxfile
      → lookup ip fs bn ≢ 0
      → newer (lookup ip fs bn) ≡ false
  Freed-newer new newer nz f g bn l nb = elim (dec_lt bn ndirect) [
    | yes d ↦
        ap newer (direct-lookup bn d)
        ∙ g.kept (ip.addrs bn) (λ j h lj ne e. absurd (
            omega (
              arith,
              d,
              good.differ bn (ndirect + j) (omega arith) (omega arith) nb
                  (direct-lookup bn d ∙ sym e ∙ sym (entries-lookup j lj nz)),
            )))
        ∙ f.freed bn (omega arith) d (λ z. nb (direct-lookup bn d ∙ z))
    | no nd ↦
        let j : ℕ = bn - ndirect in
        let at_j : lookup ip fs bn ≡ entries j =
          ap (lookup ip fs) (let e : bn ≡ ndirect + j = omega (arith, nd) in e)
          ∙ entries-lookup j (omega (arith, nd)) nz in
        ap newer at_j ∙ g.freed j (omega arith) (omega (arith, nd)) (λ z. nb (at_j ∙ z))
  ]

  -- itrunc returns: the file is then empty, and its inode refers to no block; exactly the blocks that it
  -- referred to, the indirect block with them, are free now, and no block changes its bytes. The blocks of the inode
  -- are in use and differ.
  pub itrunc-Emptied :
      (ip1 : Inode) × (fs1 : Fs) × (itrunc ip fs ≡ done (ip1, fs1)) × Emptied ip fs ip1 fs1
  itrunc-Emptied =
      let (left, new, e, f, c) = free_direct-Freed ndirect 0 ip fs Ready-direct in
      let left_indirect : left ndirect ≡ indirect = c.above ndirect (omega arith) in
      elim (ℕ_discrete indirect 0) [
        | yes z ↦ (
          record { addrs = left; size = 0 },
          record fs { in_use = new },
          itrunc-done _ _ _ _ _ _ e (free_indirect-none _ _ (left_indirect ∙ z)),
          record {
            length = refl;
            no_blocks = λ i h. elim (ℕ_discrete i ndirect) [
              | yes last ↦ ap left last ∙ left_indirect ∙ z
              | no ne ↦ c.zeroed i (omega arith) (omega (arith, ne))
            ];
            freed = λ bn l nz. elim (dec_lt bn ndirect) [
              | yes d ↦
                  ap new (direct-lookup bn d)
                  ∙ f.freed bn (omega arith) (omega arith) (λ z. nz (direct-lookup bn d ∙ z))
              | no nd ↦ absurd (nz (ground (arith, nd, z)))
            ];
            freed_indirect = λ nz. absurd (nz z);
            kept = λ b out. f.kept b (λ i h l nz e.
                out.not_direct i (omega arith) (λ z. nz (sym (direct-lookup i l) ∙ z))
                  (direct-lookup i l ∙ e));
            same_bytes = refl;
          },
        )
        | no nz ↦
            let (newer, e2, g) =
              free_entries-Freed nindirect 0 entries (record fs { in_use = new })
                (Ready-entries new nz f) in
            (
              record { addrs = update left ndirect 0; size = 0 },
              record fs { in_use = update newer indirect false },
              itrunc-done _ _ _ _ _ _ e (
                  free_indirect-some _ _ indirect newer left_indirect nz e2
                    (indirect-newer new newer nz f g)),
              record {
                length = refl;
                no_blocks = λ i h. elim (ℕ_discrete i ndirect) [
                  | yes last ↦ ground (arith, last)
                  | no ne ↦ ground (arith, ne, c.zeroed i (omega arith) (omega (arith, ne)))
                ];
                freed = λ bn l nb.
                    freed_now (lookup ip fs bn) newer (Freed-newer new newer nz f g bn l nb);
                freed_indirect = λ ne. ground arith;
                kept = λ b out. ground (
                  arith,
                  out.not_indirect nz,
                  g.kept b (λ j h l ne e.
                        out.not_direct (ndirect + j) (omega arith)
                          (λ z. ne (sym (entries-lookup j l nz) ∙ z)) (entries-lookup j l nz ∙ e))
                      ∙ f.kept b (λ i h l ni e.
                        out.not_direct i (omega arith) (λ z. ni (sym (direct-lookup i l) ∙ z))
                          (direct-lookup i l ∙ e)),
                );
                same_bytes = refl;
              },
            )
      ]
