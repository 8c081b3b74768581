-- ===== src/Fs/Mapping.antt =====
-- bmap of kernel/fs.c as a whole.
use model_lib.Base.{
  ℕ, ◌+◌, ◌-◌, ◌^◌, ◌≤◌, ◌<◌, ◌≡◌, arith, refl, ◌==◌, if◌then◌else◌, ◌∙◌, ap, sym, subst,
}
use native.Mathlib.Decide.{dec_lt, ℕ_discrete}
use model_lib.Base.Outcome.{done}
use model_lib.Fs.{
  Fs, Inode, ndirect, nindirect, maxfile, bmap_direct, bmap_entry, bmap_indirect, bmap,
}
use model_lib.Fs.Blocks.{lookup, Good}
use model_lib.Fs.Direct.{Mapped, bmap_direct-Mapped}
use model_lib.Fs.Bmap.{Reached, bmap_direct-Reached, bmap_entry-Mapped}

Mapped-Reached :
    (target r addr : ℕ) (ip ip1 : Inode) (fs fs1 fs2 : Fs)
    → target < maxfile
    → Reached ip fs addr ip1 fs1
    → Mapped target ip1 fs1 r ip1 fs2
    → Mapped target ip fs r ip1 fs2
Mapped-Reached target r addr ip ip1 fs fs1 fs2 h s m = record {
  good = m.good;
  here = m.here;
  there = λ bn l ne. m.there bn l ne ∙ s.lookups bn l;
  kept = λ n. m.kept (λ z. n (sym (s.lookups target h) ∙ z)) ∙ s.lookups target h;
  contents = λ bn l n.
      ap fs2.bytes (sym (s.lookups bn l))
      ∙ m.contents bn l (λ z. n (sym (s.lookups bn l) ∙ z))
      ∙ ap fs1.bytes (s.lookups bn l)
      ∙ s.contents bn l n;
  cleared = λ z n. m.cleared (s.lookups target h ∙ z) n;
  same_length = m.same_length ∙ s.same_length;
  same_disk = m.same_disk ∙ s.same_disk;
  out_of_space = λ z b l. m.out_of_space z b (subst (λ k. b < k) (sym s.same_disk) l);
}

Mapped-unreached :
    (target : ℕ) (ip ip1 : Inode) (fs fs1 : Fs)
    → ndirect ≤ target
    → target < maxfile
    → Reached ip fs 0 ip1 fs1
    → Mapped target ip fs 0 ip1 fs1
Mapped-unreached target ip ip1 fs fs1 g h s =
    let none_there : lookup ip1 fs1 target ≡ 0 = ground (arith, s.is_indirect) in
    record {
      good = s.good;
      here = none_there;
      there = λ bn l ne. s.lookups bn l;
      kept = λ n. absurd (n (sym (s.lookups target h) ∙ none_there));
      contents = s.contents;
      cleared = λ z n. absurd (n refl);
      same_length = s.same_length;
      same_disk = s.same_disk;
      out_of_space = s.out_of_space;
    }

module _ (i : ℕ) (ip : Inode) (fs : Fs) (ok : Good ip fs) (below : i < nindirect)
    (small : fs.size ≤ 2 ^ 32) where
  abbrev IndirectTo : ℕ × Inode × Fs → Type 0
  IndirectTo p = Mapped (ndirect + i) ip fs p.0 p.1 p.2

  abbrev entry_of : ℕ × Inode × Fs → ℕ × Inode × Fs
  entry_of (addr, ip1, fs1) =
      let (r, fs2) = bmap_entry addr i fs1 in if addr == 0 then (0, ip1, fs1) else (r, ip1, fs2)

  entry_of-Mapped : (p : ℕ × Inode × Fs) → Reached ip fs p.0 p.1 p.2 → IndirectTo (entry_of p)
  entry_of-Mapped (addr, ip1, fs1) s = elim (ℕ_discrete addr 0) [
    | yes z ↦ subst IndirectTo {x = (0, ip1, fs1)} (ground (arith, z)) (
        Mapped-unreached (ndirect + i) ip ip1 fs fs1 (omega arith) (omega (arith, below))
          (subst (λ (a : ℕ). Reached ip fs a ip1 fs1) z s))
    | no nz ↦
        let r = bmap_entry addr i fs1 in
        let result : ℕ × Inode × Fs = (r.0, ip1, r.1) in
        subst IndirectTo {x = result} (ground (arith, nz)) (
          Mapped-Reached (ndirect + i) r.0 addr ip ip1 fs fs1 r.1 (omega (arith, below)) s (
            subst
              (λ (a : ℕ).
                Mapped (ndirect + i) ip1 fs1 (bmap_entry a i fs1).0 ip1 (bmap_entry a i fs1).1)
              s.is_indirect
              (bmap_entry-Mapped i ip1 fs1 s.good below
                (subst (λ k. k ≤ 2 ^ 32) (sym s.same_disk) small)
                (λ z. nz (sym s.is_indirect ∙ z)))))
  ]

  bmap_indirect-Mapped : IndirectTo (bmap_indirect i ip fs)
  unfolding bmap_indirect
  bmap_indirect-Mapped = entry_of-Mapped (bmap_direct ndirect ip fs) (bmap_direct-Reached ip fs ok)

-- bmap of a block that a file can have returns; it gives the number of the block that it is asked for,
-- or 0 if all blocks of the disk are in use; a block that was there stays, a new one is cleared; the
-- other blocks of the inode and the contents of all of them are unchanged; and the blocks of the inode
-- stay different and in use.
pub bmap-Mapped :
    (bn : ℕ) (ip : Inode) (fs : Fs)
    → Good ip fs
    → fs.size ≤ 2 ^ 32
    → bn < maxfile
    → (r : ℕ) × (ip1 : Inode) × (fs1 : Fs) × (bmap bn ip fs ≡ done (r, ip1, fs1))
      × Mapped bn ip fs r ip1 fs1
unfolding bmap
bmap-Mapped bn ip fs ok small h = elim (dec_lt bn ndirect) [
  | yes l ↦
      let p = bmap_direct bn ip fs in
      (p.0, p.1, p.2, ground (arith, l), bmap_direct-Mapped bn ip fs ok l)
  | no g ↦
      let i = bn - ndirect in
      let p = bmap_indirect i ip fs in
      (
        p.0,
        p.1,
        p.2,
        ground (arith, g, h),
        subst (λ (t : ℕ). Mapped t ip fs p.0 p.1 p.2)
            (let e : ndirect + i ≡ bn = omega (arith, g) in e)
            (bmap_indirect-Mapped i ip fs ok (omega (arith, g, h)) small),
      )
]
