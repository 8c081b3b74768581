-- ===== src/Fs/Direct.antt =====
-- The direct blocks of bmap of kernel/fs.c.
use model_lib.Base.{
  ℕ, ◌<◌, ◌≡◌, ◌≢◌, arith, refl, true, false, ◌==◌, if◌then◌else◌, update, update_self, update_ne,
  ◌∙◌, sym, subst,
}
use native.Mathlib.Decide.{ℕ_discrete}
use model_lib.Fs.{Fs, Inode, ndirect, maxfile, bzero, balloc, bmap_direct}
use model_lib.Fs.Blocks.{
  taken, BallocCase, full, free, balloc-BallocCase, lookup, Apart, Good, Apart-target, bytes-taken,
  bytes-taken_self, lookup-taken, Good-taken, Fresh-taken,
}

-- What bmap does that was asked for block `target` and returned `r`: 0 only if all blocks are in use.
pub record Mapped (target : ℕ) (ip : Inode) (fs : Fs) (r : ℕ) (ip1 : Inode) (fs1 : Fs)
    : Type 0 where
  pub good : Good ip1 fs1
  pub here : lookup ip1 fs1 target ≡ r
  pub there : (bn : ℕ) → bn < maxfile → bn ≢ target → lookup ip1 fs1 bn ≡ lookup ip fs bn
  pub kept : lookup ip fs target ≢ 0 → r ≡ lookup ip fs target
  pub contents :
      (bn : ℕ)
      → bn < maxfile
      → lookup ip fs bn ≢ 0
      → fs1.bytes (lookup ip fs bn) ≡ fs.bytes (lookup ip fs bn)
  pub cleared : lookup ip fs target ≡ 0 → r ≢ 0 → fs1.bytes r ≡ (λ i. 0)
  pub same_length : ip1.size ≡ ip.size
  pub same_disk : fs1.size ≡ fs.size
  pub out_of_space : r ≡ 0 → (b : ℕ) → b < fs.size → fs1.in_use b ≡ true

-- Nothing had to be done.
pub Mapped-kept :
    (target : ℕ) (ip : Inode) (fs : Fs)
    → Good ip fs
    → lookup ip fs target ≢ 0
    → Mapped target ip fs (lookup ip fs target) ip fs
Mapped-kept target ip fs ok nz = record {
  good = ok;
  here = refl;
  there = λ bn h ne. refl;
  kept = λ n. refl;
  contents = λ bn h n. refl;
  cleared = λ z n. absurd (nz z);
  same_length = refl;
  same_disk = refl;
  out_of_space = λ z. absurd (nz z);
}

-- There was no block.
pub Mapped-full :
    (target : ℕ) (ip : Inode) (fs : Fs)
    → Good ip fs
    → lookup ip fs target ≡ 0
    → ((b : ℕ) → b < fs.size → fs.in_use b ≡ true)
    → Mapped target ip fs 0 ip fs
Mapped-full target ip fs ok z all = record {
  good = ok;
  here = z;
  there = λ bn h ne. refl;
  kept = λ n. absurd (n z);
  contents = λ bn h n. refl;
  cleared = λ e n. absurd (n refl);
  same_length = refl;
  same_disk = refl;
  out_of_space = λ e. all;
}

-- A direct block.
module _ (i : ℕ) (ip : Inode) (fs : Fs) (ok : Good ip fs) (direct : i < ndirect) where
  abbrev pub direct_after : ℕ × Fs → ℕ × Inode × Fs
  direct_after (a, fs1) =
      if ip.addrs i == 0
      then (if a == 0 then (0, ip, fs1) else (a, record ip { addrs = update ip.addrs i a }, fs1))
      else (ip.addrs i, ip, fs)

  abbrev pub MappedTo : ℕ × Inode × Fs → Type 0
  MappedTo p = Mapped i ip fs p.0 p.1 p.2

  lookup_direct : lookup ip fs i ≡ ip.addrs i
  lookup_direct = ground arith

  module _ (a : ℕ) (is_free : fs.in_use a ≡ false) where
    abbrev ip1 : Inode
    ip1 = record ip { addrs = update ip.addrs i a }

    same_indirect : ip1.addrs ndirect ≡ ip.addrs ndirect
    same_indirect = update_ne ip.addrs i ndirect a (λ e. omega (arith, e))

    lookup-here : lookup ip1 (taken a fs) i ≡ a
    lookup-here = ground (arith, update_self ip.addrs i a)

    lookup-there : (bn : ℕ) → bn ≢ i → lookup ip1 (taken a fs) bn ≡ lookup ip (taken a fs) bn
    lookup-there bn ne = ground (arith, same_indirect, update_ne ip.addrs i bn a (λ e. ne (sym e)))

    Mapped-direct : ip.addrs i ≡ 0 → Mapped i ip fs a ip1 (taken a fs)
    unfolding bzero
    Mapped-direct z = record {
      good = subst (Apart (taken a fs).in_use (lookup ip1 (taken a fs))) (sym same_indirect) (
          Apart-target (taken a fs).in_use (lookup ip (taken a fs)) (lookup ip1 (taken a fs))
            (ip.addrs ndirect) a i (Good-taken ip fs a ok is_free) (Fresh-taken ip fs a ok is_free)
            lookup-here (λ bn h ne. lookup-there bn ne));
      here = lookup-here;
      there = λ bn h ne. lookup-there bn ne ∙ lookup-taken ip fs a ok is_free bn;
      kept = λ n. absurd (n (lookup_direct ∙ z));
      contents = λ bn h n. bytes-taken ip fs a ok is_free (lookup ip fs bn) (ok.used bn h);
      cleared = λ e n. bytes-taken_self ip fs a ok is_free;
      same_length = refl;
      same_disk = refl;
      out_of_space = λ e. absurd ((Fresh-taken ip fs a ok is_free).not_zero e);
    }

  direct_after-Mapped : (p : ℕ × Fs) → BallocCase fs p → MappedTo (direct_after p)
  direct_after-Mapped p c = elim (ℕ_discrete (ip.addrs i) 0) [
    | yes z ↦ unset p c z
    | no nz ↦ subst MappedTo {x = (ip.addrs i, ip, fs)} (ground (arith, nz)) (
        subst (λ r. Mapped i ip fs r ip fs) lookup_direct
          (Mapped-kept i ip fs ok (λ z. nz (sym lookup_direct ∙ z))))
  ]
    where
      unset : (p : ℕ × Fs) → BallocCase fs p → ip.addrs i ≡ 0 → MappedTo (direct_after p)
      unset _ (full all) z =
          subst MappedTo {x = (0, ip, fs)} (ground (arith, z))
            (Mapped-full i ip fs ok (lookup_direct ∙ z) all)
      unset _ (free a is_free below) z =
          subst MappedTo {x = (a, ip1 a is_free, taken a fs)}
            (ground (arith, z, (Fresh-taken ip fs a ok is_free).not_zero))
            (Mapped-direct a is_free z)

  pub bmap_direct-Mapped : MappedTo (bmap_direct i ip fs)
  unfolding bmap_direct
  bmap_direct-Mapped = direct_after-Mapped (balloc fs) (balloc-BallocCase fs)
