-- ===== src/Fs/Bmap.antt =====
-- bmap of kernel/fs.c keeps the blocks of the inode apart and their contents as they are.
use model_lib.Base.{
  ℕ, ◌+◌, ◌-◌, ◌^◌, ◌≤◌, ◌<◌, ◌≡◌, ◌≢◌, arith, refl, true, false, ◌==◌, if◌then◌else◌, update,
  update_self, update_ne, ◌∙◌, ap, sym, subst,
}
use native.Mathlib.Decide.{dec_lt, ℕ_discrete}
use model_lib.Fs.{
  Content, Fs, Inode, ndirect, nindirect, maxfile, word, set_word, bzero, balloc, bmap_direct,
  bmap_entry,
}
use model_lib.Fs.Words.{word-set_word_self, word-set_word_ne}
use model_lib.Fs.Blocks.{
  taken, BallocCase, full, free, balloc-BallocCase, lookup, Apart, Good, Apart-target,
  Apart-indirect, bytes-taken, bytes-taken_self, lookup-taken, Good-taken, Fresh-taken,
}
use model_lib.Fs.Direct.{Mapped, Mapped-kept, Mapped-full}

-- What the search for the indirect block does, which is `addr` afterwards.
pub record Reached (ip : Inode) (fs : Fs) (addr : ℕ) (ip1 : Inode) (fs1 : Fs) : Type 0 where
  pub good : Good ip1 fs1
  pub is_indirect : ip1.addrs ndirect ≡ addr
  pub lookups : (bn : ℕ) → bn < maxfile → lookup ip1 fs1 bn ≡ lookup ip fs bn
  pub contents :
      (bn : ℕ)
      → bn < maxfile
      → lookup ip fs bn ≢ 0
      → fs1.bytes (lookup ip fs bn) ≡ fs.bytes (lookup ip fs bn)
  pub same_length : ip1.size ≡ ip.size
  pub same_disk : fs1.size ≡ fs.size
  pub out_of_space : addr ≡ 0 → (b : ℕ) → b < fs.size → fs1.in_use b ≡ true

module _ (ip : Inode) (fs : Fs) (ok : Good ip fs) where
  abbrev pub ReachedTo : ℕ × Inode × Fs → Type 0
  ReachedTo p = Reached ip fs p.0 p.1 p.2

  Reached-same :
      (addr : ℕ)
      → ip.addrs ndirect ≡ addr
      → (addr ≡ 0 → (b : ℕ) → b < fs.size → fs.in_use b ≡ true)
      → Reached ip fs addr ip fs
  Reached-same addr e space = record {
    good = ok;
    is_indirect = e;
    lookups = λ bn h. refl;
    contents = λ bn h n. refl;
    same_length = refl;
    same_disk = refl;
    out_of_space = space;
  }

  module _ (a : ℕ) (is_free : fs.in_use a ≡ false) where
    abbrev ip1 : Inode
    ip1 = record ip { addrs = update ip.addrs ndirect a }

    -- The new indirect block has no entries.
    lookup-empty :
        ip.addrs ndirect ≡ 0 → (bn : ℕ) → lookup ip1 (taken a fs) bn ≡ lookup ip (taken a fs) bn
    lookup-empty z bn = elim (dec_lt bn ndirect) [
      | yes l ↦ ground (arith, l, update_ne ip.addrs ndirect bn a (λ e. omega (arith, e, l)))
      | no g ↦ ground (arith, g, z, update_self ip.addrs ndirect a, empty_word)
    ]
      where
        empty_word : word ((taken a fs).bytes a) (bn - ndirect) ≡ 0
        empty_word =
            ap (λ (c : Content). word c (bn - ndirect)) (bytes-taken_self ip fs a ok is_free)

    Reached-taken : ip.addrs ndirect ≡ 0 → Reached ip fs a ip1 (taken a fs)
    unfolding bzero
    Reached-taken z = record {
      good =
          subst (Apart (taken a fs).in_use (lookup ip1 (taken a fs)))
            (sym (update_self ip.addrs ndirect a))
            (Apart-indirect (taken a fs).in_use (lookup ip (taken a fs)) (lookup ip1 (taken a fs))
              (ip.addrs ndirect) a (Good-taken ip fs a ok is_free) (Fresh-taken ip fs a ok is_free)
              (λ bn h. lookup-empty z bn));
      is_indirect = update_self ip.addrs ndirect a;
      lookups = λ bn h. lookup-empty z bn ∙ lookup-taken ip fs a ok is_free bn;
      contents = λ bn h n. bytes-taken ip fs a ok is_free (lookup ip fs bn) (ok.used bn h);
      same_length = refl;
      same_disk = refl;
      out_of_space = λ e. absurd ((Fresh-taken ip fs a ok is_free).not_zero e);
    }

  abbrev indirect_after : ℕ × Fs → ℕ × Inode × Fs
  indirect_after (a, fs1) =
      if ip.addrs ndirect == 0
      then (if a == 0
          then (0, ip, fs1)
          else (a, record ip { addrs = update ip.addrs ndirect a }, fs1))
      else (ip.addrs ndirect, ip, fs)

  indirect_after-Reached : (p : ℕ × Fs) → BallocCase fs p → ReachedTo (indirect_after p)
  indirect_after-Reached p c = elim (ℕ_discrete (ip.addrs ndirect) 0) [
    | yes z ↦ unset p c z
    | no nz ↦
        subst ReachedTo {x = (ip.addrs ndirect, ip, fs)} (ground (arith, nz))
          (Reached-same (ip.addrs ndirect) refl (λ z. absurd (nz z)))
  ]
    where
      unset : (p : ℕ × Fs) → BallocCase fs p → ip.addrs ndirect ≡ 0 → ReachedTo (indirect_after p)
      unset _ (full all) z =
          subst ReachedTo {x = (0, ip, fs)} (ground (arith, z)) (Reached-same 0 z (λ e. all))
      unset _ (free a is_free below) z =
          subst ReachedTo {x = (a, ip1 a is_free, taken a fs)}
            (ground (arith, z, (Fresh-taken ip fs a ok is_free).not_zero))
            (Reached-taken a is_free z)

  pub bmap_direct-Reached : ReachedTo (bmap_direct ndirect ip fs)
  unfolding bmap_direct
  bmap_direct-Reached = indirect_after-Reached (balloc fs) (balloc-BallocCase fs)

-- An entry of the indirect block.
module _ (i : ℕ) (ip : Inode) (fs : Fs) (ok : Good ip fs) (below : i < nindirect)
    (small : fs.size ≤ 2 ^ 32) (some_block : ip.addrs ndirect ≢ 0) where
  abbrev pub addr : ℕ
  addr = ip.addrs ndirect

  abbrev pub EntryTo : ℕ × Fs → Type 0
  EntryTo p = Mapped (ndirect + i) ip fs p.0 ip p.1

  lookup-indirect :
      (fs1 : Fs) (bn : ℕ) → ndirect ≤ bn → lookup ip fs1 bn ≡ word (fs1.bytes addr) (bn - ndirect)
  lookup-indirect fs1 bn h = ground (arith, some_block)

  lookup-entry : (fs1 : Fs) → lookup ip fs1 (ndirect + i) ≡ word (fs1.bytes addr) i
  lookup-entry fs1 =
      lookup-indirect fs1 (ndirect + i) (omega arith)
      ∙ ap (word (fs1.bytes addr)) (let e : ndirect + i - ndirect ≡ i = omega arith in e)

  module _ (a : ℕ) (is_free : fs.in_use a ≡ false) (inside : a < fs.size) where
    -- The disk after the entry was set.
    abbrev fs2 : Fs
    fs2 =
        let fs1 = taken a fs in
        record fs1 { bytes = update fs1.bytes addr (set_word i a (fs1.bytes addr)) }

    bytes-fs2 : fs2.bytes addr ≡ set_word i a ((taken a fs).bytes addr)
    bytes-fs2 = update_self (taken a fs).bytes addr _

    lookup-fs2_here : lookup ip fs2 (ndirect + i) ≡ a
    lookup-fs2_here =
        lookup-entry fs2
        ∙ ap (λ (c : Content). word c i) bytes-fs2
        ∙ word-set_word_self i a ((taken a fs).bytes addr) (omega (arith, small, inside))

    lookup-fs2_there : (bn : ℕ) → bn ≢ ndirect + i → lookup ip fs2 bn ≡ lookup ip (taken a fs) bn
    lookup-fs2_there bn ne = elim (dec_lt bn ndirect) [
      | yes l ↦ ground (arith, l)
      | no g ↦
          lookup-indirect fs2 bn (omega (arith, g))
          ∙ ap (λ (c : Content). word c (bn - ndirect)) bytes-fs2
          ∙ word-set_word_ne i (bn - ndirect) a ((taken a fs).bytes addr)
              (λ e. ne (omega (arith, e, g)))
          ∙ sym (lookup-indirect (taken a fs) bn (omega (arith, g)))
    ]

    Mapped-entry : word (fs.bytes addr) i ≡ 0 → Mapped (ndirect + i) ip fs a ip fs2
    unfolding bzero
    Mapped-entry z = record {
      good =
          Apart-target (taken a fs).in_use (lookup ip (taken a fs)) (lookup ip fs2) addr a
            (ndirect + i) (Good-taken ip fs a ok is_free) (Fresh-taken ip fs a ok is_free)
            lookup-fs2_here (λ bn h ne. lookup-fs2_there bn ne);
      here = lookup-fs2_here;
      there = λ bn h ne. lookup-fs2_there bn ne ∙ lookup-taken ip fs a ok is_free bn;
      kept = λ n. absurd (n (lookup-entry fs ∙ z));
      contents = λ bn h n.
          update_ne (taken a fs).bytes addr (lookup ip fs bn) _
            (λ e. ok.not_indirect bn h n (sym e))
          ∙ bytes-taken ip fs a ok is_free (lookup ip fs bn) (ok.used bn h);
      cleared = λ e n.
          update_ne (taken a fs).bytes addr a _ ((Fresh-taken ip fs a ok is_free).other)
          ∙ bytes-taken_self ip fs a ok is_free;
      same_length = refl;
      same_disk = refl;
      out_of_space = λ e. absurd ((Fresh-taken ip fs a ok is_free).not_zero e);
    }

  abbrev entry_after : ℕ × Fs → ℕ × Fs
  entry_after (a, fs1) =
      if word (fs.bytes addr) i == 0
      then (if a == 0
          then (0, fs1)
          else (a, record fs1 { bytes = update fs1.bytes addr (set_word i a (fs1.bytes addr)) }))
      else (word (fs.bytes addr) i, fs)

  entry_after-Mapped : (p : ℕ × Fs) → BallocCase fs p → EntryTo (entry_after p)
  entry_after-Mapped p c = elim (ℕ_discrete (word (fs.bytes addr) i) 0) [
    | yes z ↦ unset p c z
    | no nz ↦ subst EntryTo {x = (word (fs.bytes addr) i, fs)} (ground (arith, nz)) (
        subst (λ r. Mapped (ndirect + i) ip fs r ip fs) (lookup-entry fs)
          (Mapped-kept (ndirect + i) ip fs ok (λ z. nz (sym (lookup-entry fs) ∙ z))))
  ]
    where
      unset : (p : ℕ × Fs) → BallocCase fs p → word (fs.bytes addr) i ≡ 0 → EntryTo (entry_after p)
      unset _ (full all) z =
          subst EntryTo {x = (0, fs)} (ground (arith, z))
            (Mapped-full (ndirect + i) ip fs ok (lookup-entry fs ∙ z) all)
      unset _ (free a is_free inside) z =
          subst EntryTo {x = (a, fs2 a is_free inside)}
            (ground (arith, z, (Fresh-taken ip fs a ok is_free).not_zero))
            (Mapped-entry a is_free inside z)

  pub bmap_entry-Mapped : EntryTo (bmap_entry addr i fs)
  unfolding bmap_entry
  bmap_entry-Mapped = entry_after-Mapped (balloc fs) (balloc-BallocCase fs)
