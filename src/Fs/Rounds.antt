-- ===== src/Fs/Rounds.antt =====
-- The rounds of writei of kernel/fs.c.
use model_lib.Base.{
  ℕ, ◌+◌, ◌-◌, ◌*◌, ◌/◌, ◌%◌, ◌≤◌, ◌<◌, ◌≡◌, ◌≢◌, arith, refl, true, ◌==◌, ◌&&◌, ltb, leb,
  if◌then◌else◌, ◌∙◌, ap, sym, subst, min,
}
use native.Mathlib.Decide.{dec_lt, ℕ_discrete}
use model_lib.Log.{Log}
use model_lib.Fs.{Content, Fs, Inode, bsize, maxfile, write_bytes, Written}
use model_lib.Fs.Blocks.{lookup, Good}
use model_lib.Fs.Direct.{Mapped}
use model_lib.Fs.Content.{
  content_at, file_byte, file_byte-Mapped, rewritten, Good-rewritten, file_byte-rewritten,
}

-- What the loop does from the state `w` to the state `v`: bytes are written from the offset of `w` to
-- that of `v`, and it stops early only if all blocks are in use.
pub record Wrote (src : ℕ → ℕ) (n : ℕ) (w v : Written) : Type 0 where
  pub good : Good v.inode v.disk
  pub same_length : v.inode.size ≡ w.inode.size
  pub same_disk : v.disk.size ≡ w.disk.size
  pub moved : v.off + w.tot ≡ w.off + v.tot
  pub forth : w.tot ≤ v.tot
  pub within : v.tot ≤ n
  pub bytes :
      (i : ℕ)
      → i < maxfile * bsize
      → file_byte v.inode v.disk i ≡ (
          if leb w.off i && ltb i v.off
          then src (w.tot + (i - w.off))
          else file_byte w.inode w.disk i)
  pub out_of_space : v.tot < n → (b : ℕ) → b < w.disk.size → v.disk.in_use b ≡ true

pub Wrote-nothing :
    (src : ℕ → ℕ) (n : ℕ) (w : Written) → Good w.inode w.disk → w.tot ≡ n → Wrote src n w w
Wrote-nothing src n w ok e = record {
  good = ok;
  same_length = refl;
  same_disk = refl;
  moved = refl;
  forth = omega arith;
  within = omega (arith, e);
  bytes = λ i h. ground arith;
  out_of_space = λ l. absurd (omega (arith, l, e));
}

-- Within one block the offsets and the positions agree.
in_block :
    (off i count x y : ℕ)
    → i / bsize ≡ off / bsize
    → (if leb (off % bsize) (i % bsize) && ltb (i % bsize) (off % bsize + count) then x else y)
      ≡ (if leb off i && ltb i (off + count) then x else y)
in_block off i count x y e = ground arith

same_value :
    (off i count x x' y : ℕ)
    → (off ≤ i → x ≡ x')
    → (if leb off i && ltb i (off + count) then x else y)
      ≡ (if leb off i && ltb i (off + count) then x' else y)
same_value off i count x x' y e = elim (dec_lt i off) [
  | yes before ↦ ground (arith, before)
  | no after ↦ ground (arith, e (omega (arith, after)))
]

outside_block :
    (off i n tot x y : ℕ)
    → i / bsize ≢ off / bsize
    → y ≡ (if leb off i && ltb i (off + min (n - tot) (bsize - off % bsize)) then x else y)
outside_block off i n tot x y ne = ground arith

-- Two ranges, one after the other.
two_ranges :
    (off mid end i x x' y z : ℕ)
    → off ≤ mid
    → mid ≤ end
    → (mid ≤ i → x' ≡ x)
    → z ≡ (if leb off i && ltb i mid then x else y)
    → (if leb mid i && ltb i end then x' else z) ≡ (if leb off i && ltb i end then x else y)
two_ranges off mid end i x x' y z h k e f = elim (dec_lt i mid) [
  | yes before ↦ ground (arith, before, f)
  | no after ↦ ground (arith, after, e (omega (arith, after)), f)
]

-- A round that finds a block.
module _ (src : ℕ → ℕ) (n : ℕ) (w : Written) (ip1 : Inode) (fs1 : Fs)
    (m : Mapped (w.off / bsize) w.inode w.disk (lookup ip1 fs1 (w.off / bsize)) ip1 fs1)
    (more : w.tot < n) (room : w.off + (n - w.tot) ≤ maxfile * bsize)
    (there : lookup ip1 fs1 (w.off / bsize) ≢ 0) (log2 : Log) where
  abbrev pub bn : ℕ
  bn = w.off / bsize

  abbrev pub addr : ℕ
  addr = lookup ip1 fs1 bn

  abbrev pub count : ℕ
  count = min (n - w.tot) (bsize - w.off % bsize)

  abbrev pub new_bytes : Content
  new_bytes = write_bytes (fs1.bytes addr) (w.off % bsize) src w.tot count

  pub below : bn < maxfile
  below = omega (arith, room, more)

  abbrev pub after : Written
  after = record {
    tot = w.tot + count;
    off = w.off + count;
    inode = ip1;
    disk = rewritten ip1 fs1 bn new_bytes m.good below there;
    log = log2;
  }

  pub Good-after : Good after.inode after.disk
  Good-after = Good-rewritten ip1 fs1 bn new_bytes m.good below there

  byte-after :
      (i : ℕ)
      → i < maxfile * bsize
      → file_byte after.inode after.disk i ≡ (
          if leb w.off i && ltb i (w.off + count)
          then src (w.tot + (i - w.off))
          else file_byte w.inode w.disk i)
  byte-after i h =
      file_byte-rewritten ip1 fs1 bn new_bytes m.good below there i h
      ∙ elim (ℕ_discrete (i / bsize) bn) [
        | yes e ↦
            let unchanged : fs1.bytes addr (i % bsize) ≡ file_byte w.inode w.disk i =
              sym (
                ap (λ b. content_at fs1 b (i % bsize)) (ap (lookup ip1 fs1) e)
                ∙ ground (arith, there))
              ∙ file_byte-Mapped bn addr w.inode ip1 w.disk fs1 i m h in
            let now : (if i / bsize == bn then new_bytes (i % bsize) else file_byte ip1 fs1 i)
                ≡ new_bytes (i % bsize) =
              ground (arith, e) in
            now
            ∙ in_block w.off i count (src (w.tot + (i % bsize - w.off % bsize)))
                (fs1.bytes addr (i % bsize)) e
            ∙ same_value w.off i count _ (src (w.tot + (i - w.off))) (fs1.bytes addr (i % bsize))
                (λ l.
                  ap (λ k. src (w.tot + k))
                    (let d : i % bsize - w.off % bsize ≡ i - w.off = omega (arith, e, l) in d))
            ∙ ap
                (λ y. if leb w.off i && ltb i (w.off + count) then src (w.tot + (i - w.off)) else y)
                unchanged
        | no ne ↦
            let now : (if i / bsize == bn then new_bytes (i % bsize) else file_byte ip1 fs1 i)
                ≡ file_byte ip1 fs1 i =
              ground (arith, ne) in
            now
            ∙ file_byte-Mapped bn addr w.inode ip1 w.disk fs1 i m h
            ∙ outside_block w.off i n w.tot (src (w.tot + (i - w.off))) (file_byte w.inode w.disk i)
                ne
      ]

  -- The other rounds go on from there.
  pub Wrote-round : (v : Written) → Wrote src n after v → Wrote src n w v
  Wrote-round v rest = record {
    good = rest.good;
    same_length = rest.same_length ∙ m.same_length;
    same_disk = rest.same_disk ∙ m.same_disk;
    moved = omega (arith, rest.moved);
    forth = omega (arith, rest.forth);
    within = rest.within;
    bytes = λ i h.
        rest.bytes i h
        ∙ two_ranges w.off (w.off + count) v.off i (src (w.tot + (i - w.off))) _
            (file_byte w.inode w.disk i) _ (omega arith) (omega (arith, rest.moved, rest.forth))
            (λ l. ap src (
              let e : w.tot + count + (i - (w.off + count)) ≡ w.tot + (i - w.off) =
                omega (arith, l) in
              e))
            (byte-after i h);
    out_of_space = λ l b k. rest.out_of_space l b (subst (λ d. b < d) (sym m.same_disk) k);
  }
