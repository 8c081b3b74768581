-- ===== src/Fs/Reading.antt =====
-- readi of kernel/fs.c.
use model_lib.Base.{
  ℕ, zero, suc, ◌+◌, ◌-◌, ◌*◌, ◌/◌, ◌%◌, ◌^◌, ◌≤◌, ◌<◌, ◌≡◌, ◌≢◌, arith, refl, true, false, ltb,
  if◌then◌else◌, List, [], ◌∷◌, ◌++◌, ◌∙◌, ap, sym, subst, min,
}
use mathlib.Core.List.{append_assoc, append-nil}
use native.Mathlib.Decide.{dec_lt, ℕ_discrete}
use model_lib.Base.Outcome.{done}
use model_lib.Fs.{Content, Fs, Inode, bsize, maxfile, bmap, Read, readi_from, readi, slice}
use model_lib.Fs.Blocks.{lookup, Good}
use model_lib.Fs.Direct.{Mapped}
use model_lib.Fs.Mapping.{bmap-Mapped}
use model_lib.Fs.Content.{content_at, file_byte, file_byte-Mapped}

-- The values of `f` at `n` places from `i` on.
unfoldable pub values : (ℕ → ℕ) → ℕ → ℕ → List ℕ
values f i zero = []
values f i (suc n) = f i ∷ values f (i + 1) n

pub values-same :
    (f g : ℕ → ℕ) (i j n : ℕ)
    → ((k : ℕ) → k < n → f (i + k) ≡ g (j + k))
    → values f i n ≡ values g j n
unfolding values
values-same f g i j zero h = refl
values-same f g i j (suc n) h =
    ap (λ v. v ∷ values f (i + 1) n)
      (ap f (let e : i ≡ i + 0 = omega arith in e)
        ∙ h 0 (omega arith)
        ∙ ap g (let e : j + 0 ≡ j = omega arith in e))
    ∙ ap (λ l. g j ∷ l)
        (values-same f g (i + 1) (j + 1) n (λ k l.
          ap f (let e : i + 1 + k ≡ i + suc k = omega arith in e)
          ∙ h (suc k) (omega (arith, l))
          ∙ ap g (let e : j + suc k ≡ j + 1 + k = omega arith in e)))

values-append : (f : ℕ → ℕ) (i m n : ℕ) → values f i (m + n) ≡ values f i m ++ values f (i + m) n
unfolding values
values-append f i zero n =
    ap (values f i) (let e : 0 + n ≡ n = omega arith in e)
    ∙ ap (λ j. values f j n) (let e : i ≡ i + 0 = omega arith in e)
values-append f i (suc m) n =
    ap (values f i) (let e : suc m + n ≡ suc (m + n) = omega arith in e)
    ∙ ap (λ l. f i ∷ l)
        (values-append f (i + 1) m n
          ∙ ap (λ j. values f (i + 1) m ++ values f j n)
              (let e : i + 1 + m ≡ i + suc m = omega arith in e))

slice-values : (blk : Content) (o m : ℕ) → slice blk o m ≡ values blk o m
unfolding slice values
slice-values blk o zero = refl
slice-values blk o (suc m) = ap (λ l. blk o ∷ l) (slice-values blk (o + 1) m)

-- What the loop does from the state `r` to the state `v`: the bytes from the offset of `r` to that of
-- `v` are copied out, and the file stays as it is.
record Reads (n : ℕ) (r v : Read) : Type 0 where
  pub good : Good v.inode v.disk
  pub same_length : v.inode.size ≡ r.inode.size
  pub count : ℕ
  pub counted : v.tot ≡ r.tot + count
  pub within : v.tot ≤ n
  pub ok : v.failed ≡ false
  pub bytes :
      (i : ℕ) → i < maxfile * bsize → file_byte v.inode v.disk i ≡ file_byte r.inode r.disk i
  pub copied : v.out ≡ r.out ++ values (file_byte r.inode r.disk) r.off count
  pub out_of_space : v.tot < n → (b : ℕ) → b < r.disk.size → v.disk.in_use b ≡ true

Reads-stopped :
    (n : ℕ) (r : Read) (ip1 : Inode) (fs1 : Fs)
    → Good ip1 fs1
    → ip1.size ≡ r.inode.size
    → r.failed ≡ false
    → r.tot ≤ n
    → ((i : ℕ) → i < maxfile * bsize → file_byte ip1 fs1 i ≡ file_byte r.inode r.disk i)
    → (r.tot < n → (b : ℕ) → b < r.disk.size → fs1.in_use b ≡ true)
    → Reads n r (record r { inode = ip1; disk = fs1 })
unfolding values
Reads-stopped n r ip1 fs1 good same f within bytes space = record {
  good = good;
  same_length = same;
  count = 0;
  counted = omega arith;
  within = within;
  ok = f;
  bytes = bytes;
  copied = sym (append-nil r.out);
  out_of_space = space;
}

-- A round that finds a block.
module _ (n : ℕ) (r : Read) (ip1 : Inode) (fs1 : Fs)
    (m : Mapped (r.off / bsize) r.inode r.disk (lookup ip1 fs1 (r.off / bsize)) ip1 fs1)
    (more : r.tot < n) (room : r.off + (n - r.tot) ≤ maxfile * bsize)
    (there : lookup ip1 fs1 (r.off / bsize) ≢ 0) where
  abbrev blk : Content
  blk = fs1.bytes (lookup ip1 fs1 (r.off / bsize))

  abbrev part : ℕ
  part = min (n - r.tot) (bsize - r.off % bsize)

  abbrev after : Read
  after = record {
    tot = r.tot + part;
    off = r.off + part;
    out = r.out ++ slice blk (r.off % bsize) part;
    failed = false;
    inode = ip1;
    disk = fs1;
  }

  byte-blk : (k : ℕ) → k < part → blk (r.off % bsize + k) ≡ file_byte r.inode r.disk (r.off + k)
  byte-blk k l =
      ap blk (let e : r.off % bsize + k ≡ (r.off + k) % bsize = omega (arith, l) in e)
      ∙ sym (
          ap (λ (b : ℕ). content_at fs1 (lookup ip1 fs1 b) ((r.off + k) % bsize))
            (let e : (r.off + k) / bsize ≡ r.off / bsize = omega (arith, l) in e)
          ∙ ground (arith, there))
      ∙ file_byte-Mapped (r.off / bsize) _ r.inode ip1 r.disk fs1 (r.off + k) m
          (omega (arith, room, l))

  Reads-round : (v : Read) → Reads n after v → Reads n r v
  Reads-round v rest = record {
    good = rest.good;
    same_length = rest.same_length ∙ m.same_length;
    count = part + rest.count;
    counted = omega (arith, rest.counted);
    within = rest.within;
    ok = rest.ok;
    bytes = λ i h. rest.bytes i h ∙ file_byte-Mapped (r.off / bsize) _ r.inode ip1 r.disk fs1 i m h;
    copied =
        rest.copied
        ∙ append_assoc r.out (slice blk (r.off % bsize) part)
            (values (file_byte ip1 fs1) (r.off + part) rest.count)
        ∙ ap (λ l. r.out ++ (l ++ values (file_byte ip1 fs1) (r.off + part) rest.count))
            (slice-values blk (r.off % bsize) part
              ∙ values-same blk (file_byte r.inode r.disk) (r.off % bsize) r.off part byte-blk)
        ∙ ap (λ l. r.out ++ (values (file_byte r.inode r.disk) r.off part ++ l))
            (values-same (file_byte ip1 fs1) (file_byte r.inode r.disk) (r.off + part)
              (r.off + part) rest.count
              (λ k l.
                file_byte-Mapped (r.off / bsize) _ r.inode ip1 r.disk fs1 (r.off + part + k) m
                  (omega (arith, l, room, rest.counted, rest.within))))
        ∙ ap (λ l. r.out ++ l)
            (sym (values-append (file_byte r.inode r.disk) r.off part rest.count));
    out_of_space = λ l b k. rest.out_of_space l b (subst (λ d. b < d) (sym m.same_disk) k);
  }

-- The loop returns, and does what Reads says.
readi_from-Reads :
    (fuel n : ℕ) (r : Read)
    → Good r.inode r.disk
    → r.disk.size ≤ 2 ^ 32
    → r.failed ≡ false
    → r.tot ≤ n
    → n ≤ r.tot + fuel
    → r.off + (n - r.tot) ≤ maxfile * bsize
    → (v : Read) × (readi_from fuel n (λ t. true) r ≡ done v) × Reads n r v
unfolding readi_from
readi_from-Reads zero n r ok small f within enough room = (
  r,
  refl,
  Reads-stopped n r r.inode r.disk ok refl f within (λ i h. refl)
      (λ l. absurd (omega (arith, l, enough))),
)
readi_from-Reads (suc fuel) n r ok small f within enough room = elim (dec_lt r.tot n) [
  | no finished ↦ (
    r,
    ground (arith, finished),
    Reads-stopped n r r.inode r.disk ok refl f within (λ i h. refl) (λ l. absurd (finished l)),
  )
  | yes more ↦
      let (b, ip1, fs1, e, m) =
        bmap-Mapped (r.off / bsize) r.inode r.disk ok small (omega (arith, room, more)) in
      elim (ℕ_discrete b 0) [
        | yes z ↦ (
          record r { inode = ip1; disk = fs1 },
          ground (arith, more, e, z),
          Reads-stopped n r ip1 fs1 m.good m.same_length f within
              (λ i h. file_byte-Mapped (r.off / bsize) b r.inode ip1 r.disk fs1 i m h)
              (λ l. m.out_of_space z),
        )
        | no nz ↦
            let found : bmap (r.off / bsize) r.inode r.disk
                ≡ done (lookup ip1 fs1 (r.off / bsize), ip1, fs1) =
              e ∙ ap (λ (a : ℕ). done (a, ip1, fs1)) (sym m.here) in
            let mapped : Mapped (r.off / bsize) r.inode r.disk (lookup ip1 fs1 (r.off / bsize)) ip1
                fs1 =
              subst (λ (a : ℕ). Mapped (r.off / bsize) r.inode r.disk a ip1 fs1) (sym m.here) m in
            let there : lookup ip1 fs1 (r.off / bsize) ≢ 0 = λ z. nz (sym m.here ∙ z) in
            let r1 = after n r ip1 fs1 mapped more room there in
            let (v, ran, reads) =
              readi_from-Reads fuel n r1 m.good (subst (λ d. d ≤ 2 ^ 32) (sym m.same_disk) small)
                refl (omega (arith, more)) (omega (arith, enough, more))
                (omega (arith, room, more)) in
            (
              v,
              ground (arith, more, found, there, ran),
              Reads-round n r ip1 fs1 mapped more room there v reads,
            )
      ]
]

-- The number of bytes between an offset and the end of a file, `n` at most.
abbrev pub available : Inode → ℕ → ℕ → ℕ
available ip off n = if ltb ip.size (off + n) then ip.size - off else n

-- What readi does that returns `tot` and copies `out`.
pub record ReadFile (off n : ℕ) (ip : Inode) (fs : Fs) (tot : ℕ) (out : List ℕ) (ip1 : Inode)
    (fs1 : Fs) : Type 0 where
  pub good : Good ip1 fs1
  pub same_length : ip1.size ≡ ip.size
  pub bytes : (i : ℕ) → i < maxfile * bsize → file_byte ip1 fs1 i ≡ file_byte ip fs i
  pub at_most : tot ≤ available ip off n
  pub copied : out ≡ values (file_byte ip fs) off tot
  pub out_of_space : tot < available ip off n → (b : ℕ) → b < fs.size → fs1.in_use b ≡ true

-- readi of `n` bytes at an offset inside the file or at its end, for a file that is not longer than
-- the longest one, returns if the destination can be written: it copies the bytes of the file from
-- that offset on, as many as there are up to `n`, fewer only if a block is missing and every block of
-- the disk is in use; the bytes and the length of the file stay as they are, and its blocks stay
-- different and in use.
pub readi-ReadFile :
    (off n : ℕ) (ip : Inode) (fs : Fs)
    → Good ip fs
    → fs.size ≤ 2 ^ 32
    → ip.size ≤ maxfile * bsize
    → off ≤ ip.size
    → off + n < 2 ^ 32
    → (tot : ℕ) × (out : List ℕ) × (ip1 : Inode) × (fs1 : Fs) × (readi (λ t. true) off n ip fs
        ≡ done (tot, out, ip1, fs1))
      × ReadFile off n ip fs tot out ip1 fs1
unfolding readi
readi-ReadFile off n ip fs ok small short inside word =
    let n1 = available ip off n in
    let r : Read = record { tot = 0; off = off; out = []; failed = false; inode = ip; disk = fs } in
    let (v, ran, reads) =
      readi_from-Reads n1 n1 r ok small refl (omega arith) (omega arith)
        (ground (arith, short, inside)) in
    (
      v.tot,
      v.out,
      v.inode,
      v.disk,
      ground (arith, inside, word, ran, reads.ok),
      record {
        good = reads.good;
        same_length = reads.same_length;
        bytes = reads.bytes;
        at_most = reads.within;
        copied =
            reads.copied
            ∙ ap (values (file_byte ip fs) off)
                (let e : reads.count ≡ v.tot = omega (arith, reads.counted) in e);
        out_of_space = reads.out_of_space;
      },
    )
