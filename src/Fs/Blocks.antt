-- ===== src/Fs/Blocks.antt =====
-- The free map of kernel/fs.c, and what an inode refers to.
use model_lib.Base.{
  ℕ, zero, suc, ◌+◌, ◌-◌, ◌≤◌, ◌<◌, ◌≡◌, ◌≢◌, arith, refl, Bool, true, false, ◌==◌, ltb,
  if◌then◌else◌, Option, none, some, update, update_self, update_ne, ◌∙◌, ap, sym,
}
use native.Mathlib.Decide.{ℕ_discrete}
use model_lib.Fs.{Content, Fs, Inode, ndirect, maxfile, word, bzero, find_free, balloc}

-- A free block, below `size`.
pub find_free-some :
    (n b r : ℕ) (in_use : ℕ → Bool)
    → find_free n b in_use ≡ some r
    → (in_use r ≡ false) × (b ≤ r) × (r < b + n)
unfolding find_free
find_free-some zero b r in_use e = absurd (ground (arith, e))
find_free-some (suc n) b r in_use e = ground (arith, e, find_free-some n (b + 1) r in_use)

pub find_free-none :
    (n b r : ℕ) (in_use : ℕ → Bool)
    → find_free n b in_use ≡ none
    → b ≤ r
    → r < b + n
    → in_use r ≡ true
unfolding find_free
find_free-none zero b r in_use e h l = absurd (omega arith)
find_free-none (suc n) b r in_use e h l = elim (ℕ_discrete b r) [
  | yes same ↦ ground (arith, e, same)
  | no ne ↦ find_free-none n (b + 1) r in_use (ground (arith, e)) (omega (arith, ne)) (omega arith)
]

-- The disk after block `a` was allocated.
abbrev pub taken : ℕ → Fs → Fs
taken a fs = bzero a (record fs { in_use = update fs.in_use a true })

-- balloc finds no block, or a free one, which it marks and clears.
pub data BallocCase (fs : Fs) : ℕ × Fs → Type 0 where
  full : ((b : ℕ) → b < fs.size → fs.in_use b ≡ true) → BallocCase fs (0, fs)
  free : (a : ℕ) → fs.in_use a ≡ false → a < fs.size → BallocCase fs (a, taken a fs)

pub balloc-BallocCase : (fs : Fs) → BallocCase fs (balloc fs)
unfolding balloc
balloc-BallocCase fs = by_case (find_free fs.size 0 fs.in_use) refl
  where
    by_case :
        (o : Option ℕ)
        → find_free fs.size 0 fs.in_use ≡ o
        → BallocCase fs (elim o [
          | none ↦ (0, fs)
          | some b ↦ (b, bzero b (record fs { in_use = update fs.in_use b true }))
        ])
    by_case none e =
        full (λ b h. find_free-none fs.size 0 b fs.in_use e (omega arith) (omega arith))
    by_case (some a) e =
        let found = find_free-some fs.size 0 a fs.in_use e in free a found.0 (omega (arith, found))

-- The block that holds block `bn` of the inode, 0 if there is none yet.
abbrev pub lookup : Inode → Fs → ℕ → ℕ
lookup ip fs bn =
    if ltb bn ndirect
    then ip.addrs bn
    else if ip.addrs ndirect == 0
    then 0
    else word (fs.bytes (ip.addrs ndirect)) (bn - ndirect)

-- The blocks `at` of an inode and its indirect block are in use and differ. Block 0 holds the boot
-- sector, and is in use.
pub record Apart (in_use : ℕ → Bool) (at : ℕ → ℕ) (indirect : ℕ) : Type 0 where
  pub boot : in_use 0 ≡ true
  pub used : (bn : ℕ) → bn < maxfile → in_use (at bn) ≡ true
  pub used_indirect : in_use indirect ≡ true
  pub differ : (i j : ℕ) → i < maxfile → j < maxfile → at i ≢ 0 → at i ≡ at j → i ≡ j
  pub not_indirect : (bn : ℕ) → bn < maxfile → at bn ≢ 0 → at bn ≢ indirect

abbrev pub Good : Inode → Fs → Type 0
Good ip fs = Apart fs.in_use (lookup ip fs) (ip.addrs ndirect)

-- A block that the inode does not refer to.
pub record Fresh (in_use : ℕ → Bool) (at : ℕ → ℕ) (indirect a : ℕ) : Type 0 where
  pub not_zero : a ≢ 0
  pub marked : in_use a ≡ true
  pub not_there : (bn : ℕ) → bn < maxfile → at bn ≢ a
  pub other : indirect ≢ a

-- A fresh block becomes block `target`.
pub Apart-target :
    (in_use : ℕ → Bool) (at at1 : ℕ → ℕ) (indirect a target : ℕ)
    → Apart in_use at indirect
    → Fresh in_use at indirect a
    → at1 target ≡ a
    → ((bn : ℕ) → bn < maxfile → bn ≢ target → at1 bn ≡ at bn)
    → Apart in_use at1 indirect
Apart-target in_use at at1 indirect a target ok new here there = record {
  boot = ok.boot;
  used = λ bn h. elim (ℕ_discrete bn target) [
    | yes e ↦ ap (λ b. in_use (at1 b)) e ∙ ap in_use here ∙ new.marked
    | no ne ↦ ap in_use (there bn h ne) ∙ ok.used bn h
  ];
  used_indirect = ok.used_indirect;
  differ = λ i j hi hj nz same. elim (ℕ_discrete i target) [
    | yes ei ↦ elim (ℕ_discrete j target) [
      | yes ej ↦ ei ∙ sym ej
      | no nj ↦ absurd (new.not_there j hj (sym (there j hj nj) ∙ sym same ∙ ap at1 ei ∙ here))
    ]
    | no ni ↦ elim (ℕ_discrete j target) [
      | yes ej ↦ absurd (new.not_there i hi (sym (there i hi ni) ∙ same ∙ ap at1 ej ∙ here))
      | no nj ↦
          ok.differ i j hi hj (λ z. nz (there i hi ni ∙ z))
            (sym (there i hi ni) ∙ same ∙ there j hj nj)
    ]
  ];
  not_indirect = λ bn h nz e. elim (ℕ_discrete bn target) [
    | yes eb ↦ new.other (sym e ∙ ap at1 eb ∙ here)
    | no nb ↦ ok.not_indirect bn h (λ z. nz (there bn h nb ∙ z)) (sym (there bn h nb) ∙ e)
  ];
}

-- A fresh block becomes the indirect block.
pub Apart-indirect :
    (in_use : ℕ → Bool) (at at1 : ℕ → ℕ) (indirect a : ℕ)
    → Apart in_use at indirect
    → Fresh in_use at indirect a
    → ((bn : ℕ) → bn < maxfile → at1 bn ≡ at bn)
    → Apart in_use at1 a
Apart-indirect in_use at at1 indirect a ok new there = record {
  boot = ok.boot;
  used = λ bn h. ap in_use (there bn h) ∙ ok.used bn h;
  used_indirect = new.marked;
  differ = λ i j hi hj nz same.
      ok.differ i j hi hj (λ z. nz (there i hi ∙ z)) (sym (there i hi) ∙ same ∙ there j hj);
  not_indirect = λ bn h nz e. new.not_there bn h (sym (there bn h) ∙ e);
}

-- balloc takes a free block.
module _ (ip : Inode) (fs : Fs) (a : ℕ) (ok : Good ip fs) (is_free : fs.in_use a ≡ false) where
  not_used : (b : ℕ) → fs.in_use b ≡ true → b ≢ a
  not_used b u e = ground (arith, u, is_free, ap fs.in_use e)

  in_use-taken : (b : ℕ) → fs.in_use b ≡ true → (taken a fs).in_use b ≡ true
  unfolding bzero
  in_use-taken b u = ground (arith, u)

  -- The blocks in use keep their contents.
  pub bytes-taken : (b : ℕ) → fs.in_use b ≡ true → (taken a fs).bytes b ≡ fs.bytes b
  unfolding bzero
  bytes-taken b u = update_ne fs.bytes a b (λ i. 0) (λ e. not_used b u (sym e))

  pub bytes-taken_self : (taken a fs).bytes a ≡ (λ i. 0)
  unfolding bzero
  bytes-taken_self = update_self fs.bytes a (λ i. 0)

  pub lookup-taken : (bn : ℕ) → lookup ip (taken a fs) bn ≡ lookup ip fs bn
  lookup-taken bn =
      ap
        (λ (c : Content).
          if ltb bn ndirect
          then ip.addrs bn
          else if ip.addrs ndirect == 0
          then 0
          else word c (bn - ndirect))
        (bytes-taken (ip.addrs ndirect) ok.used_indirect)

  pub Good-taken : Good ip (taken a fs)
  Good-taken = record {
    boot = in_use-taken 0 ok.boot;
    used = λ bn h.
        ap (taken a fs).in_use (lookup-taken bn) ∙ in_use-taken (lookup ip fs bn) (ok.used bn h);
    used_indirect = in_use-taken (ip.addrs ndirect) ok.used_indirect;
    differ = λ i j hi hj nz same.
        ok.differ i j hi hj (λ z. nz (lookup-taken i ∙ z))
          (sym (lookup-taken i) ∙ same ∙ lookup-taken j);
    not_indirect = λ bn h nz e.
        ok.not_indirect bn h (λ z. nz (lookup-taken bn ∙ z)) (sym (lookup-taken bn) ∙ e);
  }

  pub Fresh-taken : Fresh (taken a fs).in_use (lookup ip (taken a fs)) (ip.addrs ndirect) a
  unfolding bzero
  Fresh-taken = record {
    not_zero = λ e. not_used 0 ok.boot (sym e);
    marked = ground arith;
    not_there = λ bn h e. not_used (lookup ip fs bn) (ok.used bn h) (sym (lookup-taken bn) ∙ e);
    other = not_used (ip.addrs ndirect) ok.used_indirect;
  }
