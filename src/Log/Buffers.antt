-- ===== src/Log/Buffers.antt =====
-- What reading, changing and writing a buffer does to the contents of the others.
use model_lib.Base.{ℕ, ◌≡◌, ◌∷◌, arith, refl, ◌==◌, if◌then◌else◌, ◌∙◌}
use model_lib.Log.{Log, Block, replay, disk, buf, store, bread, bwrite, bunpin}

pub buf-store :
    (b c : ℕ) (d : Block) (s : Log) → buf c (store b d s) ≡ (if b == c then d else buf c s)
unfolding buf store disk
buf-store b c d s = ground arith

pub buf-bread : (b c : ℕ) (s : Log) → buf c (bread b s) ≡ buf c s
unfolding bread
buf-bread b c s = ground (arith, buf-store b c (buf b s) s)

pub buf-bwrite : (b c : ℕ) (s : Log) → buf c (bwrite b s) ≡ buf c s
unfolding buf bwrite disk replay
buf-bwrite b c s = ground arith

pub buf-bunpin : (b c : ℕ) (s : Log) → buf c (bunpin b s) ≡ buf c s
unfolding buf bunpin disk
buf-bunpin b c s = refl

-- What an operation on buffers leaves alone: the log's header in memory, and its place.
pub record SameLog (s t : Log) : Type 0 where
  pub same_base : t.base ≡ s.base
  pub same_start : t.start ≡ s.start
  pub same_n : t.n ≡ s.n
  pub same_block : t.block ≡ s.block

pub SameLog-trans : {s t u : Log} → SameLog s t → SameLog t u → SameLog s u
SameLog-trans p q = record {
  same_base = q.same_base ∙ p.same_base;
  same_start = q.same_start ∙ p.same_start;
  same_n = q.same_n ∙ p.same_n;
  same_block = q.same_block ∙ p.same_block;
}

SameLog-store : (b : ℕ) (d : Block) (s : Log) → SameLog s (store b d s)
unfolding store
SameLog-store b d s = ground arith

pub SameLog-bread : (b : ℕ) (s : Log) → SameLog s (bread b s)
unfolding bread store
SameLog-bread b s = ground arith

SameLog-bwrite : (b : ℕ) (s : Log) → SameLog s (bwrite b s)
unfolding bwrite
SameLog-bwrite b s = ground arith

pub written-bread : (b : ℕ) (s : Log) → (bread b s).written ≡ s.written
unfolding bread store
written-bread b s = refl

written-store : (b : ℕ) (d : Block) (s : Log) → (store b d s).written ≡ s.written
unfolding store
written-store b d s = refl

written-bwrite : (b : ℕ) (s : Log) → (bwrite b s).written ≡ (b, buf b s) ∷ s.written
unfolding bwrite
written-bwrite b s = refl

-- A block is given new contents and written.
module _ (dst : ℕ) (d : Block) (s : Log) where
  abbrev pub rewritten : Log
  rewritten = bwrite dst (store dst d s)

  pub buf-rewritten : (c : ℕ) → buf c rewritten ≡ (if dst == c then d else buf c s)
  buf-rewritten c = buf-bwrite dst c (store dst d s) ∙ buf-store dst c d s

  pub written-rewritten : rewritten.written ≡ (dst, d) ∷ s.written
  written-rewritten =
      ground
        (arith, written-bwrite dst (store dst d s), buf-store dst dst d s, written-store dst d s)

  pub SameLog-rewritten : SameLog s rewritten
  SameLog-rewritten = SameLog-trans (SameLog-store dst d s) (SameLog-bwrite dst (store dst d s))

-- Two blocks are read, and the contents of one are copied to a block that is then written.
module _ (x y src dst : ℕ) (s : Log) where
  abbrev s1 : Log
  s1 = bread x (bread y s)

  abbrev pub copied : Log
  copied = rewritten dst (buf src s1) s1

  buf-s1 : (c : ℕ) → buf c s1 ≡ buf c s
  buf-s1 c = buf-bread x c (bread y s) ∙ buf-bread y c s

  pub buf-copied : (c : ℕ) → buf c copied ≡ (if dst == c then buf src s else buf c s)
  buf-copied c = ground (arith, buf-rewritten dst (buf src s1) s1 c, buf-s1 c, buf-s1 src)

  pub written-copied : copied.written ≡ (dst, buf src s) ∷ s.written
  written-copied = ground (
    arith,
    written-rewritten dst (buf src s1) s1,
    buf-s1 src,
    written-bread x (bread y s),
    written-bread y s,
  )

  pub SameLog-copied : SameLog s copied
  SameLog-copied =
      SameLog-trans (SameLog-bread y s)
        (SameLog-trans (SameLog-bread x (bread y s)) (SameLog-rewritten dst (buf src s1) s1))
