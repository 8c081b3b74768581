-- ===== src/Fs/Tests.antt =====
-- An empty file on a small disk.
use model_lib.Base.{
  false, replicate, [], if◌then◌else◌, ◌==◌, ◌&&◌, ◌∙◌, sym, ℕ, ◌+◌, ◌≡◌, arith, refl, true, ltb,
  none, List,
}
use model_lib.Base.Outcome.{done}
use model_lib.Fs.{Fs, Inode, bfree, bmap, balloc, find_free, readi}
use model_lib.Fs.Blocks.{lookup, Good}
use model_lib.Fs.Direct.{Mapped}
use model_lib.Fs.Mapping.{bmap-Mapped}
use model_lib.Log.{Log}
use model_lib.Fs.Reading.{ReadFile, readi-ReadFile}
use model_lib.Fs.Trunc.{itrunc}
use model_lib.Fs.Trunc.Emptied.{Emptied, itrunc-Emptied}

abbrev disk : Fs
disk = record { in_use = λ b. ltb b 10; bytes = λ b i. 0; size = 50 }

abbrev file : Inode
file = record { addrs = λ i. 0; size = 0 }

nothing_there : (bn : ℕ) → lookup file disk bn ≡ 0
nothing_there bn = ground arith

file-Good : Good file disk
file-Good = record {
  boot = refl;
  used = λ bn h. ground (arith, nothing_there bn);
  used_indirect = refl;
  differ = λ i j hi hj nz e. absurd (nz (nothing_there i));
  not_indirect = λ bn h nz e. nz (nothing_there bn);
}

abbrev written : ℕ → ℕ
written i = i + 65

-- The log in an open transaction, with 20 other blocks in it.
abbrev log : Log
log = record {
  base = λ b. [];
  written = [];
  cache = λ b. none;
  pins = λ b. 0;
  start = 2;
  outstanding = 1;
  committing = false;
  ncommit = 0;
  n = 20;
  block = replicate 30 40;
}

bmap-Mapped_example :
    (r : ℕ) × (ip1 : Inode) × (fs1 : Fs) × (bmap 20 file disk ≡ done (r, ip1, fs1))
    × Mapped 20 file disk r ip1 fs1
bmap-Mapped_example = bmap-Mapped 20 file disk file-Good (omega arith) (omega arith)

readi-ReadFile_example :
    (tot : ℕ) × (out : List ℕ) × (ip1 : Inode) × (fs1 : Fs) × (readi (λ t. true) 0 100 file disk
      ≡ done (tot, out, ip1, fs1))
    × ReadFile 0 100 file disk tot out ip1 fs1
readi-ReadFile_example =
    readi-ReadFile 0 100 file disk file-Good (omega arith) (omega arith) (omega arith) (omega arith)

-- The first free block.
first_free : (balloc disk).0 ≡ 10
unfolding balloc find_free
first_free = refl

freed : (fs : Fs) × (bfree 3 disk ≡ done fs)
unfolding bfree
freed = (_, refl)

-- Block 5 is the first of the file, and block 6 the indirect block, which refers to block 7.
abbrev full_disk : Fs
full_disk = record {
  in_use = λ b. ltb b 10;
  bytes = λ b i. if (b == 6) && (i == 0) then 7 else 0;
  size = 50;
}

abbrev full_file : Inode
full_file = record { addrs = λ i. if i == 0 then 5 else if i == 12 then 6 else 0; size = 12 }

full_file-lookup :
    (bn : ℕ) → lookup full_file full_disk bn ≡ (if bn == 0 then 5 else if bn == 12 then 7 else 0)
full_file-lookup bn = ground arith

full_file-Good : Good full_file full_disk
full_file-Good = record {
  boot = refl;
  used = λ bn h. ground (arith, full_file-lookup bn);
  used_indirect = refl;
  differ = λ i j hi hj nz e.
      ground (arith, nz, full_file-lookup i, sym (full_file-lookup i) ∙ e ∙ full_file-lookup j);
  not_indirect = λ bn h nz e. absurd (ground (arith, sym (full_file-lookup bn) ∙ e));
}

itrunc-Emptied_example :
    (ip1 : Inode) × (fs1 : Fs) × (itrunc full_file full_disk ≡ done (ip1, fs1))
    × Emptied full_file full_disk ip1 fs1
itrunc-Emptied_example = itrunc-Emptied full_file full_disk full_file-Good
