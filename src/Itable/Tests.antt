-- ===== src/Itable/Tests.antt =====
-- kernel/fs.c: an inode table with one inode, which has no links and is empty.
use model_lib.Base.{ℕ, ◌≡◌, refl, arith, true, ltb, update, if◌then◌else◌, ◌==◌}
use model_lib.Base.Outcome.{panic, done}
use model_lib.Fs.{Fs, Inode}
use model_lib.Fs.Blocks.{lookup, Good}
use model_lib.Itable.{iunlock, Itable, iget, iget_from, iput}
use model_lib.Bio.{holdingsleep}
use model_lib.Itable.Getting.{Got, taken, iget-Got}
use model_lib.Itable.Putting.{Put, iput-Put}
use model_lib.Itable.Valid.{One, gets, start, more, iinit, Reach-One}

abbrev disk : Fs
disk = record { in_use = λ b. ltb b 10; bytes = λ b i. 0; size = 50 }

-- Block 5 is the only block of the file.
abbrev node : Inode
node = record { addrs = λ i. if i == 0 then 5 else 0; size = 12 }

node-lookup : (bn : ℕ) → lookup node disk bn ≡ (if bn == 0 then 5 else 0)
node-lookup bn = ground arith

node-Good : Good node disk
node-Good = record {
  boot = refl;
  used = λ bn h. ground (arith, node-lookup bn);
  used_indirect = refl;
  differ = λ i j hi hj nz e. ground (arith, nz, e, node-lookup i, node-lookup j);
  not_indirect = λ bn h nz e. absurd (nz e);
}

abbrev unlinked : Itable
unlinked =
    update iinit 3
      (record (iinit 3) { dev = 1; inum = 8; ref = 1; valid = true; type = 2; node = node })

iget-Got_example : Got 1 8 unlinked (iget 1 8 unlinked)
iget-Got_example = iget-Got 1 8 unlinked

iput-Put_example : Put 3 unlinked disk (iput 3 unlinked disk)
iput-Put_example = iput-Put 3 unlinked disk node-Good

first_get : iget 1 8 iinit ≡ done (0, taken 1 8 0 iinit)
unfolding iget iget_from
first_get = refl

Reach-One_example : One (taken 1 8 0 iinit)
Reach-One_example =
    Reach-One (taken 1 8 0 iinit) (more iinit (taken 1 8 0 iinit) start (gets 1 8 0 _ first_get))

-- iunlock of an inode that the process has not locked.
not_locked : iunlock 7 3 unlinked ≡ panic "iunlock"
unfolding iunlock holdingsleep
not_locked = refl
