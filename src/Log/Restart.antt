-- ===== src/Log/Restart.antt =====
-- Crashes in the middle of a recovery of kernel/log.c, and the recoveries after them.
use model_lib.Base.{
  ℕ, ◌+◌, ◌≤◌, ◌<◌, ◌≡◌, inl, inr, arith, refl, if◌then◌else◌, List, [], ◌∷◌, get_or, set, ◌∙◌, sym,
  ap, length, subst, length-set, get_or-set_self,
}
use model_lib.Log.{Block, replay, disk, initlog}
use model_lib.Log.Writes.{
  Outside, installs, listed, replay-installs, Earlier, Earlier-cons, Earlier-nil, Earlier-installs,
  listed_more, listed_inside,
}
use model_lib.Log.Recovery.{
  Saved, disk-initlog, written-initlog, read_block, read-entry, listed_agree,
}

-- The disks that the disk `d` becomes when the machine starts and crashes again and again before
-- the recovery is complete.
pub data Restarted (start : ℕ) : (ℕ → Block) → (ℕ → Block) → Type 0 where
  fresh : {d : ℕ → Block} → Restarted start d d
  crashed :
      {d e : ℕ → Block} (v : List (ℕ × Block))
      → Restarted start d e
      → Earlier v (initlog e start).written
      → Restarted start d (replay e v)

module _ (f : ℕ → Block) (start n : ℕ) (block : List ℕ) (d : ℕ → Block) (small : n ≤ 30)
    (out : (j : ℕ) → j < n → Outside start (get_or block j 0)) where
  -- The disk `e` still has `m` entries to install, after which it is `d` with the first `n`.
  record Pending (m : ℕ) (e : ℕ → Block) : Type 0 where
    pub few : m ≤ n
    pub saved : Saved f start m block e
    pub some_words : 0 < length (e start)
    pub outside :
        (b : ℕ)
        → Outside start b
        → (if listed f block m 0 b then f b else e b) ≡ (if listed f block n 0 b then f b else d b)

  module _ (m : ℕ) (e : ℕ → Block) (pending : Pending m e) where
    small_m : m ≤ 30
    small_m = omega (arith, pending.few, small)

    out_m : (j : ℕ) → j < m → Outside start (get_or block j 0)
    out_m j h = out j (omega (arith, pending.few))

    abbrev entries : List ℕ
    entries = read_block f start m block e small_m out_m pending.saved

    abbrev partly : ℕ → ℕ → Block
    partly j = replay e (installs f entries j 0 [])

    -- A round of the installation only writes what the entries list.
    partly-is : (j b : ℕ) → j ≤ m → partly j b ≡ (if listed f block j 0 b then f b else e b)
    unfolding replay
    partly-is j b h =
        replay-installs f entries e j 0 b []
        ∙ ap (λ t. if t then f b else e b)
            (listed_agree f f block entries j 0 b
              (λ i l l1. read-entry f start m block e small_m out_m pending.saved i (omega arith)))

    partly-inside : (j b : ℕ) → j ≤ m → start ≤ b → b ≤ start + 30 → partly j b ≡ e b
    partly-inside j b h l l1 =
        partly-is j b h
        ∙ ground (arith, listed_inside f block start j b (λ i k. out_m i (omega arith)) l l1)

    Pending-partly : (j : ℕ) → j ≤ m → Pending m (partly j)
    Pending-partly j h = record {
      few = pending.few;
      saved = record {
        count = ap (λ (x : Block). get_or x 0 0) head ∙ pending.saved.count;
        entries = λ i l. ap (λ (x : Block). get_or x (i + 1) 0) head ∙ pending.saved.entries i l;
        contents = λ i l.
            partly-inside j (start + i + 1) h (omega arith) (omega (arith, small_m))
            ∙ pending.saved.contents i l;
      };
      some_words = subst (λ (x : Block). 0 < length x) (sym head) pending.some_words;
      outside = λ b o.
          ground (arith, partly-is j b h, listed_more f block j m 0 b h, pending.outside b o);
    }
      where
        head : partly j start ≡ e start
        head = partly-inside j start h (omega arith) (omega arith)

    -- The recovery has cleared the header.
    abbrev last_writes : List (ℕ × Block)
    last_writes = (start, set (e start) 0 0) ∷ installs f entries m 0 []

    cleared : replay e last_writes start ≡ set (e start) 0 0
    unfolding replay
    cleared = ground arith

    Pending-last : Pending 0 (replay e last_writes)
    unfolding replay listed
    Pending-last = record {
      few = omega arith;
      saved = record {
        count =
            ap (λ (x : Block). get_or x 0 0) cleared
            ∙ get_or-set_self (e start) 0 0 0 pending.some_words;
        entries = λ i l. absurd (omega arith);
        contents = λ i l. absurd (omega arith);
      };
      some_words =
          subst (λ (x : Block). 0 < length x) (sym cleared)
            (omega (arith, length-set (e start) 0 0, pending.some_words));
      outside = λ b o. ground (arith, o, partly-is m b (omega arith), pending.outside b o);
    }

    Pending-step :
        (v : List (ℕ × Block))
        → Earlier v (initlog e start).written
        → (k : ℕ) × Pending k (replay e v)
    unfolding replay
    Pending-step v h =
        elim (Earlier-cons
          (subst (Earlier v) (written-initlog f start m block e small_m out_m pending.saved) h)) [
            | inl same ↦ subst (λ w. (k : ℕ) × Pending k (replay e w)) (sym same) (0, Pending-last)
            | inr older ↦ elim (Earlier-installs f entries m 0 [] v older) [
              | inl none_yet ↦
                  subst (λ w. (k : ℕ) × Pending k (replay e w)) (sym (Earlier-nil none_yet))
                    (m, pending)
              | inr (j, l, same) ↦
                  subst (λ w. (k : ℕ) × Pending k (replay e w)) (sym same) (m, Pending-partly j l)
            ]
          ]

    recovered-Pending :
        (b : ℕ)
        → Outside start b
        → disk (initlog e start) b ≡ (if listed f block n 0 b then f b else d b)
    recovered-Pending b o =
        disk-initlog f start m block e small_m out_m pending.saved b
        ∙ ground (arith, o, pending.outside b o)

  Pending-Restarted :
      {c e : ℕ → Block} → Restarted start c e → (k : ℕ) × Pending k c → (k : ℕ) × Pending k e
  Pending-Restarted fresh p = p
  Pending-Restarted (crashed v r h) p = let q = Pending-Restarted r p in Pending-step q.0 _ q.1 v h

  -- However often the machine crashes during the recovery of a disk whose log is complete, the
  -- recovery that is completed at last gives each block outside the log what an undisturbed one
  -- would have given it: the contents saved in the log to the blocks that the header lists, and to
  -- each other block what it held.
  pub recovery-restart :
      (e : ℕ → Block)
      → Saved f start n block d
      → 0 < length (d start)
      → Restarted start d e
      → (b : ℕ) → Outside start b
      → disk (initlog e start) b ≡ (if listed f block n 0 b then f b else d b)
  recovery-restart e saved words r b o =
      let q = Pending-Restarted r (
        n,
        record { few = omega arith; saved = saved; some_words = words; outside = λ c l. refl },
      ) in
      recovered-Pending q.0 e q.1 b o
