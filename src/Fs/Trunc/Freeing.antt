-- ===== src/Fs/Trunc/Freeing.antt =====
-- kernel/fs.c: the loops of itrunc.
use model_lib.Base.{
  ℕ, zero, suc, ◌+◌, ◌≤◌, ◌<◌, ◌≡◌, ◌≢◌, ◌∙◌, ap, sym, refl, arith, Bool, true, false, update,
}
use native.Mathlib.Decide.{ℕ_discrete}
use model_lib.Base.Outcome.{done}
use model_lib.Fs.{Fs, Inode, bfree}
use model_lib.Fs.Trunc.{free_direct, free_entries}

-- The entries from `k` on, `n` of them, are blocks in use that differ.
pub record Ready (entry : ℕ → ℕ) (k n : ℕ) (in_use : ℕ → Bool) : Type 0 where
  pub used : (i : ℕ) → k ≤ i → i < k + n → entry i ≢ 0 → in_use (entry i) ≡ true
  pub differ :
      (i j : ℕ) → k ≤ i → i < k + n → k ≤ j → j < k + n → entry i ≢ 0 → entry i ≡ entry j → i ≡ j

-- Exactly the blocks of these entries are freed.
pub record Freed (entry : ℕ → ℕ) (k n : ℕ) (old new : ℕ → Bool) : Type 0 where
  pub freed : (i : ℕ) → k ≤ i → i < k + n → entry i ≢ 0 → new (entry i) ≡ false
  pub kept : (b : ℕ) → ((i : ℕ) → k ≤ i → i < k + n → entry i ≢ 0 → entry i ≢ b) → new b ≡ old b

Freed-none : (entry : ℕ → ℕ) (k : ℕ) (old : ℕ → Bool) → Freed entry k 0 old old
Freed-none entry k old = record { freed = λ i h l. absurd (omega arith); kept = λ b out. refl }

-- The first entry is 0.
Ready-skip :
    (entry : ℕ → ℕ) (k n : ℕ) (old : ℕ → Bool)
    → Ready entry k (suc n) old
    → Ready entry (k + 1) n old
Ready-skip entry k n old r = record {
  used = λ i h l. r.used i (omega arith) (omega arith);
  differ = λ i j h l hj lj. r.differ i j (omega arith) (omega arith) (omega arith) (omega arith);
}

Freed-skip :
    (entry : ℕ → ℕ) (k n : ℕ) (old new : ℕ → Bool)
    → entry k ≡ 0
    → Freed entry (k + 1) n old new
    → Freed entry k (suc n) old new
Freed-skip entry k n old new z f = record {
  freed = λ i h l nz. elim (ℕ_discrete i k) [
    | yes e ↦ absurd (nz (ap entry e ∙ z))
    | no ne ↦ f.freed i (omega (arith, ne)) (omega arith) nz
  ];
  kept = λ b out. f.kept b (λ i h l. out i (omega arith) (omega arith));
}

-- The first entry is freed.
Ready-free :
    (entry : ℕ → ℕ) (k n : ℕ) (old : ℕ → Bool)
    → Ready entry k (suc n) old
    → Ready entry (k + 1) n (update old (entry k) false)
Ready-free entry k n old r = record {
  used = λ i h l nz.
      let ne : entry k ≢ entry i = λ e. absurd (
        omega (
          arith,
          r.differ i k (omega arith) (omega arith) (omega arith) (omega arith) nz (sym e),
        )) in
      ground (arith, ne, r.used i (omega arith) (omega arith) nz);
  differ = λ i j h l hj lj. r.differ i j (omega arith) (omega arith) (omega arith) (omega arith);
}

Freed-free :
    (entry : ℕ → ℕ) (k n : ℕ) (old new : ℕ → Bool)
    → Ready entry k (suc n) old
    → Freed entry (k + 1) n (update old (entry k) false) new
    → entry k ≢ 0
    → Freed entry k (suc n) old new
Freed-free entry k n old new r f nk = record {
  freed = λ i h l nz. elim (ℕ_discrete i k) [
    | yes e ↦
        ap (λ j. new (entry j)) e
        ∙ f.kept (entry k) (λ j hj lj nj same. absurd (
            omega (
              arith,
              r.differ j k (omega arith) (omega arith) (omega arith) (omega arith) nj same,
            )))
        ∙ ground arith
    | no ne ↦ f.freed i (omega (arith, ne)) (omega arith) nz
  ];
  kept = λ b out.
      f.kept b (λ i h l. out i (omega arith) (omega arith))
      ∙ ground (arith, out k (omega arith) (omega arith) nk);
}

pub free_entries-Freed :
    (n k : ℕ) (a : ℕ → ℕ) (fs : Fs)
    → Ready a k n fs.in_use
    → (new : ℕ → Bool) × (free_entries n k a fs ≡ done (record fs { in_use = new }))
      × Freed a k n fs.in_use new
unfolding free_entries bfree
free_entries-Freed zero k a fs r = (fs.in_use, refl, Freed-none a k fs.in_use)
free_entries-Freed (suc n) k a fs r = elim (ℕ_discrete (a k) 0) [
  | yes z ↦
      let (new, e, f) = free_entries-Freed n (k + 1) a fs (Ready-skip a k n fs.in_use r) in
      (new, ground (arith, z, e), Freed-skip a k n fs.in_use new z f)
  | no nz ↦
      let fs1 = record fs { in_use = update fs.in_use (a k) false } in
      let (new, e, f) = free_entries-Freed n (k + 1) a fs1 (Ready-free a k n fs.in_use r) in
      (
        new,
        ground (arith, nz, e, r.used k (omega arith) (omega arith) nz),
        Freed-free a k n fs.in_use new r f nz,
      )
]

-- The entries before `k` do not matter.
Ready-same :
    (entry other : ℕ → ℕ) (k n : ℕ) (old : ℕ → Bool)
    → ((i : ℕ) → k ≤ i → other i ≡ entry i)
    → Ready entry k n old
    → Ready other k n old
Ready-same entry other k n old same r = record {
  used = λ i h l nz. ap old (same i h) ∙ r.used i h l (λ z. nz (same i h ∙ z));
  differ = λ i j h l hj lj nz e.
      r.differ i j h l hj lj (λ z. nz (same i h ∙ z)) (sym (same i h) ∙ e ∙ same j hj);
}

Freed-same :
    (entry other : ℕ → ℕ) (k n : ℕ) (old new : ℕ → Bool)
    → ((i : ℕ) → k ≤ i → other i ≡ entry i)
    → Freed other k n old new
    → Freed entry k n old new
Freed-same entry other k n old new same f = record {
  freed = λ i h l nz. ap new (sym (same i h)) ∙ f.freed i h l (λ z. nz (sym (same i h) ∙ z));
  kept = λ b out. f.kept b (λ i h l nz e. out i h l (λ z. nz (same i h ∙ z)) (sym (same i h) ∙ e));
}

-- The entries that the loop over the inode leaves.
pub record Cleared (addrs : ℕ → ℕ) (k n : ℕ) (left : ℕ → ℕ) : Type 0 where
  pub zeroed : (i : ℕ) → k ≤ i → i < k + n → left i ≡ 0
  pub below : (i : ℕ) → i < k → left i ≡ addrs i
  pub above : (i : ℕ) → k + n ≤ i → left i ≡ addrs i

pub free_direct-Freed :
    (n k : ℕ) (ip : Inode) (fs : Fs)
    → Ready ip.addrs k n fs.in_use
    → (left : ℕ → ℕ) × (new : ℕ → Bool) × (free_direct n k ip fs
        ≡ done (record ip { addrs = left }, record fs { in_use = new }))
      × Freed ip.addrs k n fs.in_use new
      × Cleared ip.addrs k n left
unfolding free_direct bfree
free_direct-Freed zero k ip fs r = (
  ip.addrs,
  fs.in_use,
  refl,
  Freed-none ip.addrs k fs.in_use,
  record { zeroed = λ i h l. absurd (omega arith); below = λ i l. refl; above = λ i h. refl },
)
free_direct-Freed (suc n) k ip fs r = elim (ℕ_discrete (ip.addrs k) 0) [
  | yes z ↦
      let (left, new, e, f, c) =
        free_direct-Freed n (k + 1) ip fs (Ready-skip ip.addrs k n fs.in_use r) in
      (
        left,
        new,
        ground (arith, z, e),
        Freed-skip ip.addrs k n fs.in_use new z f,
        record {
          zeroed = λ i h l. elim (ℕ_discrete i k) [
            | yes same ↦ ap left same ∙ c.below k (omega arith) ∙ z
            | no ne ↦ c.zeroed i (omega (arith, ne)) (omega arith)
          ];
          below = λ i l. c.below i (omega arith);
          above = λ i h. c.above i (omega arith);
        },
      )
  | no nz ↦
      let addrs1 = update ip.addrs k 0 in
      let fs1 = record fs { in_use = update fs.in_use (ip.addrs k) false } in
      let same : (i : ℕ) → k + 1 ≤ i → addrs1 i ≡ ip.addrs i = λ i h. ground (arith, h) in
      let (left, new, e, f, c) =
        free_direct-Freed n (k + 1) (record ip { addrs = addrs1 }) fs1
          (Ready-same ip.addrs addrs1 (k + 1) n fs1.in_use same
            (Ready-free ip.addrs k n fs.in_use r)) in
      (
        left,
        new,
        ground (arith, nz, e, r.used k (omega arith) (omega arith) nz),
        Freed-free ip.addrs k n fs.in_use new r
            (Freed-same ip.addrs addrs1 (k + 1) n fs1.in_use new same f) nz,
        record {
          zeroed = λ i h l. elim (ℕ_discrete i k) [
            | yes here ↦ ground (arith, ap left here, c.below k (omega arith))
            | no ne ↦ c.zeroed i (omega (arith, ne)) (omega arith)
          ];
          below = λ i l. c.below i (omega arith) ∙ ground (arith, l);
          above = λ i h. c.above i (omega arith) ∙ ground (arith, h);
        },
      )
]
