-- ===== src/Log/Entries.antt =====
-- kernel/log.c: what a call of log_write takes of the log.
use model_lib.Base.{
  ℕ, zero, suc, ◌+◌, ◌≤◌, ◌<◌, ◌≡◌, ◌≢◌, arith, ◌==◌, ◌∙◌, ap, sym, subst, false, if◌then◌else◌,
  List, get_or, set, length, length-set, get_or-set_self, get_or-set_ne,
}
use native.Mathlib.Decide.{ℕ_discrete}
use model_lib.Base.Words.{is_negative}
use model_lib.Base.Outcome.{done}
use model_lib.Layout.{logblocks}
use model_lib.Log.{Log, bpin, find_entry, log_write}

-- A transaction is open, and the header has its 30 entries.
pub record Open (s : Log) : Type 0 where
  pub some_call : 1 ≤ s.outstanding
  pub not_negative : is_negative s.outstanding ≡ false
  pub entries : length s.block ≡ logblocks

-- 1 if the block is not among the entries of the header, and would be one more.
abbrev pub missing : ℕ → Log → ℕ
missing b s = if find_entry s.n 0 b s.block == s.n then 1 else 0

find_entry-found :
    (k i b : ℕ) (l : List ℕ)
    → find_entry k i b l ≢ i + k
    → (find_entry k i b l < i + k) × (get_or l (find_entry k i b l) 0 ≡ b)
unfolding find_entry
find_entry-found zero i b l h = absurd (ground (arith, h))
find_entry-found (suc k) i b l h = elim (ℕ_discrete (get_or l i 0) b) [
  | yes e ↦ (ground (arith, e), ground (arith, e))
  | no ne ↦
      let (less, here) = find_entry-found k (i + 1) b l (λ e. absurd (ground (arith, h, ne, e))) in
      (ground (arith, ne, less), ground (arith, ne, here))
]

find_entry-first :
    (k i b j : ℕ) (l : List ℕ) → i ≤ j → j < i + k → get_or l j 0 ≡ b → find_entry k i b l < i + k
unfolding find_entry
find_entry-first zero i b j l h less e = absurd (omega arith)
find_entry-first (suc k) i b j l h less e = elim (ℕ_discrete (get_or l i 0) b) [
  | yes same ↦ ground (arith, same)
  | no ne ↦
      let other : i ≢ j = λ z. ne (ap (λ m. get_or l m 0) z ∙ e) in
      ground (arith, ne, find_entry-first k (i + 1) b j l (omega (arith, other)) (omega arith) e)
]

-- What log_write does to the entries.
pub record Logged (b : ℕ) (s t : Log) : Type 0 where
  pub still_open : Open t
  pub count : t.n ≡ s.n + missing b s
  pub there : missing b t ≡ 0
  pub kept : (c : ℕ) → missing c t ≤ missing c s

-- An entry that holds the block.
present : (s : Log) (c j : ℕ) → j < s.n → get_or s.block j 0 ≡ c → missing c s ≡ 0
present s c j l e =
    let less = find_entry-first s.n 0 c j s.block (omega arith) (omega (arith, l)) e in
    ground (arith, less)

kept_entries :
    (s t : Log) (c : ℕ)
    → s.n ≤ t.n
    → ((j : ℕ) → j < s.n → get_or t.block j 0 ≡ get_or s.block j 0)
    → missing c t ≤ missing c s
kept_entries s t c le same = elim (ℕ_discrete (find_entry s.n 0 c s.block) s.n) [
  | yes e ↦ ground (arith, e)
  | no ne ↦
      let (less, here) = find_entry-found s.n 0 c s.block (λ e. ne (omega (arith, e))) in
      let l : find_entry s.n 0 c s.block < s.n = omega (arith, less) in
      let gone =
        present t c (find_entry s.n 0 c s.block) (omega (arith, l, le)) (same _ l ∙ here) in
      ground (arith, gone)
]

pub log_write-Logged :
    (b : ℕ) (s : Log)
    → Open s
    → s.n < logblocks
    → (t : Log) × (log_write b s ≡ done t) × Logged b s t
unfolding log_write bpin
log_write-Logged b s o room =
    let i = find_entry s.n 0 b s.block in
    let s1 = record s { block = set s.block i b } in
    elim (ℕ_discrete i s.n) [
      | yes e ↦
          let t = record (bpin b s1) { n = s.n + 1 } in
          let inside : i < length s.block = omega (arith, e, room, o.entries) in
          (
            t,
            ground (arith, e, room, o.some_call, o.not_negative),
            record {
              still_open = record {
                some_call = o.some_call;
                not_negative = o.not_negative;
                entries = length-set s.block i b ∙ o.entries;
              };
              count = ground (arith, e);
              there = present t b i (omega (arith, e)) (get_or-set_self s.block i b 0 inside);
              kept = λ c.
                  kept_entries s t c (omega arith)
                    (λ j l. get_or-set_ne s.block i j b 0 (λ z. absurd (omega (arith, e, l, z))));
            },
          )
      | no ne ↦
          let (less, here) = find_entry-found s.n 0 b s.block (λ e. ne (omega (arith, e))) in
          let inside : i < length s.block = omega (arith, less, room, o.entries) in
          (
            s1,
            ground (arith, ne, room, o.some_call, o.not_negative),
            record {
              still_open = record {
                some_call = o.some_call;
                not_negative = o.not_negative;
                entries = length-set s.block i b ∙ o.entries;
              };
              count = ground (arith, ne);
              there = present s1 b i (omega (arith, less)) (get_or-set_self s.block i b 0 inside);
              kept = λ c. kept_entries s s1 c (omega arith) (λ j l. elim (ℕ_discrete i j) [
                | yes z ↦
                    subst (λ j. get_or (set s.block i b) j 0 ≡ get_or s.block j 0) z
                      (get_or-set_self s.block i b 0 inside ∙ sym here)
                | no nz ↦ get_or-set_ne s.block i j b 0 nz
              ]);
            },
          )
    ]
