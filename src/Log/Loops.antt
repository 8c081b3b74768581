-- ===== src/Log/Loops.antt =====
-- The loops of kernel/log.c: what write_log, install_trans and write_head write, and what the
-- buffers hold after them.
use model_lib.Base.{
  ℕ, zero, suc, ◌+◌, ◌≤◌, ◌<◌, ◌≡◌, arith, refl, ◌==◌, Bool, true, false, if◌then◌else◌, List, ◌∷◌,
  get_or, ◌∙◌, ap, subst,
}
use native.Mathlib.Decide.{ℕ_discrete}
use model_lib.Log.{
  Log, Block, buf, bread, bunpin, home, install_one, install_from, log_one, log_from, write_head,
}
use model_lib.Log.Buffers.{
  SameLog, SameLog-trans, SameLog-bread, SameLog-rewritten, buf-rewritten, written-rewritten,
  written-bread, buf-bread, buf-copied, written-copied, SameLog-copied, buf-bunpin,
}
use model_lib.Log.Header.{header}
use model_lib.Log.Writes.{Outside, installs, logs}

-- One round of a loop that copies a block: the block `dst` is written with what `src` holds.
record Copied (src dst : ℕ) (s t : Log) : Type 0 where
  pub same : SameLog s t
  pub writes : t.written ≡ (dst, buf src s) ∷ s.written
  pub buffers : (c : ℕ) → buf c t ≡ (if dst == c then buf src s else buf c s)

log_one-Copied : (tail : ℕ) (s : Log) → Copied (home s tail) (s.start + tail + 1) s (log_one tail s)
unfolding log_one
log_one-Copied tail s =
    let src = home s tail in
    let dst = s.start + tail + 1 in
    record {
      same = SameLog-copied src dst src dst s;
      writes = written-copied src dst src dst s;
      buffers = buf-copied src dst src dst s;
    }

install_one-Copied :
    (recovering : Bool) (tail : ℕ) (s : Log)
    → Copied (s.start + tail + 1) (home s tail) s (install_one recovering tail s)
unfolding install_one bunpin
install_one-Copied true tail s =
    let src = s.start + tail + 1 in
    let dst = home s tail in
    record {
      same = SameLog-copied dst src src dst s;
      writes = written-copied dst src src dst s;
      buffers = buf-copied dst src src dst s;
    }
install_one-Copied false tail s =
    let src = s.start + tail + 1 in
    let dst = home s tail in
    record {
      same = record {
        same_base = (SameLog-copied dst src src dst s).same_base;
        same_start = (SameLog-copied dst src src dst s).same_start;
        same_n = (SameLog-copied dst src src dst s).same_n;
        same_block = (SameLog-copied dst src src dst s).same_block;
      };
      writes = written-copied dst src src dst s;
      buffers = λ c. buf-bunpin dst c _ ∙ buf-copied dst src src dst s c;
    }

-- The log `start` with the first `n` entries of `block`, whose homes lie outside the log, in which
-- the contents `f` of the homes are to be saved.
module _ (f : ℕ → Block) (start n : ℕ) (block : List ℕ) (small : n ≤ 30)
    (out : (j : ℕ) → j < n → Outside start (get_or block j 0)) where
  abbrev pub At : Log → Type 0
  At s = (s.start ≡ start) × (s.block ≡ block)

  At-same : {s t : Log} → SameLog s t → At s → At t
  At-same same at = (same.same_start ∙ at.0, same.same_block ∙ at.1)

  -- After a loop of write_log.
  pub record Logged (k t : ℕ) (s r : Log) : Type 0 where
    pub same : SameLog s r
    pub writes : r.written ≡ logs f block start k t s.written
    pub homes : (b : ℕ) → Outside start b → buf b r ≡ f b
    pub head : buf start r ≡ buf start s
    pub kept : (j : ℕ) → j < t → buf (start + j + 1) r ≡ buf (start + j + 1) s
    pub saved : (j : ℕ) → t ≤ j → j < t + k → buf (start + j + 1) r ≡ f (get_or block j 0)

  log_one-At : (t : ℕ) (s : Log) → At s → Copied (get_or block t 0) (start + t + 1) s (log_one t s)
  log_one-At t s at =
      subst (λ (p : ℕ). Copied (get_or block t 0) (p + t + 1) s (log_one t s)) at.0
        (subst (λ l. Copied (get_or l t 0) (s.start + t + 1) s (log_one t s)) at.1
          (log_one-Copied t s))

  -- The first round, and the others after it.
  Logged-step :
      (k t : ℕ) (s r : Log)
      → t < n
      → At s
      → ((b : ℕ) → Outside start b → buf b s ≡ f b)
      → Logged k (t + 1) (log_one t s) r
      → Logged (suc k) t s r
  unfolding logs
  Logged-step k t s r h at homes rest = record {
    same = SameLog-trans c.same rest.same;
    writes =
        rest.writes
        ∙ ap (logs f block start k (t + 1))
            (c.writes ∙ ap (λ d. (start + t + 1, d) ∷ s.written) from_home);
    homes = rest.homes;
    head = rest.head ∙ c.buffers start ∙ ground arith;
    kept = λ j l. rest.kept j (omega arith) ∙ c.buffers (start + j + 1) ∙ ground arith;
    saved = λ j l m. elim (ℕ_discrete t j) [
      | yes e ↦ rest.kept j (omega arith) ∙ c.buffers (start + j + 1) ∙ ground (arith, from_home)
      | no ne ↦ rest.saved j (omega arith) (omega arith)
    ];
  }
    where
      c : Copied (get_or block t 0) (start + t + 1) s (log_one t s)
      c = log_one-At t s at

      from_home : buf (get_or block t 0) s ≡ f (get_or block t 0)
      from_home = homes (get_or block t 0) (out t h)

  pub log_from-Logged :
      (k t : ℕ) (s : Log)
      → t + k ≤ n
      → At s
      → ((b : ℕ) → Outside start b → buf b s ≡ f b)
      → Logged k t s (log_from k t s)
  unfolding log_from logs
  log_from-Logged zero t s h at homes = record {
    same = record { same_base = refl; same_start = refl; same_n = refl; same_block = refl };
    writes = refl;
    homes = homes;
    head = refl;
    kept = λ j l. refl;
    saved = λ j l m. absurd (omega arith);
  }
  log_from-Logged (suc k) t s h at homes = Logged-step k t s _ (omega arith) at homes (
      log_from-Logged k (t + 1) (log_one t s) (omega arith) (At-same (log_one-Copied t s).same at)
        (λ b o. (log_one-At t s at).buffers b ∙ ground (arith, homes b o)))

  -- After a loop of install_trans.
  pub record Installed (k t : ℕ) (s r : Log) : Type 0 where
    pub same : SameLog s r
    pub writes : r.written ≡ installs f block k t s.written
    pub head : buf start r ≡ buf start s

  install_one-At :
      (recovering : Bool) (t : ℕ) (s : Log)
      → At s
      → Copied (start + t + 1) (get_or block t 0) s (install_one recovering t s)
  install_one-At recovering t s at =
      subst (λ (p : ℕ). Copied (p + t + 1) (get_or block t 0) s (install_one recovering t s)) at.0
        (subst (λ l. Copied (s.start + t + 1) (get_or l t 0) s (install_one recovering t s)) at.1
          (install_one-Copied recovering t s))

  Installed-step :
      (recovering : Bool) (k t : ℕ) (s r : Log)
      → t < n
      → At s
      → ((j : ℕ) → j < n → buf (start + j + 1) s ≡ f (get_or block j 0))
      → Installed k (t + 1) (install_one recovering t s) r
      → Installed (suc k) t s r
  unfolding installs
  Installed-step recovering k t s r h at saved rest = record {
    same = SameLog-trans c.same rest.same;
    writes =
        rest.writes
        ∙ ap (installs f block k (t + 1))
            (c.writes ∙ ap (λ d. (get_or block t 0, d) ∷ s.written) (saved t h));
    head = rest.head ∙ c.buffers start ∙ ground (arith, out t h);
  }
    where
      c : Copied (start + t + 1) (get_or block t 0) s (install_one recovering t s)
      c = install_one-At recovering t s at

  pub install_from-Installed :
      (recovering : Bool) (k t : ℕ) (s : Log)
      → t + k ≤ n
      → At s
      → ((j : ℕ) → j < n → buf (start + j + 1) s ≡ f (get_or block j 0))
      → Installed k t s (install_from recovering k t s)
  unfolding install_from installs
  install_from-Installed recovering zero t s h at saved = record {
    same = record { same_base = refl; same_start = refl; same_n = refl; same_block = refl };
    writes = refl;
    head = refl;
  }
  install_from-Installed recovering (suc k) t s h at saved =
      Installed-step recovering k t s _ (omega arith) at saved (
        install_from-Installed recovering k (t + 1) (install_one recovering t s) (omega arith)
          (At-same (install_one-Copied recovering t s).same at)
          (λ j l.
            (install_one-At recovering t s at).buffers (start + j + 1)
            ∙ ground (arith, out t (omega arith), saved j l)))

-- write_head writes the header block, with the entries of the header in memory.
pub record HeadWritten (s t : Log) : Type 0 where
  pub same : SameLog s t
  pub writes : t.written ≡ (s.start, header s.n s.block (buf s.start s)) ∷ s.written
  pub buffers :
      (c : ℕ) → buf c t ≡ (if s.start == c then header s.n s.block (buf s.start s) else buf c s)

pub write_head-HeadWritten : (s : Log) → HeadWritten s (write_head s)
unfolding write_head
write_head-HeadWritten s =
    let s1 = bread s.start s in
    let d = header s.n s.block (buf s.start s1) in
    let same = SameLog-bread s.start s in
    let head : d ≡ header s.n s.block (buf s.start s) =
      ap (header s.n s.block) (buf-bread s.start s.start s) in
    record {
      same = SameLog-trans same (SameLog-rewritten s.start _ s1);
      writes =
          written-rewritten s.start d s1
          ∙ ap (λ (x : Block). (s.start, x) ∷ s1.written) head
          ∙ ap (λ w. (s.start, header s.n s.block (buf s.start s)) ∷ w) (written-bread s.start s);
      buffers = λ c. buf-rewritten s.start d s1 c ∙ ground (arith, head, buf-bread s.start c s);
    }
