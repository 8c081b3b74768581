-- ===== src/Pipe/Passes.antt =====
-- What a pass of pipewrite and of piperead of kernel/pipe.c does to the queue of bytes.
use model_lib.Base.{
  ℕ, zero, suc, ◌+◌, ◌-◌, ◌≢◌, ◌≤◌, ◌<◌, ◌≡◌, ◌⊎◌, inl, inr, arith, refl, ◌==◌, if◌then◌else◌, List,
  [], ◌∷◌, ◌++◌, map, length, ◌∙◌, sym, ap, subst, Bool, true, false, Option, some, none,
  Bool-cases,
}
use native.Mathlib.Decide.{ℕ_discrete}
use model_lib.Base.Words.{minus_one}
use model_lib.Pipe.{Pipe, Pass, ended, asleep, put, pipewrite_from, piperead_from}
use model_lib.Pipe.Ring.{Holds, is_full_iff, put-Holds, oldest, taken, taken-Holds, is_empty_iff}

-- The tests at the head of the loop let `count` rounds pass from the byte `i` on: the read end is open, and
-- killed(pr) returns 0 in each.
pub record Passed (is_killed : ℕ → Bool) (p : Pipe) (i count : ℕ) : Type 0 where
  pub opened : 0 < count → p.readopen ≡ true
  pub alive : (j : ℕ) → j < count → is_killed (i + j) ≡ false

-- How a pass of pipewrite ends that has the bytes `bs` to write, over a ring with the bytes `q`,
-- after `i` bytes of the call.
pub data WriteCase (is_killed : ℕ → Bool) (p : Pipe) (q : List ℕ) (i : ℕ) (bs : List (Option ℕ))
    : Pass → Type 0 where
  all_sent :
      {r : Pipe} (sent : List ℕ)
      → bs ≡ map some sent
      → Passed is_killed p i (length sent)
      → Holds r (q ++ sent)
      → WriteCase is_killed p q i bs (ended (i + length sent) r)
  faulted :
      {r : Pipe} (sent : List ℕ) (rest : List (Option ℕ))
      → bs ≡ map some sent ++ none ∷ rest
      → Passed is_killed p i (length sent + 1)
      → Holds r (q ++ sent)
      → length (q ++ sent) < 512
      → WriteCase is_killed p q i bs (ended (i + length sent) r)
  filled :
      {r : Pipe} (sent : List ℕ) (b : Option ℕ) (rest : List (Option ℕ))
      → bs ≡ map some sent ++ b ∷ rest
      → Passed is_killed p i (length sent + 1)
      → Holds r (q ++ sent)
      → length (q ++ sent) ≡ 512
      → WriteCase is_killed p q i bs (asleep (i + length sent) r)
  refused :
      {r : Pipe} (sent : List ℕ) (b : Option ℕ) (rest : List (Option ℕ))
      → bs ≡ map some sent ++ b ∷ rest
      → Passed is_killed p i (length sent)
      → Holds r (q ++ sent)
      → (p.readopen ≡ false) ⊎ (is_killed (i + length sent) ≡ true)
      → WriteCase is_killed p q i bs (ended minus_one r)

append_one : (q : List ℕ) (ch : ℕ) (sent : List ℕ) → (q ++ ch ∷ []) ++ sent ≡ q ++ ch ∷ sent
append_one [] ch sent = refl
append_one (x ∷ q) ch sent = ap (λ l. x ∷ l) (append_one q ch sent)

append_nil : (q : List ℕ) → q ++ [] ≡ q
append_nil [] = refl
append_nil (x ∷ q) = ap (λ l. x ∷ l) (append_nil q)

Passed-more :
    (is_killed : ℕ → Bool) (p : Pipe) (i ch c d : ℕ)
    → p.readopen ≡ true
    → is_killed i ≡ false
    → d ≡ c + 1
    → Passed is_killed (put ch p) (i + 1) c
    → Passed is_killed p i d
Passed-more is_killed p i ch c d opened alive e h = record {
  opened = λ l. opened;
  alive = λ j l. elim (ℕ_discrete j 0) [
    | yes z ↦ subst (λ k. is_killed k ≡ false) (omega (arith, z)) alive
    | no nz ↦
        subst (λ k. is_killed k ≡ false)
          (let same : i + 1 + (j - 1) ≡ i + j = omega (arith, nz) in same)
          (h.alive (j - 1) (omega (arith, l, e, nz)))
  ];
}

Passed-none : (is_killed : ℕ → Bool) (p : Pipe) (i : ℕ) → Passed is_killed p i 0
Passed-none is_killed p i = record {
  opened = λ l. absurd (omega arith);
  alive = λ j l. absurd (omega arith);
}

Passed-one :
    (is_killed : ℕ → Bool) (p : Pipe) (i : ℕ)
    → p.readopen ≡ true
    → is_killed i ≡ false
    → Passed is_killed p i 1
Passed-one is_killed p i opened alive = record {
  opened = λ l. opened;
  alive = λ j l. subst (λ k. is_killed k ≡ false) (omega (arith, l)) alive;
}

-- A byte more in front of those that were sent.
WriteCase-put :
    (is_killed : ℕ → Bool) (p : Pipe) (q : List ℕ) (i ch : ℕ) (bs : List (Option ℕ)) (out : Pass)
    → p.readopen ≡ true
    → is_killed i ≡ false
    → WriteCase is_killed (put ch p) (q ++ ch ∷ []) (i + 1) bs out
    → WriteCase is_killed p q i (some ch ∷ bs) out
unfolding put
WriteCase-put is_killed p q i ch bs _ opened alive (all_sent {r} sent e w h) =
    subst (λ m. WriteCase is_killed p q i (some ch ∷ bs) (ended m r)) (omega arith)
      (all_sent (ch ∷ sent) (ap (λ l. some ch ∷ l) e)
        (Passed-more is_killed p i ch _ _ opened alive (omega arith) w)
        (subst (Holds r) (append_one q ch sent) h))
WriteCase-put is_killed p q i ch bs _ opened alive (faulted {r} sent rest e w h room) =
    subst (λ m. WriteCase is_killed p q i (some ch ∷ bs) (ended m r)) (omega arith)
      (faulted (ch ∷ sent) rest (ap (λ l. some ch ∷ l) e)
        (Passed-more is_killed p i ch _ _ opened alive (omega arith) w)
        (subst (Holds r) (append_one q ch sent) h)
        (subst (λ l. length l < 512) (append_one q ch sent) room))
WriteCase-put is_killed p q i ch bs _ opened alive (filled {r} sent b rest e w h full) =
    subst (λ m. WriteCase is_killed p q i (some ch ∷ bs) (asleep m r)) (omega arith)
      (filled (ch ∷ sent) b rest (ap (λ l. some ch ∷ l) e)
        (Passed-more is_killed p i ch _ _ opened alive (omega arith) w)
        (subst (Holds r) (append_one q ch sent) h)
        (subst (λ l. length l ≡ 512) (append_one q ch sent) full))
WriteCase-put is_killed p q i ch bs _ opened alive (refused {r} sent b rest e w h why) =
    refused (ch ∷ sent) b rest (ap (λ l. some ch ∷ l) e)
      (Passed-more is_killed p i ch _ _ opened alive (omega arith) w)
      (subst (Holds r) (append_one q ch sent) h)
      (subst (λ k. (p.readopen ≡ false) ⊎ (is_killed k ≡ true))
        (let same : i + 1 + length sent ≡ i + length (ch ∷ sent) = omega arith in same) why)

-- The first round ends the pass.
module _ (is_killed : ℕ → Bool) (p : Pipe) (q : List ℕ) (i : ℕ) (b : Option ℕ)
    (bs : List (Option ℕ)) (h : Holds p q) where
  unchanged : Holds p (q ++ [])
  unchanged = subst (Holds p) (sym (append_nil q)) h

  stays : i + 0 ≡ i
  stays = omega arith

  nothing_sent :
      p.readopen ≡ true
      → is_killed i ≡ false
      → length q ≡ 512
      → WriteCase is_killed p q i (b ∷ bs) (asleep i p)
  nothing_sent opened alive full =
      subst (λ m. WriteCase is_killed p q i (b ∷ bs) (asleep m p)) stays
        (filled [] b bs refl (Passed-one is_killed p i opened alive) unchanged
          (ap length (append_nil q) ∙ full))

  turned_away :
      (p.readopen ≡ false) ⊎ (is_killed i ≡ true)
      → WriteCase is_killed p q i (b ∷ bs) (ended minus_one p)
  turned_away why =
      refused [] b bs refl (Passed-none is_killed p i) unchanged
        (subst (λ k. (p.readopen ≡ false) ⊎ (is_killed k ≡ true)) (sym stays) why)

-- There is room for the next byte, if copyin gives it.
one_byte :
    (is_killed : ℕ → Bool) (p : Pipe) (q : List ℕ) (i : ℕ) (b : Option ℕ) (bs : List (Option ℕ))
    → Holds p q
    → p.readopen ≡ true
    → is_killed i ≡ false
    → length q < 512
    → ((ch : ℕ)
        → Holds (put ch p) (q ++ ch ∷ [])
        → WriteCase is_killed
            (put ch p)
            (q ++ ch ∷ [])
            (i + 1)
            bs
            (pipewrite_from is_killed bs (i + 1) (put ch p)))
    → WriteCase is_killed p q i
        (b ∷ bs)
        (elim b [ none ↦ ended i p | some ch ↦ pipewrite_from is_killed bs (i + 1) (put ch p) ])
one_byte is_killed p q i none bs h opened alive room rest =
    subst (λ m. WriteCase is_killed p q i (none ∷ bs) (ended m p))
      (let e : i + 0 ≡ i = omega arith in e)
      (faulted [] bs refl (Passed-one is_killed p i opened alive)
        (subst (Holds p) (sym (append_nil q)) h)
        (subst (λ l. length l < 512) (sym (append_nil q)) room))
one_byte is_killed p q i (some ch) bs h opened alive room rest =
    WriteCase-put is_killed p q i ch bs _ opened alive (rest ch (put-Holds p q ch h room))

-- A pass of pipewrite appends to the queue the bytes that it takes, in their order, and ends in one
-- of four ways: all bytes are in the ring; copyin failed at the next, for which there is room; the
-- ring is full, and the call sleeps; or the read end is closed or killed(pr) returned 1 before the next
-- byte, and the call returns -1. The read end was open and killed(pr) returned 0 before every
-- byte that was taken, and before the one at which copyin failed or the call went to sleep.
pub pipewrite_from-WriteCase :
    (is_killed : ℕ → Bool) (bs : List (Option ℕ)) (i : ℕ) (p : Pipe) (q : List ℕ)
    → Holds p q
    → WriteCase is_killed p q i bs (pipewrite_from is_killed bs i p)
unfolding pipewrite_from
pipewrite_from-WriteCase is_killed [] i p q h =
    subst (λ m. WriteCase is_killed p q i [] (ended m p)) (omega arith)
      (all_sent [] refl (Passed-none is_killed p i) (subst (Holds p) (sym (append_nil q)) h))
pipewrite_from-WriteCase is_killed (b ∷ bs) i p q h = elim (Bool-cases p.readopen) [
  | inl opened ↦ elim (Bool-cases (is_killed i)) [
    | inl dead ↦
        subst (WriteCase is_killed p q i (b ∷ bs)) (ground (arith, dead))
          (turned_away is_killed p q i b bs h (inr dead))
    | inr alive ↦ elim (ℕ_discrete (length q) 512) [
      | yes full ↦
          subst (WriteCase is_killed p q i (b ∷ bs))
            (ground (arith, opened, alive, full, is_full_iff p q h))
            (nothing_sent is_killed p q i b bs h opened alive full)
      | no room ↦
          subst (WriteCase is_killed p q i (b ∷ bs))
            (ground (arith, opened, alive, room, is_full_iff p q h))
            (one_byte is_killed p q i b bs h opened alive (omega (arith, h.fits, room))
              (λ ch k. pipewrite_from-WriteCase is_killed bs (i + 1) (put ch p) (q ++ ch ∷ []) k))
    ]
  ]
  | inr closed ↦
      subst (WriteCase is_killed p q i (b ∷ bs)) (ground (arith, closed))
        (turned_away is_killed p q i b bs h (inl closed))
]

-- Why a copy stops that has given `count` bytes of the call to the user, `here` of them itself, with the bytes
-- `later` left, and what it returns.
pub data ReadEnd (copies : ℕ → Bool) (n count here : ℕ) (later : List ℕ) : ℕ → Type 0 where
  enough : here ≡ n → ReadEnd copies n count here later count
  emptied : here < n → later ≡ [] → ReadEnd copies n count here later count
  no_copyout :
      here < n
      → later ≢ []
      → copies count ≡ false
      → ReadEnd copies n count here later (if count == 0 then minus_one else count)

-- What the bytes `q` and the result of a copy of piperead's say of each other.
pub record ReadCase (copies : ℕ → Bool) (n i : ℕ) (q : List ℕ) (result : ℕ × List ℕ × Pipe)
    : Type 0 where
  pub later : List ℕ
  pub in_order : result.1 ++ later ≡ q
  pub remains : Holds result.2 later
  pub at_most : length result.1 ≤ n
  pub ends : ReadEnd copies n (i + length result.1) (length result.1) later result.0

ReadEnd-more :
    (copies : ℕ → Bool) (n count here : ℕ) (later : List ℕ) (result : ℕ)
    → ReadEnd copies n count here later result
    → ReadEnd copies (suc n) count (suc here) later result
ReadEnd-more copies n count here later _ (enough e) = enough (ap suc e)
ReadEnd-more copies n count here later _ (emptied l e) = emptied (omega arith) e
ReadEnd-more copies n count here later _ (no_copyout l ne f) = no_copyout (omega arith) ne f

-- A copy of piperead takes bytes from the front of the queue and gives them to the user in their
-- order; it stops when it has `n` bytes, when the queue is empty or when copyout fails; it returns
-- the number of bytes of the call so far, but -1 if copyout failed at the very first byte of the call.
pub piperead_from-ReadCase :
    (copies : ℕ → Bool) (n i : ℕ) (p : Pipe) (q : List ℕ)
    → Holds p q
    → ReadCase copies n i q (piperead_from copies n i p)
unfolding piperead_from
piperead_from-ReadCase copies zero i p q h = record {
  later = q;
  in_order = refl;
  remains = h;
  at_most = omega arith;
  ends = subst (ReadEnd copies 0 (i + 0) 0 q) (omega arith) (enough refl);
}
piperead_from-ReadCase copies (suc n) i p [] h =
    let nothing : ℕ × List ℕ × Pipe = (i, [], p) in
    subst (ReadCase copies (suc n) i []) {x = nothing} (ground (arith, is_empty_iff p [] h))
      record {
        later = [];
        in_order = refl;
        remains = h;
        at_most = omega arith;
        ends =
            subst (ReadEnd copies (suc n) (i + 0) 0 []) (omega arith) (emptied (omega arith) refl);
      }
piperead_from-ReadCase copies (suc n) i p (b ∷ q) h = elim (Bool-cases (copies i)) [
  | inl yes_copied ↦
      let rest = piperead_from-ReadCase copies n (i + 1) (taken p) q (taken-Holds p b q h) in
      let r = piperead_from copies n (i + 1) (taken p) in
      let got : ℕ × List ℕ × Pipe = (r.0, b ∷ r.1, r.2) in
      subst (ReadCase copies (suc n) i (b ∷ q)) {x = got}
        (ground (arith, is_empty_iff p (b ∷ q) h, yes_copied, oldest p b q h))
        record {
          later = rest.later;
          in_order = ap (λ l. b ∷ l) rest.in_order;
          remains = rest.remains;
          at_most = omega (arith, rest.at_most);
          ends =
              ReadEnd-more copies n (i + suc (length r.1)) (length r.1) rest.later r.0 (
                subst (λ c. ReadEnd copies n c (length r.1) rest.later r.0) (omega arith)
                  rest.ends);
        }
  | inr no_copy ↦
      let failed : ℕ × List ℕ × Pipe = ((if i == 0 then minus_one else i), [], p) in
      subst (ReadCase copies (suc n) i (b ∷ q)) {x = failed}
        (ground (arith, is_empty_iff p (b ∷ q) h, no_copy))
        record {
          later = b ∷ q;
          in_order = refl;
          remains = h;
          at_most = omega arith;
          ends =
              subst (λ c. ReadEnd copies (suc n) c 0 (b ∷ q) (if i == 0 then minus_one else i))
                (let e : i ≡ i + 0 = omega arith in e)
                (no_copyout (omega arith) (λ e. absurd (ground (arith, e))) no_copy);
        }
]
