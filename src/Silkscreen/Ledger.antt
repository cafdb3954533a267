-- ===== src/Silkscreen/Ledger.antt =====
-- What a silkscreen promises its threads: it remembers for each thread the low byte of the round that
-- the thread wrote last. Calls of all threads, in any order, cannot tell it from such a ledger.
use cpu_check.Base.{
  ℕ, ◌%◌, ◌≡◌, ◌<◌, ◌≢◌, refl, ◌∙◌, Bool, true, false, Option, none, some, List, [], ◌∷◌, ◌==◌,
  if◌then◌else◌, length, arith, Bool-cases, Option-cases, inl, inr,
}
use cpu_check.Silkscreen.{
  Silkscreen, write_my_slots, write_slots, SlotError, Verdict, check_my_slots, passed, threw,
  failed,
}
use cpu_check.Silkscreen.Build.{owned, IsValid}
use cpu_check.Silkscreen.Laws.{wrong, wrong-write_ne, write_my_slots_lem, check_my_slots_lem}

-- A call by a thread, with its tid and its round.
pub data Call : Type 0 where
  writes checks : ℕ → ℕ → Call

abbrev pub caller : Call → ℕ
caller (writes tid round) = tid
caller (checks tid round) = tid

-- Whether a call succeeds.
abbrev no_error : Option SlotError → Bool
no_error none = true
no_error (some e) = false

abbrev is_passed : Verdict → Bool
is_passed passed = true
is_passed threw = false
is_passed (failed e n) = false

-- The successes of a sequence of calls.
unfoldable pub outcomes : List Call → Silkscreen → List Bool
outcomes [] sc = []
outcomes (writes tid round ∷ calls) sc =
    let (sc', e) = write_my_slots tid round sc in no_error e ∷ outcomes calls sc'
outcomes (checks tid round ∷ calls) sc = is_passed (check_my_slots tid round sc) ∷ outcomes calls sc

-- `none`: the thread has written nothing yet.
abbrev pub Ledger : Type 0
Ledger = ℕ → Option ℕ

abbrev pub enter : ℕ → ℕ → Ledger → Ledger
enter tid round l t = if t == tid then some (round % 256) else l t

abbrev pub agrees : Option ℕ → ℕ → Bool
agrees none round = false
agrees (some v) round = v == round % 256

unfoldable pub expected : List Call → Ledger → List Bool
expected [] l = []
expected (writes tid round ∷ calls) l = true ∷ expected calls (enter tid round l)
expected (checks tid round ∷ calls) l = agrees (l tid) round ∷ expected calls l

-- Each thread owns a slot, and writes before it checks.
abbrev pub IsOrderly : List ℕ → List Call → Ledger → Type 0
IsOrderly owner [] l = Unit
IsOrderly owner (writes tid round ∷ calls) l =
    (0 < owned tid owner) × IsOrderly owner calls (enter tid round l)
IsOrderly owner (checks tid round ∷ calls) l = (l tid ≢ none) × IsOrderly owner calls l

-- The slots of a thread hold `v`.
record Holds (sc : Silkscreen) (tid v : ℕ) : Type 0 where
  owns : 0 < owned tid sc.owner
  known : sc.slot_count tid ≢ none
  count : (w : ℕ) → wrong tid w sc.owner sc.buffer ≡ (if v == w then 0 else owned tid sc.owner)

record Represents (l : Ledger) (sc : Silkscreen) : Type 0 where
  valid : IsValid sc
  holds : (tid v : ℕ) → l tid ≡ some v → Holds sc tid v

wrong-write_slots :
    (tid v w : ℕ) (os cs : List ℕ)
    → length cs ≡ length os
    → wrong tid w os (write_slots tid v os cs).0 ≡ (if v == w then 0 else owned tid os)
unfolding wrong write_slots owned
wrong-write_slots tid v w [] cs e = ground arith
wrong-write_slots tid v w (o ∷ os) [] e = absurd (omega arith)
wrong-write_slots tid v w (o ∷ os) (c ∷ cs) e = ground (arith, wrong-write_slots tid v w os cs)

module _ (tid round : ℕ) (sc : Silkscreen) (valid : IsValid sc) where
  write-Holds : 0 < owned tid sc.owner → Holds (write_my_slots tid round sc).0 tid (round % 256)
  unfolding write_my_slots
  write-Holds owns = record {
    owns = owns;
    known = ground arith;
    count = λ w. wrong-write_slots tid (round % 256) w sc.owner sc.buffer valid.sized;
  }

  write-Holds_ne : (t v : ℕ) → t ≢ tid → Holds sc t v → Holds (write_my_slots tid round sc).0 t v
  unfolding write_my_slots
  write-Holds_ne t v ne h = record {
    owns = h.owns;
    known = λ e. h.known (ground arith);
    count = λ w. wrong-write_ne t w tid (round % 256) sc.owner sc.buffer ne ∙ h.count w;
  }

write-Represents :
    (tid round : ℕ) (l : Ledger) (sc : Silkscreen)
    → 0 < owned tid sc.owner
    → Represents l sc
    → Represents (enter tid round l) (write_my_slots tid round sc).0
write-Represents tid round l sc owns r = record {
  valid = (write_my_slots_lem tid round sc r.valid).1;
  holds = λ t v e. elim (Bool-cases (t == tid)) [
    | inl same ↦
        let at : t ≡ tid = ground arith in
        let now : v ≡ round % 256 = ground arith in
        rw (at, now) (write-Holds tid round sc r.valid owns)
    | inr other ↦
        write-Holds_ne tid round sc r.valid t v (ground arith) (r.holds t v (ground arith))
  ];
}

check-Represents :
    (tid round : ℕ) (l : Ledger) (sc : Silkscreen)
    → l tid ≢ none
    → Represents l sc
    → is_passed (check_my_slots tid round sc) ≡ agrees (l tid) round
check-Represents tid round l sc entered r = elim (Option-cases (l tid)) [
  | inl missing ↦ absurd (entered missing)
  | inr (v, there) ↦ elim (Option-cases (sc.slot_count tid)) [
    | inl unknown ↦ absurd ((r.holds tid v there).known unknown)
    | inr (n, known) ↦
        let h = r.holds tid v there in
        elim (check_my_slots_lem tid round sc n r.valid known) [
          | inl (fine, passes) ↦ rw (passes, there) (ground (arith, h.count (round % 256), h.owns))
          | inr (bad, e, fails) ↦ rw (fails, there) (ground (arith, h.count (round % 256), h.owns))
        ]
  ]
]

refines :
    (owner : List ℕ) (calls : List Call) (l : Ledger) (sc : Silkscreen)
    → sc.owner ≡ owner
    → Represents l sc
    → IsOrderly owner calls l
    → outcomes calls sc ≡ expected calls l
unfolding outcomes expected
refines owner [] l sc same r orderly = refl
refines owner (writes tid round ∷ calls) l sc same r orderly =
    let written = write_my_slots_lem tid round sc r.valid in
    let next = (write_my_slots tid round sc).0 in
    let r' : Represents (enter tid round l) next =
      write-Represents tid round l sc (rw same orderly.0) r in
    rw (written.0, refines owner calls (enter tid round l) next (written.2 ∙ same) r' orderly.1)
      refl
refines owner (checks tid round ∷ calls) l sc same r orderly =
    rw (check-Represents tid round l sc orderly.0 r, refines owner calls l sc same r orderly.1) refl

-- On a valid silkscreen, any calls by threads that own a slot and write before they check, in any
-- order, succeed or fail as they do on the ledger: every write succeeds, and a check succeeds exactly
-- when its round has the low byte of the round that its thread wrote last.
pub outcomes-eq-expected :
    (calls : List Call) (sc : Silkscreen)
    → IsValid sc
    → IsOrderly sc.owner calls (λ tid. none)
    → outcomes calls sc ≡ expected calls (λ tid. none)
outcomes-eq-expected calls sc valid orderly =
    refines sc.owner calls (λ tid. none) sc refl empty orderly
  where
    empty : Represents (λ tid. none) sc
    empty = record { valid = valid; holds = λ tid v e. absurd (cc) }
