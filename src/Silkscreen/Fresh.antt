-- ===== src/Silkscreen/Fresh.antt =====
-- A thread's slots between its write and its check.
use cpu_check.Base.{ℕ, ◌%◌, ◌≡◌, ◌≢◌, ◌∙◌, some, arith, inl, inr}
use cpu_check.Silkscreen.{Silkscreen, count_of, write_my_slots, check_my_slots, passed}
use cpu_check.Silkscreen.Build.{IsValid}
use cpu_check.Silkscreen.Laws.{wrong, wrong-write_self, wrong-write_ne, check_my_slots_lem}

-- The thread is in the map, and its slots hold the low byte of the round.
pub record IsFresh (sc : Silkscreen) (tid round : ℕ) : Type 0 where
  pub count : ℕ
  pub known : sc.slot_count tid ≡ some count
  pub sound : wrong tid (round % 256) sc.owner sc.buffer ≡ 0

pub write-IsFresh :
    (tid round : ℕ) (sc : Silkscreen) → IsFresh (write_my_slots tid round sc).0 tid round
unfolding write_my_slots
write-IsFresh tid round sc = record {
  count = count_of sc.slot_count tid;
  known = ground arith;
  sound = wrong-write_self tid (round % 256) sc.owner sc.buffer;
}

-- Another thread writes.
pub write-IsFresh_ne :
    (tid round tid' round' : ℕ) (sc : Silkscreen)
    → tid ≢ tid'
    → IsFresh sc tid round
    → IsFresh (write_my_slots tid' round' sc).0 tid round
unfolding write_my_slots
write-IsFresh_ne tid round tid' round' sc ne f = record {
  count = f.count;
  known = ground (arith, f.known);
  sound = wrong-write_ne tid (round % 256) tid' (round' % 256) sc.owner sc.buffer ne ∙ f.sound;
}

pub check-IsFresh :
    (tid round : ℕ) (sc : Silkscreen)
    → IsValid sc
    → IsFresh sc tid round
    → check_my_slots tid round sc ≡ passed
check-IsFresh tid round sc valid f = elim (check_my_slots_lem tid round sc f.count valid f.known) [
  | inl (fine, passes) ↦ passes
  | inr (bad, e, fails) ↦ absurd (omega (arith, f.sound))
]
