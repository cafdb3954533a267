-- ===== src/Silkscreen/Laws.antt =====
-- Writing and checking one's slots.
use cpu_check.Base.{
  ℕ, zero, suc, ◌+◌, ◌%◌, ◌≡◌, ◌<◌, ◌≢◌, ◌⊎◌, refl, ◌∙◌, Option, none, some, List, [], ◌∷◌, ◌==◌,
  if◌then◌else◌, length, get_or, arith, All, Bool-cases, inl, inr,
}
use cpu_check.Silkscreen.{
  Silkscreen, count_of, write_my_slots, write_slots, SlotError, Checked, check_slot, check_slots,
  check_my_slots, passed, failed,
}
use cpu_check.Silkscreen.Build.{owned, IsValid}

-- How many slots of a thread do not hold `v`.
unfoldable pub wrong : ℕ → ℕ → List ℕ → List ℕ → ℕ
wrong tid v (o ∷ os) (c ∷ cs) =
    let n = wrong tid v os cs in if o == tid then (if c == v then n else suc n) else n
wrong tid v _ cs = 0

write_slots-count :
    (tid v : ℕ) (os cs : List ℕ)
    → length cs ≡ length os
    → (write_slots tid v os cs).1 ≡ owned tid os
unfolding write_slots owned
write_slots-count tid v [] cs e = refl
write_slots-count tid v (o ∷ os) [] e = absurd (omega arith)
write_slots-count tid v (o ∷ os) (c ∷ cs) e = ground (arith, write_slots-count tid v os cs)

length-write_slots : (tid v : ℕ) (os cs : List ℕ) → length (write_slots tid v os cs).0 ≡ length cs
unfolding write_slots
length-write_slots tid v [] cs = refl
length-write_slots tid v (o ∷ os) [] = refl
length-write_slots tid v (o ∷ os) (c ∷ cs) = ground (arith, length-write_slots tid v os cs)

write_slots-at :
    (tid v : ℕ) (os cs : List ℕ) (i : ℕ)
    → length cs ≡ length os
    → i < length os
    → get_or (write_slots tid v os cs).0 i 0 ≡ (if get_or os i 0 == tid then v else get_or cs i 0)
unfolding write_slots
write_slots-at tid v [] cs i e h = absurd (omega arith)
write_slots-at tid v (o ∷ os) [] i e h = absurd (omega arith)
write_slots-at tid v (o ∷ os) (c ∷ cs) zero e h = ground arith
write_slots-at tid v (o ∷ os) (c ∷ cs) (suc i) e h = ground (arith, write_slots-at tid v os cs i)

pub wrong-write_self : (tid v : ℕ) (os cs : List ℕ) → wrong tid v os (write_slots tid v os cs).0 ≡ 0
unfolding wrong write_slots
wrong-write_self tid v [] cs = refl
wrong-write_self tid v (o ∷ os) [] = refl
wrong-write_self tid v (o ∷ os) (c ∷ cs) = ground (arith, wrong-write_self tid v os cs)

pub wrong-write_ne :
    (tid v tid' v' : ℕ) (os cs : List ℕ)
    → tid ≢ tid'
    → wrong tid v os (write_slots tid' v' os cs).0 ≡ wrong tid v os cs
unfolding wrong write_slots
wrong-write_ne tid v tid' v' [] cs ne = refl
wrong-write_ne tid v tid' v' (o ∷ os) [] ne = refl
wrong-write_ne tid v tid' v' (o ∷ os) (c ∷ cs) ne =
    ground (arith, wrong-write_ne tid v tid' v' os cs ne)

-- On a valid silkscreen `WriteMySlots` succeeds and keeps it valid. It sets each slot of the thread
-- to the low byte of the round, and leaves the slots of other threads and all owners as they were.
pub write_my_slots_lem :
    (tid round : ℕ) (sc : Silkscreen)
    → IsValid sc
    → let (sc', error) = write_my_slots tid round sc in
      (error ≡ none)
      × IsValid sc'
      × (sc'.owner ≡ sc.owner)
      × ((i : ℕ)
          → i < length sc.owner
          → get_or sc'.buffer i 0
            ≡ (if get_or sc.owner i 0 == tid then round % 256 else get_or sc.buffer i 0))
unfolding write_my_slots
write_my_slots_lem tid round sc v = (
  ground (arith, write_slots-count tid (round % 256) sc.owner sc.buffer v.sized, v.counted tid),
  record {
    counted = λ t. ground (arith, v.counted t);
    sized = length-write_slots tid (round % 256) sc.owner sc.buffer ∙ v.sized;
  },
  refl,
  λ i h. write_slots-at tid (round % 256) sc.owner sc.buffer i v.sized h,
)

check_slots_lem :
    (tid v k : ℕ) (os cs : List ℕ) (st : Checked)
    → length cs ≡ length os
    → ((check_slots tid v k os cs st).slots_read ≡ st.slots_read + owned tid os)
      × ((check_slots tid v k os cs st).error_count ≡ st.error_count + wrong tid v os cs)
unfolding check_slots owned wrong
check_slots_lem tid v k [] cs st e = omega arith
check_slots_lem tid v k (o ∷ os) [] st e = absurd (omega arith)
check_slots_lem tid v k (o ∷ os) (c ∷ cs) st e =
    ground (arith, check_slots_lem tid v (k + 1) os cs (check_slot tid v k o c st))

-- What a check of a valid silkscreen finds, for a thread that is in its map: it passes exactly when
-- each slot of the thread holds the low byte of the round, and otherwise reports their number.
pub check_my_slots_lem :
    (tid round : ℕ) (sc : Silkscreen) (n : ℕ)
    → IsValid sc
    → sc.slot_count tid ≡ some n
    → let bad = wrong tid (round % 256) sc.owner sc.buffer in
      ((bad ≡ 0) × (check_my_slots tid round sc ≡ passed))
      ⊎ ((0 < bad) × (e : Option SlotError) × (check_my_slots tid round sc ≡ failed e bad))
unfolding check_my_slots
check_my_slots_lem tid round sc n v known =
    let found = check_slots tid (round % 256) 0 sc.owner sc.buffer start in
    let counts = check_slots_lem tid (round % 256) 0 sc.owner sc.buffer start v.sized in
    elim (Bool-cases (wrong tid (round % 256) sc.owner sc.buffer == 0)) [
      | inl fine ↦ inl (ground arith, ground (arith, known, v.counted tid, counts))
      | inr bad ↦ inr (ground arith, found.last_error, ground (arith, known, v.counted tid, counts))
    ]
  where
    start : Checked
    start = record { slots_read = 0; error_count = 0; last_error = none }

-- Calls of `WriteMySlots`, a thread and its round each, in the order in which they happen.
unfoldable pub write_all : List (ℕ × ℕ) → Silkscreen → Silkscreen
write_all [] sc = sc
write_all ((tid, round) ∷ calls) sc = write_all calls (write_my_slots tid round sc).0

-- Calls by other threads keep the slots of a thread that is in the map, and its entry.
write_all-others :
    (tid v : ℕ) (calls : List (ℕ × ℕ)) (sc : Silkscreen)
    → All (λ c. tid ≢ c.0) calls
    → IsValid sc
    → let sc' = write_all calls sc in
      IsValid sc'
      × (sc'.slot_count tid ≡ sc.slot_count tid)
      × (wrong tid v sc'.owner sc'.buffer ≡ wrong tid v sc.owner sc.buffer)
unfolding write_all write_my_slots
write_all-others tid v [] sc others valid = (valid, refl, refl)
write_all-others tid v ((tid', round) ∷ calls) sc others valid =
    let next = (write_my_slots tid' round sc).0 in
    let rest =
      write_all-others tid v calls next others.1 (write_my_slots_lem tid' round sc valid).1 in
    (
      rest.0,
      rest.1 ∙ ground (arith, others.0),
      rest.2 ∙ wrong-write_ne tid v tid' (round % 256) sc.owner sc.buffer others.0,
    )

-- After a thread has written its slots at a round of a valid silkscreen, and whatever other threads
-- have written since, in any order and at any rounds, its check at that round passes.
pub check-write_all :
    (tid round : ℕ) (calls : List (ℕ × ℕ)) (sc : Silkscreen)
    → All (λ c. tid ≢ c.0) calls
    → IsValid sc
    → check_my_slots tid round (write_all calls (write_my_slots tid round sc).0) ≡ passed
unfolding write_my_slots
check-write_all tid round calls sc others valid =
    let next = (write_my_slots tid round sc).0 in
    let v = round % 256 in
    let rest = write_all-others tid v calls next others (write_my_slots_lem tid round sc valid).1 in
    let entry : next.slot_count tid ≡ some (count_of sc.slot_count tid) = ground arith in
    elim (check_my_slots_lem tid round (write_all calls next) (count_of sc.slot_count tid) rest.0
      (rest.1 ∙ entry)) [
        | inl (fine, passes) ↦ passes
        | inr (bad, e, fails) ↦
            absurd (omega (arith, rest.2, wrong-write_self tid v sc.owner sc.buffer))
      ]
