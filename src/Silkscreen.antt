-- ===== src/Silkscreen.antt =====
-- silkscreen.h and silkscreen.cc: the buffer whose bytes are shared out among the threads. A tid is
-- a nonnegative `int`. Each call is one step: two threads' calls touch different slots.
pub mod Build
pub mod Laws
pub mod Wide
pub mod Ledger
pub mod Fresh
mod Tests
use cpu_check.Base.{
  ℕ, zero, suc, ◌+◌, ◌-◌, ◌*◌, ◌%◌, ◌^◌, Option, none, some, List, [], ◌∷◌, ◌++◌, ltb, ◌==◌,
  if◌then◌else◌, length, get_or,
}
use cpu_check.Base.Rng.{Rng}
use mathlib.Core.Option

abbrev pub k_size : ℕ
k_size = 1000 * 1000

-- `slot_count`, a `std::map`, is a function; `none` is a missing key.
pub record Silkscreen : Type 0 where
  pub owner : List ℕ
  pub slot_count : ℕ → Option ℕ
  pub buffer : List ℕ

abbrev pub count_of : (ℕ → Option ℕ) → ℕ → ℕ
count_of m t = Option.get_or (m t) 0

-- `slot_count_[o]++`.
unfoldable pub bump : ℕ → (ℕ → Option ℕ) → ℕ → Option ℕ
bump o m t = if t == o then some (count_of m o + 1) else m t

-- The body of the constructor's loop: slot `k` goes to `tid_list[w]`, kept as a `uint16_t`.
unfoldable pub give_slot : ℕ → Silkscreen → Silkscreen
unfolding bump
give_slot o sc = record sc {
  slot_count = bump o sc.slot_count;
  owner = sc.owner ++ (o % 2 ^ 16) ∷ [];
}

unfoldable pub give_slots : (r : Rng) → List ℕ → ℕ → r.S → Silkscreen → Silkscreen
unfolding give_slot
give_slots r tid_list zero s sc = sc
give_slots r tid_list (suc n) s sc =
    let (w, s') = r.draw 0 (length tid_list - 1) s in
    give_slots r tid_list n s' (give_slot (get_or tid_list w 0) sc)

-- The constructor, for a buffer of `size` slots (`k_size` in the program). The engine `std::knuth_b
-- rng` is in its default state, `s`; `memory` is what the allocation holds.
unfoldable pub new_silkscreen : (r : Rng) → r.S → ℕ → List ℕ → List ℕ → Silkscreen
unfolding give_slots
new_silkscreen r s size memory tid_list =
    give_slots r tid_list size s (record { owner = []; slot_count = λ t. none; buffer = memory })

-- The loop of `WriteMySlots`: the buffer and the number `j` of slots written.
unfoldable pub write_slots : ℕ → ℕ → List ℕ → List ℕ → List ℕ × ℕ
write_slots tid v (o ∷ os) (c ∷ cs) =
    let (cs', j) = write_slots tid v os cs in if o == tid then (v ∷ cs', suc j) else (c ∷ cs', j)
write_slots tid v _ cs = (cs, 0)

-- The messages: a count of slots that is not the expected one, or a byte that is not.
pub data SlotError : Type 0 where
  written : ℕ → ℕ → SlotError
  read : ℕ → ℕ → SlotError
  position : ℕ → ℕ → ℕ → SlotError

-- `slot_count_[tid]` enters a missing key.
touch : ℕ → (ℕ → Option ℕ) → ℕ → Option ℕ
touch tid m t = if t == tid then some (count_of m tid) else m t

unfoldable pub write_my_slots : ℕ → ℕ → Silkscreen → Silkscreen × Option SlotError
unfolding write_slots touch
write_my_slots tid round sc =
    let (buffer', j) = write_slots tid (round % 256) sc.owner sc.buffer in
    let expected = count_of sc.slot_count tid in
    (
      record sc { buffer = buffer'; slot_count = touch tid sc.slot_count },
      if j == expected then none else some (written j expected),
    )

-- The variables of `CheckMySlots`.
pub record Checked : Type 0 where
  pub slots_read : ℕ
  pub error_count : ℕ
  pub last_error : Option SlotError

-- The body of its loop at slot `k`, which holds `v`.
unfoldable pub check_slot : ℕ → ℕ → ℕ → ℕ → ℕ → Checked → Checked
check_slot tid expected k o v st =
    if o == tid
    then (if v == expected then record st { slots_read = st.slots_read + 1 } else record {
      slots_read = st.slots_read + 1;
      error_count = st.error_count + 1;
      last_error = some (position k v expected);
    })
    else st

unfoldable pub check_slots : ℕ → ℕ → ℕ → List ℕ → List ℕ → Checked → Checked
unfolding check_slot
check_slots tid expected k (o ∷ os) (c ∷ cs) st =
    check_slots tid expected (k + 1) os cs (check_slot tid expected k o c st)
check_slots tid expected k _ cs st = st

-- `threw` is the exception of `slot_count_.at(tid)` on a missing key.
pub data Verdict : Type 0 where
  passed threw : Verdict
  failed : Option SlotError → ℕ → Verdict

-- After the loop.
verdict : Option ℕ → Checked → Verdict
verdict none st = threw
verdict (some expected) st =
    if expected == st.slots_read
    then (if ltb 0 st.error_count then failed st.last_error st.error_count else passed)
    else failed (some (read st.slots_read expected)) (st.error_count + 1)

unfoldable pub check_my_slots : ℕ → ℕ → Silkscreen → Verdict
unfolding check_slots verdict
check_my_slots tid round sc = verdict (sc.slot_count tid) (
    check_slots tid (round % 256) 0 sc.owner sc.buffer
      (record { slots_read = 0; error_count = 0; last_error = none }))
