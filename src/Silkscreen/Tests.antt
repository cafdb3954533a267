-- ===== src/Silkscreen/Tests.antt =====
-- Tests of silkscreen.cc, and its theorems at concrete inputs.
use cpu_check.Base.{
  ℕ, ◌+◌, ◌-◌, ◌%◌, ◌≡◌, ◌<◌, refl, none, some, true, false, List, [], ◌∷◌, length, arith,
}
use cpu_check.Base.Rng.{Rng}
use cpu_check.Silkscreen.{
  Silkscreen, bump, give_slot, give_slots, new_silkscreen, write_slots, write_my_slots, count_of,
  written,
}
use cpu_check.Silkscreen.Build.{owned, IsValid, new_silkscreen-IsValid}
use cpu_check.Silkscreen.Wide.{write_my_slots_large}
use cpu_check.Silkscreen.Laws.{write_all}
use cpu_check.Silkscreen.Ledger.{Call, writes, checks, expected, outcomes, outcomes-eq-expected}

-- An engine that counts, and a distribution that takes the remainder.
abbrev counter : Rng
counter = record { S = ℕ; seed = λ n. n; draw = λ lo hi s. (lo + s % (hi - lo + 1), s + 1) }

abbrev memory : List ℕ
memory = 9 ∷ 8 ∷ 7 ∷ 6 ∷ 5 ∷ []

abbrev tids : List ℕ
tids = 4 ∷ 11 ∷ []

abbrev small : Silkscreen
small = new_silkscreen counter 0 5 memory tids

small-IsValid : IsValid small × (length small.owner ≡ 5)
small-IsValid = new_silkscreen-IsValid counter 0 5 memory tids refl (omega arith, (omega arith, tt))

new_silkscreen-IsValid_example : IsValid small × (length small.owner ≡ 5)
new_silkscreen-IsValid_example =
    new_silkscreen-IsValid counter 0 5 memory tids refl (omega arith, (omega arith, tt))

small_owners : small.owner ≡ 4 ∷ 11 ∷ 4 ∷ 11 ∷ 4 ∷ []
unfolding new_silkscreen give_slots give_slot
small_owners = refl

written_round : (write_my_slots 4 300 small).0.buffer ≡ 44 ∷ 8 ∷ 44 ∷ 6 ∷ 44 ∷ []
unfolding new_silkscreen give_slots give_slot write_my_slots write_slots
written_round = refl

wide_gets_slots : 0 < count_of (new_silkscreen counter 0 5 memory (70000 ∷ [])).slot_count 70000
unfolding new_silkscreen give_slots give_slot bump
wide_gets_slots = omega arith

write_my_slots_large_example :
    let expected = count_of (new_silkscreen counter 0 5 memory (70000 ∷ [])).slot_count 70000 in
    let sc =
      write_all ((70000, 1) ∷ (3, 2) ∷ []) (new_silkscreen counter 0 5 memory (70000 ∷ [])) in
    ((write_my_slots 70000 2 sc).1 ≡ some (written 0 expected))
    × ((write_my_slots 70000 2 sc).0.buffer ≡ sc.buffer)
write_my_slots_large_example =
    write_my_slots_large counter 0 5 memory (70000 ∷ []) ((70000, 1) ∷ (3, 2) ∷ []) 70000 2
      (omega arith) wide_gets_slots

known : small.slot_count 4 ≡ some 3
unfolding new_silkscreen give_slots give_slot bump
known = refl

abbrev calls : List Call
calls = writes 4 300 ∷ writes 11 7 ∷ checks 4 44 ∷ checks 11 8 ∷ writes 4 301 ∷ checks 4 300 ∷ []

calls-expected : expected calls (λ tid. none) ≡ true ∷ true ∷ true ∷ false ∷ true ∷ false ∷ []
unfolding expected
calls-expected = refl

small_owned : (0 < owned 4 small.owner) × (0 < owned 11 small.owner)
unfolding new_silkscreen give_slots give_slot owned
small_owned = (omega arith, omega arith)

outcomes-eq-expected_example : outcomes calls small ≡ expected calls (λ tid. none)
outcomes-eq-expected_example =
    outcomes-eq-expected calls small small-IsValid.0
      (small_owned.0, (small_owned.1, ((λ e. cc), ((λ e. cc), (small_owned.0, ((λ e. cc), tt))))))
