-- ===== src/Silkscreen/Wide.antt =====
-- Threads whose tid does not fit the 16 bits of a slot's owner.
use cpu_check.Base.{
  ℕ, ◌%◌, ◌^◌, ◌≡◌, ◌≤◌, ◌<◌, refl, ap, ◌∙◌, false, none, some, List, [], ◌∷◌, ◌==◌, arith, All,
}
use cpu_check.Base.Rng.{Rng}
use cpu_check.Silkscreen.{
  Silkscreen, count_of, give_slots, new_silkscreen, write_my_slots, write_slots, written,
}
use cpu_check.Silkscreen.Build.{give_slots-small}
use cpu_check.Silkscreen.Laws.{write_all}

write_slots-none :
    (tid v : ℕ) (os cs : List ℕ)
    → 2 ^ 16 ≤ tid
    → All (λ p. p < 2 ^ 16) os
    → write_slots tid v os cs ≡ (cs, 0)
unfolding write_slots
write_slots-none tid v [] cs h a = refl
write_slots-none tid v (o ∷ os) [] h a = refl
write_slots-none tid v (o ∷ os) (c ∷ cs) h a =
    let other : (o == tid) ≡ false = ground (arith, h, a.0) in
    rw (write_slots-none tid v os cs h a.1, other) refl

-- Writes keep the owners and the counts.
write_all-keeps :
    (calls : List (ℕ × ℕ)) (sc : Silkscreen)
    → ((write_all calls sc).owner ≡ sc.owner)
      × ((t : ℕ) → count_of (write_all calls sc).slot_count t ≡ count_of sc.slot_count t)
unfolding write_all write_my_slots
write_all-keeps [] sc = (refl, λ t. refl)
write_all-keeps ((tid, round) ∷ calls) sc =
    let rest = write_all-keeps calls (write_my_slots tid round sc).0 in
    (rest.0, λ t. rest.1 t ∙ ground arith)

-- A tid that does not fit 16 bits never finds its slots: once the constructor has given it one,
-- every `WriteMySlots` of that thread fails and writes nothing, at whatever rounds and after
-- whatever calls of `WriteMySlots` by any threads.
pub write_my_slots_large :
    (r : Rng) (s : r.S) (size : ℕ) (memory tid_list : List ℕ) (calls : List (ℕ × ℕ)) (tid round : ℕ)
    → 2 ^ 16 ≤ tid
    → let expected = count_of (new_silkscreen r s size memory tid_list).slot_count tid in
      let sc = write_all calls (new_silkscreen r s size memory tid_list) in
      0 < expected
      → ((write_my_slots tid round sc).1 ≡ some (written 0 expected))
        × ((write_my_slots tid round sc).0.buffer ≡ sc.buffer)
unfolding new_silkscreen write_my_slots
write_my_slots_large r s size memory tid_list calls tid round h given =
    let kept = write_all-keeps calls fresh in
    let nothing : write_slots tid (round % 256) sc.owner sc.buffer ≡ (sc.buffer, 0) =
      ap (λ os. write_slots tid (round % 256) os sc.buffer) kept.0
      ∙ write_slots-none tid (round % 256) fresh.owner sc.buffer h
          (give_slots-small r tid_list size s empty tt) in
    (rw (nothing, kept.1 tid) (ground (arith, given)), ap (λ (p : List ℕ × ℕ). p.0) nothing)
  where
    empty : Silkscreen
    empty = record { owner = []; slot_count = λ t. none; buffer = memory }

    fresh : Silkscreen
    fresh = give_slots r tid_list size s empty

    sc : Silkscreen
    sc = write_all calls fresh
