-- ===== src/Silkscreen/Build.antt =====
-- The constructor: how many slots each thread owns.
use cpu_check.Base.{
  ℕ, zero, suc, ◌+◌, ◌-◌, ◌%◌, ◌^◌, ◌≡◌, ◌<◌, refl, ap, ◌∙◌, none, List, [], ◌∷◌, ◌++◌, ◌==◌,
  if◌then◌else◌, length, get_or, arith, All, length-append, All-snoc,
}
use cpu_check.Base.Rng.{Rng}
use cpu_check.Silkscreen.{Silkscreen, count_of, give_slot, give_slots, new_silkscreen}

-- How many slots a thread owns.
unfoldable pub owned : ℕ → List ℕ → ℕ
owned tid [] = 0
owned tid (o ∷ os) = let n = owned tid os in if o == tid then suc n else n

-- The counts agree with the owners, and the buffer has a byte for each slot.
pub record IsValid (sc : Silkscreen) : Type 0 where
  pub counted : (tid : ℕ) → count_of sc.slot_count tid ≡ owned tid sc.owner
  pub sized : length sc.buffer ≡ length sc.owner

owned-append : (tid : ℕ) (os ps : List ℕ) → owned tid (os ++ ps) ≡ owned tid os + owned tid ps
unfolding owned
owned-append tid [] ps = omega arith
owned-append tid (o ∷ os) ps = ground (arith, owned-append tid os ps)

abbrev Counts : Silkscreen → Type 0
Counts sc = (tid : ℕ) → count_of sc.slot_count tid ≡ owned tid sc.owner

give_slot-Counts : (o : ℕ) (sc : Silkscreen) → o < 2 ^ 16 → Counts sc → Counts (give_slot o sc)
unfolding give_slot
give_slot-Counts o sc h c tid =
    unfold owned in ground (arith, owned-append tid sc.owner (o % 2 ^ 16 ∷ []), c tid, c o)

get_or-lt : (xs : List ℕ) (i n : ℕ) → 0 < n → All (λ x. x < n) xs → get_or xs i 0 < n
get_or-lt [] i n h a = h
get_or-lt (x ∷ xs) zero n h a = a.0
get_or-lt (x ∷ xs) (suc i) n h a = get_or-lt xs i n h a.1

module _ (r : Rng) (tid_list : List ℕ) where
  give_slots-Counts :
      (n : ℕ) (s : r.S) (sc : Silkscreen)
      → All (λ t. t < 2 ^ 16) tid_list
      → Counts sc
      → Counts (give_slots r tid_list n s sc)
  unfolding give_slots
  give_slots-Counts zero s sc small c = c
  give_slots-Counts (suc n) s sc small c =
      give_slots-Counts n _ _ small
        (give_slot-Counts _ sc (get_or-lt tid_list _ (2 ^ 16) (omega arith) small) c)

  length-give_slots :
      (n : ℕ) (s : r.S) (sc : Silkscreen)
      → (length (give_slots r tid_list n s sc).owner ≡ n + length sc.owner)
        × ((give_slots r tid_list n s sc).buffer ≡ sc.buffer)
  unfolding give_slots
  length-give_slots zero s sc = (omega arith, refl)
  length-give_slots (suc n) s sc =
      let o = get_or tid_list (r.draw 0 (length tid_list - 1) s).0 0 in
      let rest = length-give_slots n (r.draw 0 (length tid_list - 1) s).1 (give_slot o sc) in
      (omega (arith, rest.0, length-append sc.owner (o % 2 ^ 16 ∷ [])), rest.1)

-- With tids that fit 16 bits, a new silkscreen has an owner for every slot, and its map counts for
-- every thread the slots that it owns.
pub new_silkscreen-IsValid :
    (r : Rng) (s : r.S) (size : ℕ) (memory tid_list : List ℕ)
    → length memory ≡ size
    → All (λ t. t < 2 ^ 16) tid_list
    → IsValid (new_silkscreen r s size memory tid_list)
      × (length (new_silkscreen r s size memory tid_list).owner ≡ size)
unfolding new_silkscreen
new_silkscreen-IsValid r s size memory tid_list e small = (
  record { counted = counts; sized = ap length len.1 ∙ omega (arith, len.0) },
  omega (arith, len.0),
)
  where
    empty : Silkscreen
    empty = record { owner = []; slot_count = λ t. none; buffer = memory }

    counts : Counts (give_slots r tid_list size s empty)
    counts = give_slots-Counts r tid_list size s empty small (λ t. unfold owned in refl)

    len :
        (length (give_slots r tid_list size s empty).owner ≡ size + length empty.owner)
        × ((give_slots r tid_list size s empty).buffer ≡ empty.buffer)
    len = length-give_slots r tid_list size s empty

-- Owners are 16-bit numbers.
give_slot-small :
    (o : ℕ) (sc : Silkscreen)
    → All (λ p. p < 2 ^ 16) sc.owner
    → All (λ p. p < 2 ^ 16) (give_slot o sc).owner
unfolding give_slot
give_slot-small o sc a = All-snoc (λ p. p < 2 ^ 16) sc.owner (o % 2 ^ 16) a (omega arith)

pub give_slots-small :
    (r : Rng) (tid_list : List ℕ) (n : ℕ) (s : r.S) (sc : Silkscreen)
    → All (λ p. p < 2 ^ 16) sc.owner
    → All (λ p. p < 2 ^ 16) (give_slots r tid_list n s sc).owner
unfolding give_slots
give_slots-small r tid_list zero s sc a = a
give_slots-small r tid_list (suc n) s sc a =
    give_slots-small r tid_list n _ _ (give_slot-small _ sc a)
