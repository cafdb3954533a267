-- ===== src/MalignBuffer/Syndrome/Laws.antt =====
-- The comparison finds exactly the differences.
use cpu_check.Base.{
  ℕ, suc, ◌+◌, ◌/◌, ◌≡◌, ◌≤◌, ◌≢◌, ◌↔◌, ◌⊎◌, refl, sym, ap, ◌∙◌, min, bit_xor, false, none, some,
  List, [], ◌∷◌, arith, ◌==◌, length, Bool-cases, inl, inr, Option-cases, ==_iff,
}
use mathlib.Core.Path.{subst}
use cpu_check.Base.Bits.{bit_xor-eq-zero, bit_xor_self, bit_and-mask}
use cpu_check.Base.Outcome.{done, fatal}
use cpu_check.MalignBuffer.{MalignBuffer, CopyMethod, IsValid, contents}
use cpu_check.MalignBuffer.Store.{copy_string_lem, length-contents}
use cpu_check.MalignBuffer.Syndrome.{
  int_max, Faults, no_faults, popcount, bump_lanes, later, compare_byte, compare_bytes, Report,
  wrong, report, corruption_syndrome, memcmp, syndrome, copy_from,
}
use cpu_check.MalignBuffer.Syndrome.Spec.{
  differing, first_diff, last_diff, IsFirst, IsLast, last_diff-none, first_diff-IsFirst,
  last_diff-IsLast, first_diff-some,
}

xor_test : (a b : ℕ) → (bit_xor a b == 0) ≡ (a == b)
xor_test a b = elim (Bool-cases (a == b)) [
  | inl same ↦ rw same (ground (arith, bit_xor_self b, (==_iff a b).0 same))
  | inr differs ↦ rw differs (ground (arith, bit_xor-eq-zero a b))
]

abbrev sum : List ℕ → ℕ
sum [] = 0
sum (n ∷ ns) = n + sum ns

sum-bump_lanes : (d : ℕ) (ns : List ℕ) → sum (bump_lanes d ns) ≡ sum ns + popcount (length ns) d
unfolding bump_lanes popcount
sum-bump_lanes d [] = refl
sum-bump_lanes d (n ∷ ns) = ground (arith, bit_and-mask 1 d, sum-bump_lanes (d / 2) ns)

length-bump_lanes : (d : ℕ) (ns : List ℕ) → length (bump_lanes d ns) ≡ length ns
unfolding bump_lanes
length-bump_lanes d [] = refl
length-bump_lanes d (n ∷ ns) = ap suc (length-bump_lanes (d / 2) ns)

wrong_bytes_lem :
    (i : ℕ) (xs ys : List ℕ) (st : Faults)
    → (compare_bytes i xs ys st).wrong_bytes ≡ st.wrong_bytes + differing xs ys
unfolding compare_bytes differing
wrong_bytes_lem i [] ys st = omega arith
wrong_bytes_lem i (x ∷ xs) [] st = omega arith
wrong_bytes_lem i (x ∷ xs) (y ∷ ys) st =
    ground (arith, xor_test x y, wrong_bytes_lem (i + 1) xs ys (compare_byte i x y st))

first_wrong_lem :
    (i : ℕ) (xs ys : List ℕ) (st : Faults)
    → (compare_bytes i xs ys st).first_wrong
      ≡ elim (first_diff xs ys) [ none ↦ st.first_wrong | some f ↦ min st.first_wrong (i + f) ]
unfolding compare_bytes first_diff
first_wrong_lem i [] ys st = refl
first_wrong_lem i (x ∷ xs) [] st = refl
first_wrong_lem i (x ∷ xs) (y ∷ ys) st =
    ground (arith, xor_test x y, first_wrong_lem (i + 1) xs ys (compare_byte i x y st))

last_wrong_lem :
    (i : ℕ) (xs ys : List ℕ) (st : Faults)
    → (compare_bytes i xs ys st).last_wrong ≡ elim (last_diff xs ys) [
      | none ↦ st.last_wrong
      | some l ↦ some (later st.last_wrong (i + l))
    ]
unfolding compare_bytes last_diff
last_wrong_lem i [] ys st = refl
last_wrong_lem i (x ∷ xs) [] st = refl
last_wrong_lem i (x ∷ xs) (y ∷ ys) st =
    ground (arith, xor_test x y, last_wrong_lem (i + 1) xs ys (compare_byte i x y st))

differing-zero : (xs ys : List ℕ) → length xs ≡ length ys → differing xs ys ≡ 0 → xs ≡ ys
unfolding differing
differing-zero [] [] e h = refl
differing-zero [] (y ∷ ys) e h = absurd (omega arith)
differing-zero (x ∷ xs) [] e h = absurd (omega arith)
differing-zero (x ∷ xs) (y ∷ ys) e h = ground (arith, differing-zero xs ys)

memcmp-eq : (xs ys : List ℕ) → length xs ≡ length ys → memcmp xs ys ≡ false → xs ≡ ys
unfolding memcmp
memcmp-eq [] [] e h = refl
memcmp-eq [] (y ∷ ys) e h = absurd (omega arith)
memcmp-eq (x ∷ xs) [] e h = absurd (omega arith)
memcmp-eq (x ∷ xs) (y ∷ ys) e h = ground (arith, memcmp-eq xs ys)

memcmp_self : (xs : List ℕ) → memcmp xs xs ≡ false
unfolding memcmp
memcmp_self [] = refl
memcmp_self (x ∷ xs) = ground (arith, memcmp_self xs)

compare_bytes_self : (i : ℕ) (xs : List ℕ) (st : Faults) → compare_bytes i xs xs st ≡ st
unfolding compare_bytes
compare_bytes_self i [] st = refl
compare_bytes_self i (x ∷ xs) st = rw (bit_xor_self x) (compare_bytes_self (i + 1) xs st)

-- The lanes of a state count its wrong bits.
record IsTallied (st : Faults) : Type 0 where
  lanes : length st.lane_errors ≡ 8
  total : st.wrong_bits ≡ sum st.lane_errors

sum-bump_eight :
    (d : ℕ) (ns : List ℕ) → length ns ≡ 8 → sum (bump_lanes d ns) ≡ sum ns + popcount 8 d
sum-bump_eight d ns e = sum-bump_lanes d ns ∙ ap (λ k. sum ns + popcount k d) e

compare_byte-IsTallied :
    (i a b : ℕ) (st : Faults) → IsTallied st → IsTallied (compare_byte i a b st)
unfolding compare_byte
compare_byte-IsTallied i a b st t = elim (Bool-cases (bit_xor a b == 0)) [
  | inl same ↦ rw same t
  | inr differs ↦ rw differs (record {
    lanes = length-bump_lanes (bit_xor a b) st.lane_errors ∙ t.lanes;
    total = omega (arith, t.total, sum-bump_eight (bit_xor a b) st.lane_errors t.lanes);
  })
]

compare_bytes-IsTallied :
    (i : ℕ) (xs ys : List ℕ) (st : Faults) → IsTallied st → IsTallied (compare_bytes i xs ys st)
unfolding compare_bytes
compare_bytes-IsTallied i [] ys st t = t
compare_bytes-IsTallied i (x ∷ xs) [] st t = t
compare_bytes-IsTallied i (x ∷ xs) (y ∷ ys) st t =
    compare_bytes-IsTallied (i + 1) xs ys (compare_byte i x y st)
      (compare_byte-IsTallied i x y st t)

-- Equal contents give no syndrome, and no syndrome is given for equal contents only.
pub corruption_syndrome-none :
    (xs ys : List ℕ) → (corruption_syndrome (memcmp xs ys) xs ys ≡ none) ↔ (xs ≡ ys)
unfolding corruption_syndrome
corruption_syndrome-none xs ys = (there, back)
  where
    there : corruption_syndrome (memcmp xs ys) xs ys ≡ none → xs ≡ ys
    there h = ground (arith, wrong_bytes_lem 0 xs ys no_faults, differing-zero xs ys)

    back : xs ≡ ys → corruption_syndrome (memcmp xs ys) xs ys ≡ none
    back e = rw e (rw (compare_bytes_self 0 ys no_faults, memcmp_self ys) (ground arith))

-- What is known of the report on two different contents of one size.
pub record IsReport (xs ys : List ℕ) (r : Report) : Type 0 where
  pub memcmp_failed : r.passed_memcmp ≡ false
  pub bytes : r.wrong_byte_count ≡ differing xs ys
  pub bits : r.wrong_bit_count ≡ sum r.by_bit_lane
  pub starts : IsFirst xs ys r.corrupt_start
  pub ends : (l : ℕ) × (l + 1 ≡ r.corrupt_start + r.corruption_width) × IsLast xs ys l

-- Two different contents of one size give a report with the number of positions that differ, the
-- first of them as the start, and the last one at the end of the width; the count of wrong bits is
-- the sum over the bit lanes, and `memcmp` is not reported to have passed.
pub corruption_syndrome-IsReport :
    (xs ys : List ℕ)
    → length xs ≡ length ys
    → length xs ≤ int_max
    → xs ≢ ys
    → (r : Report) × (corruption_syndrome (memcmp xs ys) xs ys ≡ some (wrong r)) × IsReport xs ys r
unfolding corruption_syndrome
corruption_syndrome-IsReport xs ys e small ne = elim (Option-cases (last_diff xs ys)) [
  | inl same ↦ absurd (ne (last_diff-none xs ys e same))
  | inr (l, last) ↦
      let (f, first, le, lt) = first_diff-some xs ys l last in
      let st = compare_bytes 0 xs ys no_faults in
      let fst : st.first_wrong ≡ f = ground (arith, first_wrong_lem 0 xs ys no_faults) in
      let lst : st.last_wrong ≡ some l = ground (arith, last_wrong_lem 0 xs ys no_faults) in
      let t = compare_bytes-IsTallied 0 xs ys no_faults (record { lanes = refl; total = refl }) in
      (
        report (memcmp xs ys) xs ys st,
        ground (arith, wrong_bytes_lem 0 xs ys no_faults, differing-zero xs ys),
        record {
          memcmp_failed = ground (arith, memcmp-eq xs ys);
          bytes = wrong_bytes_lem 0 xs ys no_faults ∙ omega arith;
          bits = t.total;
          starts = subst (IsFirst xs ys) (sym fst) (first_diff-IsFirst xs ys f first);
          ends = (l, rw (lst, fst) (omega arith), last_diff-IsLast xs ys l e last);
        },
      )
]

-- A checked copy between buffers of one size returns, by every method, with the contents of the
-- source and no syndrome; between buffers of different sizes it aborts.
pub copy_from_lem :
    (page : ℕ) (this that : MalignBuffer) (m : CopyMethod)
    → IsValid page this
    → IsValid page that
    → ((this.buffer_length ≢ that.buffer_length) × (copy_from that m this ≡ fatal))
      ⊎ ((b : MalignBuffer) × (copy_from that m this ≡ done (b, none))
          × (contents b ≡ contents that)
          × IsValid page b
          × (b.buffer_length ≡ this.buffer_length)
          × (b.capacity ≡ this.capacity))
unfolding copy_from syndrome
copy_from_lem page this that m v w = elim (copy_string_lem page this (contents that) m v) [
  | inl (differs, aborts) ↦ inl ((λ e. differs (e ∙ sym (length-contents that w))), rw aborts)
  | inr (b, returns, same, valid, len, cap) ↦ inr (
    b,
    rw returns (rw ((corruption_syndrome-none (contents b) (contents that)).1 same) refl),
    same,
    valid,
    len,
    cap,
  )
]
