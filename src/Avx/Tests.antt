-- ===== src/Avx/Tests.antt =====
-- Runs of the kernels on a unit that computes with integers.
use mathlib.Core.Option.{some}
use cpu_check.Base.{
  ◌↔◌, ℕ, zero, suc, ◌+◌, ◌-◌, ◌*◌, ◌%◌, ◌≡◌, ◌<◌, refl, true, not, none, List, [], ◌∷◌, replicate,
  get_or, ◌==◌, if◌then◌else◌, arith,
}
use cpu_check.Avx.Lanes.{IsLanewise, zip_with, zip_with₃, rows, map_quad, iterates}
use cpu_check.Avx.Laws.{loop-iterates, square_step, fused_step, draws_of}
use cpu_check.Avx.Check.{IsSoundWhereSeen, LaneAgrees, avx512-unseen}
use cpu_check.Avx.Vectors.{
  AvxUnit, m512d, lane_count, avx256_pd, loop, draw_rows, square_round, fused_round, scaled,
  differences, fused_differences, rows_alike, avx256, avx512,
}

-- Integers modulo 2 ^ 16.
abbrev subtract : ℕ → ℕ → ℕ
subtract a b = (a + 65536 - b) % 65536

abbrev multiply : ℕ → ℕ → ℕ
multiply a b = a * b % 65536

abbrev pub integer_unit : AvxUnit ℕ
integer_unit = record {
  Double = ℕ;
  minus_four = 65532;
  ne = λ a b. not (a == b);
  uniform = λ s. (s, s + 1);
  can_do_avx512f = true;
  can_do_fma = true;
  set1_pd = λ w d. replicate (lane_count w) d;
  sub_pd = λ w n x y. zip_with subtract x y;
  mul_pd = λ w n x y. zip_with multiply x y;
  fmsub_pd = λ w n x y z. zip_with₃ (λ a b c. subtract (multiply a b) c) x y z;
}

pub integer_unit-IsLanewise : IsLanewise integer_unit
integer_unit-IsLanewise = record {
  IsNumber = λ d. Unit {0};
  sub = subtract;
  mul = multiply;
  fmsub = λ a b c. subtract (multiply a b) c;
  sets = λ w d. refl;
  subs = λ w n x y. refl;
  muls = λ w n x y. refl;
  fmsubs = λ w n x y z. refl;
  draws = λ s. tt;
  keeps = λ d h. tt;
  keeps_fused = λ d h. tt;
  alike = λ d h. ground arith;
}

avx512_runs : avx512 integer_unit 5 3 ≡ (none, 7)
unfolding avx512 rows_alike draw_rows loop fused_round scaled fused_differences
avx512_runs = refl

-- The product of the sixth instruction is wrong in lane 2.
abbrev faulty_unit : AvxUnit ℕ
faulty_unit = record integer_unit {
  mul_pd = λ w n x y. if n == 6 then 1 ∷ 1 ∷ 2 ∷ 1 ∷ [] else zip_with multiply x y;
}

avx256_errs : avx256 faulty_unit 1 3 ≡ (some avx256_pd, 7)
unfolding avx256 rows_alike draw_rows loop square_round scaled differences
avx256_errs = refl

loop-iterates_example :
    let x = (draw_rows integer_unit m512d 3).0 in
    (loop (square_round integer_unit m512d) 0 2 x
      ≡ rows m512d (
          map_quad
            (iterates (square_step integer_unit integer_unit-IsLanewise) 2)
            (draws_of integer_unit integer_unit-IsLanewise 3)))
    × (loop (fused_round integer_unit m512d) 0 2 x
        ≡ rows m512d (
            map_quad
              (iterates (fused_step integer_unit integer_unit-IsLanewise) 2)
              (draws_of integer_unit integer_unit-IsLanewise 3)))
loop-iterates_example = loop-iterates integer_unit integer_unit-IsLanewise m512d 2 3

-- Lanes 0 to 6 by a function, and lane 7.
abbrev lanes : (ℕ → ℕ) → ℕ → List ℕ
lanes f last = f 0 ∷ f 1 ∷ f 2 ∷ f 3 ∷ f 4 ∷ f 5 ∷ f 6 ∷ last ∷ []

get_or-lanes : (f : ℕ → ℕ) (last i d : ℕ) → i < 7 → get_or (lanes f last) i d ≡ f i
get_or-lanes f last zero d h = refl
get_or-lanes f last (suc zero) d h = refl
get_or-lanes f last (suc (suc zero)) d h = refl
get_or-lanes f last (suc (suc (suc zero))) d h = refl
get_or-lanes f last (suc (suc (suc (suc zero)))) d h = refl
get_or-lanes f last (suc (suc (suc (suc (suc zero))))) d h = refl
get_or-lanes f last (suc (suc (suc (suc (suc (suc zero)))))) d h = refl
get_or-lanes f last (suc (suc (suc (suc (suc (suc (suc i))))))) d h = absurd (omega arith)

-- A unit that puts the number of the instruction into lane 7, and into the whole first vector.
abbrev unseen_unit : AvxUnit ℕ
unseen_unit = record integer_unit {
  set1_pd = λ w d. lanes (λ i. d) 77;
  mul_pd = λ w n x y.
      if n % 4 == 0
      then lanes (λ i. n + i) n
      else lanes (λ i. multiply (get_or x i 65532) (get_or y i 65532)) n;
  fmsub_pd = λ w n x y z.
      if n % 4 == 0
      then lanes (λ i. n + i) n
      else lanes (λ i. subtract (multiply (get_or x i 65532) (get_or y i 65532)) (get_or z i 65532))
          n;
}

unseen_unit-IsSoundWhereSeen : IsSoundWhereSeen unseen_unit
unseen_unit-IsSoundWhereSeen = record {
  IsNumber = λ d. Unit {0};
  mul = multiply;
  fmsub = λ a b c. subtract (multiply a b) c;
  sets = λ d i h. get_or-lanes (λ i. d) 77 i 65532 h;
  muls = λ n i x y seen h.
      rw seen (get_or-lanes (λ i. multiply (get_or x i 65532) (get_or y i 65532)) n i 65532 h);
  fmsubs = λ n i x y z seen h. rw seen (
      get_or-lanes
        (λ i. subtract (multiply (get_or x i 65532) (get_or y i 65532)) (get_or z i 65532)) n i
        65532 h);
  draws = λ s. tt;
  keeps = λ d h. tt;
  alike = λ d h. ground arith;
}

avx512-unseen_example :
    ((avx512 unseen_unit 5 3).0 ≡ none)
    × (((avx512 integer_unit 5 3).0 ≡ none) ↔ (
        (i : ℕ)
        → i < 7
        → LaneAgrees integer_unit i
            (loop (fused_round integer_unit m512d) 0 5 (draw_rows integer_unit m512d 3).0)))
avx512-unseen_example = avx512-unseen unseen_unit unseen_unit-IsSoundWhereSeen 5 3 integer_unit
