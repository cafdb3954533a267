-- ===== src/PatternGenerator/Tests.antt =====
-- Tests of pattern_generator.cc, and its theorems at concrete inputs.
use cpu_check.Base.{
  ℕ, ◌+◌, ◌-◌, ◌*◌, ◌/◌, ◌%◌, ◌^◌, ◌≡◌, refl, true, false, [], ◌∷◌, ◌==◌, replicate, arith,
}
use native.Mathlib.Nat.{mod-lt}
use cpu_check.Base.Rng.{Rng, IsUniform}
use cpu_check.Base.Outcome.{done}
use cpu_check.MalignBuffer.{MalignBuffer, IsValid, PunchedHole, contents, k_rep_mov, k_avx_by256}
use cpu_check.MalignBuffer.Syndrome.{crack_id}
use cpu_check.PatternGenerator.{
  Env, How, generate, systematic_word, random, text, random_generator, generators,
}
use cpu_check.PatternGenerator.Chaos.{Number, FloatingPointResults}
use cpu_check.PatternGenerator.Fill.{generate_lem}
use cpu_check.PatternGenerator.Word.{crack_id-systematic_word}

abbrev counter : Rng
counter = record { S = ℕ; seed = λ n. n; draw = λ lo hi s. (lo + s % (hi - lo + 1), s + 1) }

counter-IsUniform : IsUniform counter
counter-IsUniform = record {
  above = λ lo hi s h. omega arith;
  below = λ lo hi s h. omega (arith, mod-lt s {m = hi - lo + 1});
}

-- Arithmetic on natural numbers in place of floating point.
abbrev whole : Number
whole = record {
  T = ℕ;
  Wide = ℕ;
  widen = λ v. v;
  narrow = λ v. v;
  of_ℕ = λ n. n;
  literal = λ n d. n / d;
  add = ◌+◌;
  sub = ◌-◌;
  mul = ◌*◌;
  div = ◌/◌;
  eq = ◌==◌;
}

abbrev env : Env
env = record {
  rng = counter;
  exponential = λ n s. (s % (n + 1), s + 1);
  pid = 4242;
  floats = record { float = whole; double = whole; long_double = whole };
  words = (97 ∷ []) ∷ (98 ∷ 99 ∷ []) ∷ [];
}

abbrev first : MalignBuffer
first = record {
  capacity = 24;
  base_address = 4096;
  alignment_offset = 3;
  buffer_length = 20;
  buffer_address = 4099;
  memory = replicate 32 0;
}

abbrev second : MalignBuffer
second = record {
  capacity = 24;
  base_address = 8192;
  alignment_offset = 7;
  buffer_length = 20;
  buffer_address = 8199;
  memory = replicate 32 255;
}

first-IsValid : IsValid 8 first
first-IsValid = record {
  aligned = omega arith;
  fits = omega arith;
  placed = refl;
  room = omega arith;
}

second-IsValid : IsValid 8 second
second-IsValid = record {
  aligned = omega arith;
  fits = omega arith;
  placed = refl;
  room = omega arith;
}

abbrev one_way : How
one_way = record { copy_method = k_rep_mov; use_repstos = true; exercise_floating_point = true }

abbrev other_way : How
other_way = record {
  copy_method = k_avx_by256;
  use_repstos = false;
  exercise_floating_point = true;
}

abbrev hole : PunchedHole
hole = record { start = 4; hole_length = 2; v = 0x53 }

picks_by_round : random_generator env 6 ≡ text
unfolding random_generator generators
picks_by_round = refl

generate_lem_example :
    (b' : MalignBuffer) × (c' : MalignBuffer) × (fp : FloatingPointResults env.floats) × (generate
        env 5 random hole one_way first
      ≡ done (b', fp))
    × (generate env 5 random hole other_way second ≡ done (c', fp))
    × (contents b' ≡ contents c')
    × IsValid 8 b'
    × IsValid 8 c'
    × (b'.buffer_length ≡ 20)
    × (c'.buffer_length ≡ 20)
    × (b'.capacity ≡ first.capacity)
    × (c'.capacity ≡ second.capacity)
generate_lem_example =
    generate_lem env 8 5 one_way other_way first second random hole counter-IsUniform refl
      first-IsValid second-IsValid refl (omega arith)

crack_id-systematic_word_example :
    let c = crack_id (systematic_word env 7 9) in
    (c.high ≡ 4242 % 2 ^ 16) × (c.middle ≡ 7 % 2 ^ 24) × (c.low ≡ 9 % 2 ^ 24)
crack_id-systematic_word_example = crack_id-systematic_word env 7 9
