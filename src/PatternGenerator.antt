-- ===== src/PatternGenerator.antt =====
-- pattern_generator.h and pattern_generator.cc: the four ways of filling a buffer. The process id,
-- the engine and its distributions, the dictionary and the floating point arithmetic are in `Env`.
-- A loop whose fuel ends with work left is a `fault`.
pub mod Alike
pub mod Loops
pub mod Fill
pub mod Word
pub mod Chaos
mod Tests
use cpu_check.Base.{
  ℕ, zero, suc, ◌+◌, ◌-◌, ◌*◌, ◌/◌, ◌%◌, ◌^◌, ◌≤◌, bit_and, bit_or, min, max, Bool, Option, List,
  [], ◌∷◌, ltb, leb, ◌==◌, if◌then◌else◌, length, get_or, take, write,
}
use cpu_check.Base.Bytes.{le_bytes}
use cpu_check.Base.Rng.{Rng}
use cpu_check.Base.Outcome.{Outcome, done, fault, ◌>>=◌}
use cpu_check.MalignBuffer.{
  MalignBuffer, CopyMethod, PunchedHole, poke, copy_at, memset, punch_hole,
}
use cpu_check.PatternGenerator.Chaos.{Floats, FloatingPointResults, reciprocated_chaos, no_results}

pub record Env : Type 1 where
  pub rng : Rng
  -- `static_cast<size_t>(dist(rng) * n)` for the exponential distribution of rate 20.
  pub exponential : ℕ → rng.S → ℕ × rng.S
  pub pid : ℕ
  pub floats : Floats
  -- The dictionary, which `PatternGenerators()` requires not to be empty for the text.
  pub words : List (List ℕ)

-- The arguments of `Generate` that say how to do it.
pub record How : Type 0 where
  pub copy_method : CopyMethod
  pub use_repstos : Bool
  pub exercise_floating_point : Bool

abbrev pub Filled : Env → Type 0
Filled env = Outcome (MalignBuffer × FloatingPointResults env.floats)

module _ (env : Env) (round : ℕ) where
  abbrev double_step : Bool → FloatingPointResults env.floats → FloatingPointResults env.floats
  double_step exercise fp =
      if exercise then record fp { d = reciprocated_chaos env.floats.double fp.d } else fp

  abbrev float_step : Bool → FloatingPointResults env.floats → FloatingPointResults env.floats
  float_step exercise fp =
      if exercise then record fp { f = reciprocated_chaos env.floats.float fp.f } else fp

  abbrev long_double_step : Bool → FloatingPointResults env.floats → FloatingPointResults env.floats
  long_double_step exercise fp =
      if exercise then record fp { ld = reciprocated_chaos env.floats.long_double fp.ld } else fp

  -- `FillBufferSystematic`: 2 bytes of PID, 3 bytes of round number, 3 bytes of offset.
  unfoldable pub systematic_word : ℕ → ℕ
  systematic_word i =
      bit_or (bit_or (bit_and env.pid 0xffff * 2 ^ 48) (bit_and round 0xffffff * 2 ^ 24))
        (bit_and i 0xffffff)

  unfoldable pub systematic_loop :
      ℕ → ℕ → How → FloatingPointResults env.floats → MalignBuffer → Filled env
  systematic_loop zero i how fp b = if ltb (i * 8) b.buffer_length then fault else done (b, fp)
  systematic_loop (suc fuel) i how fp b =
      if ltb (i * 8) b.buffer_length
      then poke (8 * i) (take (min 8 (b.buffer_length - 8 * i)) (le_bytes 8 (systematic_word i))) b
        >>= systematic_loop fuel (i + 1) how (double_step how.exercise_floating_point fp)
      else done (b, fp)

  unfoldable pub fill_systematic : How → MalignBuffer → Filled env
  unfolding systematic_loop
  fill_systematic how b =
      systematic_loop b.buffer_length 0 how
        (record (no_results env.floats) { d = env.floats.double.of_ℕ (max round 2) }) b

  -- `FillBufferRandom`, from position `p` on.
  unfoldable pub random_loop :
      ℕ → ℕ → How → env.rng.S → FloatingPointResults env.floats → MalignBuffer → Filled env
  random_loop zero p how s fp b = if ltb p b.buffer_length then fault else done (b, fp)
  random_loop (suc fuel) p how s fp b =
      let (z, s') = env.rng.draw 1 (min (b.buffer_length - p) 8) s in
      let (v, s'') = env.rng.draw 0 (2 ^ 64 - 1) s' in
      if ltb p b.buffer_length
      then copy_at p (take z (le_bytes 8 v)) how.copy_method b
        >>= random_loop fuel (p + z) how s'' (float_step how.exercise_floating_point fp)
      else done (b, fp)

  unfoldable pub fill_random : How → MalignBuffer → Filled env
  unfolding random_loop
  fill_random how b =
      random_loop b.buffer_length 0 how (env.rng.seed round)
        (record (no_results env.floats) { f = env.floats.float.of_ℕ (max round 2) }) b

  -- `FillBufferText`: the padding after the loop, and the loop.
  unfoldable pub pad : ℕ → How → FloatingPointResults env.floats → MalignBuffer → Filled env
  pad pos how fp b = memset pos 32 (b.buffer_length - pos) how.use_repstos b >>= λ b'. done (b', fp)

  unfoldable pub text_loop :
      ℕ → ℕ → How → env.rng.S → FloatingPointResults env.floats → MalignBuffer → Filled env
  unfolding pad
  text_loop zero pos how s fp b = if ltb pos b.buffer_length then fault else pad pos how fp b
  text_loop (suc fuel) pos how s fp b =
      let (k, s') = env.exponential (length env.words) s in
      let word = get_or env.words (min k (length env.words - 1)) [] in
      let pos' = pos + length word in
      if ltb pos b.buffer_length
      then (if leb b.buffer_length pos'
          then pad pos how fp b
          else copy_at pos word how.copy_method b >>= λ b'.
              memset pos' 32 1 how.use_repstos b'
              >>= text_loop fuel (pos' + 1) how s'
                  (long_double_step how.exercise_floating_point fp))
      else pad pos how fp b

  unfoldable pub fill_text : How → MalignBuffer → Filled env
  unfolding text_loop
  fill_text how b =
      text_loop b.buffer_length 0 how (env.rng.seed round)
        (record (no_results env.floats) { ld = env.floats.long_double.of_ℕ (max round 2) }) b

  -- `FillBufferGrilledCheese`: the loop at `base`, with `kWindow` 64 and `kAdvance` 15.
  unfoldable pub cheese_loop :
      ℕ → ℕ → ℕ → How → env.rng.S → FloatingPointResults env.floats → MalignBuffer → Filled env
  cheese_loop zero base flavor how s fp b = if ltb base b.buffer_length then fault else done (b, fp)
  cheese_loop (suc fuel) base flavor how s fp b =
      let (skip, s1) = env.rng.draw 0 1 s in
      let (start, s2) = env.rng.draw (base - 64) base s1 in
      let (end, s3) = env.rng.draw start base s2 in
      let flavor' = (flavor + 1) % 256 in
      let skipped = cheese_loop fuel (base + 15) flavor how s1 fp b in
      if ltb base b.buffer_length
      then (if ltb 0 skip
          then skipped
          else memset start flavor' (1 + end - start) how.use_repstos b
            >>= cheese_loop fuel (base + 15) flavor' how s3 (
                double_step how.exercise_floating_point
                  (float_step how.exercise_floating_point fp)))
      else done (b, fp)

  unfoldable pub fill_cheese : How → MalignBuffer → Filled env
  unfolding cheese_loop
  fill_cheese how b =
      memset 0 0 b.buffer_length how.use_repstos b
      >>= cheese_loop b.buffer_length 64 0 how (env.rng.seed round)
          (record (no_results env.floats) {
            f = env.floats.float.of_ℕ (max round 2);
            d = env.floats.double.of_ℕ (max round 2);
          })

-- The classes derived from `PatternGenerator`.
pub data Generator : Type 0 where
  systematic random text grilled_cheese : Generator

-- `PatternGenerators()`: no text without words.
unfoldable pub generators : List (List ℕ) → List Generator
generators [] = systematic ∷ random ∷ grilled_cheese ∷ []
generators (w ∷ words) = systematic ∷ random ∷ text ∷ grilled_cheese ∷ []

unfoldable pub random_generator : Env → ℕ → Generator
unfolding generators
random_generator env round =
    let all = generators env.words in
    get_or all (env.rng.draw 0 (length all - 1) (env.rng.seed round)).0 systematic

-- The virtual `Generate`.
unfoldable pub fill : (env : Env) → ℕ → Generator → How → MalignBuffer → Filled env
unfolding fill_systematic fill_random fill_text fill_cheese
fill env round systematic how b = fill_systematic env round how b
fill env round random how b = fill_random env round how b
fill env round text how b = fill_text env round how b
fill env round grilled_cheese how b = fill_cheese env round how b

-- `PatternGenerators::Generate`.
unfoldable pub generate :
    (env : Env) → ℕ → Generator → PunchedHole → How → MalignBuffer → Filled env
unfolding fill
generate env round generator hole how b = fill env round generator how b >>= λ (b', fp).
    punch_hole hole how.use_repstos b' >>= λ b''. done (b'', fp)
