-- ===== src/PatternGenerator/Fill.antt =====
-- Filling a buffer succeeds and gives what the round says, however it is done.
use cpu_check.Base.{
  ℕ, ◌+◌, ◌*◌, ◌≤◌, ◌≡◌, refl, sym, ap, ◌∙◌, min, ◌==◌, take, arith, Bool-cases, inl, inr,
}
use mathlib.Core.Path.{subst}
use cpu_check.Base.Rng.{IsUniform}
use cpu_check.Base.Outcome.{done}
use cpu_check.MalignBuffer.{MalignBuffer, PunchedHole, IsValid, contents, punch_hole}
use cpu_check.PatternGenerator.{
  Env, How, Generator, systematic, random, text, grilled_cheese, fill_systematic, fill_random,
  fill_text, fill_cheese, fill, generate,
}
use cpu_check.PatternGenerator.Chaos.{FloatingPointResults}
use cpu_check.PatternGenerator.Alike.{Agree, whole_Agree, Alike, finished, memset-Alike}
use cpu_check.PatternGenerator.Loops.{
  systematic_loop-Alike, random_loop-Alike, text_loop-Alike, cheese_loop-Alike, memset_again,
}

-- The fills, from any two buffers of one size.
module _ (env : Env) (page cap cap' size round : ℕ) (h g : How)
    (same : g.exercise_floating_point ≡ h.exercise_floating_point) (uniform : IsUniform env.rng)
    (b c : MalignBuffer) (v : IsValid page b) (w : IsValid page c) (left : b.buffer_length ≡ size)
    (right : c.buffer_length ≡ size) (left_cap : b.capacity ≡ cap)
    (right_cap : c.capacity ≡ cap') where
  start : (p : ℕ) → p ≡ 0 → Agree page cap cap' size p b c
  start p e = record {
    left = v;
    right = w;
    left_size = left;
    right_size = right;
    left_capacity = left_cap;
    right_capacity = right_cap;
    prefix = ap (λ k. take k (contents b)) e ∙ sym (ap (λ k. take k (contents c)) e);
  }

  pub fill-Alike :
      (generator : Generator)
      → Alike env page cap cap' size (fill env round generator h b) (fill env round generator g c)
  unfolding fill fill_systematic fill_random fill_text fill_cheese
  fill-Alike systematic =
      simp (left, right)
        (systematic_loop-Alike env page cap cap' size round h g same size 0 _ b c
          (start (min size (8 * 0)) (omega arith)) (omega arith))
  fill-Alike random =
      simp (left, right)
        (random_loop-Alike env page cap cap' size round h g same uniform size 0 _ _ b c
          (start 0 refl) (omega arith) (omega arith))
  fill-Alike text =
      simp (left, right)
        (text_loop-Alike env page cap cap' size round h g same uniform size 0 _ _ b c (start 0 refl)
          (omega arith) (omega arith))
  fill-Alike grilled_cheese =
      simp (left, right)
        (memset-Alike env page cap cap' size 0 0 size h.use_repstos g.use_repstos b c _ _
          (start 0 refl) (omega arith)
          (λ b' c' a.
            cheese_loop-Alike env page cap cap' size round h g same uniform size 64 0 _ _ b' c'
              (subst (λ q. Agree page cap cap' size q b' c') (omega arith) a) (omega arith)
              (omega arith)))

  generate-Alike :
      (generator : Generator) (hole : PunchedHole)
      → hole.start + hole.hole_length ≤ size
      → Alike env page cap cap' size
          (generate env round generator hole h b)
          (generate env round generator hole g c)
  unfolding generate punch_hole
  generate-Alike generator hole inside =
      let f = fill-Alike generator in
      elim (Bool-cases (hole.hole_length == 0)) [
        | inl none ↦
            simp (f.first_returns, f.second_returns, none)
              (finished env page cap cap' size size f.first f.second f.results f.agree refl)
        | inr some ↦
            simp (f.first_returns, f.second_returns, some)
              (memset_again env page cap cap' size round h g same hole.start hole.v hole.hole_length
                f.first f.second _ _ f.agree inside
                (λ b' c' a. finished env page cap cap' size size b' c' f.results a refl))
      ]

-- Generating a pattern into two initialized buffers of one size returns in both, with the same
-- contents and the same floating point results, and keeps the buffers valid and their size. The two
-- may differ in what they held, in their alignments, and in the ways of copying and filling; the
-- environment, the round, the generator, the hole, which lies in the buffers, and whether floating
-- point is exercised are the same, and the distribution stays in its interval.
pub generate_lem :
    (env : Env) (page round : ℕ) (h g : How) (b c : MalignBuffer) (generator : Generator)
    (hole : PunchedHole)
    → IsUniform env.rng
    → g.exercise_floating_point ≡ h.exercise_floating_point
    → IsValid page b
    → IsValid page c
    → c.buffer_length ≡ b.buffer_length
    → hole.start + hole.hole_length ≤ b.buffer_length
    → (b' : MalignBuffer) × (c' : MalignBuffer) × (fp : FloatingPointResults env.floats) × (generate
          env round generator hole h b
        ≡ done (b', fp))
      × (generate env round generator hole g c ≡ done (c', fp))
      × (contents b' ≡ contents c')
      × IsValid page b'
      × IsValid page c'
      × (b'.buffer_length ≡ b.buffer_length)
      × (c'.buffer_length ≡ b.buffer_length)
      × (b'.capacity ≡ b.capacity)
      × (c'.capacity ≡ c.capacity)
generate_lem env page round h g b c generator hole uniform same v w sizes inside =
    let a =
      generate-Alike env page b.capacity c.capacity b.buffer_length round h g same uniform b c v w
        refl sizes refl refl generator hole inside in
    (
      a.first,
      a.second,
      a.results,
      a.first_returns,
      a.second_returns,
      whole_Agree page b.capacity c.capacity b.buffer_length a.first a.second a.agree,
      a.agree.left,
      a.agree.right,
      a.agree.left_size,
      a.agree.right_size,
      a.agree.left_capacity,
      a.agree.right_capacity,
    )
