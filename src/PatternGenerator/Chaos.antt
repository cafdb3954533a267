-- ===== src/PatternGenerator/Chaos.antt =====
-- The floating point functions of pattern_generator.cc. The literals are `double`, so a `float` is
-- widened, and the result is narrowed on return. The arithmetic is a parameter.
use cpu_check.Base.{ℕ, Bool, ◌&&◌}

pub record Number : Type 1 where
  pub T : Type 0
  pub Wide : Type 0
  pub widen : T → Wide
  pub narrow : Wide → T
  pub of_ℕ : ℕ → T
  pub literal : ℕ → ℕ → Wide
  pub add : Wide → Wide → Wide
  pub sub : Wide → Wide → Wide
  pub mul : Wide → Wide → Wide
  pub div : Wide → Wide → Wide
  pub eq : T → T → Bool

-- `literal n d` is the `double` nearest to `n / d`.
unfoldable pub chaotic_f1 : (n : Number) → n.T → n.T
chaotic_f1 n v =
    n.narrow (n.mul (n.mul (n.literal 4 1) (n.widen v)) (n.sub (n.literal 1 1) (n.widen v)))

unfoldable pub recip : (n : Number) → n.T → n.T
recip n v = n.narrow (n.div (n.literal 1 1) (n.add (n.widen v) (n.literal 1 10)))

unfoldable pub unrecip : (n : Number) → n.T → n.T
unrecip n v = n.narrow (n.sub (n.div (n.literal 1 1) (n.widen v)) (n.literal 1 10))

unfoldable pub reciprocated_chaos : (n : Number) → n.T → n.T
unfolding chaotic_f1 recip unrecip
reciprocated_chaos n v = recip n (chaotic_f1 n (unrecip n v))

pub record Floats : Type 1 where
  pub float : Number
  pub double : Number
  pub long_double : Number

pub record FloatingPointResults (fl : Floats) : Type 0 where
  pub f : fl.float.T
  pub d : fl.double.T
  pub ld : fl.long_double.T

abbrev pub no_results : (fl : Floats) → FloatingPointResults fl
no_results fl = record { f = fl.float.of_ℕ 0; d = fl.double.of_ℕ 0; ld = fl.long_double.of_ℕ 0 }

-- `operator==`; `operator!=` is its negation.
unfoldable pub same_results :
    (fl : Floats) → FloatingPointResults fl → FloatingPointResults fl → Bool
same_results fl x y = fl.float.eq x.f y.f && fl.double.eq x.d y.d && fl.long_double.eq x.ld y.ld
