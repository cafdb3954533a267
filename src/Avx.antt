-- ===== src/Avx.antt =====
-- avx.h and avx.cc: which kernel runs, from the level. The kernels are in Avx/Vectors.antt.
pub mod Vectors
pub mod Lanes
pub mod Laws
pub mod Check
pub mod Tests
use cpu_check.Base.{ℕ, Option, none, ◌==◌, ltb, if◌then◌else◌}
use cpu_check.Base.Rng.{Rng}
use cpu_check.Avx.Vectors.{AvxUnit, AvxSyndrome, avx256, avx256_fma, avx512}

abbrev pub k_iterations : ℕ
k_iterations = 5000

-- `level_` and `rng_`.
pub record Avx (S : Type 0) : Type 0 where
  pub level : ℕ
  pub engine : S

-- A kernel with the engine of the object.
unfoldable pub run_kernel :
    {S : Type 0} → (ℕ → S → Option AvxSyndrome × S) → Avx S → Option AvxSyndrome × Avx S
run_kernel kernel a = let (e, s) = kernel k_iterations a.engine in (e, record a { engine = s })

unfoldable pub burn_if_avx_heavy : {S : Type 0} → AvxUnit S → Avx S → Option AvxSyndrome × Avx S
unfolding run_kernel
burn_if_avx_heavy u a =
    if a.level == 3
    then (if u.can_do_fma then run_kernel (avx256_fma u) a else run_kernel (avx256 u) a)
    else if a.level == 5
    then run_kernel (avx512 u) a
    else (none, a)

unfoldable pub maybe_go_hot : (r : Rng) → AvxUnit r.S → Avx r.S → Option AvxSyndrome × Avx r.S
unfolding burn_if_avx_heavy
maybe_go_hot r u a =
    let (cold, s) = r.draw 0 1 a.engine in
    let (lower, s') = r.draw 0 1 s in
    if ltb 0 cold
    then (none, record { level = 0; engine = s })
    else if u.can_do_avx512f
    then burn_if_avx_heavy u (record { level = if ltb 0 lower then 3 else 5; engine = s' })
    else burn_if_avx_heavy u (record { level = 3; engine = s })
