-- ===== src/Worker/Choose.antt =====
-- `CopyMethod`, `MakeChoices` and `CheckerTids`. The summary of the choices is text for the log.
pub mod Laws
pub mod Still
use cpu_check.Base.{
  ℕ, ◌-◌, ◌^◌, Bool, true, false, Option, List, [], ◌∷◌, ◌++◌, length, get_or, take, ltb, ◌==◌,
  if◌then◌else◌,
}
use cpu_check.Base.Outcome.{done, ok}
use cpu_check.Hasher.{random_hasher}
use cpu_check.MalignBuffer.{
  MalignBuffer, CopyMethod, k_memcpy, k_rep_mov, k_sse_by128, k_avx_by256, k_avx_by512, initialize,
}
use cpu_check.MalignBuffer.Ranges.{random_punched_hole}
use cpu_check.PatternGenerator.{random_generator}
use cpu_check.Worker.{
  Context, Options, Choices, M, ◌>>-◌, lift, alignment, alloc, keep, at_original, k_buf_max,
}

abbrev pub k_buf_min : ℕ
k_buf_min = 12

-- The methods that the flags allow, `rep; mov` three times.
unfoldable pub copy_methods : Options → List CopyMethod
copy_methods o =
    k_memcpy
    ∷ ((if o.do_repmovsb then k_rep_mov ∷ k_rep_mov ∷ k_rep_mov ∷ [] else [])
        ++ ((if o.do_sse_128_memcpy then k_sse_by128 ∷ [] else [])
            ++ ((if o.do_avx_256_memcpy then k_avx_by256 ∷ [] else [])
                ++ (if o.do_avx_512_memcpy then k_avx_by512 ∷ [] else []))))

-- The processors of the list but `tid`.
unfoldable pub candidates : ℕ → List ℕ → List ℕ
candidates tid [] = []
candidates tid (i ∷ is) = let rest = candidates tid is in if i == tid then rest else i ∷ rest

-- The first two candidates, with the worker's own processor in the place of those that lack.
unfoldable pub two_of : ℕ → List ℕ → List ℕ
two_of tid cs = get_or cs 0 tid ∷ get_or cs 1 tid ∷ []

module _ (ctx : Context) where
  -- `std::uniform_int_distribution<T>(lo, hi)(rndeng_)`.
  unfoldable pub draw : ℕ → ℕ → M ctx ℕ
  draw lo hi w =
      let (n, s) = ctx.env.rng.draw lo hi w.rndeng in done (ok n, record w { rndeng = s })

  -- `flag && draw`: there is no draw when the flag is off.
  unfoldable pub maybe : Bool → M ctx Bool
  unfolding draw
  maybe flag = if flag then (draw 0 1 >>- λ n. lift (done (ltb 0 n))) else lift (done false)

  unfoldable pub copy_method : M ctx CopyMethod
  unfolding draw
  copy_method =
      let v = copy_methods ctx.options in
      draw 0 (length v - 1) >>- λ k. lift (done (get_or v k k_memcpy))

  -- The choices of a round from what was drawn, for the original `b`.
  abbrev pub choices_of : ℕ → Bool → CopyMethod → Bool → ℕ → ℕ → MalignBuffer → ℕ → Choices
  choices_of round madvise method use_repstos seldom buf_size b seed = record {
    madvise = madvise;
    how = record {
      copy_method = method;
      use_repstos = use_repstos;
      exercise_floating_point = seldom == 0;
    };
    pattern_generator = random_generator ctx.env round;
    hasher = random_hasher ctx.env.rng round;
    buf_size = buf_size;
    hole = random_punched_hole ctx.env.rng seed b;
  }

  unfoldable pub make_choices : M ctx Choices
  make_choices w =
      (maybe ctx.options.do_madvise >>- λ madvise. copy_method >>- λ method.
      maybe ctx.options.do_repstosb >>- λ use_repstos. draw 0 20 >>- λ seldom.
      draw k_buf_min k_buf_max >>- λ buf_size. lift (alloc ctx w.buffers.original) >>- λ b.
      alignment ctx >>- λ a. lift (initialize ctx.page a buf_size b) >>- λ b'.
      keep at_original b' >>- λ _. draw 0 (2 ^ 64 - 1) >>- λ seed.
      lift (done (choices_of w.round madvise method use_repstos seldom buf_size b' seed)))
        w

  -- Two processors to check on.
  unfoldable pub checker_tids : M ctx (List ℕ)
  checker_tids w =
      let (cs, s) = ctx.shuffle (candidates ctx.tid ctx.tid_list) w.rndeng in
      if ctx.options.do_hop
      then done (ok (two_of ctx.tid cs), record w { rndeng = s })
      else done (ok (ctx.tid ∷ ctx.tid ∷ []), w)
