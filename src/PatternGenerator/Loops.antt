-- ===== src/PatternGenerator/Loops.antt =====
-- The loops that fill a buffer return and leave alike what they fill, however it is done.
use cpu_check.Base.{
  ℕ, zero, suc, ◌+◌, ◌-◌, ◌*◌, ◌%◌, ◌^◌, ◌≤◌, ◌<◌, ◌≡◌, refl, min, [], ltb, ltb-false, leb, length,
  get_or, take, replicate, arith, Bool-cases, inl, inr, length-take,
}
use mathlib.Core.Path.{subst}
use cpu_check.Base.Bytes.{le_bytes, length-le_bytes}
use cpu_check.Base.Rng.{IsUniform}
use cpu_check.Base.Outcome.{done, ◌>>=◌}
use cpu_check.MalignBuffer.{MalignBuffer, memset}
use cpu_check.MalignBuffer.Store.{memset-IsStored}
use cpu_check.PatternGenerator.{
  Env, How, Filled, systematic_word, systematic_loop, random_loop, pad, text_loop, cheese_loop,
}
use cpu_check.PatternGenerator.Chaos.{FloatingPointResults}
use cpu_check.PatternGenerator.Alike.{
  Agree, stored_again, Alike, finished, copy_Alike, poke-Alike, memset-Alike,
}

module _ (env : Env) (page cap cap' size : ℕ) where
  module _ (round : ℕ) (h g : How)
      (same : g.exercise_floating_point ≡ h.exercise_floating_point) where
    pub systematic_loop-Alike :
        (fuel i : ℕ) (fp : FloatingPointResults env.floats) (b c : MalignBuffer)
        → Agree page cap cap' size (min size (8 * i)) b c
        → size ≤ 8 * (i + fuel)
        → Alike env page cap cap' size
            (systematic_loop env round fuel i h fp b)
            (systematic_loop env round fuel i g fp c)
    unfolding systematic_loop
    systematic_loop-Alike zero i fp b c a enough =
        let past = ltb-false (i * 8) size (omega arith) in
        simp (a.left_size, a.right_size, past)
          (finished env page cap cap' size (min size (8 * i)) b c fp a (omega arith))
    systematic_loop-Alike (suc fuel) i fp b c a enough = elim (Bool-cases (ltb (i * 8) size)) [
      | inr past ↦
          simp (a.left_size, a.right_size, past)
            (finished env page cap cap' size (min size (8 * i)) b c fp a (ground arith))
      | inl before ↦
          let word = take (min 8 (size - 8 * i)) (le_bytes 8 (systematic_word env round i)) in
          let less : 8 * i < size = ground arith in
          let here : min size (8 * i) ≡ 8 * i = omega arith in
          let long : length word ≡ min 8 (size - 8 * i) = omega (
            arith,
            length-take (min 8 (size - 8 * i)) (le_bytes 8 (systematic_word env round i)),
            length-le_bytes 8 (systematic_word env round i),
          ) in
          simp (a.left_size, a.right_size, same, before)
            (poke-Alike env page cap cap' size (8 * i) word b c _ _
              (subst (λ q. Agree page cap cap' size q b c) here a) (omega (arith, long))
              (λ b' c' a'.
                systematic_loop-Alike fuel (i + 1) _ b' c'
                  (subst (λ q. Agree page cap cap' size q b' c') (omega (arith, long)) a')
                  (omega arith)))
    ]

    padded :
        (p : ℕ) (fp : FloatingPointResults env.floats) (b c : MalignBuffer)
        → Agree page cap cap' size p b c
        → p ≤ size
        → Alike env page cap cap' size
            (memset p 32 (size - p) h.use_repstos b >>= λ b'. done (b', fp))
            (memset p 32 (size - p) g.use_repstos c >>= λ c'. done (c', fp))
    padded p fp b c a le =
        memset-Alike env page cap cap' size p 32 (size - p) h.use_repstos g.use_repstos b c _ _ a
          (omega arith)
          (λ b' c' a'. finished env page cap cap' size (p + (size - p)) b' c' fp a' (omega arith))

    -- A store into two buffers that agree in full.
    pub memset_again :
        (p byte n : ℕ) (b c : MalignBuffer) (k l : MalignBuffer → Filled env)
        → Agree page cap cap' size size b c
        → p + n ≤ size
        → ((b' c' : MalignBuffer)
            → Agree page cap cap' size size b' c'
            → Alike env page cap cap' size (k b') (l c'))
        → Alike env page cap cap' size
            (memset p byte n h.use_repstos b >>= k)
            (memset p byte n g.use_repstos c >>= l)
    memset_again p byte n b c k l a le next =
        let s = memset-IsStored page b p byte n h.use_repstos a.left (omega (arith, a.left_size)) in
        let t =
          memset-IsStored page c p byte n g.use_repstos a.right (omega (arith, a.right_size)) in
        rw (s.returns, t.returns)
          (next s.after t.after (stored_again page cap cap' size p (replicate n byte) b c a s t))

    module _ (uniform : IsUniform env.rng) where
      pub random_loop-Alike :
          (fuel p : ℕ) (s : env.rng.S) (fp : FloatingPointResults env.floats) (b c : MalignBuffer)
          → Agree page cap cap' size p b c
          → p ≤ size
          → size ≤ p + fuel
          → Alike env page cap cap' size
              (random_loop env round fuel p h s fp b)
              (random_loop env round fuel p g s fp c)
      unfolding random_loop
      random_loop-Alike zero p s fp b c a le enough =
          let past = ltb-false p size (omega arith) in
          simp (a.left_size, a.right_size, past)
            (finished env page cap cap' size p b c fp a (omega arith))
      random_loop-Alike (suc fuel) p s fp b c a le enough = elim (Bool-cases (ltb p size)) [
        | inr past ↦
            simp (a.left_size, a.right_size, past)
              (finished env page cap cap' size p b c fp a (ground arith))
        | inl before ↦
            let less : p < size = ground arith in
            let (z, s') = env.rng.draw 1 (min (size - p) 8) s in
            let (v, s'') = env.rng.draw 0 (2 ^ 64 - 1) s' in
            let long : length (take z (le_bytes 8 v)) ≡ z = omega (
              arith,
              length-take z (le_bytes 8 v),
              length-le_bytes 8 v,
              uniform.below 1 (min (size - p) 8) s (omega arith),
            ) in
            simp (a.left_size, a.right_size, same, before)
              (copy_Alike env page cap cap' size p (take z (le_bytes 8 v)) h.copy_method
                g.copy_method b c _ _ a
                (omega (arith, long, uniform.below 1 (min (size - p) 8) s (omega arith)))
                (λ b' c' a'.
                  random_loop-Alike fuel (p + z) s'' _ b' c'
                    (subst (λ q. Agree page cap cap' size q b' c') (omega (arith, long)) a')
                    (omega (arith, uniform.below 1 (min (size - p) 8) s (omega arith)))
                    (omega (arith, uniform.above 1 (min (size - p) 8) s (omega arith)))))
      ]

      pub cheese_loop-Alike :
          (fuel base flavor : ℕ) (s : env.rng.S) (fp : FloatingPointResults env.floats)
          (b c : MalignBuffer)
          → Agree page cap cap' size size b c
          → 64 ≤ base
          → size ≤ base + fuel
          → Alike env page cap cap' size
              (cheese_loop env round fuel base flavor h s fp b)
              (cheese_loop env round fuel base flavor g s fp c)
      unfolding cheese_loop
      cheese_loop-Alike zero base flavor s fp b c a window enough =
          let past = ltb-false base size (omega arith) in
          simp (a.left_size, a.right_size, past)
            (finished env page cap cap' size size b c fp a refl)
      cheese_loop-Alike (suc fuel) base flavor s fp b c a window enough =
          let (skip, s1) = env.rng.draw 0 1 s in
          let (start, s2) = env.rng.draw (base - 64) base s1 in
          let (end, s3) = env.rng.draw start base s2 in
          let skipped =
            cheese_loop-Alike fuel (base + 15) flavor s1 fp b c a (omega arith) (omega arith) in
          elim (Bool-cases (ltb base size)) [
            | inr past ↦
                simp (a.left_size, a.right_size, past)
                  (finished env page cap cap' size size b c fp a refl)
            | inl before ↦ elim (Bool-cases (ltb 0 skip)) [
              | inl skips ↦ simp (a.left_size, a.right_size, before, skips) skipped
              | inr goes ↦
                  let from : start ≤ base = uniform.below (base - 64) base s1 (omega arith) in
                  let low : start ≤ end = uniform.above start base s2 from in
                  let high : end ≤ base = uniform.below start base s2 from in
                  let inside : base < size = ground arith in
                  simp (a.left_size, a.right_size, same, before, goes)
                    (memset_again start ((flavor + 1) % 256) (1 + end - start) b c _ _ a
                      (omega arith)
                      (λ b' c' a'.
                        cheese_loop-Alike fuel (base + 15) _ s3 _ b' c' a' (omega arith)
                          (omega arith)))
            ]
          ]

      pub text_loop-Alike :
          (fuel p : ℕ) (s : env.rng.S) (fp : FloatingPointResults env.floats) (b c : MalignBuffer)
          → Agree page cap cap' size p b c
          → p ≤ size
          → size ≤ p + fuel
          → Alike env page cap cap' size
              (text_loop env round fuel p h s fp b)
              (text_loop env round fuel p g s fp c)
      unfolding text_loop pad
      text_loop-Alike zero p s fp b c a le enough =
          let past = ltb-false p size (omega arith) in
          simp (a.left_size, a.right_size, past) (padded p fp b c a le)
      text_loop-Alike (suc fuel) p s fp b c a le enough =
          let (k, s') = env.exponential (length env.words) s in
          let word = get_or env.words (min k (length env.words - 1)) [] in
          elim (Bool-cases (ltb p size)) [
            | inr past ↦ simp (a.left_size, a.right_size, past) (padded p fp b c a le)
            | inl before ↦ elim (Bool-cases (leb size (p + length word))) [
              | inl full ↦ simp (a.left_size, a.right_size, before, full) (padded p fp b c a le)
              | inr fits ↦
                  let inside : p + length word < size = ground arith in
                  simp (a.left_size, a.right_size, same, before, fits)
                    (copy_Alike env page cap cap' size p word h.copy_method g.copy_method b c _ _ a
                      (omega arith)
                      (λ b' c' a'.
                        memset-Alike env page cap cap' size (p + length word) 32 1 h.use_repstos
                          g.use_repstos b' c' _ _ a' (omega arith)
                          (λ b'' c'' a''.
                            text_loop-Alike fuel (p + length word + 1) s' _ b'' c'' a''
                              (omega arith) (omega arith))))
            ]
          ]
