-- ===== src/Avx/Laws.antt =====
-- What the kernels compute on a unit whose instructions work lane by lane.
use cpu_check.Base.{
  ℕ, zero, suc, ◌≡◌, ◌≤◌, refl, ap, ◌∙◌, true, none, replicate, arith, Bool-cases, inl, inr, ◌==◌,
  if◌then◌else◌, ltb,
}
use cpu_check.Base.Rng.{Rng}
use cpu_check.Avx.{Avx, k_iterations, run_kernel, burn_if_avx_heavy, maybe_go_hot}
use cpu_check.Avx.Vectors.{
  AvxUnit, Width, m256d, m512d, lane_count, Quad, loop, draw_rows, differences, fused_differences,
  scaled, square_round, fused_round, row_alike, rows_alike, avx256, avx256_fma, avx512,
}
use cpu_check.Avx.Lanes.{
  zip_with-replicate, zip_with₃-replicate, get_or-replicate, quad_path, loop-rows, iterates-keeps,
  IsLanewise, iterates, rows, map_quad,
}

module _ {S : Type 0} (u : AvxUnit S) (lanewise : IsLanewise u) where
  open lanewise use {IsNumber, sub, mul, fmsub}

  -- The scalar iteration, in two roundings or in one.
  abbrev pub square_step : u.Double → u.Double
  square_step d = mul u.minus_four (sub (mul d d) d)

  abbrev pub fused_step : u.Double → u.Double
  fused_step d = mul u.minus_four (fmsub d d d)

  -- The four numbers that a kernel draws.
  abbrev pub draws_of : S → Quad u.Double
  draws_of s =
      let (d0, s0) = u.uniform s in
      let (d1, s1) = u.uniform s0 in
      let (d2, s2) = u.uniform s1 in
      let (d3, s3) = u.uniform s2 in record { x0 = d0; x1 = d1; x2 = d2; x3 = d3 }

  square_row :
      (w : Width) (n m k : ℕ) (d : u.Double)
      → let v = replicate (lane_count w) d in
        u.mul_pd w n (u.set1_pd w u.minus_four) (u.sub_pd w m (u.mul_pd w k v v) v)
        ≡ replicate (lane_count w) (square_step d)
  square_row w n m k d = simp (lanewise.sets, lanewise.muls, lanewise.subs, zip_with-replicate)

  fused_row :
      (w : Width) (n m : ℕ) (d : u.Double)
      → let v = replicate (lane_count w) d in
        u.mul_pd w n (u.set1_pd w u.minus_four) (u.fmsub_pd w m v v v)
        ≡ replicate (lane_count w) (fused_step d)
  fused_row w n m d =
      simp (lanewise.sets, lanewise.muls, lanewise.fmsubs, zip_with-replicate, zip_with₃-replicate)

  square_round-rows :
      (w : Width) (i : ℕ) (d : Quad u.Double)
      → square_round u w i (rows w d) ≡ rows w (map_quad square_step d)
  unfolding square_round scaled differences
  square_round-rows w i d =
      quad_path (square_row w _ _ _ d.x0) (square_row w _ _ _ d.x1) (square_row w _ _ _ d.x2)
        (square_row w _ _ _ d.x3)

  fused_round-rows :
      (w : Width) (i : ℕ) (d : Quad u.Double)
      → fused_round u w i (rows w d) ≡ rows w (map_quad fused_step d)
  unfolding fused_round scaled fused_differences
  fused_round-rows w i d =
      quad_path (fused_row w _ _ d.x0) (fused_row w _ _ d.x1) (fused_row w _ _ d.x2)
        (fused_row w _ _ d.x3)

  draw_rows-rows : (w : Width) (s : S) → (draw_rows u w s).0 ≡ rows w (draws_of s)
  unfolding draw_rows
  draw_rows-rows w s =
      quad_path (lanewise.sets w _) (lanewise.sets w _) (lanewise.sets w _) (lanewise.sets w _)

  -- On a unit that works lane by lane, the loops of the kernels, run for any number of rounds on
  -- vectors as they are drawn, leave in each lane of each vector the iterate of the scalar step from
  -- the number drawn for the vector: with two roundings in `Avx256`, fused in the other two kernels.
  pub loop-iterates :
      (w : Width) (rounds : ℕ) (s : S)
      → let x = (draw_rows u w s).0 in
        (loop (square_round u w) 0 rounds x
          ≡ rows w (map_quad (iterates square_step rounds) (draws_of s)))
        × (loop (fused_round u w) 0 rounds x
            ≡ rows w (map_quad (iterates fused_step rounds) (draws_of s)))
  loop-iterates w rounds s = (
    ap (loop (square_round u w) 0 rounds) (draw_rows-rows w s)
        ∙ loop-rows w (square_round u w) square_step (square_round-rows w) 0 rounds (draws_of s),
    ap (loop (fused_round u w) 0 rounds) (draw_rows-rows w s)
        ∙ loop-rows w (fused_round u w) fused_step (fused_round-rows w) 0 rounds (draws_of s),
  )

  row_alike-replicate :
      (m n : ℕ) (d : u.Double) → n ≤ m → IsNumber d → row_alike u n (replicate m d) ≡ true
  unfolding row_alike
  row_alike-replicate m zero d h number = refl
  row_alike-replicate m (suc n) d h number =
      rw
        (
          get_or-replicate m n d u.minus_four h,
          get_or-replicate m 0 d u.minus_four (omega arith),
          lanewise.alike d number,
          row_alike-replicate m n d (omega arith) number,
        )
        refl

  rows_alike-rows :
      (w : Width) (n : ℕ) (f : u.Double → u.Double)
      → ((d : u.Double) → IsNumber d → IsNumber (f d))
      → n ≤ lane_count w
      → (rounds : ℕ) (s : S)
      → rows_alike u n (rows w (map_quad (iterates f rounds) (draws_of s))) ≡ true
  unfolding rows_alike
  rows_alike-rows w n f keep h rounds s =
      let number = iterates-keeps IsNumber f keep rounds in
      rw
        (
          row_alike-replicate (lane_count w) n (iterates f rounds (draws_of s).x1) h
              (number _ (lanewise.draws _)),
          row_alike-replicate (lane_count w) n (iterates f rounds (draws_of s).x2) h
              (number _ (lanewise.draws _)),
          row_alike-replicate (lane_count w) n (iterates f rounds (draws_of s).x3) h
              (number _ (lanewise.draws _)),
        )
        refl

  avx256-none : (rounds : ℕ) (s : S) → (avx256 u rounds s).0 ≡ none
  unfolding avx256
  avx256-none rounds s =
      rw
        (
          (loop-iterates m256d rounds s).0,
          rows_alike-rows m256d 4 square_step lanewise.keeps (omega arith) rounds s,
        )
        refl

  avx256_fma-none : (rounds : ℕ) (s : S) → (avx256_fma u rounds s).0 ≡ none
  unfolding avx256_fma
  avx256_fma-none rounds s =
      rw
        (
          (loop-iterates m256d rounds s).1,
          rows_alike-rows m256d 4 fused_step lanewise.keeps_fused (omega arith) rounds s,
        )
        refl

  avx512-none : (rounds : ℕ) (s : S) → (avx512 u rounds s).0 ≡ none
  unfolding avx512
  avx512-none rounds s =
      rw
        (
          (loop-iterates m512d rounds s).1,
          rows_alike-rows m512d 7 fused_step lanewise.keeps_fused (omega arith) rounds s,
        )
        refl

  pub burn_if_avx_heavy-none : (a : Avx S) → (burn_if_avx_heavy u a).0 ≡ none
  unfolding burn_if_avx_heavy run_kernel
  burn_if_avx_heavy-none a = elim (Bool-cases (a.level == 3)) [
    | inl three ↦ elim (Bool-cases u.can_do_fma) [
      | inl fma ↦ simp (three, fma) (avx256_fma-none k_iterations a.engine)
      | inr two ↦ simp (three, two) (avx256-none k_iterations a.engine)
    ]
    | inr other ↦ elim (Bool-cases (a.level == 5)) [
      | inl five ↦ rw (other, five) (avx512-none k_iterations a.engine)
      | inr cold ↦ rw (other, cold) refl
    ]
  ]

pub maybe_go_hot-none :
    (r : Rng) (u : AvxUnit r.S) → IsLanewise u → (a : Avx r.S) → (maybe_go_hot r u a).0 ≡ none
unfolding maybe_go_hot
maybe_go_hot-none r u lanewise a =
    let s = (r.draw 0 1 a.engine).1 in
    let (lower, s') = r.draw 0 1 s in
    elim (Bool-cases (ltb 0 (r.draw 0 1 a.engine).0)) [
      | inl cold ↦ rw cold refl
      | inr hot ↦ elim (Bool-cases u.can_do_avx512f) [
        | inl wide ↦
            simp (hot, wide)
              (burn_if_avx_heavy-none u lanewise
                (record { level = if ltb 0 lower then 3 else 5; engine = s' }))
        | inr narrow ↦
            simp (hot, narrow)
              (burn_if_avx_heavy-none u lanewise (record { level = 3; engine = s }))
      ]
    ]
