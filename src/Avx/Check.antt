-- ===== src/Avx/Check.antt =====
-- What the check of the kernel for 512 bits sees, and what it does not.
use cpu_check.Base.{
  ℕ, zero, suc, ◌+◌, ◌*◌, ◌%◌, ◌≡◌, ◌<◌, ◌↔◌, refl, ◌∙◌, true, false, none, ◌==◌, List, get_or,
  arith, Bool-cases, inl, inr,
}
use cpu_check.Avx.Vectors.{
  AvxUnit, m512d, Quad, loop, draw_rows, fused_round, scaled, fused_differences, row_alike,
  rows_alike, avx512,
}

module _ {S : Type 0} (u : AvxUnit S) where
  -- Lane `i` of a vector.
  abbrev pub lane : ℕ → List u.Double → u.Double
  lane i v = get_or v i u.minus_four

  -- In lanes 0 to 6 of the second to the fourth vector, on whose instructions the number is not a
  -- multiple of 4, the unit does what the scalar operations do, and the numbers that the iteration
  -- reaches are no NaN. In lane 7, and in the first vector, it may do anything.
  pub record IsSoundWhereSeen : Type 1 where
    pub IsNumber : u.Double → Type 0
    pub mul : u.Double → u.Double → u.Double
    pub fmsub : u.Double → u.Double → u.Double → u.Double
    pub sets : (d : u.Double) (i : ℕ) → i < 7 → lane i (u.set1_pd m512d d) ≡ d
    pub muls :
        (n i : ℕ) (x y : List u.Double)
        → (n % 4 == 0) ≡ false
        → i < 7
        → lane i (u.mul_pd m512d n x y) ≡ mul (lane i x) (lane i y)
    pub fmsubs :
        (n i : ℕ) (x y z : List u.Double)
        → (n % 4 == 0) ≡ false
        → i < 7
        → lane i (u.fmsub_pd m512d n x y z) ≡ fmsub (lane i x) (lane i y) (lane i z)
    pub draws : (s : S) → IsNumber (u.uniform s).0
    pub keeps : (d : u.Double) → IsNumber d → IsNumber (mul u.minus_four (fmsub d d d))
    pub alike : (d : u.Double) → IsNumber d → u.ne d d ≡ false

  row_alike-none :
      (n : ℕ) (v : List u.Double) (d : u.Double)
      → ((i : ℕ) → i < n → lane i v ≡ d)
      → 0 < n
      → u.ne d d ≡ false
      → row_alike u n v ≡ true
  unfolding row_alike
  row_alike-none n v d same some fine = go n (λ i h. same i h)
    where
      go : (k : ℕ) → ((i : ℕ) → i < k → lane i v ≡ d) → row_alike u k v ≡ true
      go zero h = refl
      go (suc k) h = rw (h k (omega arith), same 0 some, fine, go k (λ i l. h i (omega arith))) refl

  -- The check passes only vectors whose lanes 0 to 6 are equal.
  row_alike-lane :
      (n i : ℕ) (v : List u.Double)
      → row_alike u n v ≡ true
      → i < n
      → u.ne (lane i v) (lane 0 v) ≡ false
  unfolding row_alike
  row_alike-lane zero i v h l = absurd (omega arith)
  row_alike-lane (suc n) i v h l = elim (Bool-cases (i == n)) [
    | inl e ↦ let same : i ≡ n = ground (arith, e) in rw same (ground (arith, h))
    | inr e ↦ row_alike-lane n i v (ground (arith, h)) (ground (arith, l, e))
  ]

  row_alike-lanes :
      (n : ℕ) (v : List u.Double)
      → ((i : ℕ) → i < n → u.ne (lane i v) (lane 0 v) ≡ false)
      → row_alike u n v ≡ true
  unfolding row_alike
  row_alike-lanes zero v h = refl
  row_alike-lanes (suc n) v h =
      rw (row_alike-lanes n v (λ i l. h i (omega arith)), h n (omega arith)) refl

  -- In lane `i` no result of the second to the fourth vector differs from that of lane 0.
  abbrev pub LaneAgrees : ℕ → Quad (List u.Double) → Type 0
  LaneAgrees i x =
      (u.ne (lane i x.x1) (lane 0 x.x1) ≡ false)
      × (u.ne (lane i x.x2) (lane 0 x.x2) ≡ false)
      × (u.ne (lane i x.x3) (lane 0 x.x3) ≡ false)

  -- When the kernel is silent.
  pub avx512-LaneAgrees :
      (rounds : ℕ) (s : S)
      → ((avx512 u rounds s).0 ≡ none) ↔ (
          (i : ℕ)
          → i < 7
          → LaneAgrees i (loop (fused_round u m512d) 0 rounds (draw_rows u m512d s).0))
  unfolding avx512 rows_alike
  avx512-LaneAgrees rounds s =
      let x = loop (fused_round u m512d) 0 rounds (draw_rows u m512d s).0 in
      let one = row_alike-lane 7 in
      (
        (λ e i l. (
          one i x.x1 (ground (arith, e)) l,
          one i x.x2 (ground (arith, e)) l,
          one i x.x3 (ground (arith, e)) l,
        )),
        λ h.
            rw
              (
                row_alike-lanes 7 x.x1 (λ i l. (h i l).0),
                row_alike-lanes 7 x.x2 (λ i l. (h i l).1),
                row_alike-lanes 7 x.x3 (λ i l. (h i l).2),
              )
              refl,
      )

module _ {S : Type 0} (u : AvxUnit S) (sound : IsSoundWhereSeen u) where
  -- A vector whose lanes 0 to 6 hold one number.
  record IsRow (v : List u.Double) : Type 0 where
    value : u.Double
    is_number : sound.IsNumber value
    lanes : (i : ℕ) → i < 7 → lane u i v ≡ value

  record AreRows (x : Quad (List u.Double)) : Type 0 where
    second : IsRow x.x1
    third : IsRow x.x2
    fourth : IsRow x.x3

  set1-IsRow : (s : S) → IsRow (u.set1_pd m512d (u.uniform s).0)
  set1-IsRow s = record {
    value = (u.uniform s).0;
    is_number = sound.draws s;
    lanes = λ i h. sound.sets _ i h;
  }

  step-IsRow :
      (n m : ℕ) (v : List u.Double)
      → (n % 4 == 0) ≡ false
      → (m % 4 == 0) ≡ false
      → IsRow v
      → IsRow (u.mul_pd m512d m (u.set1_pd m512d u.minus_four) (u.fmsub_pd m512d n v v v))
  step-IsRow n m v seen seen' r = record {
    value = sound.mul u.minus_four (sound.fmsub r.value r.value r.value);
    is_number = sound.keeps r.value r.is_number;
    lanes = λ i h.
        sound.muls m i _ _ seen' h
        ∙ rw (sound.sets u.minus_four i h, sound.fmsubs n i v v v seen h, r.lanes i h) refl;
  }

  loop-AreRows :
      (rounds i : ℕ) (x : Quad (List u.Double))
      → AreRows x
      → AreRows (loop (fused_round u m512d) i rounds x)
  unfolding loop fused_round scaled fused_differences
  loop-AreRows zero i x r = r
  loop-AreRows (suc rounds) i x r = loop-AreRows rounds (i + 1) _ (record {
    second = step-IsRow (8 * i + 1) (8 * i + 4 + 1) x.x1 (ground arith) (ground arith) r.second;
    third = step-IsRow (8 * i + 2) (8 * i + 4 + 2) x.x2 (ground arith) (ground arith) r.third;
    fourth = step-IsRow (8 * i + 3) (8 * i + 4 + 3) x.x3 (ground arith) (ground arith) r.fourth;
  })

  unseen : (rounds : ℕ) (s : S) → (avx512 u rounds s).0 ≡ none
  unfolding avx512 rows_alike draw_rows
  unseen rounds s =
      let x = (draw_rows u m512d s).0 in
      let end = loop (fused_round u m512d) 0 rounds x in
      let start : AreRows x = record {
        second = set1-IsRow _;
        third = set1-IsRow _;
        fourth = set1-IsRow _;
      } in
      let r = loop-AreRows rounds 0 x start in
      rw
        (
          row_alike-none u 7 end.x1 r.second.value r.second.lanes (omega arith)
              (sound.alike _ r.second.is_number),
          row_alike-none u 7 end.x2 r.third.value r.third.lanes (omega arith)
              (sound.alike _ r.third.is_number),
          row_alike-none u 7 end.x3 r.fourth.value r.fourth.lanes (omega arith)
              (sound.alike _ r.fourth.is_number),
        )
        refl

  -- On a unit that is sound in lanes 0 to 6 of the second to the fourth vector, and does anything at
  -- all in lane 7 and in the first vector, the kernel for 512 bits reports nothing, for any number
  -- of rounds. On any unit `v` it reports nothing exactly if in each lane from 0 to 6 no result of the
  -- second to the fourth vector differs from that of lane 0.
  pub avx512-unseen :
      (rounds : ℕ) (s : S) (v : AvxUnit S)
      → ((avx512 u rounds s).0 ≡ none)
        × (((avx512 v rounds s).0 ≡ none) ↔ (
            (i : ℕ)
            → i < 7
            → LaneAgrees v i (loop (fused_round v m512d) 0 rounds (draw_rows v m512d s).0)))
  avx512-unseen rounds s v = (unseen rounds s, avx512-LaneAgrees v rounds s)
