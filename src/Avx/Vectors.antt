-- ===== src/Avx/Vectors.antt =====
-- The kernels of avx.cc. A vector is the list of its lanes. The vector instructions, the doubles and
-- their distribution are parameters; an instruction is told its number in the run of the kernel, so
-- that a faulty unit may err at one of them.
use cpu_check.Base.{
  ℕ, zero, suc, ◌+◌, ◌*◌, Bool, true, not, ◌&&◌, Option, none, some, List, get_or, if◌then◌else◌,
}

-- `__m256d` and `__m512d`.
pub data Width : Type 0 where
  m256d m512d : Width

abbrev pub lane_count : Width → ℕ
lane_count m256d = 4
lane_count m512d = 8

pub record AvxUnit (S : Type 0) : Type 1 where
  pub Double : Type 0
  pub minus_four : Double
  pub ne : Double → Double → Bool
  pub uniform : S → Double × S
  pub can_do_avx512f : Bool
  pub can_do_fma : Bool
  pub set1_pd : Width → Double → List Double
  pub sub_pd : Width → ℕ → List Double → List Double → List Double
  pub mul_pd : Width → ℕ → List Double → List Double → List Double
  pub fmsub_pd : Width → ℕ → List Double → List Double → List Double → List Double

-- The array `x[4]`, and `a[4]`.
pub record Quad (A : Type 0) : Type 0 where
  pub x0 : A
  pub x1 : A
  pub x2 : A
  pub x3 : A

-- The text that a kernel returns, if it is not empty.
pub data AvxSyndrome : Type 0 where
  avx256_pd avx512_pd : AvxSyndrome

-- `for (int i = 0; i < rounds; i++)`, from round `i` on.
unfoldable pub loop : {A : Type 0} → (ℕ → A → A) → ℕ → ℕ → A → A
loop body i zero x = x
loop body i (suc rounds) x = loop body (i + 1) rounds (body i x)

module _ {S : Type 0} (u : AvxUnit S) where
  abbrev Vectors : Type 0
  Vectors = Quad (List u.Double)

  -- The loop that fills `x`.
  unfoldable pub draw_rows : Width → S → Vectors × S
  draw_rows w s =
      let (d0, s0) = u.uniform s in
      let (d1, s1) = u.uniform s0 in
      let (d2, s2) = u.uniform s1 in
      let (d3, s3) = u.uniform s2 in
      (
        record {
          x0 = u.set1_pd w d0;
          x1 = u.set1_pd w d1;
          x2 = u.set1_pd w d2;
          x3 = u.set1_pd w d3;
        },
        s3,
      )

  -- `a[k] = x[k] * x[k] - x[k]`, in two instructions or in one, and `x[k] = minus_four * a[k]`.
  unfoldable pub differences : Width → ℕ → Vectors → Vectors
  differences w n x = record {
    x0 = u.sub_pd w (n + 1) (u.mul_pd w n x.x0 x.x0) x.x0;
    x1 = u.sub_pd w (n + 3) (u.mul_pd w (n + 2) x.x1 x.x1) x.x1;
    x2 = u.sub_pd w (n + 5) (u.mul_pd w (n + 4) x.x2 x.x2) x.x2;
    x3 = u.sub_pd w (n + 7) (u.mul_pd w (n + 6) x.x3 x.x3) x.x3;
  }

  unfoldable pub fused_differences : Width → ℕ → Vectors → Vectors
  fused_differences w n x = record {
    x0 = u.fmsub_pd w n x.x0 x.x0 x.x0;
    x1 = u.fmsub_pd w (n + 1) x.x1 x.x1 x.x1;
    x2 = u.fmsub_pd w (n + 2) x.x2 x.x2 x.x2;
    x3 = u.fmsub_pd w (n + 3) x.x3 x.x3 x.x3;
  }

  unfoldable pub scaled : Width → ℕ → Vectors → Vectors
  scaled w n a =
      let four = u.set1_pd w u.minus_four in
      record {
        x0 = u.mul_pd w n four a.x0;
        x1 = u.mul_pd w (n + 1) four a.x1;
        x2 = u.mul_pd w (n + 2) four a.x2;
        x3 = u.mul_pd w (n + 3) four a.x3;
      }

  -- The bodies of the loops.
  unfoldable pub square_round : Width → ℕ → Vectors → Vectors
  square_round w i x = scaled w (12 * i + 8) (differences w (12 * i) x)

  unfoldable pub fused_round : Width → ℕ → Vectors → Vectors
  fused_round w i x = scaled w (8 * i + 4) (fused_differences w (8 * i) x)

  -- `gross_x[k][i] != gross_x[k][0]` for no `i` below `n`. A vector has all its lanes, so that the
  -- default is not read.
  unfoldable pub row_alike : ℕ → List u.Double → Bool
  row_alike zero v = true
  row_alike (suc n) v =
      row_alike n v && not (u.ne (get_or v n u.minus_four) (get_or v 0 u.minus_four))

  -- The check after the loop, for `k` from 1 to 3.
  unfoldable pub rows_alike : ℕ → Vectors → Bool
  unfolding row_alike
  rows_alike n x = row_alike n x.x1 && row_alike n x.x2 && row_alike n x.x3

  unfoldable pub avx256 : ℕ → S → Option AvxSyndrome × S
  avx256 rounds s =
      let (x, s') = draw_rows m256d s in
      (if rows_alike 4 (loop (square_round m256d) 0 rounds x) then none else some avx256_pd, s')

  unfoldable pub avx256_fma : ℕ → S → Option AvxSyndrome × S
  avx256_fma rounds s =
      let (x, s') = draw_rows m256d s in
      (if rows_alike 4 (loop (fused_round m256d) 0 rounds x) then none else some avx256_pd, s')

  unfoldable pub avx512 : ℕ → S → Option AvxSyndrome × S
  avx512 rounds s =
      let (x, s') = draw_rows m512d s in
      (if rows_alike 7 (loop (fused_round m512d) 0 rounds x) then none else some avx512_pd, s')
