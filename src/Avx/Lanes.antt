-- ===== src/Avx/Lanes.antt =====
-- Vectors whose instructions work lane by lane, and loops on vectors whose lanes are alike.
use cpu_check.Base.{
  ℕ, zero, suc, ◌+◌, ◌≡◌, ◌<◌, refl, ap, ◌∙◌, false, List, [], ◌∷◌, get_or, replicate, arith,
}
use cpu_check.Avx.Vectors.{AvxUnit, Width, lane_count, Quad, loop}

-- An operation on each lane.
abbrev pub zip_with : {A : Type 0} → (A → A → A) → List A → List A → List A
zip_with f (x ∷ xs) (y ∷ ys) = f x y ∷ zip_with f xs ys
zip_with f _ _ = []

abbrev pub zip_with₃ : {A : Type 0} → (A → A → A → A) → List A → List A → List A → List A
zip_with₃ f (x ∷ xs) (y ∷ ys) (z ∷ zs) = f x y z ∷ zip_with₃ f xs ys zs
zip_with₃ f _ _ _ = []

-- The instructions do to each lane what the scalar operation does, and the numbers from the unit
-- interval that the iteration reaches are no NaN: each is equal to itself.
pub record IsLanewise {S : Type 0} (u : AvxUnit S) : Type 1 where
  pub IsNumber : u.Double → Type 0
  pub sub : u.Double → u.Double → u.Double
  pub mul : u.Double → u.Double → u.Double
  pub fmsub : u.Double → u.Double → u.Double → u.Double
  pub sets : (w : Width) (d : u.Double) → u.set1_pd w d ≡ replicate (lane_count w) d
  pub subs : (w : Width) (n : ℕ) (x y : List u.Double) → u.sub_pd w n x y ≡ zip_with sub x y
  pub muls : (w : Width) (n : ℕ) (x y : List u.Double) → u.mul_pd w n x y ≡ zip_with mul x y
  pub fmsubs :
      (w : Width) (n : ℕ) (x y z : List u.Double) → u.fmsub_pd w n x y z ≡ zip_with₃ fmsub x y z
  pub draws : (s : S) → IsNumber (u.uniform s).0
  pub keeps : (d : u.Double) → IsNumber d → IsNumber (mul u.minus_four (sub (mul d d) d))
  pub keeps_fused : (d : u.Double) → IsNumber d → IsNumber (mul u.minus_four (fmsub d d d))
  pub alike : (d : u.Double) → IsNumber d → u.ne d d ≡ false

pub zip_with-replicate :
    {A : Type 0} (f : A → A → A) (n : ℕ) (a b : A)
    → zip_with f (replicate n a) (replicate n b) ≡ replicate n (f a b)
zip_with-replicate f zero a b = refl
zip_with-replicate f (suc n) a b = ap (◌∷◌ (f a b)) (zip_with-replicate f n a b)

pub zip_with₃-replicate :
    {A : Type 0} (f : A → A → A → A) (n : ℕ) (a b c : A)
    → zip_with₃ f (replicate n a) (replicate n b) (replicate n c) ≡ replicate n (f a b c)
zip_with₃-replicate f zero a b c = refl
zip_with₃-replicate f (suc n) a b c = ap (◌∷◌ (f a b c)) (zip_with₃-replicate f n a b c)

-- `f` applied so many times.
unfoldable pub iterates : {A : Type 0} → (A → A) → ℕ → A → A
iterates f zero d = d
iterates f (suc n) d = iterates f n (f d)

-- Each number in all the lanes of a vector.
abbrev pub rows : {A : Type 0} → Width → Quad A → Quad (List A)
rows w d = record {
  x0 = replicate (lane_count w) d.x0;
  x1 = replicate (lane_count w) d.x1;
  x2 = replicate (lane_count w) d.x2;
  x3 = replicate (lane_count w) d.x3;
}

abbrev pub map_quad : {A B : Type 0} → (A → B) → Quad A → Quad B
map_quad f d = record { x0 = f d.x0; x1 = f d.x1; x2 = f d.x2; x3 = f d.x3 }

pub get_or-replicate : {A : Type 0} (n i : ℕ) (a d : A) → i < n → get_or (replicate n a) i d ≡ a
get_or-replicate zero i a d h = absurd (omega arith)
get_or-replicate (suc n) zero a d h = refl
get_or-replicate (suc n) (suc i) a d h = get_or-replicate n i a d (omega arith)

pub quad_path :
    {A : Type 0} {x y : Quad A} → x.x0 ≡ y.x0 → x.x1 ≡ y.x1 → x.x2 ≡ y.x2 → x.x3 ≡ y.x3 → x ≡ y
quad_path p q r s = λ i. record { x0 = p i; x1 = q i; x2 = r i; x3 = s i }

-- A loop whose body acts on the four numbers.
pub loop-rows :
    {A : Type 0} (w : Width) (body : ℕ → Quad (List A) → Quad (List A)) (f : A → A)
    → ((i : ℕ) (d : Quad A) → body i (rows w d) ≡ rows w (map_quad f d))
    → (i rounds : ℕ) (d : Quad A)
    → loop body i rounds (rows w d) ≡ rows w (map_quad (iterates f rounds) d)
unfolding loop iterates
loop-rows w body f step i zero d = refl
loop-rows w body f step i (suc rounds) d =
    ap (loop body (i + 1) rounds) (step i d) ∙ loop-rows w body f step (i + 1) rounds (map_quad f d)

pub iterates-keeps :
    {A : Type 0} (P : A → Type 0) (f : A → A)
    → ((d : A) → P d → P (f d))
    → (n : ℕ) (d : A) → P d
    → P (iterates f n d)
unfolding iterates
iterates-keeps P f keep zero d h = h
iterates-keeps P f keep (suc n) d h = iterates-keeps P f keep n (f d) (keep d h)
