-- ===== src/MalignBuffer/Syndrome/Spec.antt =====
-- What the comparison is held against: the positions at which two lists of bytes differ.
use cpu_check.Base.{
  ℕ, zero, suc, ◌+◌, ◌≡◌, ◌≤◌, ◌<◌, ◌≢◌, refl, Option, none, some, List, [], ◌∷◌, arith, ◌==◌,
  if◌then◌else◌, length, get_or, take, drop, Bool-cases, inl, inr,
}

-- How many positions differ.
unfoldable pub differing : List ℕ → List ℕ → ℕ
differing (x ∷ xs) (y ∷ ys) = let n = differing xs ys in if x == y then n else n + 1
differing _ _ = 0

-- The first and the last of them.
unfoldable pub first_diff : List ℕ → List ℕ → Option ℕ
first_diff (x ∷ xs) (y ∷ ys) =
    let rest = first_diff xs ys in
    if x == y then elim rest [ none ↦ none | some f ↦ some (suc f) ] else some 0
first_diff _ _ = none

unfoldable pub last_diff : List ℕ → List ℕ → Option ℕ
last_diff (x ∷ xs) (y ∷ ys) = elim (last_diff xs ys) [
  | some l ↦ some (suc l)
  | none ↦ if x == y then none else some 0
]
last_diff _ _ = none

-- Position `f` differs, and none before it.
abbrev pub IsFirst : List ℕ → List ℕ → ℕ → Type 0
IsFirst xs ys f = (take f xs ≡ take f ys) × (get_or xs f 0 ≢ get_or ys f 0)

-- Position `l` differs, and none after it.
abbrev pub IsLast : List ℕ → List ℕ → ℕ → Type 0
IsLast xs ys l = (drop (suc l) xs ≡ drop (suc l) ys) × (get_or xs l 0 ≢ get_or ys l 0)

pub first_diff-none : (xs ys : List ℕ) → length xs ≡ length ys → first_diff xs ys ≡ none → xs ≡ ys
unfolding first_diff
first_diff-none [] [] e h = refl
first_diff-none [] (y ∷ ys) e h = absurd (omega arith)
first_diff-none (x ∷ xs) [] e h = absurd (omega arith)
first_diff-none (x ∷ xs) (y ∷ ys) e h = ground (arith, first_diff-none xs ys)

pub last_diff-none : (xs ys : List ℕ) → length xs ≡ length ys → last_diff xs ys ≡ none → xs ≡ ys
unfolding last_diff
last_diff-none [] [] e h = refl
last_diff-none [] (y ∷ ys) e h = absurd (omega arith)
last_diff-none (x ∷ xs) [] e h = absurd (omega arith)
last_diff-none (x ∷ xs) (y ∷ ys) e h = ground (arith, last_diff-none xs ys)

pub first_diff-IsFirst : (xs ys : List ℕ) (f : ℕ) → first_diff xs ys ≡ some f → IsFirst xs ys f
unfolding first_diff
first_diff-IsFirst [] ys f h = cc
first_diff-IsFirst (x ∷ xs) [] f h = cc
first_diff-IsFirst (x ∷ xs) (y ∷ ys) zero h = ground (arith)
first_diff-IsFirst (x ∷ xs) (y ∷ ys) (suc f) h = ground (arith, first_diff-IsFirst xs ys f)

pub last_diff-IsLast :
    (xs ys : List ℕ) (l : ℕ) → length xs ≡ length ys → last_diff xs ys ≡ some l → IsLast xs ys l
unfolding last_diff
last_diff-IsLast [] ys l e h = cc
last_diff-IsLast (x ∷ xs) [] l e h = cc
last_diff-IsLast (x ∷ xs) (y ∷ ys) zero e h = ground (arith, last_diff-none xs ys)
last_diff-IsLast (x ∷ xs) (y ∷ ys) (suc l) e h = ground (arith, last_diff-IsLast xs ys l)

pub first_diff-some :
    (xs ys : List ℕ) (l : ℕ)
    → last_diff xs ys ≡ some l
    → (f : ℕ) × (first_diff xs ys ≡ some f) × (f ≤ l) × (l < length xs)
unfolding last_diff first_diff
first_diff-some [] ys l h = cc
first_diff-some (x ∷ xs) [] l h = cc
first_diff-some (x ∷ xs) (y ∷ ys) zero h = elim (Bool-cases (x == y)) [
  | inl same ↦ absurd (ground (arith, last_diff-none xs ys))
  | inr differs ↦ (0, rw differs, omega arith, omega arith)
]
first_diff-some (x ∷ xs) (y ∷ ys) (suc l) h =
    let below = first_diff-some xs ys l (ground arith) in
    elim (Bool-cases (x == y)) [
      | inl same ↦
          (suc below.0, ground (arith, below.1), omega (arith, below.2), omega (arith, below.3))
      | inr differs ↦ (0, rw differs, omega arith, omega (arith, below.3))
    ]
