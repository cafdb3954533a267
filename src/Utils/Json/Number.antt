-- ===== src/Utils/Json/Number.antt =====
-- The numbers that utils.cc writes into a JSON record are read back.
use cpu_check.Base.{
  ℕ, zero, suc, ◌+◌, ◌-◌, ◌*◌, ◌/◌, ◌%◌, ◌≡◌, ◌<◌, refl, ap, ◌∙◌, Bool, true, false, List, [], ◌∷◌,
  ◌++◌, ◌==◌, arith, Bool-cases, inl, inr,
}
use cpu_check.Base.Stream.{is_digit, read_digits}
use cpu_check.Utils.Json.{digits, decimal}

unfoldable pub starts_with_digit : List ℕ → Bool
starts_with_digit [] = false
starts_with_digit (c ∷ s) = is_digit c

digit_code : (d : ℕ) → d < 10 → is_digit (b'0' + d) ≡ true
unfolding is_digit
digit_code d h = ground (arith, h)

read_digits-here :
    (k d : ℕ) (acc : List ℕ)
    → d < 10
    → read_digits k ((b'0' + d) ∷ acc) ≡ read_digits (k * 10 + d) acc
unfolding read_digits
read_digits-here k d acc h =
    let e : b'0' + d - b'0' ≡ d = omega arith in rw (digit_code d h, e) refl

read_digits-digits :
    (fuel n : ℕ) (acc : List ℕ) → n < fuel → read_digits 0 (digits fuel n acc) ≡ read_digits n acc
unfolding digits
read_digits-digits zero n acc h = absurd (omega arith)
read_digits-digits (suc fuel) n acc h = elim (Bool-cases (n / 10 == 0)) [
  | inl e ↦
      let same : 0 * 10 + n % 10 ≡ n = ground arith in
      rw e (read_digits-here 0 (n % 10) acc (omega arith) ∙ ap (λ k. read_digits k acc) same)
  | inr e ↦
      let same : n / 10 * 10 + n % 10 ≡ n = omega arith in
      rw e (
        read_digits-digits fuel (n / 10) ((b'0' + n % 10) ∷ acc) (ground arith)
        ∙ read_digits-here (n / 10) (n % 10) acc (omega arith)
        ∙ ap (λ k. read_digits k acc) same)
]

read_digits-rest : (n : ℕ) (s : List ℕ) → starts_with_digit s ≡ false → read_digits n s ≡ (n, s)
unfolding read_digits starts_with_digit
read_digits-rest n [] h = refl
read_digits-rest n (c ∷ s) h = rw h refl

digits-++ : (fuel n : ℕ) (acc s : List ℕ) → digits fuel n acc ++ s ≡ digits fuel n (acc ++ s)
unfolding digits
digits-++ zero n acc s = refl
digits-++ (suc fuel) n acc s = elim (Bool-cases (n / 10 == 0)) [
  | inl e ↦ rw e refl
  | inr e ↦ rw e (digits-++ fuel (n / 10) ((b'0' + n % 10) ∷ acc) s)
]

pub read_digits-decimal :
    (n : ℕ) (s : List ℕ) → starts_with_digit s ≡ false → read_digits 0 (decimal n ++ s) ≡ (n, s)
unfolding decimal
read_digits-decimal n s h =
    ap (read_digits 0) (digits-++ (suc n) n [] s)
    ∙ read_digits-digits (suc n) n s (omega arith)
    ∙ read_digits-rest n s h

-- The first character of a number is a digit.
digits-first :
    (fuel n : ℕ) (acc : List ℕ)
    → n < fuel
    → (d : ℕ) × (s : List ℕ) × (digits fuel n acc ≡ (b'0' + d) ∷ s) × (d < 10)
unfolding digits
digits-first zero n acc h = absurd (omega arith)
digits-first (suc fuel) n acc h = elim (Bool-cases (n / 10 == 0)) [
  | inl e ↦ rw e (n % 10, acc, refl, omega arith)
  | inr e ↦ rw e (digits-first fuel (n / 10) ((b'0' + n % 10) ∷ acc) (ground arith))
]

pub decimal-first : (n : ℕ) → (d : ℕ) × (s : List ℕ) × (decimal n ≡ (b'0' + d) ∷ s) × (d < 10)
unfolding decimal
decimal-first n = digits-first (suc n) n [] (omega arith)
