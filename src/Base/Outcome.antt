-- ===== src/Base/Outcome.antt =====
-- The outcome of code that may stop the process: `fatal` is LOG(FATAL), which aborts, and `fault`
-- an access outside of the memory that a buffer owns, which C++ leaves undefined.

pub data Outcome {ℓ} (A : Type ℓ) : Type ℓ where
  done : A → Outcome A
  fatal : Outcome A
  fault : Outcome A

infixl 5 ◌>>=◌
abbrev pub ◌>>=◌ {ℓ κ} : {A : Type ℓ} {B : Type κ} → Outcome A → (A → Outcome B) → Outcome B
done a >>= f = f a
fatal >>= f = fatal
fault >>= f = fault

-- `absl::Status` and `absl::StatusOr`: a value, or what the message says.
pub data Result (E : Type 0) (A : Type 0) : Type 0 where
  ok : A → Result E A
  error : E → Result E A
