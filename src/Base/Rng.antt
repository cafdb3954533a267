-- ===== src/Base/Rng.antt =====
-- The random engine and the distributions of the standard library. `std::knuth_b` is a state `S`
-- that a draw changes; its algorithm and that of the distributions are parameters.
use Prim.Native.Nat.{ℕ, ◌≤◌}

-- `std::uniform_int_distribution<T>(lo, hi)(rng)`, and `std::knuth_b rng(seed)`.
pub record Rng : Type 1 where
  pub S : Type 0
  pub seed : ℕ → S
  pub draw : ℕ → ℕ → S → ℕ × S

-- A draw lies in the closed interval that the distribution is given.
pub record IsUniform (r : Rng) : Type 0 where
  pub above : (lo hi : ℕ) (s : r.S) → lo ≤ hi → lo ≤ (r.draw lo hi s).0
  pub below : (lo hi : ℕ) (s : r.S) → lo ≤ hi → (r.draw lo hi s).0 ≤ hi
