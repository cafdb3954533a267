-- ===== src/PatternGenerator/Alike.antt =====
-- Two runs that store the same bytes at the same places, each in its own way.
use cpu_check.Base.{
  ℕ, ◌+◌, ◌≤◌, ◌≡◌, refl, sym, ap, ◌∙◌, Bool, List, ◌++◌, length, take, write, replicate, arith,
  take-write_end, take-length, length-replicate,
}
use mathlib.Core.Path.{subst}
use cpu_check.Base.Outcome.{Outcome, done, ◌>>=◌}
use cpu_check.MalignBuffer.{MalignBuffer, CopyMethod, IsValid, contents, copy_at, memset, poke}
use cpu_check.MalignBuffer.Store.{
  IsStored, store-IsStored, copy_at-IsStored, memset-IsStored, length-contents,
}
use cpu_check.PatternGenerator.{Env, Filled}
use cpu_check.PatternGenerator.Chaos.{FloatingPointResults}

-- Two buffers of one size whose first `p` bytes agree.
pub record Agree (page cap cap' size p : ℕ) (b c : MalignBuffer) : Type 0 where
  pub left : IsValid page b
  pub right : IsValid page c
  pub left_size : b.buffer_length ≡ size
  pub right_size : c.buffer_length ≡ size
  pub left_capacity : b.capacity ≡ cap
  pub right_capacity : c.capacity ≡ cap'
  pub prefix : take p (contents b) ≡ take p (contents c)

-- The same bytes stored at the same place extend the agreement.
stored-Agree :
    (page cap cap' size p : ℕ) (ys : List ℕ) (b c : MalignBuffer) {x y : Outcome MalignBuffer}
    → Agree page cap cap' size p b c
    → p + length ys ≤ size
    → (s : IsStored page b p ys x) (t : IsStored page c p ys y)
    → Agree page cap cap' size (p + length ys) s.after t.after
stored-Agree page cap cap' size p ys b c a h s t = record {
  left = s.valid;
  right = t.valid;
  left_size = ap (λ (m : MalignBuffer). m.buffer_length) s.only_memory ∙ a.left_size;
  right_size = ap (λ (m : MalignBuffer). m.buffer_length) t.only_memory ∙ a.right_size;
  left_capacity = ap (λ (m : MalignBuffer). m.capacity) s.only_memory ∙ a.left_capacity;
  right_capacity = ap (λ (m : MalignBuffer). m.capacity) t.only_memory ∙ a.right_capacity;
  prefix =
      ap (take (p + length ys)) s.stored
      ∙ take-write_end (contents b) p ys (omega (arith, length-contents b a.left, a.left_size))
      ∙ ap (λ zs. zs ++ ys) a.prefix
      ∙ sym (
          take-write_end (contents c) p ys (omega (arith, length-contents c a.right, a.right_size)))
      ∙ sym (ap (take (p + length ys)) t.stored);
}

pub whole_Agree :
    (page cap cap' size : ℕ) (b c : MalignBuffer)
    → Agree page cap cap' size size b c
    → contents b ≡ contents c
whole_Agree page cap cap' size b c a =
    sym (take-length (contents b) size (omega (arith, length-contents b a.left, a.left_size)))
    ∙ a.prefix
    ∙ take-length (contents c) size (omega (arith, length-contents c a.right, a.right_size))

-- The same bytes stored into two buffers that agree in full.
pub stored_again :
    (page cap cap' size p : ℕ) (ys : List ℕ) (b c : MalignBuffer) {x y : Outcome MalignBuffer}
    → Agree page cap cap' size size b c
    → (s : IsStored page b p ys x) (t : IsStored page c p ys y)
    → Agree page cap cap' size size s.after t.after
stored_again page cap cap' size p ys b c a s t = record {
  left = s.valid;
  right = t.valid;
  left_size = ap (λ (m : MalignBuffer). m.buffer_length) s.only_memory ∙ a.left_size;
  right_size = ap (λ (m : MalignBuffer). m.buffer_length) t.only_memory ∙ a.right_size;
  left_capacity = ap (λ (m : MalignBuffer). m.capacity) s.only_memory ∙ a.left_capacity;
  right_capacity = ap (λ (m : MalignBuffer). m.capacity) t.only_memory ∙ a.right_capacity;
  prefix =
      ap (take size)
        (s.stored ∙ ap (λ zs. write zs p ys) (whole_Agree page cap cap' size b c a) ∙ sym t.stored);
}

module _ (env : Env) (page cap cap' size : ℕ) where
  -- Both runs return, with contents that agree in full and the same floating point results.
  pub record Alike (x y : Filled env) : Type 0 where
    pub first : MalignBuffer
    pub second : MalignBuffer
    pub results : FloatingPointResults env.floats
    pub first_returns : x ≡ done (first, results)
    pub second_returns : y ≡ done (second, results)
    pub agree : Agree page cap cap' size size first second

  pub finished :
      (p : ℕ) (b c : MalignBuffer) (fp : FloatingPointResults env.floats)
      → Agree page cap cap' size p b c
      → p ≡ size
      → Alike (done (b, fp)) (done (c, fp))
  finished p b c fp a e = record {
    first = b;
    second = c;
    results = fp;
    first_returns = refl;
    second_returns = refl;
    agree = subst (λ q. Agree page cap cap' size q b c) e a;
  }

  -- A store by both runs, and what they do next.
  pub then_Alike :
      (p : ℕ) (ys : List ℕ) (b c : MalignBuffer) {x y : Outcome MalignBuffer}
      → (k l : MalignBuffer → Filled env) → Agree page cap cap' size p b c
      → p + length ys ≤ size
      → IsStored page b p ys x
      → IsStored page c p ys y
      → ((b' c' : MalignBuffer)
          → Agree page cap cap' size (p + length ys) b' c'
          → Alike (k b') (l c'))
      → Alike (x >>= k) (y >>= l)
  then_Alike p ys b c k l a h s t next =
      rw (s.returns, t.returns)
        (next s.after t.after (stored-Agree page cap cap' size p ys b c a h s t))

  pub copy_Alike :
      (p : ℕ) (ys : List ℕ) (m n : CopyMethod) (b c : MalignBuffer)
      (k l : MalignBuffer → Filled env)
      → Agree page cap cap' size p b c
      → p + length ys ≤ size
      → ((b' c' : MalignBuffer)
          → Agree page cap cap' size (p + length ys) b' c'
          → Alike (k b') (l c'))
      → Alike (copy_at p ys m b >>= k) (copy_at p ys n c >>= l)
  copy_Alike p ys m n b c k l a h =
      then_Alike p ys b c k l a h
        (copy_at-IsStored page b p ys m a.left (omega (arith, a.left_size)))
        (copy_at-IsStored page c p ys n a.right (omega (arith, a.right_size)))

  pub poke-Alike :
      (p : ℕ) (ys : List ℕ) (b c : MalignBuffer) (k l : MalignBuffer → Filled env)
      → Agree page cap cap' size p b c
      → p + length ys ≤ size
      → ((b' c' : MalignBuffer)
          → Agree page cap cap' size (p + length ys) b' c'
          → Alike (k b') (l c'))
      → Alike (poke p ys b >>= k) (poke p ys c >>= l)
  unfolding poke
  poke-Alike p ys b c k l a h =
      then_Alike p ys b c k l a h
        (store-IsStored page b p ys _ a.left (omega (arith, a.left_size))
          (ground (arith, a.left, a.left_size)))
        (store-IsStored page c p ys _ a.right (omega (arith, a.right_size))
          (ground (arith, a.right, a.right_size)))

  pub memset-Alike :
      (p byte n : ℕ) (r q : Bool) (b c : MalignBuffer) (k l : MalignBuffer → Filled env)
      → Agree page cap cap' size p b c
      → p + n ≤ size
      → ((b' c' : MalignBuffer) → Agree page cap cap' size (p + n) b' c' → Alike (k b') (l c'))
      → Alike (memset p byte n r b >>= k) (memset p byte n q c >>= l)
  memset-Alike p byte n r q b c k l a h next =
      then_Alike p (replicate n byte) b c k l a (omega (arith, len))
        (memset-IsStored page b p byte n r a.left (omega (arith, a.left_size)))
        (memset-IsStored page c p byte n q a.right (omega (arith, a.right_size)))
        (λ b' c' a'. next b' c' (subst (λ j. Agree page cap cap' size (p + j) b' c') len a'))
    where
      len : length (replicate n byte) ≡ n
      len = length-replicate {A = ℕ} n byte
