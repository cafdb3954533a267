-- ===== src/Worker/Faultless.antt =====
-- A machine without faults, and how the steps of a computation on it follow each other.
use cpu_check.Base.{ℕ, ◌+◌, ◌*◌, ◌≡◌, ◌≤◌, ◌<◌, refl, Bool, true, Option, none, some, List, length}
use cpu_check.Base.Rng.{IsUniform}
use cpu_check.Base.Outcome.{Outcome, done, Result, ok}
use cpu_check.Compressor.Laws as ZlibLaws
use cpu_check.Avx.Lanes.{IsLanewise}
use cpu_check.Crypto.{self_test}
use cpu_check.Crypto.Laws as EvpLaws
use cpu_check.MalignBuffer.{MalignBuffer}
use cpu_check.PatternGenerator.Chaos.{FloatingPointResults, same_results}
use cpu_check.Worker.{
  Shared, BufferSet, Slot, held, with_held, require, keep, deref, at_original, at_compressed,
  at_encrypted, at_copied, at_decrypted, at_decompressed, at_re_made,
}
use cpu_check.Worker.{Context, World, M, ◌>>-◌, lift, unwrap, check, k_buf_max, WorkerError}

abbrev pub k_capacity : ℕ
k_capacity = 2 * k_buf_max + 1024

-- The libraries, the allocator, the kernel and the vector unit do what they document, the bound of
-- zlib stays below the capacity of the buffers, and no floating point result is a NaN.
pub record IsFaultless (ctx : Context) : Type 1 where
  pub uniform : IsUniform ctx.env.rng
  pub pages : 0 < ctx.page
  pub allocates : (n : ℕ) → (r : ℕ × List ℕ) × (ctx.allocate n ≡ some r) × (length r.1 ≡ n)
  pub drops : (mem : List ℕ) (start n : ℕ) → length (ctx.dropped mem start n) ≡ length mem
  pub vectors : IsLanewise ctx.avx_unit
  pub self_tests : self_test ctx.boringssl ≡ none
  pub zlib : ZlibLaws.IsFaultless ctx.zlib
  pub small : (n : ℕ) → n ≤ k_buf_max → ctx.zlib.compress_bound n ≤ k_capacity
  pub evp : EvpLaws.IsFaultless ctx.evp
  pub comparable :
      (fp : FloatingPointResults ctx.env.floats) → same_results ctx.env.floats fp fp ≡ true

-- A pointer of a buffer set is null, or a buffer that `Alloc` made.
abbrev pub IsAllocated : ℕ → Option MalignBuffer → Type 0
IsAllocated page none = Unit
IsAllocated page (some b) = (b.capacity ≡ k_capacity) × (b.capacity + page ≤ length b.memory)

-- So is every pointer of the set.
abbrev pub IsBufferSet : ℕ → BufferSet → Type 0
IsBufferSet page b = (i : Slot) → IsAllocated page (held i b)

pub with_held-IsBufferSet :
    (page : ℕ) (i : Slot) (x : MalignBuffer) (b : BufferSet)
    → IsBufferSet page b
    → IsAllocated page (some x)
    → IsBufferSet page (with_held i x b)
with_held-IsBufferSet page at_original x b all a at_original = a
with_held-IsBufferSet page at_compressed x b all a at_compressed = a
with_held-IsBufferSet page at_encrypted x b all a at_encrypted = a
with_held-IsBufferSet page at_copied x b all a at_copied = a
with_held-IsBufferSet page at_decrypted x b all a at_decrypted = a
with_held-IsBufferSet page at_decompressed x b all a at_decompressed = a
with_held-IsBufferSet page at_re_made x b all a at_re_made = a
with_held-IsBufferSet page at_original x b all a at_compressed = all at_compressed
with_held-IsBufferSet page at_original x b all a at_encrypted = all at_encrypted
with_held-IsBufferSet page at_original x b all a at_copied = all at_copied
with_held-IsBufferSet page at_original x b all a at_decrypted = all at_decrypted
with_held-IsBufferSet page at_original x b all a at_decompressed = all at_decompressed
with_held-IsBufferSet page at_original x b all a at_re_made = all at_re_made
with_held-IsBufferSet page at_compressed x b all a at_original = all at_original
with_held-IsBufferSet page at_compressed x b all a at_encrypted = all at_encrypted
with_held-IsBufferSet page at_compressed x b all a at_copied = all at_copied
with_held-IsBufferSet page at_compressed x b all a at_decrypted = all at_decrypted
with_held-IsBufferSet page at_compressed x b all a at_decompressed = all at_decompressed
with_held-IsBufferSet page at_compressed x b all a at_re_made = all at_re_made
with_held-IsBufferSet page at_encrypted x b all a at_original = all at_original
with_held-IsBufferSet page at_encrypted x b all a at_compressed = all at_compressed
with_held-IsBufferSet page at_encrypted x b all a at_copied = all at_copied
with_held-IsBufferSet page at_encrypted x b all a at_decrypted = all at_decrypted
with_held-IsBufferSet page at_encrypted x b all a at_decompressed = all at_decompressed
with_held-IsBufferSet page at_encrypted x b all a at_re_made = all at_re_made
with_held-IsBufferSet page at_copied x b all a at_original = all at_original
with_held-IsBufferSet page at_copied x b all a at_compressed = all at_compressed
with_held-IsBufferSet page at_copied x b all a at_encrypted = all at_encrypted
with_held-IsBufferSet page at_copied x b all a at_decrypted = all at_decrypted
with_held-IsBufferSet page at_copied x b all a at_decompressed = all at_decompressed
with_held-IsBufferSet page at_copied x b all a at_re_made = all at_re_made
with_held-IsBufferSet page at_decrypted x b all a at_original = all at_original
with_held-IsBufferSet page at_decrypted x b all a at_compressed = all at_compressed
with_held-IsBufferSet page at_decrypted x b all a at_encrypted = all at_encrypted
with_held-IsBufferSet page at_decrypted x b all a at_copied = all at_copied
with_held-IsBufferSet page at_decrypted x b all a at_decompressed = all at_decompressed
with_held-IsBufferSet page at_decrypted x b all a at_re_made = all at_re_made
with_held-IsBufferSet page at_decompressed x b all a at_original = all at_original
with_held-IsBufferSet page at_decompressed x b all a at_compressed = all at_compressed
with_held-IsBufferSet page at_decompressed x b all a at_encrypted = all at_encrypted
with_held-IsBufferSet page at_decompressed x b all a at_copied = all at_copied
with_held-IsBufferSet page at_decompressed x b all a at_decrypted = all at_decrypted
with_held-IsBufferSet page at_decompressed x b all a at_re_made = all at_re_made
with_held-IsBufferSet page at_re_made x b all a at_original = all at_original
with_held-IsBufferSet page at_re_made x b all a at_compressed = all at_compressed
with_held-IsBufferSet page at_re_made x b all a at_encrypted = all at_encrypted
with_held-IsBufferSet page at_re_made x b all a at_copied = all at_copied
with_held-IsBufferSet page at_re_made x b all a at_decrypted = all at_decrypted
with_held-IsBufferSet page at_re_made x b all a at_decompressed = all at_decompressed

module _ {ctx : Context} where
  -- The state of a worker with what is shared, the round, and a well-formed buffer set.
  pub record Holds (sh : Shared) (round : ℕ) (w : World ctx) : Type 0 where
    pub same_shared : w.shared ≡ sh
    pub same_round : w.round ≡ round
    pub ready : IsBufferSet ctx.page w.buffers

  -- A step returns a value with `P`, and what is shared is then `sh`.
  pub record Gives {A : Type 0} (sh : Shared) (round : ℕ)
      (x : Outcome (Result WorkerError A × World ctx)) (P : A → Type 0) : Type 0 where
    pub value : A
    pub world : World ctx
    pub returns : x ≡ done (ok value, world)
    pub leaves : Holds sh round world
    pub holds : P value

  -- What holds of the rest of a computation after such a step holds of the whole.
  pub then_goal :
      {A B : Type 0} {P : A → Type 0} {sh : Shared} {round : ℕ}
      (Goal : Outcome (Result WorkerError B × World ctx) → Type 0)
      → (m : M ctx A) (f : A → M ctx B) (w : World ctx) → Gives sh round (m w) P
      → ((a : A) (w' : World ctx) → Holds sh round w' → P a → Goal (f a w'))
      → Goal ((m >>- f) w)
  then_goal Goal m f w g next = rw g.returns (next g.value g.world g.leaves g.holds)

  pub then_Gives :
      {A B : Type 0} {P : A → Type 0} {Q : B → Type 0} {sh sh' : Shared} {round : ℕ}
      → (m : M ctx A) (f : A → M ctx B) (w : World ctx) → Gives sh round (m w) P
      → ((a : A) (w' : World ctx) → Holds sh round w' → P a → Gives sh' round (f a w') Q)
      → Gives sh' round ((m >>- f) w) Q
  then_Gives {Q} {sh'} {round} m f w g next = then_goal (λ x. Gives sh' round x Q) m f w g next

  pub lift_Gives :
      {A : Type 0} {P : A → Type 0} {sh : Shared} {round : ℕ} (o : Outcome A) (a : A)
      (w : World ctx)
      → Holds sh round w
      → o ≡ done a
      → P a
      → Gives sh round (lift o w) P
  lift_Gives o a w t e p = record {
    value = a;
    world = w;
    returns = rw e refl;
    leaves = t;
    holds = p;
  }

  pub check_Gives :
      {E : Type 0} {sh : Shared} {round : ℕ} (e : Option E) (f : E → WorkerError) (w : World ctx)
      → Holds sh round w
      → e ≡ none
      → Gives sh round (check e f w) (λ _. Unit {0})
  check_Gives e f w t fine = record {
    value = tt;
    world = w;
    returns = rw fine refl;
    leaves = t;
    holds = tt;
  }

  pub require_Gives :
      {sh : Shared} {round : ℕ} (test : Bool) (e : WorkerError) (w : World ctx)
      → Holds sh round w
      → test ≡ true
      → Gives sh round (require test e w) (λ _. Unit {0})
  require_Gives test e w t fine = record {
    value = tt;
    world = w;
    returns = rw fine refl;
    leaves = t;
    holds = tt;
  }

  pub unwrap_Gives :
      {E A : Type 0} {sh : Shared} {round : ℕ} (e : Result E A) (a : A) (f : E → WorkerError)
      (w : World ctx)
      → Holds sh round w
      → e ≡ ok a
      → Gives sh round (unwrap e f w) (λ x. x ≡ a)
  unwrap_Gives e a f w t fine = record {
    value = a;
    world = w;
    returns = rw fine refl;
    leaves = t;
    holds = refl;
  }

  pub deref_Gives :
      {sh : Shared} {round : ℕ} (o : Option MalignBuffer) (b : MalignBuffer) (w : World ctx)
      → Holds sh round w
      → o ≡ some b
      → Gives sh round (deref o w) (λ x. x ≡ b)
  deref_Gives o b w t is = record {
    value = b;
    world = w;
    returns = rw is refl;
    leaves = t;
    holds = refl;
  }

  -- A valid buffer of the full capacity may be put back.
  pub keep_Gives :
      {sh : Shared} {round : ℕ} (i : Slot) (b : MalignBuffer) (w : World ctx)
      → Holds sh round w
      → IsAllocated ctx.page (some b)
      → Gives sh round (keep i b w) (λ _. Unit {0})
  keep_Gives i b w t a = record {
    value = tt;
    world = record w { buffers = with_held i b w.buffers };
    returns = refl;
    leaves = record {
      same_shared = t.same_shared;
      same_round = t.same_round;
      ready = with_held-IsBufferSet ctx.page i b w.buffers t.ready a;
    };
    holds = tt;
  }
