-- ===== src/Worker.antt =====
-- The class `Worker` of cpu_check.cc: what its functions share. `M` is their effect: they draw from
-- the worker's engine, change its buffers and what the threads share, and return a `Status`. A
-- pointer to a buffer that is not changed while the pointer is held is the buffer; `keep` puts back
-- what an operation made of the buffer of a set. The text of an error is its data.
pub mod Compute
pub mod Check
pub mod Choose
pub mod Run
pub mod System
pub mod Faultless
pub mod Steps
pub mod Stages
pub mod Inverse
pub mod Quiet
pub mod Writer
pub mod Checker
pub mod Laws
pub mod Post
pub mod Sound
mod Example
mod Tests
use cpu_check.Base.{
  ℕ, ◌+◌, ◌-◌, ◌*◌, ◌^◌, Bool, true, false, Option, none, some, List, ltb, ◌||◌, if◌then◌else◌,
}
use cpu_check.Base.Int.{ℤ}
use cpu_check.Base.Outcome.{Outcome, done, fault, ◌>>=◌, Result, ok, error}
use cpu_check.Avx.{Avx}
use cpu_check.Avx.Vectors.{AvxUnit, AvxSyndrome}
use cpu_check.Compressor.{Zlib, ZlibError}
use cpu_check.Crypto.{Evp, CryptoPurse, CryptoError}
use cpu_check.Hasher.{Hasher, HashLibs}
use cpu_check.MalignBuffer.{
  MalignBuffer, CopyMethod, PunchedHole, new_malign_buffer, initialize, random_alignment,
}
use cpu_check.MalignBuffer.Ranges.{random_flush, madvise_dont_need}
use cpu_check.MalignBuffer.Syndrome.{Syndrome}
use cpu_check.PatternGenerator.{Env, Generator, How}
use cpu_check.PatternGenerator.Chaos.{FloatingPointResults}
use cpu_check.Silkscreen.{Silkscreen, SlotError, Verdict}

-- The flags of the command line, with `kErrorLimit` in `error_limit`.
pub record Options : Type 0 where
  pub do_madvise : Bool
  pub do_repmovsb : Bool
  pub do_sse_128_memcpy : Bool
  pub do_avx_256_memcpy : Bool
  pub do_avx_512_memcpy : Bool
  pub do_avx_heavy : Bool
  pub do_compress : Bool
  pub do_encrypt : Bool
  pub do_hashes : Bool
  pub do_misalign : Bool
  pub do_hop : Bool
  pub do_ssl_self_check : Bool
  pub do_flush : Bool
  pub do_provenance : Bool
  pub do_repstosb : Bool
  pub do_freq_sweep : Bool
  pub do_freq_hi_lo : Bool
  pub do_noise : Bool
  pub do_invert_cores : Bool
  pub fixed_min_frequency : ℤ
  pub fixed_max_frequency : ℤ
  pub do_fvt : Bool
  pub do_fast_string_ops : Bool
  pub seconds_per_freq : ℤ
  pub error_limit : ℕ

-- What a worker runs on: the flags, the libraries, the page and cache line sizes, the allocator,
-- what the memory of a buffer holds once the kernel has dropped `n` bytes of it from `start` on,
-- `std::shuffle`, the logical processors, with those of the list `-c` and the worker's own, and the
-- deadline of the stopper.
pub record Context : Type 1 where
  pub env : Env
  pub options : Options
  pub avx_unit : AvxUnit env.rng.S
  pub boringssl : Option ℕ
  pub zlib : Zlib
  pub evp : Evp
  pub hashes : HashLibs
  pub page : ℕ
  pub line : ℕ
  pub allocate : ℕ → Option (ℕ × List ℕ)
  pub dropped : List ℕ → ℕ → ℕ → List ℕ
  pub shuffle : List ℕ → env.rng.S → List ℕ × env.rng.S
  pub hardware_concurrency : ℕ
  pub tid_list : List ℕ
  pub tid : ℕ
  pub t_stop : Option ℕ

abbrev pub k_buf_max : ℕ
k_buf_max = 2 ^ 20

pub record Choices : Type 0 where
  pub madvise : Bool
  pub how : How
  pub pattern_generator : Generator
  pub hasher : Hasher
  pub buf_size : ℕ
  pub hole : PunchedHole

-- The first argument of `ReturnError`, with the syndrome or the message that is shown.
pub data WorkerError : Type 0 where
  avx_heavy : AvxSyndrome → WorkerError
  crypto : CryptoError → WorkerError
  silkscreen_write : SlotError → WorkerError
  silkscreen_check : Verdict → WorkerError
  compression uncompression : ZlibError → WorkerError
  writer_detected_copy copy decryption_mismatch re_make : Syndrome → WorkerError
  decompressed_size : ℕ → ℕ → WorkerError
  fp_double hash_mismatch : WorkerError

-- The buffers of a set; `none` is a null pointer.
pub data Slot : Type 0 where
  at_original at_compressed at_encrypted at_copied : Slot
  at_decrypted at_decompressed at_re_made : Slot

pub record BufferSet : Type 0 where
  pub original : Option MalignBuffer
  pub compressed : Option MalignBuffer
  pub encrypted : Option MalignBuffer
  pub copied : Option MalignBuffer
  pub decrypted : Option MalignBuffer
  pub decompressed : Option MalignBuffer
  pub re_made : Option MalignBuffer

abbrev pub held : Slot → BufferSet → Option MalignBuffer
held at_original b = b.original
held at_compressed b = b.compressed
held at_encrypted b = b.encrypted
held at_copied b = b.copied
held at_decrypted b = b.decrypted
held at_decompressed b = b.decompressed
held at_re_made b = b.re_made

abbrev pub with_held : Slot → MalignBuffer → BufferSet → BufferSet
with_held at_original x b = record b { original = some x }
with_held at_compressed x b = record b { compressed = some x }
with_held at_encrypted x b = record b { encrypted = some x }
with_held at_copied x b = record b { copied = some x }
with_held at_decrypted x b = record b { decrypted = some x }
with_held at_decompressed x b = record b { decompressed = some x }
with_held at_re_made x b = record b { re_made = some x }

-- What the worker threads share: the silkscreen, the two counters, and whether the stopper was told
-- to stop. `suspects` are the processors that the log has named, the last one first.
pub record Shared : Type 0 where
  pub silkscreen : Silkscreen
  pub error_count : ℕ
  pub success_count : ℕ
  pub stopped : Bool
  pub suspects : List ℕ

module _ (ctx : Context) where
  -- The state of a worker, and what it shares.
  pub record World : Type 0 where
    pub rndeng : ctx.env.rng.S
    pub avx : Avx ctx.env.rng.S
    pub round : ℕ
    pub buffers : BufferSet
    pub shared : Shared

  abbrev pub M : Type 0 → Type 0
  M A = World → Outcome (Result WorkerError A × World)

infixl 5 ◌>>-◌
abbrev pub ◌>>-◌ : {ctx : Context} {A B : Type 0} → M ctx A → (A → M ctx B) → M ctx B
(m >>- f) w = m w >>= λ (r, w'). elim r [ ok a ↦ f a w' | error e ↦ done (error e, w') ]

abbrev pub lift : {ctx : Context} {A : Type 0} → Outcome A → M ctx A
lift o w = o >>= λ a. done (ok a, w)

-- `ReturnError`, which stops all workers if there were more errors than the limit before this one.
unfoldable pub return_error : {ctx : Context} {A : Type 0} → WorkerError → M ctx A
return_error {ctx} e w =
    let over = ltb ctx.options.error_limit w.shared.error_count in
    let shared : Shared = record w.shared { stopped = w.shared.stopped || over } in
    done (error e, record w { shared = shared })

-- `ReturnError` if there is an error.
abbrev pub check : {ctx : Context} {E : Type 0} → Option E → (E → WorkerError) → M ctx Unit
check none f w = done (ok tt, w)
check (some e) f w = return_error (f e) w

abbrev pub unwrap : {ctx : Context} {E A : Type 0} → Result E A → (E → WorkerError) → M ctx A
unwrap (ok a) f w = done (ok a, w)
unwrap (error e) f w = return_error (f e) w

-- `ReturnError` unless a test holds.
abbrev pub require : {ctx : Context} → Bool → WorkerError → M ctx Unit
require true e w = done (ok tt, w)
require false e w = return_error e w

-- The buffer of the set is `b` from here on.
abbrev pub keep : {ctx : Context} → Slot → MalignBuffer → M ctx Unit
keep i b w = done (ok tt, record w { buffers = with_held i b w.buffers })

-- An operation on the buffer of the set, with some result.
abbrev pub store :
    {ctx : Context} {E : Type 0} → Slot → Outcome (MalignBuffer × E) → M ctx (MalignBuffer × E)
store i o w = o >>= λ p. keep i p.0 w >>= λ (_, w'). done (ok p, w')

-- A pointer of the set that is dereferenced.
abbrev pub deref : {ctx : Context} → Option MalignBuffer → M ctx MalignBuffer
deref none w = fault
deref (some b) w = done (ok b, w)

module _ (ctx : Context) where
  -- `Alignment`; `Seed` is its first draw.
  unfoldable pub alignment : M ctx ℕ
  alignment w =
      let (seed, s) = ctx.env.rng.draw 0 (2 ^ 64 - 1) w.rndeng in
      if ctx.options.do_misalign
      then done (ok (random_alignment ctx.env.rng ctx.page seed), record w { rndeng = s })
      else done (ok 0, w)

  -- `MaybeFlush`.
  unfoldable pub maybe_flush : MalignBuffer → M ctx Unit
  maybe_flush b w =
      let (flush, s) = ctx.env.rng.draw 0 1 w.rndeng in
      let flushed : ctx.env.rng.S =
        if ltb 0 flush then (random_flush ctx.env.rng ctx.line b s).1 else s in
      done (ok tt, if ctx.options.do_flush then record w { rndeng = flushed } else w)

  -- `if (!b->x) b->Alloc(&b->x)`, for what the buffer set holds at `x`.
  unfoldable pub alloc : Option MalignBuffer → Outcome MalignBuffer
  alloc (some b) = done b
  alloc none = new_malign_buffer ctx.allocate ctx.page (2 * k_buf_max + 1024)

  -- A destination: it is allocated, and initialized at some alignment.
  unfoldable pub destination : Slot → ℕ → M ctx MalignBuffer
  unfolding alloc alignment
  destination i size w =
      (lift (alloc (held i w.buffers)) >>- λ b. alignment >>- λ a.
      lift (initialize ctx.page a size b) >>- λ d. keep i d >>- λ _. lift (done d))
        w

  -- `MadviseDontNeed`, if it was chosen.
  unfoldable pub advise : Bool → MalignBuffer → MalignBuffer
  advise madvise b =
      if madvise
      then elim (madvise_dont_need ctx.page b) [
        | none ↦ b
        | some (start, n) ↦ record b { memory = ctx.dropped b.memory (start - b.base_address) n }
      ]
      else b
