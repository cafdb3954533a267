-- ===== src/Worker/Sound.antt =====
-- What the checker has verified when it accepts, on any machine.
pub mod Stages
pub mod Laws
use cpu_check.Base.{
  ℕ, ◌≡◌, refl, ap, ◌∙◌, Bool, Option, true, false, none, List, [], ◌∷◌, ◌==◌, ◌&&◌, arith,
  Bool-cases, inl, inr,
}
use cpu_check.Base.Outcome.{Outcome, done, Result, ok}
use cpu_check.Crypto.{CryptoError, decrypt}
use cpu_check.Compressor.{ZlibError, decompress}
use cpu_check.Hasher.{hash}
use cpu_check.MalignBuffer.{MalignBuffer, contents}
use cpu_check.MalignBuffer.Syndrome.{syndrome}
use cpu_check.MalignBuffer.Syndrome.Laws.{corruption_syndrome-none}
use cpu_check.PatternGenerator.{generate}
use cpu_check.PatternGenerator.Chaos.{FloatingPointResults, same_results}
use cpu_check.Silkscreen.{Verdict, passed, threw, failed, check_my_slots}
use cpu_check.Worker.{
  Context, Choices, World, WorkerError, M, ◌>>-◌, check, require, return_error, store, maybe_flush,
  destination, advise, copy, crypto, uncompression, decompressed_size, decryption_mismatch, re_make,
  fp_double, hash_mismatch, at_decrypted, at_decompressed, at_re_made,
}
use cpu_check.Worker.Compute.{Computed, make}
use cpu_check.Worker.Check.{
  same_text, decrypt_head, decompress_head, remake, check_hash, check_silkscreen,
  check_computations,
}
use cpu_check.Worker.Post.{
  Post, map_Post, then_Post, any_Post, return_Post, lift-Post, store-Post, check-Post, require-Post,
}

pub same_text-eq : (xs ys : List ℕ) → same_text xs ys ≡ true → xs ≡ ys
unfolding same_text
same_text-eq [] [] e = refl
same_text-eq [] (y ∷ ys) e = absurd (ground arith)
same_text-eq (x ∷ xs) [] e = absurd (ground arith)
same_text-eq (x ∷ xs) (y ∷ ys) e = ground (arith, same_text-eq xs ys)

pub syndrome-none : (b c : MalignBuffer) → syndrome b c ≡ none → contents b ≡ contents c
unfolding syndrome
syndrome-none b c e = (corruption_syndrome-none (contents b) (contents c)).0 e

module _ (ctx : Context) where
  -- With encryption `b` is what the cipher text of `head` was decrypted to, and it is what was
  -- encrypted; without, it is `head`.
  abbrev pub IsDecrypted : Computed ctx → MalignBuffer → MalignBuffer → Type 0
  IsDecrypted c head b =
      (ctx.options.do_encrypt ≡ true
        → (dest : MalignBuffer) × (decrypt ctx.evp head c.checksums.crypto_purse dest
            ≡ done (b, none))
          × (contents c.pre_encrypted ≡ contents b))
      × (ctx.options.do_encrypt ≡ false → b ≡ head)

  -- With compression `b` is what `head` was decompressed to, and it has the size of the original;
  -- without, it is `head`.
  abbrev pub IsDecompressed : Choices → MalignBuffer → MalignBuffer → Type 0
  IsDecompressed choices head b =
      (ctx.options.do_compress ≡ true
        → (dest : MalignBuffer) × (decompress ctx.zlib ctx.page head dest ≡ done (b, none))
          × (b.buffer_length ≡ choices.buf_size))
      × (ctx.options.do_compress ≡ false → b ≡ head)

  -- The pattern, made again in some buffer, is the original, and the floating point results agree.
  pub record IsRemade (choices : Choices) (c : Computed ctx) : Type 0 where
    pub round : ℕ
    pub destination : MalignBuffer
    pub made : MalignBuffer
    pub results : FloatingPointResults ctx.env.floats
    pub makes :
        generate ctx.env round choices.pattern_generator choices.hole choices.how destination
        ≡ done (made, results)
    pub same : contents c.original ≡ contents made
    pub agree : same_results ctx.env.floats c.checksums.floating_point_results results ≡ true

  -- What was verified, by the state in which the checker accepts.
  pub record IsVerified (choices : Choices) (c : Computed ctx) (w : World ctx) : Type 0 where
    pub copied : contents c.copied ≡ contents c.pre_copied
    pub plain : MalignBuffer
    pub decrypted : IsDecrypted c c.copied plain
    pub head : MalignBuffer
    pub decompressed : IsDecompressed choices plain head
    pub remade : IsRemade choices c
    pub hashed :
        ctx.options.do_hashes ≡ true → c.checksums.hash_value ≡ hash ctx.hashes choices.hasher head
    pub slots : check_my_slots ctx.tid w.round w.shared.silkscreen ≡ passed

  abbrev pub Sound :
      {A : Type 0} → (A → World ctx → Type 0) → Outcome (Result WorkerError A × World ctx) → Type 0
  Sound P o = Post P (λ _ _. Unit {0}) o

  pub failing :
      {A : Type 0} {P : A → World ctx → Type 0} (e : WorkerError) (w : World ctx)
      → Sound P (return_error {A = A} e w)
  unfolding return_error
  failing e w = record { after = tt }

  pub then_Sound :
      {A B : Type 0} {P : A → World ctx → Type 0} {Q : B → World ctx → Type 0} (m : M ctx A)
      (f : A → M ctx B) (w : World ctx)
      → Sound P (m w)
      → ((a : A) (w' : World ctx) → P a w' → Sound Q (f a w'))
      → Sound Q ((m >>- f) w)
  then_Sound m f w h next = then_Post m f w h next
