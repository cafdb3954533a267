-- ===== src/Worker/Check.antt =====
-- `CheckComputations`.
use cpu_check.Base.{ℕ, Bool, true, false, List, [], ◌∷◌, ◌==◌, ◌&&◌, if◌then◌else◌}
use cpu_check.Base.Outcome.{Outcome, done, fatal, Result, ok}
use cpu_check.Compressor.{decompress}
use cpu_check.Crypto.{decrypt}
use cpu_check.Hasher.{hash}
use cpu_check.MalignBuffer.{MalignBuffer}
use cpu_check.MalignBuffer.Syndrome.{syndrome}
use cpu_check.PatternGenerator.Chaos.{same_results}
use cpu_check.Silkscreen.{check_my_slots, passed, threw, failed}
use cpu_check.Worker.{
  Context, Choices, World, M, ◌>>-◌, require, store, return_error, at_decrypted, at_decompressed,
  at_re_made, lift, check, maybe_flush, destination, advise, crypto, silkscreen_check,
  uncompression, copy, decryption_mismatch, re_make, decompressed_size, fp_double, hash_mismatch,
  WorkerError,
}
use cpu_check.Worker.Compute.{Computed, make}

-- `==` of two strings.
unfoldable pub same_text : List ℕ → List ℕ → Bool
same_text [] [] = true
same_text (x ∷ xs) (y ∷ ys) = x == y && same_text xs ys
same_text _ _ = false

module _ (ctx : Context) where
  unfoldable pub decrypt_head : Choices → Computed ctx → MalignBuffer → M ctx MalignBuffer
  decrypt_head choices c head =
      if ctx.options.do_encrypt
      then (destination ctx at_decrypted head.buffer_length >>- λ dest.
          maybe_flush ctx dest >>- λ _.
          store at_decrypted
            (decrypt ctx.evp head c.checksums.crypto_purse (advise ctx choices.madvise dest))
          >>- λ (out, e). check e crypto >>- λ _. maybe_flush ctx out >>- λ _.
              check (syndrome c.pre_encrypted out) decryption_mismatch >>- λ _. lift (done out))
      else lift (done head)

  unfoldable pub decompress_head : Choices → MalignBuffer → M ctx MalignBuffer
  decompress_head choices head =
      if ctx.options.do_compress
      then (destination ctx at_decompressed choices.buf_size >>- λ dest.
          maybe_flush ctx dest >>- λ _.
          store at_decompressed
            (decompress ctx.zlib ctx.page head (advise ctx choices.madvise dest))
          >>- λ (out, e). check e uncompression >>- λ _.
              require (out.buffer_length == choices.buf_size)
                (decompressed_size out.buffer_length choices.buf_size)
              >>- λ _. maybe_flush ctx out >>- λ _. lift (done out))
      else lift (done head)

  -- The pattern is made again, and compared.
  unfoldable pub remake : Choices → Computed ctx → M ctx Unit
  unfolding make
  remake choices c = destination ctx at_re_made choices.buf_size >>- λ dest.
      make ctx at_re_made choices dest >>- λ (out, fp).
      check (syndrome c.original out) re_make >>- λ _.
      require (same_results ctx.env.floats c.checksums.floating_point_results fp) fp_double

  unfoldable pub check_hash : Choices → Computed ctx → MalignBuffer → M ctx Unit
  check_hash choices c head =
      if ctx.options.do_hashes
      then require (same_text c.checksums.hash_value (hash ctx.hashes choices.hasher head))
          hash_mismatch
      else lift (done tt)

  unfoldable pub check_silkscreen : M ctx Unit
  check_silkscreen w =
      elim (check_my_slots ctx.tid w.round w.shared.silkscreen)
        as (λ _. Outcome (Result WorkerError Unit × World ctx)) [
          | passed ↦ done (ok tt, w)
          | threw ↦ fatal
          | failed e n ↦ return_error (silkscreen_check (failed e n)) w
        ]

  unfoldable pub check_computations : Choices → Computed ctx → M ctx Unit
  unfolding decrypt_head decompress_head remake check_hash check_silkscreen
  check_computations choices c = check (syndrome c.copied c.pre_copied) copy >>- λ _.
      maybe_flush ctx c.copied >>- λ _. decrypt_head choices c c.copied >>- λ decrypted.
      decompress_head choices decrypted >>- λ head.
      remake choices c >>- λ _. check_hash choices c head >>- λ _. check_silkscreen
