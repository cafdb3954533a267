-- ===== src/Worker/Compute.antt =====
-- `DoComputations`.
use cpu_check.Base.{ℕ, List, [], if◌then◌else◌}
use cpu_check.Base.Outcome.{done, ok}
use cpu_check.Avx.{maybe_go_hot, burn_if_avx_heavy}
use cpu_check.Compressor.{compress}
use cpu_check.Crypto.{CryptoPurse, encrypt, self_test}
use cpu_check.Hasher.{hash}
use cpu_check.MalignBuffer.{MalignBuffer}
use cpu_check.MalignBuffer.Syndrome.{copy_from}
use cpu_check.PatternGenerator.{generate}
use cpu_check.PatternGenerator.Chaos.{FloatingPointResults}
use cpu_check.Silkscreen.{write_my_slots}
use cpu_check.Worker.{
  Context, Choices, Shared, M, store, deref, at_original, at_compressed, at_encrypted, at_copied,
  Slot, ◌>>-◌, lift, unwrap, check, maybe_flush, destination, advise, avx_heavy, crypto,
  silkscreen_write, compression, writer_detected_copy,
}

pub record Checksums (ctx : Context) : Type 0 where
  pub hash_value : List ℕ
  pub floating_point_results : FloatingPointResults ctx.env.floats
  pub crypto_purse : CryptoPurse

-- The checksums, and the buffers that the checker reads.
pub record Computed (ctx : Context) : Type 0 where
  pub checksums : Checksums ctx
  pub original : MalignBuffer
  pub pre_encrypted : MalignBuffer
  pub pre_copied : MalignBuffer
  pub copied : MalignBuffer

module _ (ctx : Context) where
  -- `avx_.MaybeGoHot()` and `avx_.BurnIfAvxHeavy()`.
  unfoldable pub go_hot : M ctx Unit
  go_hot w =
      let (e, a) = maybe_go_hot ctx.env.rng ctx.avx_unit w.avx in
      if ctx.options.do_avx_heavy then check e avx_heavy (record w { avx = a }) else done (ok tt, w)

  unfoldable pub burn : M ctx Unit
  burn w =
      let (e, a) = burn_if_avx_heavy ctx.avx_unit w.avx in
      if ctx.options.do_avx_heavy then check e avx_heavy (record w { avx = a }) else done (ok tt, w)

  unfoldable pub test_ssl : M ctx Unit
  test_ssl w =
      if ctx.options.do_ssl_self_check
      then check (self_test ctx.boringssl) crypto w
      else done (ok tt, w)

  unfoldable pub write_silkscreen : M ctx Unit
  write_silkscreen w =
      let (sc, e) = write_my_slots ctx.tid w.round w.shared.silkscreen in
      let shared : Shared = record w.shared { silkscreen = sc } in
      check e silkscreen_write (record w { shared = shared })

  unfoldable pub compress_head : Choices → MalignBuffer → M ctx MalignBuffer
  compress_head choices head =
      if ctx.options.do_compress
      then (destination ctx at_compressed choices.buf_size >>- λ dest. maybe_flush ctx dest >>- λ _.
          store at_compressed (compress ctx.zlib ctx.page head dest) >>- λ (out, e).
          check e compression >>- λ _. maybe_flush ctx out >>- λ _. lift (done out))
      else lift (done head)

  -- The cipher text and the purse; the purse has no value when nothing is encrypted.
  unfoldable pub encrypt_head : Choices → MalignBuffer → M ctx (MalignBuffer × CryptoPurse)
  encrypt_head choices head =
      if ctx.options.do_encrypt
      then (destination ctx at_encrypted head.buffer_length >>- λ dest.
          maybe_flush ctx dest >>- λ _.
          store at_encrypted (encrypt ctx.evp head (advise ctx choices.madvise dest))
          >>- λ (out, r).
              unwrap r crypto >>- λ purse. maybe_flush ctx out >>- λ _. lift (done (out, purse)))
      else lift (done (head, record { i_vec = []; gmac_tag = [] }))

  -- The copy is checked as it is made.
  unfoldable pub copy_head : Choices → MalignBuffer → M ctx MalignBuffer
  copy_head choices head = destination ctx at_copied head.buffer_length >>- λ dest.
      maybe_flush ctx dest >>- λ _.
      store at_copied (copy_from head choices.how.copy_method (advise ctx choices.madvise dest))
      >>- λ (out, syndrome).
          check syndrome writer_detected_copy >>- λ _. maybe_flush ctx out >>- λ _. lift (done out)

  -- `Generate` into a buffer of the set.
  unfoldable pub make :
      Slot → Choices → MalignBuffer → M ctx (MalignBuffer × FloatingPointResults ctx.env.floats)
  make i choices b w =
      store i (generate ctx.env w.round choices.pattern_generator choices.hole choices.how b) w

  -- What follows the first writes, from the dereference of `original` on.
  unfoldable pub compute_from : Choices → M ctx (Computed ctx)
  unfolding make compress_head encrypt_head copy_head
  compute_from choices = (λ w. deref w.buffers.original w) >>- λ blank.
      make at_original choices blank >>- λ (original, fp). maybe_flush ctx original >>- λ _.
      compress_head choices original >>- λ pre_encrypted.
      encrypt_head choices pre_encrypted >>- λ (pre_copied, purse).
      copy_head choices pre_copied >>- λ copied. lift (
        done (record {
          checksums = record {
            hash_value =
                if ctx.options.do_hashes then hash ctx.hashes choices.hasher original else [];
            floating_point_results = fp;
            crypto_purse = purse;
          };
          original = original;
          pre_encrypted = pre_encrypted;
          pre_copied = pre_copied;
          copied = copied;
        }))

  unfoldable pub do_computations : Choices → M ctx (Computed ctx)
  unfolding go_hot burn test_ssl write_silkscreen compute_from
  do_computations choices =
      go_hot >>- λ _. test_ssl >>- λ _. write_silkscreen >>- λ _. burn >>- λ _. compute_from choices
