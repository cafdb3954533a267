-- ===== src/Worker/Sound/Stages.antt =====
-- What each stage of the checker has verified when it returns a value.
use cpu_check.Base.{◌≡◌, refl, ap, ◌∙◌, Option, true, none, ◌==◌, arith, Bool-cases, inl, inr}
use cpu_check.Base.Outcome.{done}
use cpu_check.Crypto.{CryptoError, decrypt}
use cpu_check.Compressor.{ZlibError, decompress}
use cpu_check.Hasher.{hash}
use cpu_check.MalignBuffer.{MalignBuffer}
use cpu_check.MalignBuffer.Syndrome.{syndrome}
use cpu_check.PatternGenerator.{generate}
use cpu_check.PatternGenerator.Chaos.{same_results}
use cpu_check.Silkscreen.{Verdict, passed, threw, failed, check_my_slots}
use cpu_check.Worker.{
  Context, Choices, World, check, require, store, maybe_flush, destination, advise, crypto,
  uncompression, decompressed_size, decryption_mismatch, re_make, fp_double, hash_mismatch,
  at_decrypted, at_decompressed, at_re_made,
}
use cpu_check.Worker.Compute.{Computed, make}
use cpu_check.Worker.Check.{
  same_text, decrypt_head, decompress_head, remake, check_hash, check_silkscreen,
}
use cpu_check.Worker.Post.{any_Post, return_Post, store-Post, check-Post, require-Post}
use cpu_check.Worker.Sound.{
  IsDecrypted, IsDecompressed, IsRemade, Sound, failing, then_Sound, same_text-eq, syndrome-none,
}

module _ (ctx : Context) where
  pub decrypt_head-Sound :
      (choices : Choices) (c : Computed ctx) (head : MalignBuffer) (w : World ctx)
      → Sound ctx (λ b _. IsDecrypted ctx c head b) (decrypt_head ctx choices c head w)
  unfolding decrypt_head
  decrypt_head-Sound choices c head w = elim (Bool-cases ctx.options.do_encrypt) [
    | inr off ↦ simp off (return_Post head w ((λ on. absurd (ground arith)), λ _. refl))
    | inl on ↦ simp on (
        then_Sound ctx (destination ctx at_decrypted head.buffer_length) _ w
          (any_Post (destination ctx at_decrypted head.buffer_length w))
          (λ dest w1 _.
            then_Sound ctx (maybe_flush ctx dest) _ w1 (any_Post (maybe_flush ctx dest w1))
              (λ _ w2 _.
                let dest' = advise ctx choices.madvise dest in
                let o = decrypt ctx.evp head c.checksums.crypto_purse dest' in
                then_Sound ctx {P = λ x _. o ≡ done x} (store at_decrypted o) _ w2
                  (store-Post at_decrypted o w2 (λ p e. e))
                  (λ x w3 opens.
                    then_Sound ctx {P = λ _ _. x.1 ≡ none} (check x.1 crypto) _ w3
                      (check-Post x.1 crypto w3 (λ e. e) (λ e. failing ctx e w3))
                      (λ _ w4 fine.
                        then_Sound ctx (maybe_flush ctx x.0) _ w4
                          (any_Post (maybe_flush ctx x.0 w4))
                          (λ _ w5 _.
                            let s = syndrome c.pre_encrypted x.0 in
                            then_Sound ctx {P = λ _ _. s ≡ none} (check s decryption_mismatch) _ w5
                              (check-Post s decryption_mismatch w5 (λ e. e) (λ e. failing ctx e w5))
                              (λ _ w6 e. return_Post x.0 w6 (
                                (λ _. (
                                  dest',
                                  opens ∙ ap (λ (y : Option CryptoError). done (x.0, y)) fine,
                                  syndrome-none c.pre_encrypted x.0 e,
                                )),
                                λ off. absurd (ground (arith, on, off)),
                              ))))))))
  ]

  pub decompress_head-Sound :
      (choices : Choices) (head : MalignBuffer) (w : World ctx)
      → Sound ctx (λ b _. IsDecompressed ctx choices head b) (decompress_head ctx choices head w)
  unfolding decompress_head
  decompress_head-Sound choices head w = elim (Bool-cases ctx.options.do_compress) [
    | inr off ↦ simp off (return_Post head w ((λ on. absurd (ground arith)), λ _. refl))
    | inl on ↦ simp on (
        then_Sound ctx (destination ctx at_decompressed choices.buf_size) _ w
          (any_Post (destination ctx at_decompressed choices.buf_size w))
          (λ dest w1 _.
            then_Sound ctx (maybe_flush ctx dest) _ w1 (any_Post (maybe_flush ctx dest w1))
              (λ _ w2 _.
                let dest' = advise ctx choices.madvise dest in
                let o = decompress ctx.zlib ctx.page head dest' in
                then_Sound ctx {P = λ x _. o ≡ done x} (store at_decompressed o) _ w2
                  (store-Post at_decompressed o w2 (λ p e. e))
                  (λ x w3 unpacks.
                    then_Sound ctx {P = λ _ _. x.1 ≡ none} (check x.1 uncompression) _ w3
                      (check-Post x.1 uncompression w3 (λ e. e) (λ e. failing ctx e w3))
                      (λ _ w4 fine.
                        let test = x.0.buffer_length == choices.buf_size in
                        let e = decompressed_size x.0.buffer_length choices.buf_size in
                        then_Sound ctx {P = λ _ _. test ≡ true} (require test e) _ w4
                          (require-Post test e w4 (λ e. e) (λ e. failing ctx e w4))
                          (λ _ w5 long.
                            then_Sound ctx (maybe_flush ctx x.0) _ w5
                              (any_Post (maybe_flush ctx x.0 w5))
                              (λ _ w6 _. return_Post x.0 w6 (
                                (λ _. (
                                  dest',
                                  unpacks ∙ ap (λ (y : Option ZlibError). done (x.0, y)) fine,
                                  ground (arith, long),
                                )),
                                λ off. absurd (ground (arith, on, off)),
                              ))))))))
  ]

  pub remake-Sound :
      (choices : Choices) (c : Computed ctx) (w : World ctx)
      → Sound ctx (λ _ _. IsRemade ctx choices c) (remake ctx choices c w)
  unfolding remake make
  remake-Sound choices c w =
      then_Sound ctx (destination ctx at_re_made choices.buf_size) _ w
        (any_Post (destination ctx at_re_made choices.buf_size w))
        (λ dest w1 _.
          let o =
            generate ctx.env w1.round choices.pattern_generator choices.hole choices.how dest in
          then_Sound ctx {P = λ x _. o ≡ done x} (make ctx at_re_made choices dest) _ w1
            (store-Post at_re_made o w1 (λ p e. e))
            (λ x w2 made.
              let s = syndrome c.original x.0 in
              let t = same_results ctx.env.floats c.checksums.floating_point_results x.1 in
              then_Sound ctx {P = λ _ _. s ≡ none} (check s re_make) _ w2
                (check-Post s re_make w2 (λ e. e) (λ e. failing ctx e w2))
                (λ _ w3 e.
                  require-Post t fp_double w3
                    (λ agree. record {
                      round = w1.round;
                      destination = dest;
                      made = x.0;
                      results = x.1;
                      makes = made;
                      same = syndrome-none c.original x.0 e;
                      agree = agree;
                    })
                    (λ e. failing ctx e w3))))

  pub check_hash-Sound :
      (choices : Choices) (c : Computed ctx) (head : MalignBuffer) (w : World ctx)
      → Sound ctx
          (λ _ _.
            ctx.options.do_hashes ≡ true
            → c.checksums.hash_value ≡ hash ctx.hashes choices.hasher head)
          (check_hash ctx choices c head w)
  unfolding check_hash
  check_hash-Sound choices c head w = elim (Bool-cases ctx.options.do_hashes) [
    | inr off ↦ simp off (return_Post tt w (λ on. absurd (ground arith)))
    | inl on ↦
        let is = hash ctx.hashes choices.hasher head in
        simp on (
          require-Post (same_text c.checksums.hash_value is) hash_mismatch w
            (λ same _. same_text-eq c.checksums.hash_value is same) (λ e. failing ctx e w))
  ]

  pub check_silkscreen-Sound :
      (w : World ctx)
      → Sound ctx
          (λ _ w'. check_my_slots ctx.tid w'.round w'.shared.silkscreen ≡ passed)
          (check_silkscreen ctx w)
  unfolding check_silkscreen
  check_silkscreen-Sound w = go (check_my_slots ctx.tid w.round w.shared.silkscreen) refl
    where
      go :
          (v : Verdict)
          → check_my_slots ctx.tid w.round w.shared.silkscreen ≡ v
          → Sound ctx
              (λ _ w'. check_my_slots ctx.tid w'.round w'.shared.silkscreen ≡ passed)
              (check_silkscreen ctx w)
      go passed e = rw (check_silkscreen, e) (return_Post tt w e)
      go threw e = rw (check_silkscreen, e) (record { after = tt })
      go (failed s n) e = rw (check_silkscreen, e) (failing ctx _ w)
