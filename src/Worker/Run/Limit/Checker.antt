-- ===== src/Worker/Run/Limit/Checker.antt =====
-- How the checker counts errors and tells the stopper, on any machine.
use cpu_check.Base.{ℕ, ◌==◌, ◌≡◌, ◌⊎◌, refl, Bool, Option, Bool-cases, inl, inr}
use cpu_check.Compressor.{decompress}
use cpu_check.Crypto.{decrypt}
use cpu_check.Hasher.{hash}
use cpu_check.MalignBuffer.{MalignBuffer}
use cpu_check.MalignBuffer.Syndrome.{syndrome}
use cpu_check.PatternGenerator.Chaos.{same_results}
use cpu_check.Silkscreen.{Verdict, SlotError, passed, threw, failed, check_my_slots}
use cpu_check.Worker.{
  Context, Choices, World, check, require, store, maybe_flush, destination, advise, crypto,
  uncompression, decompressed_size, decryption_mismatch, re_make, fp_double, hash_mismatch, copy,
  at_decrypted, at_decompressed, at_re_made,
}
use cpu_check.Worker.Compute.{Computed, make}
use cpu_check.Worker.Check.{
  same_text, decrypt_head, decompress_head, remake, check_hash, check_silkscreen,
  check_computations,
}
use cpu_check.Worker.Post.{return_Post}
use cpu_check.Worker.Run.Limit.{
  Same, Step, return_error_Step, check-Step, require-Step, store-Step, then_Step, maybe_flush-Step,
  destination_Step, make-Step,
}

Verdict-cases :
    (v : Verdict)
    → (v ≡ passed) ⊎ ((v ≡ threw) ⊎ ((e : Option SlotError) × (n : ℕ) × (v ≡ failed e n)))
Verdict-cases passed = inl refl
Verdict-cases threw = inr (inl refl)
Verdict-cases (failed e n) = inr (inr (e, n, refl))

module _ (ctx : Context) (n : ℕ) (b : Bool) (choices : Choices) (c : Computed ctx) where
  decrypt_head-Step :
      (head : MalignBuffer) (w : World ctx)
      → Same ctx n b w
      → Step ctx n b (decrypt_head ctx choices c head w)
  unfolding decrypt_head
  decrypt_head-Step head w h = elim (Bool-cases ctx.options.do_encrypt) [
    | inr off ↦ simp off (return_Post head w h)
    | inl on ↦ simp on (
        then_Step ctx n b (destination ctx at_decrypted head.buffer_length) _ w
          (destination_Step ctx n b at_decrypted head.buffer_length w h)
          (λ dest w1 h1.
            then_Step ctx n b (maybe_flush ctx dest) _ w1 (maybe_flush-Step ctx n b dest w1 h1)
              (λ _ w2 h2.
                let o =
                  decrypt ctx.evp head c.checksums.crypto_purse (advise ctx choices.madvise dest) in
                then_Step ctx n b (store at_decrypted o) _ w2
                  (store-Step ctx n b at_decrypted o w2 h2)
                  (λ x w3 h3.
                    then_Step ctx n b (check x.1 crypto) _ w3 (check-Step ctx n b x.1 crypto w3 h3)
                      (λ _ w4 h4.
                        then_Step ctx n b (maybe_flush ctx x.0) _ w4
                          (maybe_flush-Step ctx n b x.0 w4 h4)
                          (λ _ w5 h5.
                            let s = syndrome c.pre_encrypted x.0 in
                            then_Step ctx n b (check s decryption_mismatch) _ w5
                              (check-Step ctx n b s decryption_mismatch w5 h5)
                              (λ _ w6 h6. return_Post x.0 w6 h6)))))))
  ]

  decompress_head-Step :
      (head : MalignBuffer) (w : World ctx)
      → Same ctx n b w
      → Step ctx n b (decompress_head ctx choices head w)
  unfolding decompress_head
  decompress_head-Step head w h = elim (Bool-cases ctx.options.do_compress) [
    | inr off ↦ simp off (return_Post head w h)
    | inl on ↦ simp on (
        then_Step ctx n b (destination ctx at_decompressed choices.buf_size) _ w
          (destination_Step ctx n b at_decompressed choices.buf_size w h)
          (λ dest w1 h1.
            then_Step ctx n b (maybe_flush ctx dest) _ w1 (maybe_flush-Step ctx n b dest w1 h1)
              (λ _ w2 h2.
                let o = decompress ctx.zlib ctx.page head (advise ctx choices.madvise dest) in
                then_Step ctx n b (store at_decompressed o) _ w2
                  (store-Step ctx n b at_decompressed o w2 h2)
                  (λ x w3 h3.
                    then_Step ctx n b (check x.1 uncompression) _ w3
                      (check-Step ctx n b x.1 uncompression w3 h3)
                      (λ _ w4 h4.
                        let e = decompressed_size x.0.buffer_length choices.buf_size in
                        let long = x.0.buffer_length == choices.buf_size in
                        then_Step ctx n b (require long e) _ w4 (require-Step ctx n b long e w4 h4)
                          (λ _ w5 h5.
                            then_Step ctx n b (maybe_flush ctx x.0) _ w5
                              (maybe_flush-Step ctx n b x.0 w5 h5)
                              (λ _ w6 h6. return_Post x.0 w6 h6)))))))
  ]

  remake-Step : (w : World ctx) → Same ctx n b w → Step ctx n b (remake ctx choices c w)
  unfolding remake
  remake-Step w h =
      then_Step ctx n b (destination ctx at_re_made choices.buf_size) _ w
        (destination_Step ctx n b at_re_made choices.buf_size w h)
        (λ dest w1 h1.
          then_Step ctx n b (make ctx at_re_made choices dest) _ w1
            (make-Step ctx n b choices at_re_made dest w1 h1)
            (λ x w2 h2.
              let s = syndrome c.original x.0 in
              then_Step ctx n b (check s re_make) _ w2 (check-Step ctx n b s re_make w2 h2)
                (λ _ w3 h3.
                  require-Step ctx n b
                    (same_results ctx.env.floats c.checksums.floating_point_results x.1) fp_double
                    w3 h3)))

  check_hash-Step :
      (head : MalignBuffer) (w : World ctx)
      → Same ctx n b w
      → Step ctx n b (check_hash ctx choices c head w)
  unfolding check_hash
  check_hash-Step head w h = elim (Bool-cases ctx.options.do_hashes) [
    | inr off ↦ simp off (return_Post tt w h)
    | inl on ↦ simp on (
        require-Step ctx n b
          (same_text c.checksums.hash_value (hash ctx.hashes choices.hasher head)) hash_mismatch w
          h)
  ]

  check_silkscreen-Step : (w : World ctx) → Same ctx n b w → Step ctx n b (check_silkscreen ctx w)
  unfolding check_silkscreen
  check_silkscreen-Step w h =
      elim (Verdict-cases (check_my_slots ctx.tid w.round w.shared.silkscreen)) [
        | inl e ↦ rw (check_silkscreen, e) (return_Post tt w h)
        | inr (inl e) ↦ rw (check_silkscreen, e) (record { after = tt })
        | inr (inr (s, m, e)) ↦ rw (check_silkscreen, e) (return_error_Step ctx n b _ w h)
      ]

  pub check_computations-Step :
      (w : World ctx) → Same ctx n b w → Step ctx n b (check_computations ctx choices c w)
  unfolding check_computations
  check_computations-Step w h =
      let s = syndrome c.copied c.pre_copied in
      then_Step ctx n b (check s copy) _ w (check-Step ctx n b s copy w h) (λ _ w1 h1.
        then_Step ctx n b (maybe_flush ctx c.copied) _ w1 (maybe_flush-Step ctx n b c.copied w1 h1)
          (λ _ w2 h2.
            then_Step ctx n b (decrypt_head ctx choices c c.copied) _ w2
              (decrypt_head-Step c.copied w2 h2)
              (λ x w3 h3.
                then_Step ctx n b (decompress_head ctx choices x) _ w3
                  (decompress_head-Step x w3 h3)
                  (λ head w4 h4.
                    then_Step ctx n b (remake ctx choices c) _ w4 (remake-Step w4 h4) (λ _ w5 h5.
                      then_Step ctx n b (check_hash ctx choices c head) _ w5
                        (check_hash-Step head w5 h5) (λ _ w6 h6. check_silkscreen-Step w6 h6))))))
