-- ===== src/Worker/Inverse.antt =====
-- The stages of the checker on a machine without faults undo those of the writer.
use cpu_check.Base.{ℕ, ◌≡◌, ◌≤◌, refl, sym, ap, ◌∙◌, true, none, ◌==◌, arith, Bool-cases, inl, inr}
use cpu_check.Base.Outcome.{done}
use cpu_check.Compressor.{ZlibError, decompress}
use cpu_check.Compressor.Laws.{decompress_lem}
use cpu_check.Crypto.{CryptoError, decrypt, i_vec_of}
use cpu_check.Crypto.Laws.{decrypt_lem}
use cpu_check.MalignBuffer.{MalignBuffer, IsValid, contents}
use cpu_check.MalignBuffer.Store.{length-contents}
use cpu_check.MalignBuffer.Syndrome.{syndrome}
use cpu_check.Worker.{
  Context, Choices, World, Shared, check, crypto, maybe_flush, destination, advise, k_buf_max,
  uncompression, decryption_mismatch, decompressed_size, require, at_decrypted, at_decompressed,
}
use cpu_check.Worker.Faultless.{
  IsFaultless, k_capacity, Holds, Gives, then_Gives, lift_Gives, check_Gives, require_Gives,
}
use cpu_check.Worker.Steps.{maybe_flush_Gives, destination_Gives, advise-IsDestination, store_Gives}
use cpu_check.Worker.Compute.{Computed}
use cpu_check.Worker.Check.{decrypt_head, decompress_head}
use cpu_check.Worker.Stages.{Packed, Encrypted, same_contents-syndrome}

module _ (ctx : Context) (good : IsFaultless ctx) {sh : Shared} {round : ℕ}
    (choices : Choices) where
  -- The purse and the cipher text, in any buffer, give back what was encrypted.
  pub decrypt_head_Gives :
      (c : Computed ctx) (head : MalignBuffer) (w : World ctx)
      → Holds sh round w
      → IsValid ctx.page head
      → IsValid ctx.page c.pre_encrypted
      → head.buffer_length ≡ c.pre_encrypted.buffer_length
      → head.buffer_length ≤ k_capacity
      → Encrypted ctx ctx.options.do_encrypt c.pre_encrypted head c.checksums.crypto_purse
      → Gives sh round
          (decrypt_head ctx choices c head w)
          (λ b. IsValid ctx.page b × (contents b ≡ contents c.pre_encrypted))
  unfolding decrypt_head
  decrypt_head_Gives c head w t v u size most enc = elim (Bool-cases ctx.options.do_encrypt) [
    | inr off ↦ simp off (lift_Gives (done head) head w t refl (v, simp off at enc))
    | inl on ↦
        let both : Encrypted ctx true c.pre_encrypted head c.checksums.crypto_purse =
          simp on at enc in
        simp on (
          then_Gives (destination ctx at_decrypted head.buffer_length) _ w
            (destination_Gives ctx good at_decrypted head.buffer_length w most t)
            (λ dest w1 t1 d.
              let d' = advise-IsDestination ctx good choices.madvise head.buffer_length dest d in
              let dest' = advise ctx choices.madvise dest in
              let (b, opens, valid, same, long, cap) =
                decrypt_lem ctx.evp ctx.page (i_vec_of c.pre_encrypted) (contents c.pre_encrypted)
                  head dest' good.evp d'.0 both.0
                  (d'.1 ∙ size ∙ sym (length-contents c.pre_encrypted u)) in
              then_Gives (maybe_flush ctx dest) _ w1 (maybe_flush_Gives ctx good dest w1 t1)
                (λ _ w2 t2 _.
                  store_Gives ctx good at_decrypted
                    (decrypt ctx.evp head c.checksums.crypto_purse dest') _ b none w2 t2
                    (ap (λ p. decrypt ctx.evp head p dest') both.1 ∙ opens) valid (cap ∙ d'.2)
                    (λ w3 t3.
                      then_Gives {P = λ _. Unit {0}} (check {E = CryptoError} none crypto) _ w3
                        (check_Gives {E = CryptoError} none crypto w3 t3 refl)
                        (λ _ w4 t4 _.
                          then_Gives (maybe_flush ctx b) _ w4 (maybe_flush_Gives ctx good b w4 t4)
                            (λ _ w5 t5 _.
                              then_Gives (check (syndrome c.pre_encrypted b) decryption_mismatch) _
                                w5
                                (check_Gives (syndrome c.pre_encrypted b) decryption_mismatch w5 t5
                                  (same_contents-syndrome c.pre_encrypted b (sym same)))
                                (λ _ w6 t6 _. lift_Gives (done b) b w6 t6 refl (valid, same))))))))
  ]

  pub decompress_head_Gives :
      (from head : MalignBuffer) (w : World ctx)
      → Holds sh round w
      → IsValid ctx.page from
      → from.buffer_length ≡ choices.buf_size
      → choices.buf_size ≤ k_buf_max
      → Packed ctx ctx.options.do_compress from head
      → Gives sh round (decompress_head ctx choices head w) (λ b. contents b ≡ contents from)
  unfolding decompress_head
  decompress_head_Gives from head w t u size most packed =
      elim (Bool-cases ctx.options.do_compress) [
        | inr off ↦ simp off (lift_Gives (done head) head w t refl (simp off at packed))
        | inl on ↦
            let deflate : Packed ctx true from head = simp on at packed in
            simp on (
              then_Gives (destination ctx at_decompressed choices.buf_size) _ w
                (destination_Gives ctx good at_decompressed choices.buf_size w (omega arith) t)
                (λ dest w1 t1 d.
                  let d' = advise-IsDestination ctx good choices.madvise choices.buf_size dest d in
                  let dest' = advise ctx choices.madvise dest in
                  let len = length-contents from u in
                  let (b, unpacks, valid, same, long, cap) =
                    decompress_lem ctx.zlib ctx.page (contents from) head dest' good.zlib d'.0
                      deflate (d'.1 ∙ sym size ∙ sym len) in
                  let fits : (b.buffer_length == choices.buf_size) ≡ true =
                    ground (arith, long, len, size) in
                  then_Gives (maybe_flush ctx dest) _ w1 (maybe_flush_Gives ctx good dest w1 t1)
                    (λ _ w2 t2 _.
                      store_Gives ctx good at_decompressed (decompress ctx.zlib ctx.page head dest')
                        _ b none w2 t2 unpacks valid (cap ∙ d'.2)
                        (λ w3 t3.
                          then_Gives {P = λ _. Unit {0}} (check {E = ZlibError} none uncompression)
                            _ w3 (check_Gives {E = ZlibError} none uncompression w3 t3 refl)
                            (λ _ w4 t4 _.
                              then_Gives
                                (require (b.buffer_length == choices.buf_size)
                                  (decompressed_size b.buffer_length choices.buf_size))
                                _ w4
                                (require_Gives (b.buffer_length == choices.buf_size) _ w4 t4 fits)
                                (λ _ w5 t5 _.
                                  then_Gives (maybe_flush ctx b) _ w5
                                    (maybe_flush_Gives ctx good b w5 t5)
                                    (λ _ w6 t6 _. lift_Gives (done b) b w6 t6 refl same)))))))
      ]
