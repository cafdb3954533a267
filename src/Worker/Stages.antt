-- ===== src/Worker/Stages.antt =====
-- Each stage of the computations on a machine without faults, and its inverse.
use cpu_check.Base.{
  ℕ, ◌≡◌, ◌≤◌, refl, ◌∙◌, Bool, true, false, none, [], arith, Bool-cases, inl, inr,
}
use cpu_check.Base.Outcome.{done, ok}
use cpu_check.Compressor.{ZlibError, compress}
use cpu_check.Compressor.Laws.{deflated, compress_lem}
use cpu_check.Crypto.{CryptoPurse, CryptoError, encrypt, i_vec_of}
use cpu_check.Crypto.Laws.{sealed, purse_of, encrypt_lem}
use cpu_check.MalignBuffer.{MalignBuffer, IsValid, contents}
use cpu_check.MalignBuffer.Syndrome.{Syndrome, syndrome, copy_from}
use cpu_check.MalignBuffer.Syndrome.Laws.{corruption_syndrome-none, copy_from_lem}
use cpu_check.Worker.{
  Context, Choices, World, Shared, check, unwrap, crypto, writer_detected_copy, maybe_flush,
  destination, advise, k_buf_max, compression, at_compressed, at_encrypted, at_copied,
}
use cpu_check.Worker.Faultless.{
  IsFaultless, k_capacity, Holds, Gives, then_Gives, lift_Gives, check_Gives, unwrap_Gives,
}
use cpu_check.Worker.Steps.{
  maybe_flush_Gives, destination_Gives, IsDestination, advise-IsDestination, store_Gives,
}
use cpu_check.Worker.Compute.{compress_head, encrypt_head, copy_head}

-- Equal contents give no syndrome.
pub same_contents-syndrome : (b c : MalignBuffer) → contents b ≡ contents c → syndrome b c ≡ none
unfolding syndrome
same_contents-syndrome b c e = (corruption_syndrome-none (contents b) (contents c)).1 e

-- What the compressor and the cipher make of a buffer, or the buffer itself.
abbrev pub Packed : Context → Bool → MalignBuffer → MalignBuffer → Type 0
Packed ctx true from b = contents b ≡ deflated ctx.zlib (contents from)
Packed ctx false from b = contents b ≡ contents from

abbrev pub Encrypted : Context → Bool → MalignBuffer → MalignBuffer → CryptoPurse → Type 0
Encrypted ctx true from b purse =
    (contents b ≡ (sealed ctx.evp (i_vec_of from) (contents from)).1)
    × (purse ≡ purse_of ctx.evp from)
Encrypted ctx false from b purse = contents b ≡ contents from

module _ (ctx : Context) (good : IsFaultless ctx) {sh : Shared} {round : ℕ}
    (choices : Choices) where
  pub compress_head_Gives :
      (head : MalignBuffer) (w : World ctx)
      → Holds sh round w
      → IsValid ctx.page head
      → head.buffer_length ≡ choices.buf_size
      → choices.buf_size ≤ k_buf_max
      → Gives sh round (compress_head ctx choices head w) (λ b.
        IsValid ctx.page b
        × (b.buffer_length ≤ k_capacity)
        × Packed ctx ctx.options.do_compress head b)
  unfolding compress_head
  compress_head_Gives head w t v size most = elim (Bool-cases ctx.options.do_compress) [
    | inr off ↦ simp off (lift_Gives (done head) head w t refl (v, omega arith, refl))
    | inl on ↦ simp on (
        then_Gives (destination ctx at_compressed choices.buf_size) _ w
          (destination_Gives ctx good at_compressed choices.buf_size w (omega arith) t)
          (λ dest w1 t1 d.
            let (c, packs, valid, holds, long, cap) =
              compress_lem ctx.zlib ctx.page head dest good.zlib v d.0
                (omega (arith, d.2, size, good.small head.buffer_length (omega arith))) in
            then_Gives (maybe_flush ctx dest) _ w1 (maybe_flush_Gives ctx good dest w1 t1)
              (λ _ w2 t2 _.
                store_Gives ctx good at_compressed (compress ctx.zlib ctx.page head dest) _ c none
                  w2 t2 packs valid (cap ∙ d.2)
                  (λ w3 t3.
                    then_Gives {P = λ _. Unit {0}} (check {E = ZlibError} none compression) _ w3
                      (check_Gives {E = ZlibError} none compression w3 t3 refl)
                      (λ _ w4 t4 _.
                        then_Gives (maybe_flush ctx c) _ w4 (maybe_flush_Gives ctx good c w4 t4)
                          (λ _ w5 t5 _. lift_Gives (done c) c w5 t5 refl (
                            valid,
                            omega (arith, long, good.small head.buffer_length (omega arith)),
                            holds,
                          )))))))
  ]

  -- The cipher text of a buffer has its size.
  pub encrypt_head_Gives :
      (head : MalignBuffer) (w : World ctx)
      → Holds sh round w
      → IsValid ctx.page head
      → head.buffer_length ≤ k_capacity
      → Gives sh round (encrypt_head ctx choices head w) (λ p.
        IsValid ctx.page p.0
        × (p.0.buffer_length ≡ head.buffer_length)
        × Encrypted ctx ctx.options.do_encrypt head p.0 p.1)
  unfolding encrypt_head
  encrypt_head_Gives head w t v most = elim (Bool-cases ctx.options.do_encrypt) [
    | inr off ↦ simp off (
        lift_Gives (done (head, record { i_vec = []; gmac_tag = [] }))
          (head, record { i_vec = []; gmac_tag = [] }) w t refl (v, refl, refl))
    | inl on ↦ simp on (
        then_Gives (destination ctx at_encrypted head.buffer_length) _ w
          (destination_Gives ctx good at_encrypted head.buffer_length w most t)
          (λ dest w1 t1 d.
            let d' = advise-IsDestination ctx good choices.madvise head.buffer_length dest d in
            let dest' = advise ctx choices.madvise dest in
            let purse = purse_of ctx.evp head in
            let (c, seals, valid, holds, long, cap) =
              encrypt_lem ctx.evp ctx.page head dest' good.evp v d'.0 d'.1 in
            then_Gives (maybe_flush ctx dest) _ w1 (maybe_flush_Gives ctx good dest w1 t1)
              (λ _ w2 t2 _.
                store_Gives ctx good at_encrypted (encrypt ctx.evp head dest') _ c (ok purse) w2 t2
                  seals valid (cap ∙ d'.2)
                  (λ w3 t3.
                    then_Gives {P = λ q. q ≡ purse} (unwrap {E = CryptoError} (ok purse) crypto) _
                      w3 (unwrap_Gives {E = CryptoError} (ok purse) purse crypto w3 t3 refl)
                      (λ q w4 t4 is.
                        then_Gives (maybe_flush ctx c) _ w4 (maybe_flush_Gives ctx good c w4 t4)
                          (λ _ w5 t5 _.
                            lift_Gives (done (c, q)) (c, q) w5 t5 refl
                              (valid, long, (holds, is))))))))
  ]

  pub copy_head_Gives :
      (head : MalignBuffer) (w : World ctx)
      → Holds sh round w
      → IsValid ctx.page head
      → head.buffer_length ≤ k_capacity
      → Gives sh round (copy_head ctx choices head w) (λ b.
        IsValid ctx.page b × (b.buffer_length ≡ head.buffer_length) × (contents b ≡ contents head))
  unfolding copy_head
  copy_head_Gives head w t v most =
      then_Gives (destination ctx at_copied head.buffer_length) _ w
        (destination_Gives ctx good at_copied head.buffer_length w most t)
        (λ dest w1 t1 d.
          let d' = advise-IsDestination ctx good choices.madvise head.buffer_length dest d in
          let dest' = advise ctx choices.madvise dest in
          let (c, copies, same, valid, long, cap) = copied dest' d' in
          then_Gives (maybe_flush ctx dest) _ w1 (maybe_flush_Gives ctx good dest w1 t1)
            (λ _ w2 t2 _.
              store_Gives ctx good at_copied (copy_from head choices.how.copy_method dest') _ c none
                w2 t2 copies valid cap
                (λ w3 t3.
                  then_Gives {P = λ _. Unit {0}} (check {E = Syndrome} none writer_detected_copy) _
                    w3 (check_Gives {E = Syndrome} none writer_detected_copy w3 t3 refl)
                    (λ _ w4 t4 _.
                      then_Gives (maybe_flush ctx c) _ w4 (maybe_flush_Gives ctx good c w4 t4)
                        (λ _ w5 t5 _. lift_Gives (done c) c w5 t5 refl (valid, long, same))))))
    where
      copied :
          (dest : MalignBuffer)
          → IsDestination ctx good head.buffer_length dest
          → (b : MalignBuffer) × (copy_from head choices.how.copy_method dest ≡ done (b, none))
            × (contents b ≡ contents head)
            × IsValid ctx.page b
            × (b.buffer_length ≡ head.buffer_length)
            × (b.capacity ≡ k_capacity)
      copied dest d = elim (copy_from_lem ctx.page dest head choices.how.copy_method d.0 v) [
        | inl (differs, _) ↦ absurd (differs d.1)
        | inr (b, returns, same, valid, long, cap) ↦
            (b, returns, same, valid, long ∙ d.1, cap ∙ d.2)
      ]
