-- ===== src/Worker/Checker.antt =====
-- On a machine without faults the checker accepts what the writer hands to it.
use cpu_check.Base.{
  ℕ, ◌+◌, ◌≡◌, ◌≤◌, refl, sym, ap, ◌∙◌, Bool, true, false, List, [], ◌∷◌, arith, Bool-cases, inl,
  inr,
}
use cpu_check.Base.Outcome.{done}
use cpu_check.Hasher.{hash, same_contents-hash}
use cpu_check.MalignBuffer.{MalignBuffer, contents}
use cpu_check.MalignBuffer.Syndrome.{syndrome}
use cpu_check.PatternGenerator.{generate}
use cpu_check.PatternGenerator.Chaos.{same_results}
use cpu_check.Silkscreen.{check_my_slots, passed}
use cpu_check.Worker.{
  Context, Choices, World, Shared, check, maybe_flush, destination, k_buf_max, re_make, fp_double,
  hash_mismatch, copy, at_re_made,
}
use cpu_check.Worker.Compute.{Computed, make}
use cpu_check.Worker.Check.{
  same_text, decrypt_head, decompress_head, remake, check_hash, check_silkscreen,
  check_computations,
}
use cpu_check.Worker.Faultless.{
  IsFaultless, Holds, Gives, then_Gives, lift_Gives, check_Gives, require_Gives,
}
use cpu_check.Worker.Steps.{maybe_flush_Gives, destination_Gives, store_Gives}
use cpu_check.Worker.Stages.{Packed, Encrypted, same_contents-syndrome}
use cpu_check.Worker.Inverse.{decrypt_head_Gives, decompress_head_Gives}
use cpu_check.Worker.Writer.{IsComputed}

same_text_self : (xs : List ℕ) → same_text xs xs ≡ true
unfolding same_text
same_text_self [] = refl
same_text_self (x ∷ xs) = ground (arith, same_text_self xs)

module _ (ctx : Context) (good : IsFaultless ctx) (choices : Choices)
    (small : choices.buf_size ≤ k_buf_max)
    (inside : choices.hole.start + choices.hole.hole_length ≤ choices.buf_size) where
  -- The cipher text may lie in the copy.
  copied_Encrypted :
      (round : ℕ) (c : Computed ctx)
      → IsComputed ctx good choices small inside round c
      → Encrypted ctx ctx.options.do_encrypt c.pre_encrypted c.copied c.checksums.crypto_purse
  copied_Encrypted round c i = go ctx.options.do_encrypt i.encrypted
    where
      go :
          (on : Bool)
          → Encrypted ctx on c.pre_encrypted c.pre_copied c.checksums.crypto_purse
          → Encrypted ctx on c.pre_encrypted c.copied c.checksums.crypto_purse
      go true h = (i.copied_same ∙ h.0, h.1)
      go false h = i.copied_same ∙ h

  same_Packed :
      (on : Bool) (from b b' : MalignBuffer)
      → contents b' ≡ contents b
      → Packed ctx on from b
      → Packed ctx on from b'
  same_Packed true from b b' e h = e ∙ h
  same_Packed false from b b' e h = e ∙ h

  module _ (sh : Shared) (round : ℕ) (c : Computed ctx)
      (computed : IsComputed ctx good choices small inside round c) where
    remake_Gives :
        (w : World ctx) → Holds sh round w → Gives sh round (remake ctx choices c w) (λ _. Unit {0})
    unfolding remake make
    remake_Gives w t =
        then_Gives (destination ctx at_re_made choices.buf_size) _ w
          (destination_Gives ctx good at_re_made choices.buf_size w (omega arith) t)
          (λ dest w1 t1 d.
            let (b, again, same, valid, full) = computed.remade dest d.0 d.1 in
            let fp = c.checksums.floating_point_results in
            store_Gives ctx good at_re_made
              (generate ctx.env w1.round choices.pattern_generator choices.hole choices.how dest) _
              b fp w1 t1
              (ap
                  (λ (n : ℕ).
                    generate ctx.env n choices.pattern_generator choices.hole choices.how dest)
                  t1.same_round
                ∙ again)
              valid (full ∙ d.2)
              (λ w2 t2.
                then_Gives (check (syndrome c.original b) re_make) _ w2
                  (check_Gives (syndrome c.original b) re_make w2 t2
                    (same_contents-syndrome c.original b same))
                  (λ _ w3 t3 _.
                    require_Gives (same_results ctx.env.floats fp fp) fp_double w3 t3
                      (good.comparable fp))))

    check_hash_Gives :
        (head : MalignBuffer) (w : World ctx)
        → contents head ≡ contents c.original
        → Holds sh round w
        → Gives sh round (check_hash ctx choices c head w) (λ _. Unit {0})
    unfolding check_hash
    check_hash_Gives head w e t = elim (Bool-cases ctx.options.do_hashes) [
      | inr off ↦ simp off (lift_Gives (done tt) tt w t refl tt)
      | inl on ↦
          let was : c.checksums.hash_value ≡ hash ctx.hashes choices.hasher c.original =
            simp on at computed.hashed in
          simp on (
            require_Gives (same_text c.checksums.hash_value (hash ctx.hashes choices.hasher head))
              hash_mismatch w t
              (ap (same_text c.checksums.hash_value)
                  (same_contents-hash ctx.hashes choices.hasher head c.original e ∙ sym was)
                ∙ same_text_self c.checksums.hash_value))
    ]

    check_silkscreen_Gives :
        (w : World ctx)
        → Holds sh round w
        → check_my_slots ctx.tid round sh.silkscreen ≡ passed
        → Gives sh round (check_silkscreen ctx w) (λ _. Unit {0})
    unfolding check_silkscreen
    check_silkscreen_Gives w t passes =
        let here : check_my_slots ctx.tid w.round w.shared.silkscreen ≡ passed =
          rw (t.same_shared, t.same_round) passes in
        record {
          value = tt;
          world = w;
          returns = rw (check_silkscreen, here) refl;
          leaves = t;
          holds = tt;
        }

    pub check_computations_Gives :
        (w : World ctx)
        → Holds sh round w
        → check_my_slots ctx.tid round sh.silkscreen ≡ passed
        → Gives sh round (check_computations ctx choices c w) (λ _. Unit {0})
    unfolding check_computations
    check_computations_Gives w t passes =
        then_Gives (check (syndrome c.copied c.pre_copied) copy) _ w
          (check_Gives (syndrome c.copied c.pre_copied) copy w t
            (same_contents-syndrome c.copied c.pre_copied computed.copied_same))
          (λ _ w1 t1 _.
            then_Gives (maybe_flush ctx c.copied) _ w1 (maybe_flush_Gives ctx good c.copied w1 t1)
              (λ _ w2 t2 _.
                then_Gives (decrypt_head ctx choices c c.copied) _ w2
                  (decrypt_head_Gives ctx good choices c c.copied w2 t2 computed.copied_valid
                    computed.pre_valid (computed.copied_size ∙ computed.pre_copied_size)
                    (omega
                      (arith, computed.copied_size, computed.pre_copied_size, computed.pre_small))
                    (copied_Encrypted round c computed))
                  (λ b w3 t3 h.
                    then_Gives (decompress_head ctx choices b) _ w3
                      (decompress_head_Gives ctx good choices c.original b w3 t3
                        computed.original_valid computed.original_size small
                        (same_Packed ctx.options.do_compress c.original c.pre_encrypted b h.1
                          computed.packed))
                      (λ head w4 t4 e.
                        then_Gives (remake ctx choices c) _ w4 (remake_Gives w4 t4) (λ _ w5 t5 _.
                          then_Gives (check_hash ctx choices c head) _ w5
                            (check_hash_Gives head w5 e t5)
                            (λ _ w6 t6 _. check_silkscreen_Gives w6 t6 passes))))))
