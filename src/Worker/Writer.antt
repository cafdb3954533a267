-- ===== src/Worker/Writer.antt =====
-- On a machine without faults the writer returns checksums, and what it hands to the checker.
use mathlib.Core.Option.{some}
use cpu_check.Base.{ℕ, ◌+◌, ◌≡◌, ◌≤◌, refl, sym, ap, ◌∙◌, [], if◌then◌else◌, arith}
use cpu_check.Base.Outcome.{done, fatal, fault}
use cpu_check.Hasher.{hash}
use cpu_check.MalignBuffer.{MalignBuffer, IsValid, contents}
use cpu_check.PatternGenerator.{Filled, generate}
use cpu_check.PatternGenerator.Chaos.{FloatingPointResults}
use cpu_check.PatternGenerator.Fill.{generate_lem}
use cpu_check.Silkscreen.Build
use mathlib.Core.Path.{subst}
use cpu_check.Worker.{
  Context, Choices, World, Shared, BufferSet, maybe_flush, deref, k_buf_max, at_original,
}
use cpu_check.Worker.Compute.{
  compute_from, Computed, go_hot, burn, test_ssl, write_silkscreen, make, compress_head,
  encrypt_head, copy_head, do_computations,
}
use cpu_check.Worker.Faultless.{
  IsFaultless, IsBufferSet, k_capacity, Holds, Gives, then_Gives, lift_Gives, deref_Gives,
}
use cpu_check.Worker.Steps.{maybe_flush_Gives, store_Gives}
use cpu_check.Worker.Stages.{
  Packed, Encrypted, compress_head_Gives, encrypt_head_Gives, copy_head_Gives,
}
use cpu_check.Worker.Quiet.{
  written, then_Quiet, go_hot-Quiet, burn-Quiet, test_ssl-Quiet, write_silkscreen-Quiet,
}

module _ (ctx : Context) (good : IsFaultless ctx) (choices : Choices)
    (small : choices.buf_size ≤ k_buf_max)
    (inside : choices.hole.start + choices.hole.hole_length ≤ choices.buf_size) where
  -- What the writer hands to the checker.
  pub record IsComputed (round : ℕ) (c : Computed ctx) : Type 0 where
    pub original_valid : IsValid ctx.page c.original
    pub original_size : c.original.buffer_length ≡ choices.buf_size
    pub remade :
        (dest : MalignBuffer)
        → IsValid ctx.page dest
        → dest.buffer_length ≡ choices.buf_size
        → (b : MalignBuffer) × (generate ctx.env round choices.pattern_generator choices.hole
              choices.how dest
            ≡ done (b, c.checksums.floating_point_results))
          × (contents c.original ≡ contents b)
          × IsValid ctx.page b
          × (b.capacity ≡ dest.capacity)
    pub hashed :
        c.checksums.hash_value
        ≡ (if ctx.options.do_hashes then hash ctx.hashes choices.hasher c.original else [])
    pub pre_valid : IsValid ctx.page c.pre_encrypted
    pub pre_small : c.pre_encrypted.buffer_length ≤ k_capacity
    pub packed : Packed ctx ctx.options.do_compress c.original c.pre_encrypted
    pub pre_copied_size : c.pre_copied.buffer_length ≡ c.pre_encrypted.buffer_length
    pub encrypted :
        Encrypted ctx ctx.options.do_encrypt c.pre_encrypted c.pre_copied c.checksums.crypto_purse
    pub copied_valid : IsValid ctx.page c.copied
    pub copied_size : c.copied.buffer_length ≡ c.pre_copied.buffer_length
    pub copied_same : contents c.copied ≡ contents c.pre_copied

  -- A pattern is made again in any buffer of the size.
  make_again :
      (round : ℕ) (blank : MalignBuffer)
      → IsValid ctx.page blank
      → blank.buffer_length ≡ choices.buf_size
      → (b : MalignBuffer) × (fp : FloatingPointResults ctx.env.floats) × (generate ctx.env round
            choices.pattern_generator choices.hole choices.how blank
          ≡ done (b, fp))
        × IsValid ctx.page b
        × (b.buffer_length ≡ choices.buf_size)
        × (b.capacity ≡ blank.capacity)
        × ((dest : MalignBuffer)
            → IsValid ctx.page dest
            → dest.buffer_length ≡ choices.buf_size
            → (c : MalignBuffer) × (generate ctx.env round choices.pattern_generator choices.hole
                  choices.how dest
                ≡ done (c, fp))
              × (contents b ≡ contents c)
              × IsValid ctx.page c
              × (c.capacity ≡ dest.capacity))
  make_again round blank valid size =
      let (b, _, fp, returns, _, _, b_valid, _, b_size, _, b_capacity, _) =
        generate_lem ctx.env ctx.page round choices.how choices.how blank blank
          choices.pattern_generator choices.hole good.uniform refl valid valid refl
          (omega (arith, inside, size)) in
      (
        b,
        fp,
        returns,
        b_valid,
        b_size ∙ size,
        b_capacity,
        λ dest v e.
            let (b', c', fp', returns', again, same, _, c_valid, _, _, _, c_capacity) =
              generate_lem ctx.env ctx.page round choices.how choices.how blank dest
                choices.pattern_generator choices.hole good.uniform refl valid v (e ∙ sym size)
                (omega (arith, inside, size)) in
            let both : (b, fp) ≡ (b', fp') =
              ap (λ (o : Filled ctx.env). elim o [ done p ↦ p | fatal ↦ (b, fp) | fault ↦ (b, fp) ])
                (sym returns ∙ returns') in
            let first : b ≡ b' =
              ap (λ (p : MalignBuffer × FloatingPointResults ctx.env.floats). p.0) both in
            let second : fp ≡ fp' =
              ap (λ (p : MalignBuffer × FloatingPointResults ctx.env.floats). p.1) both in
            (
              c',
              again ∙ ap (λ (q : FloatingPointResults ctx.env.floats). done (c', q)) (sym second),
              ap (λ m. contents m) first ∙ same,
              c_valid,
              c_capacity,
            ),
      )

  -- From the point where the original is made.
  from_blank :
      (sh : Shared) (round : ℕ) (w : World ctx) (blank : MalignBuffer)
      → w.shared ≡ sh
      → w.round ≡ round
      → IsBufferSet ctx.page w.buffers
      → w.buffers.original ≡ some blank
      → (b : MalignBuffer) (fp : FloatingPointResults ctx.env.floats)
      → generate ctx.env round choices.pattern_generator choices.hole choices.how blank
        ≡ done (b, fp)
      → IsValid ctx.page b
      → b.buffer_length ≡ choices.buf_size
      → b.capacity ≡ k_capacity
      → ((dest : MalignBuffer)
          → IsValid ctx.page dest
          → dest.buffer_length ≡ choices.buf_size
          → (c : MalignBuffer) × (generate ctx.env round choices.pattern_generator choices.hole
                choices.how dest
              ≡ done (c, fp))
            × (contents b ≡ contents c)
            × IsValid ctx.page c
            × (c.capacity ≡ dest.capacity))
      → Gives sh round (compute_from ctx choices w) (IsComputed round)
  unfolding compute_from make
  from_blank sh round w blank s r ready is b fp makes b_valid b_size full again =
      let t : Holds sh round w = record { same_shared = s; same_round = r; ready = ready } in
      then_Gives {P = λ x. x ≡ blank} (λ w. deref w.buffers.original w) _ w
        (deref_Gives w.buffers.original blank w t is)
        (λ x w1 t1 x_is.
          store_Gives ctx good at_original
            (generate ctx.env w1.round choices.pattern_generator choices.hole choices.how x) _ b fp
            w1 t1
            (ap (λ (n : ℕ). generate ctx.env n choices.pattern_generator choices.hole choices.how x)
                t1.same_round
              ∙ ap
                  (λ (y : MalignBuffer).
                    generate ctx.env round choices.pattern_generator choices.hole choices.how y)
                  x_is
              ∙ makes)
            b_valid full
            (λ w2 t2.
              then_Gives (maybe_flush ctx b) _ w2 (maybe_flush_Gives ctx good b w2 t2) (λ _ w3 t3 _.
                then_Gives (compress_head ctx choices b) _ w3
                  (compress_head_Gives ctx good choices b w3 t3 b_valid b_size small)
                  (λ pre w4 t4 p.
                    then_Gives (encrypt_head ctx choices pre) _ w4
                      (encrypt_head_Gives ctx good choices pre w4 t4 p.0 p.1)
                      (λ e w5 t5 q.
                        then_Gives (copy_head ctx choices e.0) _ w5
                          (copy_head_Gives ctx good choices e.0 w5 t5 q.0 (omega (arith, q.1, p.1)))
                          (λ c w6 t6 k. lift_Gives (done _) _ w6 t6 refl (record {
                            original_valid = b_valid;
                            original_size = b_size;
                            remade = again;
                            hashed = refl;
                            pre_valid = p.0;
                            pre_small = p.1;
                            packed = p.2;
                            pre_copied_size = q.1;
                            encrypted = q.2;
                            copied_valid = k.0;
                            copied_size = k.1;
                            copied_same = k.2;
                          })))))))

  pub do_computations_Gives :
      (sh : Shared) (round : ℕ) (w : World ctx) (blank : MalignBuffer)
      → Holds sh round w
      → w.buffers.original ≡ some blank
      → IsValid ctx.page blank
      → blank.buffer_length ≡ choices.buf_size
      → blank.capacity ≡ k_capacity
      → Build.IsValid sh.silkscreen
      → Gives (written ctx round sh) round (do_computations ctx choices w) (IsComputed round)
  unfolding do_computations
  do_computations_Gives sh round w blank t is valid size full v =
      let sh' = written ctx round sh in
      let bs = w.buffers in
      let (b, fp, makes, b_valid, b_size, b_capacity, again) = make_again round blank valid size in
      then_Quiet (go_hot ctx) _ w
        (go_hot-Quiet ctx good sh round bs w t.same_shared t.same_round refl)
        (λ w1 s1 r1 b1.
          then_Quiet (test_ssl ctx) _ w1 (test_ssl-Quiet ctx good sh round bs w1 s1 r1 b1)
            (λ w2 s2 r2 b2.
              then_Quiet (write_silkscreen ctx) _ w2
                (write_silkscreen-Quiet ctx good sh round bs w2 s2 r2 b2 v)
                (λ w3 s3 r3 b3.
                  then_Quiet (burn ctx) _ w3 (burn-Quiet ctx good sh' round bs w3 s3 r3 b3)
                    (λ w4 s4 r4 b4.
                      from_blank sh' round w4 blank s4 r4
                        (subst (IsBufferSet ctx.page) (sym b4) t.ready)
                        (ap (λ (x : BufferSet). x.original) b4 ∙ is) b fp makes b_valid b_size
                        (b_capacity ∙ full) again))))
