-- ===== src/Worker/Run/Limit.antt =====
-- How the writer counts errors and tells the stopper, on any machine.
pub mod Checker
use cpu_check.Base.{
  ℕ, ◌+◌, ◌≡◌, ◌≤◌, refl, ap, ◌∙◌, Bool, true, false, Option, none, some, List, [], ◌∷◌, ◌++◌, ltb,
  ◌||◌, if◌then◌else◌, length, arith, Bool-cases, inl, inr,
}
use cpu_check.Base.Outcome.{Outcome, done, fatal, fault, Result, ok, error}
use cpu_check.MalignBuffer.{MalignBuffer, initialize}
use cpu_check.Avx.{maybe_go_hot, burn_if_avx_heavy}
use cpu_check.Crypto.{self_test, encrypt, decrypt}
use cpu_check.Compressor.{compress, decompress}
use cpu_check.PatternGenerator.{generate}
use cpu_check.MalignBuffer.Syndrome.{copy_from, syndrome}
use cpu_check.Silkscreen.{write_my_slots, Checked, passed, threw, failed, check_my_slots}
use cpu_check.Worker.{
  Context, Choices, World, WorkerError, M, Slot, ◌>>-◌, lift, check, require, unwrap, alloc, held,
  store, keep, return_error, with_held, alignment, maybe_flush, destination, deref, advise,
  avx_heavy, crypto, silkscreen_write, compression, writer_detected_copy, at_original,
  at_compressed, at_encrypted, at_copied,
}
use cpu_check.Worker.Compute.{
  Computed, go_hot, burn, test_ssl, write_silkscreen, make, compress_head, encrypt_head, copy_head,
  compute_from, do_computations,
}
use cpu_check.Worker.Check.{
  decrypt_head, decompress_head, remake, check_hash, check_silkscreen, check_computations,
}
use cpu_check.Worker.Post.{
  Post, After, then_Post, return_Post, lift-Post, store-Post, check-Post, unwrap-Post, require-Post,
}

-- With `n` errors before, a step that returns a value leaves the count and the stopper, and one that
-- returns an error tells the stopper if `n` is over the limit.
module _ (ctx : Context) (n : ℕ) (b : Bool) where
  abbrev pub Same : World ctx → Type 0
  Same w = (w.shared.error_count ≡ n) × (w.shared.stopped ≡ b)

  abbrev pub Over : World ctx → Type 0
  Over w = (w.shared.error_count ≡ n) × (w.shared.stopped ≡ (b || ltb ctx.options.error_limit n))

  abbrev pub Step : {A : Type 0} → Outcome (Result WorkerError A × World ctx) → Type 0
  Step o = Post (λ _ w. Same w) (λ _ w. Over w) o

  pub return_error_Step :
      {A : Type 0} {P : A → World ctx → Type 0} (e : WorkerError) (w : World ctx)
      → Same w
      → Post P (λ _ w. Over w) (return_error {A = A} e w)
  unfolding return_error
  return_error_Step e w h = record { after = (h.0, rw (h.0, h.1) refl) }

  pub lift-Step : {A : Type 0} (o : Outcome A) (w : World ctx) → Same w → Step (lift o w)
  lift-Step o w h = lift-Post o w (λ _ _. h)

  pub check-Step :
      {F : Type 0} (e : Option F) (f : F → WorkerError) (w : World ctx)
      → Same w
      → Step (check e f w)
  check-Step e f w h = check-Post e f w (λ _. h) (λ x. return_error_Step x w h)

  unwrap-Step :
      {F A : Type 0} (r : Result F A) (f : F → WorkerError) (w : World ctx)
      → Same w
      → Step (unwrap r f w)
  unwrap-Step r f w h = unwrap-Post r f w (λ _ _. h) (λ x. return_error_Step x w h)

  pub require-Step :
      (test : Bool) (e : WorkerError) (w : World ctx) → Same w → Step (require test e w)
  require-Step test e w h = require-Post test e w (λ _. h) (λ x. return_error_Step x w h)

  pub store-Step :
      {F : Type 0} (i : Slot) (o : Outcome (MalignBuffer × F)) (w : World ctx)
      → Same w
      → Step (store i o w)
  store-Step i o w h = store-Post i o w (λ _ _. h)

  pub then_Step :
      {A B : Type 0} (m : M ctx A) (f : A → M ctx B) (w : World ctx)
      → Step (m w)
      → ((a : A) (w' : World ctx) → Same w' → Step (f a w'))
      → Step ((m >>- f) w)
  then_Step m f w h next = then_Post m f w h next

  pub maybe_flush-Step : (x : MalignBuffer) (w : World ctx) → Same w → Step (maybe_flush ctx x w)
  unfolding maybe_flush
  maybe_flush-Step x w h = elim (Bool-cases ctx.options.do_flush) [
    | inl on ↦ simp on (return_Post tt _ h)
    | inr off ↦ simp off (return_Post tt w h)
  ]

  alignment-Step : (w : World ctx) → Same w → Step (alignment ctx w)
  unfolding alignment
  alignment-Step w h = elim (Bool-cases ctx.options.do_misalign) [
    | inl on ↦ simp on (return_Post _ _ h)
    | inr off ↦ simp off (return_Post 0 w h)
  ]

  pub destination_Step :
      (i : Slot) (size : ℕ) (w : World ctx) → Same w → Step (destination ctx i size w)
  unfolding destination
  destination_Step i size w h =
      let old = alloc ctx (held i w.buffers) in
      then_Step (lift old) _ w (lift-Step old w h) (λ x w1 h1.
        then_Step (alignment ctx) _ w1 (alignment-Step w1 h1) (λ a w2 h2.
          let made = initialize ctx.page a size x in
          then_Step (lift made) _ w2 (lift-Step made w2 h2) (λ d w3 h3.
            then_Step (keep i d) _ w3 (return_Post tt _ h3) (λ _ w4 h4. return_Post d w4 h4))))

  go_hot-Step : (w : World ctx) → Same w → Step (go_hot ctx w)
  unfolding go_hot
  go_hot-Step w h = elim (Bool-cases ctx.options.do_avx_heavy) [
    | inl on ↦ simp on (check-Step (maybe_go_hot ctx.env.rng ctx.avx_unit w.avx).0 avx_heavy _ h)
    | inr off ↦ simp off (return_Post tt w h)
  ]

  burn-Step : (w : World ctx) → Same w → Step (burn ctx w)
  unfolding burn
  burn-Step w h = elim (Bool-cases ctx.options.do_avx_heavy) [
    | inl on ↦ simp on (check-Step (burn_if_avx_heavy ctx.avx_unit w.avx).0 avx_heavy _ h)
    | inr off ↦ simp off (return_Post tt w h)
  ]

  test_ssl-Step : (w : World ctx) → Same w → Step (test_ssl ctx w)
  unfolding test_ssl
  test_ssl-Step w h = elim (Bool-cases ctx.options.do_ssl_self_check) [
    | inl on ↦ simp on (check-Step (self_test ctx.boringssl) crypto w h)
    | inr off ↦ simp off (return_Post tt w h)
  ]

  write_silkscreen-Step : (w : World ctx) → Same w → Step (write_silkscreen ctx w)
  unfolding write_silkscreen
  write_silkscreen-Step w h =
      check-Step (write_my_slots ctx.tid w.round w.shared.silkscreen).1 silkscreen_write _ h

  module _ (choices : Choices) where
    compress_head-Step :
        (head : MalignBuffer) (w : World ctx) → Same w → Step (compress_head ctx choices head w)
    unfolding compress_head
    compress_head-Step head w h = elim (Bool-cases ctx.options.do_compress) [
      | inr off ↦ simp off (return_Post head w h)
      | inl on ↦ simp on (
          then_Step (destination ctx at_compressed choices.buf_size) _ w
            (destination_Step at_compressed choices.buf_size w h)
            (λ dest w1 h1.
              then_Step (maybe_flush ctx dest) _ w1 (maybe_flush-Step dest w1 h1) (λ _ w2 h2.
                let o = compress ctx.zlib ctx.page head dest in
                then_Step (store at_compressed o) _ w2 (store-Step at_compressed o w2 h2)
                  (λ x w3 h3.
                    then_Step (check x.1 compression) _ w3 (check-Step x.1 compression w3 h3)
                      (λ _ w4 h4.
                        then_Step (maybe_flush ctx x.0) _ w4 (maybe_flush-Step x.0 w4 h4)
                          (λ _ w5 h5. return_Post x.0 w5 h5))))))
    ]

    encrypt_head-Step :
        (head : MalignBuffer) (w : World ctx) → Same w → Step (encrypt_head ctx choices head w)
    unfolding encrypt_head
    encrypt_head-Step head w h = elim (Bool-cases ctx.options.do_encrypt) [
      | inr off ↦ simp off (return_Post _ w h)
      | inl on ↦ simp on (
          then_Step (destination ctx at_encrypted head.buffer_length) _ w
            (destination_Step at_encrypted head.buffer_length w h)
            (λ dest w1 h1.
              then_Step (maybe_flush ctx dest) _ w1 (maybe_flush-Step dest w1 h1) (λ _ w2 h2.
                let o = encrypt ctx.evp head (advise ctx choices.madvise dest) in
                then_Step (store at_encrypted o) _ w2 (store-Step at_encrypted o w2 h2) (λ x w3 h3.
                  then_Step (unwrap x.1 crypto) _ w3 (unwrap-Step x.1 crypto w3 h3) (λ purse w4 h4.
                    then_Step (maybe_flush ctx x.0) _ w4 (maybe_flush-Step x.0 w4 h4)
                      (λ _ w5 h5. return_Post (x.0, purse) w5 h5))))))
    ]

    copy_head-Step :
        (head : MalignBuffer) (w : World ctx) → Same w → Step (copy_head ctx choices head w)
    unfolding copy_head
    copy_head-Step head w h =
        then_Step (destination ctx at_copied head.buffer_length) _ w
          (destination_Step at_copied head.buffer_length w h)
          (λ dest w1 h1.
            then_Step (maybe_flush ctx dest) _ w1 (maybe_flush-Step dest w1 h1) (λ _ w2 h2.
              let o = copy_from head choices.how.copy_method (advise ctx choices.madvise dest) in
              then_Step (store at_copied o) _ w2 (store-Step at_copied o w2 h2) (λ x w3 h3.
                then_Step (check x.1 writer_detected_copy) _ w3
                  (check-Step x.1 writer_detected_copy w3 h3)
                  (λ _ w4 h4.
                    then_Step (maybe_flush ctx x.0) _ w4 (maybe_flush-Step x.0 w4 h4)
                      (λ _ w5 h5. return_Post x.0 w5 h5)))))

    pub make-Step :
        (i : Slot) (x : MalignBuffer) (w : World ctx) → Same w → Step (make ctx i choices x w)
    unfolding make
    make-Step i x w h =
        store-Step i (generate ctx.env w.round choices.pattern_generator choices.hole choices.how x)
          w h

    deref-Step : (o : Option MalignBuffer) (w : World ctx) → Same w → Step (deref o w)
    deref-Step (some x) w h = return_Post x w h
    deref-Step none w h = record { after = tt }

    compute_from-Step : (w : World ctx) → Same w → Step (compute_from ctx choices w)
    unfolding compute_from
    compute_from-Step w h =
        then_Step (λ w. deref w.buffers.original w) _ w (deref-Step w.buffers.original w h)
          (λ blank w1 h1.
            then_Step (make ctx at_original choices blank) _ w1 (make-Step at_original blank w1 h1)
              (λ x w2 h2.
                then_Step (maybe_flush ctx x.0) _ w2 (maybe_flush-Step x.0 w2 h2) (λ _ w3 h3.
                  then_Step (compress_head ctx choices x.0) _ w3 (compress_head-Step x.0 w3 h3)
                    (λ pre w4 h4.
                      then_Step (encrypt_head ctx choices pre) _ w4 (encrypt_head-Step pre w4 h4)
                        (λ e w5 h5.
                          then_Step (copy_head ctx choices e.0) _ w5 (copy_head-Step e.0 w5 h5)
                            (λ c w6 h6. return_Post _ w6 h6))))))

    pub do_computations-Step : (w : World ctx) → Same w → Step (do_computations ctx choices w)
    unfolding do_computations
    do_computations-Step w h = then_Step (go_hot ctx) _ w (go_hot-Step w h) (λ _ w1 h1.
        then_Step (test_ssl ctx) _ w1 (test_ssl-Step w1 h1) (λ _ w2 h2.
          then_Step (write_silkscreen ctx) _ w2 (write_silkscreen-Step w2 h2) (λ _ w3 h3.
            then_Step (burn ctx) _ w3 (burn-Step w3 h3) (λ _ w4 h4. compute_from-Step w4 h4))))
