-- ===== src/Worker/Choose/Still.antt =====
-- The choices leave what the threads share, on any machine.
use cpu_check.Base.{ℕ, ◌-◌, ◌^◌, ◌≡◌, ◌≤◌, Bool, true, false, length, arith, Bool-cases, inl, inr}
use cpu_check.Base.Outcome.{Outcome, Result}
use cpu_check.MalignBuffer.{initialize}
use cpu_check.Worker.{
  Context, Choices, World, Shared, WorkerError, M, ◌>>-◌, lift, with_held, alignment, alloc,
  at_original, k_buf_max,
}
use cpu_check.Worker.Choose.{
  k_buf_min, candidates, draw, maybe, copy_method, make_choices, checker_tids,
}
use cpu_check.Worker.Post.{Post, then_Post, return_Post, lift-Post}

-- The choices leave what is shared.
module _ (ctx : Context) (E : WorkerError → World ctx → Type 0) (s : Shared) where
  abbrev pub Still : {A : Type 0} → Outcome (Result WorkerError A × World ctx) → Type 0
  Still o = Post (λ _ w. w.shared ≡ s) E o

  draw_Still : (lo hi : ℕ) (w : World ctx) → w.shared ≡ s → Still (draw ctx lo hi w)
  unfolding draw
  draw_Still lo hi w h = return_Post _ _ h

  maybe-Still : (flag : Bool) (w : World ctx) → w.shared ≡ s → Still (maybe ctx flag w)
  unfolding maybe draw
  maybe-Still true w h = return_Post _ _ h
  maybe-Still false w h = return_Post _ w h

  copy_method_Still : (w : World ctx) → w.shared ≡ s → Still (copy_method ctx w)
  unfolding copy_method draw
  copy_method_Still w h = return_Post _ _ h

  alignment-Still : (w : World ctx) → w.shared ≡ s → Still (alignment ctx w)
  unfolding alignment
  alignment-Still w h = elim (Bool-cases ctx.options.do_misalign) [
    | inl on ↦ simp on (return_Post _ _ h)
    | inr off ↦ simp off (return_Post 0 w h)
  ]

  then_Still :
      {A B : Type 0} (m : M ctx A) (f : A → M ctx B) (w : World ctx)
      → Still (m w)
      → ((a : A) (w' : World ctx) → w'.shared ≡ s → Still (f a w'))
      → Still ((m >>- f) w)
  then_Still m f w h next = then_Post m f w h next

  pub make_choices-Still : (w : World ctx) → w.shared ≡ s → Still (make_choices ctx w)
  unfolding make_choices
  make_choices-Still w h =
      then_Still (maybe ctx ctx.options.do_madvise) _ w (maybe-Still _ w h) (λ _ w1 h1.
        then_Still (copy_method ctx) _ w1 (copy_method_Still w1 h1) (λ _ w2 h2.
          then_Still (maybe ctx ctx.options.do_repstosb) _ w2 (maybe-Still _ w2 h2) (λ _ w3 h3.
            then_Still (draw ctx 0 20) _ w3 (draw_Still 0 20 w3 h3) (λ _ w4 h4.
              then_Still (draw ctx k_buf_min k_buf_max) _ w4 (draw_Still k_buf_min k_buf_max w4 h4)
                (λ size w5 h5.
                  let old = alloc ctx w.buffers.original in
                  then_Still (lift old) _ w5 (lift-Post old w5 (λ _ _. h5)) (λ b w6 h6.
                    then_Still (alignment ctx) _ w6 (alignment-Still w6 h6) (λ a w7 h7.
                      let made = initialize ctx.page a size b in
                      then_Still (lift made) _ w7 (lift-Post made w7 (λ _ _. h7)) (λ b' w8 h8.
                        let w9 : World ctx = record w8 {
                          buffers = with_held at_original b' w8.buffers;
                        } in
                        then_Still (draw ctx 0 (2 ^ 64 - 1)) _ w9 (draw_Still 0 (2 ^ 64 - 1) w9 h8)
                          (λ _ w10 h10. return_Post _ w10 h10)))))))))

-- At most two processors check a round.
pub checker_tids-Post :
    (ctx : Context) (E : WorkerError → World ctx → Type 0) (s : Shared) (w : World ctx)
    → w.shared ≡ s
    → Post (λ tids w'. (length tids ≤ 2) × (w'.shared ≡ s)) E (checker_tids ctx w)
unfolding checker_tids cpu_check.Worker.Choose.two_of
checker_tids-Post ctx E s w h = elim (Bool-cases ctx.options.do_hop) [
  | inl on ↦ simp on (return_Post _ _ (omega arith, h))
  | inr off ↦ simp off (return_Post _ w (omega arith, h))
]
