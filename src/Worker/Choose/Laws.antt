-- ===== src/Worker/Choose/Laws.antt =====
-- The choices of a round, and the processors that check it.
use cpu_check.Base.{
  ℕ, zero, suc, ◌+◌, ◌-◌, ◌^◌, ◌≡◌, ◌≤◌, refl, inl, inr, Bool, true, false, some, List, [], ◌∷◌,
  ◌++◌, ltb, length, get_or, All, arith, Bool-cases, if◌then◌else◌,
}
use cpu_check.Base.Outcome.{Outcome, done, Result, ok}
use cpu_check.MalignBuffer.{
  MalignBuffer, IsValid, CopyMethod, k_memcpy, k_rep_mov, k_sse_by128, k_avx_by256, k_avx_by512,
  initialize,
}
use cpu_check.MalignBuffer.Store.{initialized, initialize-done}
use cpu_check.MalignBuffer.Ranges.{random_punched_hole_lem}
use cpu_check.Worker.{
  Context, Options, Choices, World, Shared, WorkerError, M, ◌>>-◌, lift, alignment, alloc,
  with_held, keep, at_original, k_buf_max,
}
use cpu_check.Worker.Faultless.{
  IsFaultless, k_capacity, with_held-IsBufferSet, Holds, Gives, lift_Gives, then_goal,
}
use cpu_check.Worker.Steps.{alignment_Gives, alloc_lem}
use cpu_check.Worker.Choose.{
  k_buf_min, choices_of, copy_methods, candidates, two_of, draw, maybe, copy_method, make_choices,
  checker_tids,
}

-- Whether the flags allow a method.
unfoldable pub allows : Options → CopyMethod → Bool
allows o k_memcpy = true
allows o k_rep_mov = o.do_repmovsb
allows o k_sse_by128 = o.do_sse_128_memcpy
allows o k_avx_by256 = o.do_avx_256_memcpy
allows o k_avx_by512 = o.do_avx_512_memcpy

get_or-All :
    (P : CopyMethod → Type 0) (ms : List CopyMethod) (k : ℕ) (d : CopyMethod)
    → All P ms
    → P d
    → P (get_or ms k d)
get_or-All P [] k d all p = p
get_or-All P (m ∷ ms) zero d all p = all.0
get_or-All P (m ∷ ms) (suc k) d all p = get_or-All P ms k d all.1 p

append-All :
    (P : CopyMethod → Type 0) (ms ns : List CopyMethod) → All P ms → All P ns → All P (ms ++ ns)
append-All P [] ns all more = more
append-All P (m ∷ ms) ns all more = (all.0, append-All P ms ns all.1 more)

-- A part of the list that a flag adds.
flagged-All :
    (P : CopyMethod → Type 0) (flag : Bool) (ms : List CopyMethod)
    → (flag ≡ true → All P ms)
    → All P (if flag then ms else [])
flagged-All P true ms h = h refl
flagged-All P false ms h = tt

pub copy_methods-allows : (o : Options) → All (λ m. allows o m ≡ true) (copy_methods o)
unfolding copy_methods allows
copy_methods-allows o =
    let P : CopyMethod → Type 0 = λ m. allows o m ≡ true in
    (
      refl,
      append-All P _ _ (flagged-All P o.do_repmovsb _ (λ e. (e, (e, (e, tt))))) (
          append-All P _ _ (flagged-All P o.do_sse_128_memcpy _ (λ e. (e, tt))) (
            append-All P _ _ (flagged-All P o.do_avx_256_memcpy _ (λ e. (e, tt)))
              (flagged-All P o.do_avx_512_memcpy _ (λ e. (e, tt))))),
    )

module _ (ctx : Context) where
  -- The choices with which a round can go on, and the state that they leave.
  pub record IsChosen (sh : Shared) (round : ℕ)
      (x : Outcome (Result WorkerError Choices × World ctx)) : Type 0 where
    pub choices : Choices
    pub world : World ctx
    pub blank : MalignBuffer
    pub returns : x ≡ done (ok choices, world)
    pub leaves : Holds sh round world
    pub original : world.buffers.original ≡ some blank
    pub valid : IsValid ctx.page blank
    pub size : blank.buffer_length ≡ choices.buf_size
    pub full : blank.capacity ≡ k_capacity
    pub large : k_buf_min ≤ choices.buf_size
    pub small : choices.buf_size ≤ k_buf_max
    pub some_hole : 1 ≤ choices.hole.hole_length
    pub short_hole : choices.hole.hole_length ≤ 8192
    pub inside : choices.hole.start + choices.hole.hole_length ≤ choices.buf_size
    pub allowed : allows ctx.options choices.how.copy_method ≡ true
    pub advised : choices.madvise ≡ true → ctx.options.do_madvise ≡ true
    pub filled : choices.how.use_repstos ≡ true → ctx.options.do_repstosb ≡ true

  then_IsChosen :
      {A : Type 0} {P : A → Type 0} {sh : Shared} {round : ℕ} (m : M ctx A) (f : A → M ctx Choices)
      (w : World ctx)
      → Gives sh round (m w) P
      → ((a : A) (w' : World ctx) → Holds sh round w' → P a → IsChosen sh round (f a w'))
      → IsChosen sh round ((m >>- f) w)
  then_IsChosen {sh} {round} m f w g next = then_goal (λ x. IsChosen sh round x) m f w g next

  draw_Gives :
      {sh : Shared} {round : ℕ} (lo hi : ℕ) (w : World ctx)
      → Holds sh round w
      → Gives sh round (draw ctx lo hi w) (λ n. n ≡ (ctx.env.rng.draw lo hi w.rndeng).0)
  unfolding draw
  draw_Gives lo hi w t = record {
    value = (ctx.env.rng.draw lo hi w.rndeng).0;
    world = record w { rndeng = (ctx.env.rng.draw lo hi w.rndeng).1 };
    returns = refl;
    leaves = record { same_shared = t.same_shared; same_round = t.same_round; ready = t.ready };
    holds = refl;
  }

  maybe_Gives :
      {sh : Shared} {round : ℕ} (flag : Bool) (w : World ctx)
      → Holds sh round w
      → Gives sh round (maybe ctx flag w) (λ b. b ≡ true → flag ≡ true)
  unfolding maybe draw
  maybe_Gives false w t = lift_Gives (done false) false w t refl (λ e. e)
  maybe_Gives true w t = record {
    value = ltb 0 (ctx.env.rng.draw 0 1 w.rndeng).0;
    world = record w { rndeng = (ctx.env.rng.draw 0 1 w.rndeng).1 };
    returns = refl;
    leaves = record { same_shared = t.same_shared; same_round = t.same_round; ready = t.ready };
    holds = λ e. refl;
  }

  copy_method_Gives :
      {sh : Shared} {round : ℕ} (w : World ctx)
      → Holds sh round w
      → Gives sh round (copy_method ctx w) (λ m. allows ctx.options m ≡ true)
  unfolding copy_method draw allows
  copy_method_Gives w t =
      let v = copy_methods ctx.options in
      let k = (ctx.env.rng.draw 0 (length v - 1) w.rndeng).0 in
      record {
        value = get_or v k k_memcpy;
        world = record w { rndeng = (ctx.env.rng.draw 0 (length v - 1) w.rndeng).1 };
        returns = refl;
        leaves = record { same_shared = t.same_shared; same_round = t.same_round; ready = t.ready };
        holds =
            get_or-All (λ m. allows ctx.options m ≡ true) v k k_memcpy
              (copy_methods-allows ctx.options) refl;
      }

  pub checker_tids_Gives :
      {sh : Shared} {round : ℕ} (w : World ctx)
      → Holds sh round w
      → Gives sh round (checker_tids ctx w) (λ _. Unit {0})
  unfolding checker_tids
  checker_tids_Gives w t =
      let (cs, s) = ctx.shuffle (candidates ctx.tid ctx.tid_list) w.rndeng in
      let same : Holds _ _ (record w { rndeng = s }) = record {
        same_shared = t.same_shared;
        same_round = t.same_round;
        ready = t.ready;
      } in
      elim (Bool-cases ctx.options.do_hop) [
        | inl on ↦ record {
          value = two_of ctx.tid cs;
          world = record w { rndeng = s };
          returns = rw on refl;
          leaves = same;
          holds = tt;
        }
        | inr off ↦ record {
          value = ctx.tid ∷ ctx.tid ∷ [];
          world = w;
          returns = rw off refl;
          leaves = t;
          holds = tt;
        }
      ]

-- On a machine without faults, from a well-formed buffer set, `MakeChoices` returns. The size of the
-- buffer is from 12 bytes to a mebibyte, the original has that size, the hole has 1 to 8192 bytes
-- and lies in it, and the method of copying, `madvise` and `rep; sto` are what the flags allow.
pub make_choices_lem :
    (ctx : Context) (w : World ctx) (sh : Shared) (round : ℕ)
    → IsFaultless ctx
    → Holds sh round w
    → IsChosen ctx sh round (make_choices ctx w)
unfolding make_choices draw
make_choices_lem ctx w sh round good t =
    let old = w.buffers.original in
    let (b, allocates, full, room) = alloc_lem ctx good old (t.ready at_original) in
    then_IsChosen ctx (maybe ctx ctx.options.do_madvise) _ w
      (maybe_Gives ctx ctx.options.do_madvise w t)
      (λ madvise w1 t1 madvise_is.
        then_IsChosen ctx (copy_method ctx) _ w1 (copy_method_Gives ctx w1 t1)
          (λ method w2 t2 allowed.
            then_IsChosen ctx (maybe ctx ctx.options.do_repstosb) _ w2
              (maybe_Gives ctx ctx.options.do_repstosb w2 t2)
              (λ use_repstos w3 t3 repstos_is.
                then_IsChosen ctx (draw ctx 0 20) _ w3 (draw_Gives ctx 0 20 w3 t3)
                  (λ seldom w4 t4 _.
                    then_IsChosen ctx (draw ctx k_buf_min k_buf_max) _ w4
                      (draw_Gives ctx k_buf_min k_buf_max w4 t4)
                      (λ size w5 t5 size_is.
                        let low : k_buf_min ≤ size = omega (
                          arith,
                          size_is,
                          good.uniform.above k_buf_min k_buf_max w4.rndeng (omega arith),
                        ) in
                        let high : size ≤ k_buf_max = omega (
                          arith,
                          size_is,
                          good.uniform.below k_buf_min k_buf_max w4.rndeng (omega arith),
                        ) in
                        then_IsChosen ctx {P = λ x. x ≡ b} (lift (alloc ctx old)) _ w5
                          (lift_Gives (alloc ctx old) b w5 t5 allocates refl)
                          (λ x w6 t6 is.
                            then_IsChosen ctx (alignment ctx)
                              (λ a. lift (initialize ctx.page a size x) >>- λ d.
                                keep at_original d >>- λ _. draw ctx 0 (2 ^ 64 - 1) >>- λ seed.
                                lift (
                                  done (
                                    choices_of ctx w.round madvise method use_repstos seldom size d
                                      seed)))
                              w6 (alignment_Gives ctx good w6 t6)
                              (λ a w7 t7 aligned.
                                let d = initialized a size b in
                                let made : initialize ctx.page a size x ≡ done d =
                                  rw is (initialize-done ctx.page a size b (omega arith) aligned) in
                                let (seed, s) = ctx.env.rng.draw 0 (2 ^ 64 - 1) w7.rndeng in
                                let hole =
                                  random_punched_hole_lem ctx.env.rng seed d good.uniform
                                    (omega arith) in
                                record {
                                  choices =
                                      choices_of ctx w.round madvise method use_repstos seldom size
                                        d seed;
                                  world = record w7 {
                                    rndeng = s;
                                    buffers = with_held at_original d w7.buffers;
                                  };
                                  blank = d;
                                  returns = rw made refl;
                                  leaves = record {
                                    same_shared = t7.same_shared;
                                    same_round = t7.same_round;
                                    ready =
                                        with_held-IsBufferSet ctx.page at_original d w7.buffers
                                          t7.ready (full, room);
                                  };
                                  original = refl;
                                  valid = record {
                                    aligned = aligned;
                                    fits = omega arith;
                                    placed = refl;
                                    room = room;
                                  };
                                  size = refl;
                                  full = full;
                                  large = low;
                                  small = high;
                                  some_hole = hole.0;
                                  short_hole = hole.1;
                                  inside = hole.2;
                                  allowed = allowed;
                                  advised = madvise_is;
                                  filled = repstos_is;
                                })))))))
