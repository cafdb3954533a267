-- ===== src/Worker/Run/Bound.antt =====
-- How far the count of errors of a worker goes, on any machine.
use cpu_check.Base.{
  ℕ, suc, ◌+◌, ◌≡◌, ◌≤◌, refl, sym, ap, ◌∙◌, false, List, [], ◌∷◌, ltb, ◌||◌, ◌&&◌, not,
  if◌then◌else◌, length, arith, Bool-cases, inl, inr,
}
use mathlib.Core.Path.{subst}
use cpu_check.Base.Outcome.{Outcome, done, fatal, fault, ◌>>=◌, Result, ok, error}
use cpu_check.Worker.{Context, Choices, World, Shared, WorkerError, M, ◌>>-◌}
use cpu_check.Worker.Compute.{Computed, do_computations}
use cpu_check.Worker.Check.{check_computations}
use cpu_check.Worker.Choose.{make_choices, checker_tids}
use cpu_check.Worker.Post.{Post, After, then_Post, return_Post}
use cpu_check.Base.{Bool, Option}
use cpu_check.Fvt.{Controller}
use cpu_check.Stopper.{is_past}
use cpu_check.Worker.Run.{
  Turn, Runner, tune, status, check_on, count_error, conclude, count_success, suspect, round_body,
  next_round, turn, run,
}
use cpu_check.Worker.Run.Limit.{Over, do_computations-Step}
use cpu_check.Worker.Run.Limit.Checker.{check_computations-Step}
use cpu_check.Worker.Choose.Still.{make_choices-Still, checker_tids-Post}

module _ (ctx : Context) where
  -- There is room for `k` errors up to `most`; and while nobody was told to stop, there is at most
  -- one error more than the limit.
  abbrev pub HasRoom : ℕ → ℕ → World ctx → Type 0
  HasRoom most k w =
      (w.shared.error_count + k ≤ most)
      × (w.shared.stopped ≡ false → w.shared.error_count ≤ ctx.options.error_limit + 1)

  -- At most three errors more than the limit.
  abbrev pub IsBounded : World ctx → Type 0
  IsBounded = HasRoom (ctx.options.error_limit + 3) 0

  -- A step whose status is looked at.
  pub status_then :
      {A B : Type 0} {P : A → World ctx → Type 0} {E F : WorkerError → World ctx → Type 0}
      {Q : B → World ctx → Type 0} (m : M ctx A) (k : Result WorkerError A → M ctx B)
      (w : World ctx)
      → Post P E (m w)
      → ((a : A) (w' : World ctx) → P a w' → Post Q F (k (ok a) w'))
      → ((e : WorkerError) (w' : World ctx) → E e w' → Post Q F (k (error e) w'))
      → Post Q F ((status ctx m >>- k) w)
  status_then {A} {P} {E} {F} {Q} m k w h fine wrong = record { after = go (m w) h.after }
    where
      go :
          (o : Outcome (Result WorkerError A × World ctx))
          → After P E o
          → After Q F ((status ctx (λ (w' : World ctx). o) >>- k) w)
      go (done (ok a, w')) h = (fine a w' h).after
      go (done (error e, w')) h = (wrong e w' h).after
      go fatal h = tt
      go fault h = tt

  -- `errorCount++`.
  counted : World ctx → World ctx
  counted w = record w { shared = record w.shared { error_count = w.shared.error_count + 1 } }

  -- One more error.
  pub one_more :
      (most k : ℕ) (w w' : World ctx)
      → HasRoom most (suc k) w
      → Over ctx w.shared.error_count w.shared.stopped w'
      → (v : World ctx) → v.shared.error_count ≡ w'.shared.error_count + 1
      → v.shared.stopped ≡ w'.shared.stopped
      → HasRoom most k v
  one_more most k w w' room over v count same =
      (omega (arith, room.0, over.0, count), λ go. under (sym over.1 ∙ (sym same ∙ go)))
    where
      under :
          (w.shared.stopped || ltb ctx.options.error_limit w.shared.error_count) ≡ false
          → v.shared.error_count ≤ ctx.options.error_limit + 1
      under e = ground (arith, e, over.0, count)

  pub check_on-Post :
      (most : ℕ) (t : Turn) (choices : Choices) (c : Computed ctx) (tids fs : List ℕ)
      (w : World ctx)
      → HasRoom most (length tids) w
      → Post
          (λ _ w'. HasRoom most 0 w')
          (λ _ w'. HasRoom most 0 w')
          (check_on ctx t choices c tids fs w)
  unfolding check_on count_error counted
  check_on-Post most t choices c [] fs w room = return_Post fs w (omega (arith, room.0), room.1)
  check_on-Post most t choices c (i ∷ is) fs w room =
      let n = w.shared.error_count in
      let b = w.shared.stopped in
      status_then (check_computations ctx choices c) _ w
        (check_computations-Step ctx n b choices c w (refl, refl))
        (λ _ w1 h1.
          return_Post fs w1
            (omega (arith, room.0, h1.0), λ go. omega (arith, room.1 (sym h1.1 ∙ go), h1.0)))
        (λ e w1 h1.
          let w2 : World ctx = counted w1 in
          check_on-Post most t choices c is _ w2
            (one_more most (length is) w w1 room h1 w2 refl refl))

  pub conclude-Post :
      (most : ℕ) (fs : List ℕ) (w : World ctx)
      → HasRoom most 0 w
      → Post (λ _ w'. HasRoom most 0 w') (λ _ w'. HasRoom most 0 w') (conclude ctx fs w)
  unfolding conclude count_success suspect
  conclude-Post most [] w h = return_Post tt _ h
  conclude-Post most (i ∷ []) w h = return_Post tt _ h
  conclude-Post most (i ∷ j ∷ is) w h = return_Post tt _ h

  -- A round of a worker that was not told to stop.
  round_body-Post :
      (t : Turn) (w : World ctx)
      → w.shared.error_count ≤ ctx.options.error_limit + 1
      → Post (λ _ w'. IsBounded w') (λ _ w'. IsBounded w') (round_body ctx t w)
  unfolding round_body count_error suspect counted
  round_body-Post t w low =
      then_Post (make_choices ctx) _ w (make_choices-Still ctx _ w.shared w refl)
        (λ choices w1 same.
          let n = w1.shared.error_count in
          let b = w1.shared.stopped in
          let start : n ≤ ctx.options.error_limit + 1 =
            omega (arith, low, ap (λ (x : Shared). x.error_count) same) in
          status_then (do_computations ctx choices) _ w1
            (do_computations-Step ctx n b choices w1 (refl, refl))
            (λ c w2 h2.
              then_Post (checker_tids ctx) _ w2 (checker_tids-Post ctx _ w2.shared w2 refl)
                (λ tids w3 h3.
                  let count : w3.shared.error_count ≡ n =
                    ap (λ (x : Shared). x.error_count) h3.1 ∙ h2.0 in
                  then_Post (check_on ctx t choices c tids []) _ w3
                    (check_on-Post (ctx.options.error_limit + 3) t choices c tids [] w3
                      (omega (arith, count, start, h3.0), λ _. omega (arith, count, start)))
                    (λ fs w4 h4. conclude-Post (ctx.options.error_limit + 3) fs w4 h4)))
            (λ e w2 h2.
              let w3 : World ctx = record w2 {
                shared = record w2.shared {
                  suspects = ctx.tid ∷ w2.shared.suspects;
                  error_count = w2.shared.error_count + 1;
                };
              } in
              let more =
                one_more (ctx.options.error_limit + 3) 0 w1 w2 (omega (arith, start), λ _. start) h2
                  w3 refl refl in
              return_Post tt w3 (omega (arith, more.0), more.1)))

  -- What holds of the worker in the end, if the process is not aborted.
  abbrev pub Ends : (World ctx → Type 0) → Outcome (Runner ctx) → Type 0
  Ends P (done q) = P q.world
  Ends P fatal = Unit
  Ends P fault = Unit

  then_Ends :
      (o : Outcome (Runner ctx)) (f : Runner ctx → Outcome (Runner ctx))
      → Ends IsBounded o
      → ((q : Runner ctx) → IsBounded q.world → Ends IsBounded (f q))
      → Ends IsBounded (o >>= f)
  then_Ends (done q) f h next = next q h
  then_Ends fatal f h next = tt
  then_Ends fault f h next = tt

  any_Ends :
      {A : Type 0} (o : Outcome A) (f : A → Outcome (Runner ctx))
      → ((a : A) → Ends IsBounded (f a))
      → Ends IsBounded (o >>= f)
  any_Ends (done a) f next = next a
  any_Ends fatal f next = tt
  any_Ends fault f next = tt

  ignored :
      (c : Option Controller) (o : Outcome (Result WorkerError Unit × World ctx))
      → After (λ _ w. IsBounded w) (λ _ w. IsBounded w) o
      → Ends IsBounded (o >>= λ (_, w). done (record { control = c; world = w }))
  ignored c (done (ok a, w)) h = h
  ignored c (done (error e, w)) h = h
  ignored c fatal h = tt
  ignored c fault h = tt

  turn-Ends :
      (t : Turn) (q : Runner ctx)
      → IsBounded q.world
      → q.world.shared.stopped ≡ false
      → Ends IsBounded (turn ctx t q)
  unfolding turn next_round
  turn-Ends t q h go =
      let next = next_round ctx q.world in
      elim (Bool-cases (ltb 1 ctx.hardware_concurrency && not (t.settable 0 ctx.tid))) [
        | inl stay ↦ rw stay h
        | inr goes ↦ rw goes (
            any_Ends (tune ctx t q.control) _
              (λ c. ignored c (round_body ctx t next) (round_body-Post t next (h.1 go)).after))
      ]

-- On any machine, faulty or not, with any flags: a worker that is alone, so that no other counts errors
-- at the same time, and that starts with at most one error more than the limit has, after any turns of
-- the loop of `Run` and unless the process aborts, at most three errors more than the limit, and at
-- most one more as long as it was not told to stop.
pub run-IsBounded :
    (ctx : Context) (ts : List Turn) (q : Runner ctx)
    → q.world.shared.error_count ≤ ctx.options.error_limit + 1
    → Ends ctx (IsBounded ctx) (run ctx ts q)
unfolding run
run-IsBounded ctx ts q low = go ts q (omega (arith, low), λ _. low)
  where
    go :
        (ts : List Turn) (q : Runner ctx)
        → IsBounded ctx q.world
        → Ends ctx (IsBounded ctx) (run ctx ts q)
    go [] q h = h
    go (t ∷ ts) q h =
        let tests = λ (b : Bool) (c : Bool).
          if b || c then done q else (turn ctx t q >>= λ q'. run ctx ts q') in
        elim (Bool-cases q.world.shared.stopped) [
          | inl stopped ↦
              subst (λ b. Ends ctx (IsBounded ctx) (tests b (is_past ctx.t_stop t.now)))
                (sym stopped) h
          | inr going ↦
              subst (λ b. Ends ctx (IsBounded ctx) (tests b (is_past ctx.t_stop t.now))) (sym going)
                (elim (Bool-cases (is_past ctx.t_stop t.now)) [
                  | inl late ↦ rw late h
                  | inr early ↦ rw early (
                      then_Ends ctx (turn ctx t q) (run ctx ts) (turn-Ends ctx t q h going)
                        (λ q' h'. go ts q' h'))
                ])
        ]
