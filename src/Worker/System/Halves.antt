-- ===== src/Worker/System/Halves.antt =====
-- The two halves of a round on a machine without faults, and that they make up a round.
use cpu_check.Base.{
  ℕ, ◌+◌, ◌%◌, ◌^◌, ◌≡◌, ◌≤◌, refl, ap, ◌∙◌, Bool, true, false, not, ◌&&◌, ◌||◌, Option, none, some,
  [], ltb, if◌then◌else◌,
}
use cpu_check.Base.Outcome.{Outcome, done, ◌>>=◌, ok}
use cpu_check.Silkscreen.{check_my_slots, passed}
use cpu_check.Silkscreen.Fresh.{IsFresh, check-IsFresh}
use cpu_check.Stopper.{is_past}
use cpu_check.Base.Outcome.{Result, error, fatal, fault}
use cpu_check.Worker.{Choices}
use cpu_check.Worker.Compute.{Computed, do_computations}
use cpu_check.Worker.Choose.{make_choices, checker_tids}
use cpu_check.Worker.Run.{status, check_on, round_body, suspect, count_error}
use cpu_check.Worker.{WorkerError, M, ◌>>-◌, lift, Context, World, k_buf_max}
use cpu_check.Worker.Checker.{check_computations_Gives}
use cpu_check.Worker.Choose.Laws.{make_choices_lem, checker_tids_Gives}
use cpu_check.Worker.Faultless.{IsFaultless, IsBufferSet, Holds}
use cpu_check.Worker.Quiet.{written}
use cpu_check.Worker.Run.{Turn, Runner, tune, new_buffer_set, next_round, conclude, count_success}
use cpu_check.Worker.Run.Laws.{
  IsReady, IsTuned, tune-IsTuned, Runs, succeeded, check_on-nil, new_buffer_set-IsBufferSet,
}
use cpu_check.Worker.System.{Pending, first_half, second_half, pending_of, worker_step}
use cpu_check.Worker.Writer.{IsComputed, do_computations_Gives}

not_and-false : (b c : Bool) → c ≡ true → (b && not c) ≡ false
not_and-false true c e = rw e refl
not_and-false false c e = refl

module _ (ctx : Context) (good : IsFaultless ctx) where
  -- What a worker has between the halves is what the writer should have computed.
  pub record IsPending (round : ℕ) (p : Pending ctx) : Type 0 where
    pub small : p.choices.buf_size ≤ k_buf_max
    pub inside : p.choices.hole.start + p.choices.hole.hole_length ≤ p.choices.buf_size
    pub computed : IsComputed ctx good p.choices small inside round p.computed

  -- A first half.
  pub record Begins (t : Turn) (q : Runner ctx) : Type 0 where
    pub pending : Pending ctx
    pub next : Runner ctx
    pub returns : worker_step ctx t none q ≡ done (next, some pending)
    pub sound : IsPending ((q.world.round + 1) % 2 ^ 64) pending
    pub leaves :
        Holds
          (written ctx ((q.world.round + 1) % 2 ^ 64) q.world.shared)
          ((q.world.round + 1) % 2 ^ 64)
          next.world
    pub control : IsTuned ctx next.control

  worker_step-none :
      (t : Turn) (q : Runner ctx)
      → Runs ctx t
      → q.world.shared.stopped ≡ false
      → worker_step ctx t none q ≡ (
          tune ctx t q.control >>= λ c. first_half ctx (next_round ctx q.world) >>= λ (r, w').
          done (record { control = c; world = w' }, pending_of ctx r))
  unfolding worker_step
  worker_step-none t q runs going =
      let half : Outcome (Runner ctx × Option (Pending ctx)) = tune ctx t q.control >>= λ c.
      first_half ctx (next_round ctx q.world) >>= λ (r, w').
      done (record { control = c; world = w' }, pending_of ctx r) in
      let affine = ltb 1 ctx.hardware_concurrency && not (t.settable 0 ctx.tid) in
      let tests =
        λ (b : Bool) (c : Bool). if b then done (q, none) else if c then done (q, none) else half in
      ap (λ b. tests (b || is_past ctx.t_stop t.now) affine) going
      ∙ ap (λ b. tests b affine) runs.0
      ∙ ap (tests false)
          (not_and-false (ltb 1 ctx.hardware_concurrency) (t.settable 0 ctx.tid) runs.1)

  pub begin_lem :
      (t : Turn) (q : Runner ctx)
      → Runs ctx t
      → q.world.shared.stopped ≡ false
      → IsReady ctx q.world
      → IsTuned ctx q.control
      → Begins t q
  unfolding first_half next_round
  begin_lem t q runs going ready control =
      let w = q.world in
      let (c', tunes, tuned) = tune-IsTuned ctx t q.control control in
      let r = (w.round + 1) % 2 ^ 64 in
      let next = next_round ctx w in
      let h : Holds w.shared r next = record {
        same_shared = refl;
        same_round = refl;
        ready = buffers ctx.options.do_madvise;
      } in
      let c = make_choices_lem ctx next w.shared r good h in
      let g =
        do_computations_Gives ctx good c.choices c.small c.inside w.shared r c.world c.blank
          c.leaves c.original c.valid c.size c.full ready.silkscreen in
      record {
        pending = record { choices = c.choices; computed = g.value };
        next = record { control = c'; world = g.world };
        returns = worker_step-none t q runs going ∙ rw (tunes, c.returns, g.returns) refl;
        sound = record { small = c.small; inside = c.inside; computed = g.holds };
        leaves = g.leaves;
        control = tuned;
      }
    where
      buffers : (b : Bool) → IsBufferSet ctx.page (if b then new_buffer_set else q.world.buffers)
      buffers true = new_buffer_set-IsBufferSet ctx.page
      buffers false = ready.buffers

  -- A second half, which its worker's slots let pass.
  pub record Finishes (t : Turn) (p : Pending ctx) (q : Runner ctx) : Type 0 where
    pub world : World ctx
    pub returns : worker_step ctx t (some p) q ≡ done (record q { world = world }, none)
    pub leaves : Holds (succeeded ctx good q.world.shared) q.world.round world

  pub finish_lem :
      (t : Turn) (p : Pending ctx) (q : Runner ctx)
      → IsReady ctx q.world
      → IsPending q.world.round p
      → IsFresh q.world.shared.silkscreen ctx.tid q.world.round
      → Finishes t p q
  unfolding worker_step second_half conclude count_success succeeded
  finish_lem t p q ready sound fresh =
      let w = q.world in
      let h : Holds w.shared w.round w = record {
        same_shared = refl;
        same_round = refl;
        ready = ready.buffers;
      } in
      let k = checker_tids_Gives ctx w h in
      let here : check_my_slots ctx.tid w.round w.shared.silkscreen ≡ passed =
        check-IsFresh ctx.tid w.round w.shared.silkscreen ready.silkscreen fresh in
      let v =
        check_computations_Gives ctx good p.choices sound.small sound.inside w.shared w.round
          p.computed sound.computed k.world k.leaves here in
      let (u, checks, leaves) =
        check_on-nil ctx good t p.choices p.computed k.value k.world k.leaves v in
      record {
        world = record u { shared = succeeded ctx good u.shared };
        returns = rw (k.returns, checks) refl;
        leaves = record {
          same_shared = ap (succeeded ctx good) leaves.same_shared;
          same_round = leaves.same_round;
          ready = leaves.ready;
        };
      }

module _ {ctx : Context} {A B C : Type 0} (f : A → M ctx C) (g : A → M ctx B) (k : B → M ctx C)
    (same : (a : A) (w : World ctx) → f a w ≡ (g a >>- k) w) where
  -- A bind may be taken apart.
  then-then : (m : M ctx A) (w : World ctx) → (m >>- f) w ≡ ((m >>- g) >>- k) w
  then-then m w = go (m w)
    where
      go :
          (o : Outcome (Result WorkerError A × World ctx))
          → (o >>= λ (r, w'). elim r [ ok a ↦ f a w' | error e ↦ done (error e, w') ]) ≡ (
              (o >>= λ (r, w'). elim r [ ok a ↦ g a w' | error e ↦ done (error e, w') ])
              >>= λ (r, w'). elim r [ ok b ↦ k b w' | error e ↦ done (error e, w') ])
      go (done (ok a, w')) = same a w'
      go (done (error e, w')) = refl
      go fatal = refl
      go fault = refl

-- After the first half.
abbrev resume : (ctx : Context) → Turn → Option (Pending ctx) → M ctx Unit
resume ctx t none = lift (done tt)
resume ctx t (some p) = second_half ctx t p

-- What the body of the loop, and the first half, do with the status, and with the choices.
abbrev round_status :
    (ctx : Context) → Turn → Choices → Result WorkerError (Computed ctx) → M ctx Unit
round_status ctx t choices r = elim r as (λ _. M ctx Unit) [
  | error e ↦ suspect ctx ctx.tid >>- λ _. count_error ctx
  | ok c ↦ checker_tids ctx >>- λ tids.
      check_on ctx t choices c tids [] >>- λ failing. conclude ctx failing
]

abbrev first_status :
    (ctx : Context) → Choices → Result WorkerError (Computed ctx) → M ctx (Option (Pending ctx))
first_status ctx choices r = elim r as (λ _. M ctx (Option (Pending ctx))) [
  | error e ↦ suspect ctx ctx.tid >>- λ _. count_error ctx >>- λ _. lift (done none)
  | ok c ↦ lift (done (some (record { choices = choices; computed = c })))
]

abbrev round_rest : (ctx : Context) → Turn → Choices → M ctx Unit
round_rest ctx t choices = status ctx (do_computations ctx choices) >>- round_status ctx t choices

abbrev first_rest : (ctx : Context) → Choices → M ctx (Option (Pending ctx))
first_rest ctx choices = status ctx (do_computations ctx choices) >>- first_status ctx choices

-- The body of the loop of `Run` is the first half, and the second when there is something to check.
pub round_body-halves :
    (ctx : Context) (t : Turn) (w : World ctx)
    → round_body ctx t w ≡ (first_half ctx >>- resume ctx t) w
unfolding round_body first_half second_half suspect count_error
round_body-halves ctx t w =
    then-then (round_rest ctx t) (first_rest ctx) (resume ctx t)
      (λ choices.
        then-then (round_status ctx t choices) (first_status ctx choices) (resume ctx t)
          (status-halves choices) (status ctx (do_computations ctx choices)))
      (make_choices ctx) w
  where
    status-halves :
        (choices : Choices) (r : Result WorkerError (Computed ctx)) (w' : World ctx)
        → round_status ctx t choices r w' ≡ (first_status ctx choices r >>- resume ctx t) w'
    status-halves choices (error e) w' = refl
    status-halves choices (ok c) w' = refl
