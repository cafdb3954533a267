-- ===== src/Worker/Run.antt =====
-- `Run`: the loop of a worker. What it learns in one turn of the loop is an argument; the turns follow
-- each other until the stopper has expired.
pub mod Laws
pub mod Limit
pub mod Bound
use cpu_check.Base.{
  ℕ, ◌+◌, ◌%◌, ◌^◌, Bool, Option, none, some, List, [], ◌∷◌, ◌++◌, ltb, length, not, ◌&&◌, ◌||◌,
  if◌then◌else◌,
}
use cpu_check.Base.Outcome.{Outcome, done, ◌>>=◌, Result, ok, error}
use cpu_check.Base.Int.{pos_part}
use cpu_check.Fvt.{Controller, Schedule}
use cpu_check.Fvt.Session.{schedule_turn}
use cpu_check.Stopper.{Stopper, expired}
use cpu_check.Worker.{
  Context, Options, Choices, World, Shared, BufferSet, WorkerError, M, ◌>>-◌, lift,
}
use cpu_check.Worker.Choose.{make_choices, checker_tids}
use cpu_check.Worker.Compute.{Computed, do_computations}
use cpu_check.Worker.Check.{check_computations}

-- The time at the test of the loop, the one at which `ScheduledMHz` looks, and whether the `n`-th call
-- of `SetAffinity` in the turn succeeds for a processor.
pub record Turn : Type 0 where
  pub now : ℕ
  pub tuned : ℕ
  pub settable : ℕ → ℕ → Bool

abbrev pub new_buffer_set : BufferSet
new_buffer_set = record {
  original = none;
  compressed = none;
  encrypted = none;
  copied = none;
  decrypted = none;
  decompressed = none;
  re_made = none;
}

-- The flags that `ScheduledMHz` reads. Negative ones are outside of the model.
abbrev pub schedule_of : Options → Schedule
schedule_of o = record {
  do_freq_sweep = o.do_freq_sweep;
  do_freq_hi_lo = o.do_freq_hi_lo;
  fixed_min_frequency = pos_part o.fixed_min_frequency;
  fixed_max_frequency = pos_part o.fixed_max_frequency;
}

-- A worker in its loop: `fvt_controller_`, which is there when `do_fvt` is set, and the rest.
pub record Runner (ctx : Context) : Type 0 where
  pub control : Option Controller
  pub world : World ctx

module _ (ctx : Context) where
  -- The status of a call as a value.
  abbrev pub status : {A : Type 0} → M ctx A → M ctx (Result WorkerError A)
  status m w = m w >>= λ (r, w'). done (ok r, w')

  -- `errorCount++`, `successCount++`, and the line that names a suspect.
  unfoldable pub count_error : M ctx Unit
  count_error w =
      let shared : Shared = record w.shared { error_count = w.shared.error_count + 1 } in
      done (ok tt, record w { shared = shared })

  unfoldable pub count_success : M ctx Unit
  count_success w =
      let shared : Shared = record w.shared { success_count = w.shared.success_count + 1 } in
      done (ok tt, record w { shared = shared })

  unfoldable pub suspect : ℕ → M ctx Unit
  suspect tid w =
      let shared : Shared = record w.shared { suspects = tid ∷ w.shared.suspects } in
      done (ok tt, record w { shared = shared })

  -- The checkers in turn, up to the first that agrees: the processors of those that do not.
  unfoldable pub check_on : Turn → Choices → Computed ctx → List ℕ → List ℕ → M ctx (List ℕ)
  unfolding count_error
  check_on t choices c [] failing = lift (done failing)
  check_on t choices c (i ∷ is) failing =
      let newcpu = if t.settable (1 + length failing) i then i else ctx.tid in
      let next = check_on t choices c is (failing ++ (newcpu ∷ [])) in
      status (check_computations ctx choices c) >>- λ r. elim r as (λ _. M ctx (List ℕ)) [
        | ok _ ↦ lift (done failing)
        | error e ↦ count_error >>- λ _. next
      ]

  -- The likely culprit: the writer if two checkers disagree with it, else the checker.
  unfoldable pub conclude : List ℕ → M ctx Unit
  unfolding count_success suspect
  conclude [] = count_success
  conclude (i ∷ []) = suspect i
  conclude (i ∷ j ∷ is) = suspect ctx.tid

  -- The body of the loop from the choices on.
  unfoldable pub round_body : Turn → M ctx Unit
  unfolding count_error suspect check_on conclude
  round_body t = make_choices ctx >>- λ choices. status (do_computations ctx choices) >>- λ r.
      elim r as (λ _. M ctx Unit) [
        | error e ↦ suspect ctx.tid >>- λ _. count_error
        | ok c ↦ checker_tids ctx >>- λ tids.
            check_on t choices c tids [] >>- λ failing. conclude failing
      ]

  -- The next round, with new buffers when memory is to be reallocated.
  unfoldable pub next_round : World ctx → World ctx
  next_round w = record w {
    round = (w.round + 1) % 2 ^ 64;
    buffers = if ctx.options.do_madvise then new_buffer_set else w.buffers;
  }

  -- The frequency of the turn: `ScheduledMHz`, `SetCurrentFreqLimitMhz` and `MonitorFrequency`, when
  -- there is a controller.
  unfoldable pub tune : Turn → Option Controller → Outcome (Option Controller)
  tune t none = done none
  tune t (some c) =
      schedule_turn (schedule_of ctx.options) (pos_part ctx.options.seconds_per_freq) t.tuned c
      >>= λ c'. done (some c')

  -- One turn; `BoundedSleep(30)` when the worker cannot run on its processor. The wait for a phase of
  -- the noise does not touch what is modelled.
  unfoldable pub turn : Turn → Runner ctx → Outcome (Runner ctx)
  unfolding round_body next_round tune
  turn t r =
      if ltb 1 ctx.hardware_concurrency && not (t.settable 0 ctx.tid)
      then done r
      else (tune t r.control >>= λ c. round_body t (next_round r.world) >>= λ (_, w').
          done (record { control = c; world = w' }))

  -- `Expired`: the stopper was told to stop, or the deadline has passed.
  unfoldable pub run : List Turn → Runner ctx → Outcome (Runner ctx)
  unfolding turn expired
  run [] r = done r
  run (t ∷ ts) r =
      let stopper : Stopper = record { t_stop = ctx.t_stop; stopped = r.world.shared.stopped } in
      if expired t.now stopper then done r else (turn t r >>= λ r'. run ts r')
