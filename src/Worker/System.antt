-- ===== src/Worker/System.antt =====
-- The worker threads that main starts, one for each entry of the list of processors, also when an
-- entry stands in it twice. They share a silkscreen and the counters. A round is two
-- steps, since it touches what is shared at two places: where the slots are written, and in the checks
-- with the count at their end. The steps of the threads are interleaved in any order.
pub mod Halves
pub mod Moves
pub mod Laws
pub mod Bound
use cpu_check.Base.{
  ℕ, Bool, Option, none, some, List, [], ◌∷◌, ltb, not, ◌&&◌, ◌==◌, get_or, if◌then◌else◌,
}
use cpu_check.Base.Outcome.{Outcome, done, ◌>>=◌, Result, ok, error}
use cpu_check.Avx.{Avx}
use cpu_check.Fvt.{Controller}
use cpu_check.Stopper.{Stopper, expired}
use cpu_check.Worker.{Context, Choices, World, Shared, BufferSet, WorkerError, M, ◌>>-◌, lift}
use cpu_check.Worker.Choose.{make_choices, checker_tids}
use cpu_check.Worker.Compute.{Computed, do_computations}
use cpu_check.Worker.Run.{
  Turn, Runner, tune, status, count_error, suspect, check_on, conclude, next_round,
}

-- What a worker has between the halves of a round.
pub record Pending (ctx : Context) : Type 0 where
  pub choices : Choices
  pub computed : Computed ctx

module _ (ctx : Context) where
  -- Up to the status of `DoComputations`, whose error ends the round.
  unfoldable pub first_half : M ctx (Option (Pending ctx))
  unfolding count_error suspect
  first_half = make_choices ctx >>- λ choices. status ctx (do_computations ctx choices) >>- λ r.
      elim r as (λ _. M ctx (Option (Pending ctx))) [
        | error e ↦ suspect ctx ctx.tid >>- λ _. count_error ctx >>- λ _. lift (done none)
        | ok c ↦ lift (done (some (record { choices = choices; computed = c })))
      ]

  -- The checks.
  unfoldable pub second_half : Turn → Pending ctx → M ctx Unit
  unfolding check_on conclude
  second_half t p = checker_tids ctx >>- λ tids.
      check_on ctx t p.choices p.computed tids [] >>- λ failing. conclude ctx failing

  abbrev pub pending_of : Result WorkerError (Option (Pending ctx)) → Option (Pending ctx)
  pending_of (ok p) = p
  pending_of (error e) = none

  -- The next step of a worker, which does nothing once the stopper has expired, or when it cannot run
  -- on its processor.
  unfoldable pub worker_step :
      Turn → Option (Pending ctx) → Runner ctx → Outcome (Runner ctx × Option (Pending ctx))
  unfolding first_half second_half expired next_round tune
  worker_step t (some p) q =
      second_half t p q.world >>= λ (_, w'). done (record q { world = w' }, none)
  worker_step t none q =
      let stopper : Stopper = record { t_stop = ctx.t_stop; stopped = q.world.shared.stopped } in
      if expired t.now stopper
      then done (q, none)
      else if ltb 1 ctx.hardware_concurrency && not (t.settable 0 ctx.tid)
      then done (q, none)
      else (tune ctx t q.control >>= λ c. first_half (next_round ctx q.world) >>= λ (r, w').
          done (record { control = c; world = w' }, pending_of r))

-- The members of a worker that are its own.
pub record Local (ctx : Context) : Type 0 where
  pub rndeng : ctx.env.rng.S
  pub avx : Avx ctx.env.rng.S
  pub round : ℕ
  pub buffers : BufferSet
  pub control : Option Controller
  pub pending : Option (Pending ctx)

pub record System (ctx : Context) : Type 0 where
  pub shared : Shared
  pub locals : ℕ → Local ctx

module _ (ctx : Context) where
  -- The processor of worker `i`, which is the `i`-th of the list.
  abbrev pub tid_of : ℕ → ℕ
  tid_of i = get_or ctx.tid_list i 0

  abbrev pub with_tid : ℕ → Context
  with_tid i = record ctx { tid = tid_of i }

  -- The same data, at the types of one worker and of all.
  abbrev pub to_worker : (i : ℕ) → Pending ctx → Pending (with_tid i)
  to_worker i p = record {
    choices = p.choices;
    computed = record {
      checksums = record {
        hash_value = p.computed.checksums.hash_value;
        floating_point_results = p.computed.checksums.floating_point_results;
        crypto_purse = p.computed.checksums.crypto_purse;
      };
      original = p.computed.original;
      pre_encrypted = p.computed.pre_encrypted;
      pre_copied = p.computed.pre_copied;
      copied = p.computed.copied;
    };
  }

  abbrev pub to_local : (i : ℕ) → Pending (with_tid i) → Pending ctx
  to_local i p = record {
    choices = p.choices;
    computed = record {
      checksums = record {
        hash_value = p.computed.checksums.hash_value;
        floating_point_results = p.computed.checksums.floating_point_results;
        crypto_purse = p.computed.checksums.crypto_purse;
      };
      original = p.computed.original;
      pre_encrypted = p.computed.pre_encrypted;
      pre_copied = p.computed.pre_copied;
      copied = p.computed.copied;
    };
  }

  abbrev pub as_worker : (i : ℕ) → Option (Pending ctx) → Option (Pending (with_tid i))
  as_worker i none = none
  as_worker i (some p) = some (to_worker i p)

  abbrev pub as_local : (i : ℕ) → Option (Pending (with_tid i)) → Option (Pending ctx)
  as_local i none = none
  as_local i (some p) = some (to_local i p)

  abbrev pub runner_of : (i : ℕ) → System ctx → Runner (with_tid i)
  runner_of i s = record {
    control = (s.locals i).control;
    world = record {
      rndeng = (s.locals i).rndeng;
      avx = (s.locals i).avx;
      round = (s.locals i).round;
      buffers = (s.locals i).buffers;
      shared = s.shared;
    };
  }

  abbrev pub local_of : (i : ℕ) → Runner (with_tid i) → Option (Pending (with_tid i)) → Local ctx
  local_of i q p = record {
    rndeng = q.world.rndeng;
    avx = q.world.avx;
    round = q.world.round;
    buffers = q.world.buffers;
    control = q.control;
    pending = as_local i p;
  }

  -- A step of worker `i`.
  unfoldable pub system_step : ℕ → Turn → System ctx → Outcome (System ctx)
  unfolding worker_step
  system_step i t s =
      worker_step (with_tid i) t (as_worker i (s.locals i).pending) (runner_of i s) >>= λ (q, p).
      done (record {
        shared = q.world.shared;
        locals = λ j. if j == i then local_of i q p else s.locals j;
      })

  unfoldable pub run_system : List (ℕ × Turn) → System ctx → Outcome (System ctx)
  unfolding system_step
  run_system [] s = done s
  run_system ((i, t) ∷ ts) s = system_step i t s >>= λ s'. run_system ts s'
