-- ===== src/Worker/Tests.antt =====
-- The theorems on the worker at a concrete machine.
use cpu_check.Base.{
  some, false, zero, suc, ℕ, ◌+◌, ◌≡◌, refl, true, false, length, none, List, [], ◌∷◌, replicate,
  arith,
}
use cpu_check.Base.Outcome.{Outcome, done, ok}
use cpu_check.Silkscreen.Laws.{write_all}
use cpu_check.Stopper.{is_past}
use cpu_check.Worker.{World, Context}
use cpu_check.Worker.Choose.{make_choices}
use cpu_check.Worker.Choose.Laws.{IsChosen, make_choices_lem}
use cpu_check.Worker.Compute.{Computed, do_computations}
use cpu_check.Worker.Check.{check_computations}
use cpu_check.Worker.Laws.{check_computations-do_computations}
use cpu_check.Fvt.Example.{processor, processor-IsInStep}
use cpu_check.Fvt.{low_frequency, high_frequency}
use cpu_check.Worker.Run.{Turn, Runner, run}
use cpu_check.Worker.Sound.{IsVerified}
use cpu_check.Worker.Sound.Laws.{check_computations-IsVerified}
use cpu_check.Worker.Run.Laws.{Succeeds, IsTuned, IsTunable, run_lem}
use cpu_check.Worker.System.{System, run_system}
use cpu_check.Crypto.{self_test}
use cpu_check.Worker.System.Moves.{IsDistinct}
use cpu_check.Worker.System.Laws.{AreReady, completed, run_system_lem}
use cpu_check.Worker.Example.{
  ctx, ctx-IsFaultless, choices, blank, blank-IsValid, buffers, buffers-IsBufferSet,
  silkscreen-IsValid, shared, world, world-Holds,
}

check_computations-do_computations_example :
    (c : Computed ctx) × (w' : World ctx) × (do_computations ctx choices world ≡ done (ok c, w'))
    × (v : World ctx) × (check_computations ctx choices c (record w' {
      rndeng = 9;
      avx = record { level = 0; engine = 8 };
      shared = record shared { silkscreen = write_all ((2, 7) ∷ []) w'.shared.silkscreen };
    })
        ≡ done (ok tt, v))
check_computations-do_computations_example =
    check_computations-do_computations ctx choices blank world ((2, 7) ∷ []) shared 9
      (record { level = 0; engine = 8 }) ctx-IsFaultless buffers-IsBufferSet refl blank-IsValid refl
      refl (omega arith) (omega arith) silkscreen-IsValid (omega arith, tt)

make_choices_lem_example : IsChosen ctx shared 6 (make_choices ctx world)
make_choices_lem_example = make_choices_lem ctx world shared 6 ctx-IsFaultless world-Holds

abbrev turns : List Turn
turns = replicate 3 (record { now = 70; tuned = 71; settable = λ n tid. true })

-- With the frequency control of a processor, and the flags as they are at first.
abbrev runner : Runner ctx
runner = record { control = some processor; world = world }

processor-IsTunable : IsTunable ctx processor
processor-IsTunable = record {
  in_step = processor-IsInStep;
  some_time = omega arith;
  low = refl;
  high = refl;
  sensible = record {
    limit_multiple = refl;
    low_multiple = refl;
    high_multiple = refl;
    low_above = unfold low_frequency in omega arith;
    ordered = unfold low_frequency high_frequency in omega arith;
  };
}

run_lem_example :
    (q' : Runner ctx) × (run ctx turns runner ≡ done q')
    × Succeeds ctx (length turns) world q'.world
    × IsTuned ctx q'.control
unfolding is_past
run_lem_example =
    run_lem ctx turns runner ctx-IsFaultless
      (record { buffers = buffers-IsBufferSet; silkscreen = silkscreen-IsValid })
      processor-IsTunable refl ((refl, refl), ((refl, refl), ((refl, refl), tt)))

-- A machine whose cryptographic self test fails in every round.
abbrev failing : Context
failing = record ctx { boringssl = some 0; options = record ctx.options { error_limit = 3 } }

check_computations-IsVerified_example :
    let ran = check_computations-do_computations_example in IsVerified ctx choices ran.0 ran.3
check_computations-IsVerified_example =
    check_computations-IsVerified ctx choices check_computations-do_computations_example.0
      (record check_computations-do_computations_example.1 {
        rndeng = 9;
        avx = record { level = 0; engine = 8 };
        shared = record shared {
          silkscreen =
              write_all ((2, 7) ∷ [])
                check_computations-do_computations_example.1.shared.silkscreen;
        };
      })
      check_computations-do_computations_example.3 check_computations-do_computations_example.4

abbrev system : System ctx
system = record {
  shared = shared;
  locals = λ i. record {
    rndeng = 3;
    avx = record { level = 0; engine = 4 };
    round = 6;
    buffers = buffers;
    control = none;
    pending = none;
  };
}

system-AreReady : AreReady ctx system
system-AreReady = record {
  silkscreen = silkscreen-IsValid;
  buffers = λ i. buffers-IsBufferSet;
  controls = λ i. tt;
  idle = λ i. refl;
}

abbrev in_time : Turn
in_time = record { now = 70; tuned = 71; settable = λ n tid. true }

-- The second worker begins and ends its round within that of the first.
abbrev schedule : List (ℕ × Turn)
schedule = (0, in_time) ∷ (1, in_time) ∷ (1, in_time) ∷ (0, in_time) ∷ []

ctx-IsDistinct : IsDistinct ctx ctx-IsFaultless
ctx-IsDistinct zero zero h k ne = absurd (ne refl)
ctx-IsDistinct zero (suc zero) h k ne = omega arith
ctx-IsDistinct (suc zero) zero h k ne = omega arith
ctx-IsDistinct (suc zero) (suc zero) h k ne = absurd (ne refl)
ctx-IsDistinct (suc (suc i)) j h k ne = absurd (omega arith)
ctx-IsDistinct zero (suc (suc j)) h k ne = absurd (omega arith)
ctx-IsDistinct (suc zero) (suc (suc j)) h k ne = absurd (omega arith)

completed_two : completed schedule (λ i. false) ≡ 2
unfolding completed
completed_two = refl

run_system_lem_example :
    (s' : System ctx) × (run_system ctx schedule system ≡ done s')
    × (s'.shared.success_count ≡ system.shared.success_count + completed schedule (λ i. false))
    × (s'.shared.error_count ≡ system.shared.error_count)
    × (s'.shared.suspects ≡ system.shared.suspects)
    × (s'.shared.stopped ≡ system.shared.stopped)
unfolding is_past
run_system_lem_example =
    run_system_lem ctx ctx-IsFaultless schedule system system-AreReady refl ctx-IsDistinct (
      (omega arith, (refl, refl)),
      (
        (omega arith, (refl, refl)),
        ((omega arith, (refl, refl)), ((omega arith, (refl, refl)), tt)),
      ),
    )

-- Two workers on the failing machine, with one error to spare.
abbrev failing_system : System failing
failing_system = record {
  shared = record shared { error_count = 3 };
  locals = λ i. record {
    rndeng = 3;
    avx = record { level = 0; engine = 4 };
    round = 6;
    buffers = buffers;
    control = none;
    pending = none;
  };
}

abbrev errors_of : Outcome (System failing) → ℕ
errors_of (done s) = s.shared.error_count
errors_of _ = 0

errors_are_counted : errors_of (run_system failing schedule failing_system) ≡ 5
unfolding run_system is_past make_choices do_computations self_test cpu_check.Worker.Choose.maybe
    cpu_check.Worker.Choose.copy_method cpu_check.Worker.alloc
    cpu_check.MalignBuffer.new_malign_buffer cpu_check.Worker.alignment
    cpu_check.MalignBuffer.initialize cpu_check.MalignBuffer.random_alignment
    cpu_check.Avx.maybe_go_hot cpu_check.Avx.Vectors.avx256_fma cpu_check.Avx.Vectors.rows_alike
    cpu_check.Avx.Vectors.loop cpu_check.Avx.Vectors.fused_round cpu_check.Avx.Vectors.scaled
    cpu_check.Avx.Vectors.fused_differences cpu_check.Avx.Vectors.draw_rows
    cpu_check.Worker.return_error
errors_are_counted = refl
