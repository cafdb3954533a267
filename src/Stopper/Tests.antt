-- ===== src/Stopper/Tests.antt =====
-- Tests of the stopper, and its theorem at a concrete clock.
use mathlib.Core.Option.{some}
use cpu_check.Base.{ℕ, ◌+◌, ◌*◌, ◌≡◌, ◌≤◌, ◌<◌, refl, true, false, List, ◌∷◌, replicate, arith}
use cpu_check.Base.Int.{pos}
use cpu_check.Stopper.{Wait, new_stopper, stop, bounded_sleep, wait_loop}
use cpu_check.Stopper.Laws.{IsTimely, wait_loop-new_stopper}

-- A sleep takes 5 microseconds more than it should.
abbrev wait : Wait
wait = record { stops = false; wake = λ now secs. now + secs * 1000000 + 5 }

wait-IsTimely : IsTimely 5 wait
wait-IsTimely = record {
  never_stops = refl;
  slept = λ now secs. omega arith;
  advances = λ now secs. omega arith;
  punctual = λ now secs. omega arith;
}

-- A timeout of 2.5 seconds more: 3 seconds are slept.
sleeps_three : bounded_sleep 60 7500000 (new_stopper (pos 10) 0) ≡ 3
unfolding bounded_sleep new_stopper
sleeps_three = refl

-- Without a timeout the sleep is not cut short, even when the stopper has been told to stop.
sleeps_on : bounded_sleep 60 7 (stop (new_stopper (pos 0) 0)) ≡ 60
unfolding bounded_sleep new_stopper stop
sleeps_on = refl

stops_early :
    wait_loop
      (wait ∷ record wait { stops = true } ∷ wait ∷ replicate 9 wait)
      (new_stopper (pos 100) 0)
      1
    ≡ some 60000006
unfolding wait_loop new_stopper
stops_early = refl

abbrev waits : List Wait
waits = replicate 4 wait

wait_loop-new_stopper_example :
    (end : ℕ) × (wait_loop waits (new_stopper (pos 2) 100) 200 ≡ some end)
    × (2000100 < end)
    × (end ≤ 2000100 + 1000000 + 5)
wait_loop-new_stopper_example =
    wait_loop-new_stopper 2 100 200 5 waits
      (wait-IsTimely, (wait-IsTimely, (wait-IsTimely, (wait-IsTimely, tt)))) (omega arith)
      (omega arith) (omega arith) (omega arith) (omega arith)
