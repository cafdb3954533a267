-- ===== src/Stopper/Laws.antt =====
-- When the loop of main ends.
use cpu_check.Base.{
  ℕ, ◌+◌, ◌-◌, ◌*◌, ◌^◌, ◌%◌, ◌≡◌, ◌≤◌, ◌<◌, refl, true, false, none, some, List, [], ◌∷◌, ltb,
  length, All, ◌==◌, arith, Bool-cases, inl, inr,
}
use cpu_check.Base.Int.{pos}
use cpu_check.Stopper.{new_stopper, Wait, expired, bounded_sleep, wait_loop}

-- A sleep takes its seconds, and at most `slack` microseconds more; the clock has advanced after it.
pub record IsTimely (slack : ℕ) (w : Wait) : Type 0 where
  pub never_stops : w.stops ≡ false
  pub slept : (now secs : ℕ) → now + secs * 1000000 ≤ w.wake now secs
  pub advances : (now secs : ℕ) → now < w.wake now secs
  pub punctual : (now secs : ℕ) → w.wake now secs ≤ now + secs * 1000000 + slack

-- `BoundedSleep` with a finite timeout that is not stopped: not beyond the second in which it ends.
bounded_sleep_lem :
    (t now t_stop : ℕ)
    → 0 < t
    → let secs = bounded_sleep t now (record { t_stop = some t_stop; stopped = false }) in
      (now < t_stop → 0 < secs) × (now ≤ t_stop → now + secs * 1000000 < t_stop + 1000000)
unfolding bounded_sleep
bounded_sleep_lem t now t_stop h = (λ k. ground arith, λ k. ground arith)

-- In each turn a second of the time left is slept, or else the clock has to pass the deadline.
wait_loop_lem :
    (ws : List Wait) (t_stop now slack : ℕ)
    → All (IsTimely slack) ws
    → t_stop < now + (length ws - 1) * 1000000
    → 0 < length ws
    → now ≤ t_stop + 1000000 + slack
    → (end : ℕ) × (wait_loop ws (record { t_stop = some t_stop; stopped = false }) now ≡ some end)
      × (t_stop < end)
      × (end ≤ t_stop + 1000000 + slack)
unfolding wait_loop
wait_loop_lem [] t_stop now slack timely enough some_turn soon = absurd (omega arith)
wait_loop_lem (w ∷ ws) t_stop now slack timely enough some_turn soon =
    elim (Bool-cases (ltb t_stop now)) [
      | inl over ↦
          (now, rw timely.0.never_stops (unfold expired in rw over refl), ground arith, soon)
      | inr left ↦
          let secs = bounded_sleep 60 now (record { t_stop = some t_stop; stopped = false }) in
          let s = bounded_sleep_lem 60 now t_stop (omega arith) in
          let before : now ≤ t_stop = ground arith in
          let (end, ends, after, by) =
            wait_loop_lem ws t_stop (w.wake now secs) slack timely.1
              (ground (arith, timely.0.slept now secs, timely.0.advances now secs, s.0))
              (omega arith) (omega (arith, timely.0.punctual now secs, s.1 before)) in
          (end, rw timely.0.never_stops (unfold expired in rw left ends), after, by)
    ]

-- The stopper that main makes at time `made`, for a positive timeout below 2^31 seconds: nobody calls
-- `Stop`, no sleep is cut short, each takes at most `slack` longer than asked, the clock advances in
-- every turn, and the loop begins no later than the timeout. With as many turns as the timeout has
-- seconds and two more, it ends after the timeout, and no later than a second and the slack after it.
pub wait_loop-new_stopper :
    (seconds made now slack : ℕ) (ws : List Wait)
    → All (IsTimely slack) ws
    → 0 < seconds
    → seconds < 2 ^ 31
    → seconds + 2 ≤ length ws
    → made ≤ now
    → now ≤ made + seconds * 1000000
    → let deadline = made + seconds * 1000000 in
      (end : ℕ) × (wait_loop ws (new_stopper (pos seconds) made) now ≡ some end)
      × (deadline < end)
      × (end ≤ deadline + 1000000 + slack)
unfolding new_stopper
wait_loop-new_stopper seconds made now slack ws timely some_time fits enough early late =
    let positive : (seconds == 0) ≡ false = ground arith in
    let low : seconds % 2 ^ 32 ≡ seconds = omega arith in
    let int : ltb seconds (2 ^ 31) ≡ true = ground (arith, fits) in
    rw (low, int, positive)
      (wait_loop_lem ws (made + seconds * 1000000) now slack timely (omega arith) (omega arith)
        (omega arith))

-- What main makes of a timeout that does not fit: one second of 2^32 + 1, and none of 2^31.
pub new_stopper_wide :
    (made : ℕ)
    → ((new_stopper (pos (2 ^ 32 + 1)) made).t_stop ≡ some (made + 1000000))
      × ((new_stopper (pos (2 ^ 31)) made).t_stop ≡ none)
unfolding new_stopper
new_stopper_wide made = (refl, refl)
