-- ===== src/Stopper.antt =====
-- stopper.h, and the loop of main in cpu_check.cc that waits for it. Times are whole microseconds, as
-- `gettimeofday` gives them; `none` is the infinite `t_stop_`. The rounding of doubles is left out.
pub mod Laws
mod Tests
use cpu_check.Base.{
  ℕ, ◌+◌, ◌-◌, ◌*◌, ◌/◌, ◌%◌, ◌^◌, Bool, true, false, not, ◌&&◌, ◌||◌, Option, none, some, List, [],
  ◌∷◌, min, ltb, ◌==◌, if◌then◌else◌,
}
use cpu_check.Base.Int.{ℤ, pos, negsuc}

pub record Stopper : Type 0 where
  pub t_stop : Option ℕ
  pub stopped : Bool

-- The conversion of an `int64_t` to the `int` of the constructor, which keeps the low 32 bits.
unfoldable pub narrowed : ℤ → ℤ
narrowed (pos n) =
    let low = n % 2 ^ 32 in if ltb low (2 ^ 31) then pos low else negsuc (2 ^ 32 - 1 - low)
narrowed (negsuc n) =
    let low = n % 2 ^ 32 in if ltb low (2 ^ 31) then negsuc low else pos (2 ^ 32 - 1 - low)

deadline : ℤ → ℕ → Option ℕ
deadline (negsuc n) now = none
deadline (pos n) now = if n == 0 then none else some (now + n * 1000000)

-- The constructor at time `now`, called with a timeout in seconds.
unfoldable pub new_stopper : ℤ → ℕ → Stopper
unfolding narrowed deadline
new_stopper timeout now = record { t_stop = deadline (narrowed timeout) now; stopped = false }

-- `TimeInSeconds() > t_stop_`.
unfoldable pub is_past : Option ℕ → ℕ → Bool
is_past none now = false
is_past (some t) now = ltb t now

unfoldable pub expired : ℕ → Stopper → Bool
unfolding is_past
expired now st = st.stopped || is_past st.t_stop now

-- `ceil` of a time in seconds.
abbrev pub ceil : ℕ → ℕ
ceil micros = (micros + 999999) / 1000000

-- The seconds that `BoundedSleep(t)` passes to `sleep`; 0 when it does not call it.
sleep_until : ℕ → ℕ → Bool → Option ℕ → ℕ
sleep_until t now stopped none = t
sleep_until t now stopped (some t_stop) =
    if not stopped && ltb now t_stop then min t (ceil (t_stop - now)) else 0

unfoldable pub bounded_sleep : ℕ → ℕ → Stopper → ℕ
unfolding sleep_until
bounded_sleep t now st = sleep_until t now st.stopped st.t_stop

unfoldable pub stop : Stopper → Stopper
stop st = record st { stopped = true }

-- One turn of the environment: whether `Stop` is called before the turn, and the time when the call
-- of `BoundedSleep` is over.
pub record Wait : Type 0 where
  pub stops : Bool
  pub wake : ℕ → ℕ → ℕ

-- `while (!stopper.Expired()) { stopper.BoundedSleep(60); ... }`: the time at which the loop ends, if
-- it does within these turns.
unfoldable pub wait_loop : List Wait → Stopper → ℕ → Option ℕ
unfolding stop expired bounded_sleep
wait_loop [] st now = none
wait_loop (w ∷ ws) st now =
    let st' = if w.stops then stop st else st in
    let rest = wait_loop ws st' (w.wake now (bounded_sleep 60 now st')) in
    if expired now st' then some now else rest
