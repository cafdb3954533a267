-- ===== src/Fvt/Session.antt =====
-- What `Worker::Run` of cpu_check.cc does with the frequency control of an Intel processor, from its
-- creation to its destruction at the end of the worker. Times are in microseconds.
pub mod Laws
use cpu_check.Base.{ℕ, ◌*◌, ◌/◌, Bool, List, [], ◌∷◌, ◌==◌, if◌then◌else◌}
use cpu_check.Base.Int.{pos}
use cpu_check.Base.Outcome.{Outcome, done, fault, ◌>>=◌}
use cpu_check.Fvt.{
  Controller, Schedule, new_controller, delete_controller, set_current_max_freq_mhz,
  control_fast_string_ops, monitor_frequency, scheduled_mhz,
}

-- Before the loop.
unfoldable pub start_control : Bool → ℕ → Controller → Outcome Controller
start_control do_fast_string_ops now c = new_controller now c >>= λ c1.
    set_current_max_freq_mhz now (pos c1.limit_mhz) c1 >>= λ c2.
    done (control_fast_string_ops do_fast_string_ops c2)

-- In a turn of the loop; a division of the time by a period of 0 seconds is a `fault`.
unfoldable pub schedule_turn : Schedule → ℕ → ℕ → Controller → Outcome Controller
schedule_turn o seconds_per_freq now c =
    (if seconds_per_freq == 0
      then fault
      else scheduled_mhz o c.limit_mhz (now / (1000000 * seconds_per_freq)))
    >>= λ turbo_mhz.
        set_current_max_freq_mhz now turbo_mhz c >>= λ c'. done (monitor_frequency now c')

unfoldable pub schedule_turns : Schedule → ℕ → List ℕ → Controller → Outcome Controller
unfolding schedule_turn
schedule_turns o seconds_per_freq [] c = done c
schedule_turns o seconds_per_freq (now ∷ nows) c =
    schedule_turn o seconds_per_freq now c >>= λ c'. schedule_turns o seconds_per_freq nows c'

-- `Run`, and the destructor at time `last`.
unfoldable pub session : Schedule → Bool → ℕ → ℕ → List ℕ → ℕ → Controller → Outcome Controller
unfolding start_control schedule_turns
session o do_fast_string_ops seconds_per_freq first nows last c =
    start_control do_fast_string_ops first c >>= λ c1.
    schedule_turns o seconds_per_freq nows c1 >>= λ c2. delete_controller last c2
