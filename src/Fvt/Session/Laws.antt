-- ===== src/Fvt/Session/Laws.antt =====
-- No assert of the frequency control fails, and the processor gets its limit back.
use cpu_check.Base.{
  ℕ, ◌*◌, ◌/◌, ◌≡◌, ◌≤◌, ◌<◌, refl, sym, ap, ◌∙◌, Bool, true, false, List, [], ◌∷◌, ◌==◌,
  if◌then◌else◌, ◌&&◌, Bool-cases, inl, inr, arith,
}
use mathlib.Core.Path.{subst}
use cpu_check.Base.Int.{ℤ, pos}
use cpu_check.Base.Outcome.{Outcome, done, fault, ◌>>=◌}
use cpu_check.Fvt.{
  Controller, Schedule, k_min_turbo_mhz, k_ia32_misc_enable, absolute_freq_limit_mhz,
  current_freq_limit_mhz, new_controller, delete_controller, set_current_max_freq_mhz,
  control_fast_string_ops, monitor_frequency, write_msr, scheduled_mhz,
}
use cpu_check.Fvt.Sampling.{reset_frequency_meter}
use cpu_check.Fvt.Laws.{
  IsAccessible, IsInStep, IsLegitimate, IsSensible, high_frequency-below, set-changed,
  set_current_max_freq_mhz_lem, scheduled_mhz-IsLegitimate,
}
use cpu_check.Fvt.Session.{start_control, schedule_turn, schedule_turns, session}

-- A controller in step, with a given limit.
pub record Keeps (limit : ℕ) (c : Controller) : Type 0 where
  pub in_step : IsInStep c
  pub same_limit : c.limit_mhz ≡ limit

-- An outcome is such a controller.
abbrev pub Returns : ℕ → Outcome Controller → Type 0
Returns limit o = (c : Controller) × (o ≡ done c) × Keeps limit c

then_done :
    {A : Type 0} (m : Outcome A) (f : A → Outcome Controller) {a : A} {r : Outcome Controller}
    → m ≡ done a
    → f a ≡ r
    → (m >>= f) ≡ r
then_done m f e h = ap (λ x. x >>= f) e ∙ h

fast_string_ops-Keeps :
    (limit : ℕ) (enable : Bool) (c : Controller)
    → Keeps limit c
    → Keeps limit (control_fast_string_ops enable c)
unfolding control_fast_string_ops write_msr current_freq_limit_mhz
fast_string_ops-Keeps limit enable c k =
    let a = k.in_step.access in
    elim (Bool-cases (c.opened && c.writable k_ia32_misc_enable)) [
      | inl e ↦ rw e (record {
        in_step = record {
          access = record {
            opened = a.opened;
            readable = a.readable;
            writable = a.writable;
            small = a.small;
          };
          same = k.in_step.same;
        };
        same_limit = k.same_limit;
      })
      | inr e ↦ rw e k
    ]

monitor-Keeps :
    (limit now : ℕ) (c : Controller) → Keeps limit c → Keeps limit (monitor_frequency now c)
unfolding monitor_frequency
monitor-Keeps limit now c k =
    let a = k.in_step.access in
    record {
      in_step = record {
        access = record {
          opened = a.opened;
          readable = a.readable;
          writable = a.writable;
          small = a.small;
        };
        same = refl;
      };
      same_limit = k.same_limit;
    }

pub turn-Returns :
    (o : Schedule) (seconds limit now : ℕ) (c : Controller)
    → 0 < seconds
    → IsSensible o limit
    → Keeps limit c
    → Returns limit (schedule_turn o seconds now c)
unfolding schedule_turn
turn-Returns o seconds limit now c some_time sensible k =
    let positive : (seconds == 0) ≡ false = ground arith in
    let at : ℕ → Outcome ℤ = λ l. scheduled_mhz o l (now / (1000000 * seconds)) in
    let (f, gives, legitimate) =
      scheduled_mhz-IsLegitimate o limit (now / (1000000 * seconds)) sensible in
    let (c', sets, _, in_step, same, _) =
      set_current_max_freq_mhz_lem now f c k.in_step (rw k.same_limit legitimate) in
    (
      monitor_frequency now c',
      then_done _ _
          (ap (λ b. if b then fault else at c.limit_mhz) positive ∙ ap at k.same_limit ∙ gives)
          (then_done _ _ sets refl),
      monitor-Keeps limit now c' (record { in_step = in_step; same_limit = same ∙ k.same_limit }),
    )

turns-Returns :
    (o : Schedule) (seconds limit : ℕ) (nows : List ℕ) (c : Controller)
    → 0 < seconds
    → IsSensible o limit
    → Keeps limit c
    → Returns limit (schedule_turns o seconds nows c)
unfolding schedule_turns
turns-Returns o seconds limit [] c some_time sensible k = (c, refl, k)
turns-Returns o seconds limit (now ∷ nows) c some_time sensible k =
    let (c1, gives, k1) = turn-Returns o seconds limit now c some_time sensible k in
    let (c2, ends, k2) = turns-Returns o seconds limit nows c1 some_time sensible k1 in
    (c2, rw gives ends, k2)

start_control-Returns :
    (now : ℕ) (enable : Bool) (c : Controller)
    → (c.opened ≡ true) × ((r : ℕ) → c.readable r ≡ true) × ((r : ℕ) → c.writable r ≡ true)
    → let limit = absolute_freq_limit_mhz c in
      IsLegitimate limit limit → limit ≤ 25500 → Returns limit (start_control enable now c)
unfolding start_control new_controller
start_control-Returns now enable c open_files whole small =
    let limit = absolute_freq_limit_mhz c in
    let fresh : Controller = record c {
      limit_mhz = limit;
      max_mhz = 0;
      meter = reset_frequency_meter now;
    } in
    let access : IsAccessible fresh = record {
      opened = open_files.0;
      readable = open_files.1;
      writable = open_files.2;
      small = small;
    } in
    let (c1, sets, _, in_step, same, _) =
      set-changed now limit fresh access whole (ground (arith, whole.above)) in
    let (c2, again, _, in_step', same', _) =
      set_current_max_freq_mhz_lem now limit c1 in_step
        (subst (λ (l : ℕ). IsLegitimate l limit) (sym same) whole) in
    (
      control_fast_string_ops enable c2,
      then_done _ _ sets
          (then_done _ _ (ap (λ l. set_current_max_freq_mhz now (pos l) c1) same ∙ again) refl),
      fast_string_ops-Keeps limit enable c2
          (record { in_step = in_step'; same_limit = same' ∙ same }),
    )

limit-small : (c : Controller) → absolute_freq_limit_mhz c ≤ 25500
unfolding absolute_freq_limit_mhz
limit-small c = omega arith

-- When the registers can be read and written, the flags are sensible for the limit of the processor
-- and the period is positive: whatever limit is set at first, and at whatever times the turns of
-- `Run` fall, no assert fails and nothing divides by zero, from the constructor to the destructor, and
-- in the end the limit that is set is that of the processor.
pub session_lem :
    (o : Schedule) (do_fast_string_ops : Bool) (seconds_per_freq first last : ℕ) (nows : List ℕ)
    (c : Controller)
    → (c.opened ≡ true) × ((r : ℕ) → c.readable r ≡ true) × ((r : ℕ) → c.writable r ≡ true)
    → 0 < seconds_per_freq
    → IsSensible o (absolute_freq_limit_mhz c)
    → (c' : Controller) × (session o do_fast_string_ops seconds_per_freq first nows last c
        ≡ done c')
      × (current_freq_limit_mhz c' ≡ absolute_freq_limit_mhz c)
      × (c'.max_mhz ≡ absolute_freq_limit_mhz c)
unfolding session delete_controller
session_lem o do_fast_string_ops seconds_per_freq first last nows c open_files some_time sensible =
    let limit = absolute_freq_limit_mhz c in
    let above : k_min_turbo_mhz ≤ limit =
      omega (arith, sensible.low_above, sensible.ordered, high_frequency-below o limit) in
    let whole : IsLegitimate limit limit = record {
      multiple = sensible.limit_multiple;
      above = above;
      below = omega arith;
    } in
    let (c1, starts, k1) =
      start_control-Returns first do_fast_string_ops c open_files whole (limit-small c) in
    let (c2, turns, k2) = turns-Returns o seconds_per_freq limit nows c1 some_time sensible k1 in
    let (c', ends, reads, _, _, most) =
      set_current_max_freq_mhz_lem last limit c2 k2.in_step
        (subst (λ (l : ℕ). IsLegitimate l limit) (sym k2.same_limit) whole) in
    (
      c',
      then_done _ _ starts (
          then_done _ _ turns
            (ap (λ l. set_current_max_freq_mhz last (pos l) c2) k2.same_limit ∙ ends)),
      reads,
      most,
    )
