-- ===== src/Worker/System/Bound.antt =====
-- How far the count of errors goes that all workers share, on any machine.
use cpu_check.Base.{
  ℕ, zero, suc, ◌+◌, ◌*◌, ◌≡◌, ◌≤◌, false, Option, none, some, ◌==◌, if◌then◌else◌, length,
}
use cpu_check.Base.Outcome.{Outcome, done, fatal, fault}
use cpu_check.Worker.{Context, World}
use cpu_check.Worker.Post.{Post}
use cpu_check.Worker.Run.{Runner}
use cpu_check.Worker.Run.Bound.{HasRoom}
use cpu_check.Worker.System.{Pending, Local, System}

-- 1 for a worker within a round, whose checks may still count two errors.
abbrev pub weight : {ctx : Context} → Option (Pending ctx) → ℕ
weight none = 0
weight (some p) = 1

module _ (ctx : Context) where
  -- A worker within a round needs room for its two checks.
  abbrev Fits : ℕ → Option (Pending ctx) → World ctx → Type 0
  Fits most p w = HasRoom ctx most (2 * weight p) w

  -- What a step of a worker leaves, if the process is not aborted.
  abbrev StepFits : ℕ → Outcome (Runner ctx × Option (Pending ctx)) → Type 0
  StepFits most (done (q, p)) = Fits most p q.world
  StepFits most fatal = Unit
  StepFits most fault = Unit

-- How many of the first `k` workers are within a round.
abbrev pub busy : {ctx : Context} → ℕ → (ℕ → Local ctx) → ℕ
busy zero ls = 0
busy (suc k) ls = weight (ls k).pending + busy k ls

module _ {ctx : Context} where
  -- One worker moves to `new`.
  abbrev updated : ℕ → Local ctx → (ℕ → Local ctx) → ℕ → Local ctx
  updated i new ls j = if j == i then new else ls j

module _ (ctx : Context) where
  -- The errors and those that the checks of rounds that have begun may still count.
  pub record IsLimited (s : System ctx) : Type 0 where
    pub total :
        s.shared.error_count + 2 * busy (length ctx.tid_list) s.locals
        ≤ ctx.options.error_limit + 1 + 2 * length ctx.tid_list
    pub going : s.shared.stopped ≡ false → s.shared.error_count ≤ ctx.options.error_limit + 1

  -- What holds of the system in the end, if the process is not aborted.
  abbrev pub Ends : (System ctx → Type 0) → Outcome (System ctx) → Type 0
  Ends P (done s) = P s
  Ends P fatal = Unit
  Ends P fault = Unit
