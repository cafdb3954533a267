-- ===== src/Worker/Run/Laws.antt =====
-- The loop of a worker on a machine without faults.
use cpu_check.Base.{
  ℕ, ◌+◌, ◌%◌, ◌^◌, ◌≡◌, refl, sym, ap, ◌∙◌, inl, inr, Bool, true, false, List, [], ◌∷◌, ltb,
  length, All, if◌then◌else◌, arith, Bool-cases, ◌||◌,
}
use mathlib.Core.Path.{subst}
use cpu_check.Base.Outcome.{Outcome, done, ◌>>=◌, ok}
use cpu_check.Base.Int.{pos_part, neg_part}
use cpu_check.Base.{Option, none, some, ◌<◌}
use cpu_check.Fvt.{Controller}
use cpu_check.Fvt.Laws.{IsInStep, IsSensible}
use cpu_check.Fvt.Session.Laws.{turn-Returns}
use cpu_check.Silkscreen.{passed, check_my_slots}
use cpu_check.Silkscreen.Build
use cpu_check.Silkscreen.Laws.{write_my_slots_lem, write_all, check-write_all}
use cpu_check.Worker.{
  Context, Choices, World, Shared, at_original, at_compressed, at_encrypted, at_copied,
  at_decrypted, at_decompressed, at_re_made,
}
use cpu_check.Worker.Faultless.{IsFaultless, IsBufferSet, Holds, Gives}
use cpu_check.Worker.Quiet.{written}
use cpu_check.Worker.Writer.{do_computations_Gives}
use cpu_check.Worker.Checker.{check_computations_Gives}
use cpu_check.Worker.Choose.Laws.{make_choices_lem, checker_tids_Gives}
use cpu_check.Worker.Compute.{Computed}
use cpu_check.Worker.Check.{check_computations}
use cpu_check.Stopper.{is_past}
use cpu_check.Worker.Run.{
  Turn, Runner, schedule_of, tune, new_buffer_set, check_on, conclude, count_success, round_body,
  next_round, turn, run,
}

pub new_buffer_set-IsBufferSet : (page : ℕ) → IsBufferSet page new_buffer_set
new_buffer_set-IsBufferSet page at_original = tt
new_buffer_set-IsBufferSet page at_compressed = tt
new_buffer_set-IsBufferSet page at_encrypted = tt
new_buffer_set-IsBufferSet page at_copied = tt
new_buffer_set-IsBufferSet page at_decrypted = tt
new_buffer_set-IsBufferSet page at_decompressed = tt
new_buffer_set-IsBufferSet page at_re_made = tt

module _ (ctx : Context) where
  -- A worker between two turns of the loop.
  pub record IsReady (w : World ctx) : Type 0 where
    pub buffers : IsBufferSet ctx.page w.buffers
    pub silkscreen : Build.IsValid w.shared.silkscreen

  -- `w'` comes after `n` rounds that all succeeded.
  pub record Succeeds (n : ℕ) (w w' : World ctx) : Type 0 where
    pub ready : IsReady w'
    pub successes : w'.shared.success_count ≡ w.shared.success_count + n
    pub errors : w'.shared.error_count ≡ w.shared.error_count
    pub suspects : w'.shared.suspects ≡ w.shared.suspects
    pub stopped : w'.shared.stopped ≡ w.shared.stopped

  -- The frequency control of a worker, if it has one: the registers can be read and written,
  -- `max_mHz_` is what the register says, the flags are not negative and sensible for the limit, and
  -- the period is positive.
  pub record IsTunable (c : Controller) : Type 0 where
    pub in_step : IsInStep c
    pub some_time : 0 < pos_part ctx.options.seconds_per_freq
    pub low : neg_part ctx.options.fixed_min_frequency ≡ 0
    pub high : neg_part ctx.options.fixed_max_frequency ≡ 0
    pub sensible : IsSensible (schedule_of ctx.options) c.limit_mhz

  abbrev pub IsTuned : Option Controller → Type 0
  IsTuned none = Unit
  IsTuned (some c) = IsTunable c

  pub tune-IsTuned :
      (t : Turn) (o : Option Controller)
      → IsTuned o
      → (o' : Option Controller) × (tune ctx t o ≡ done o') × IsTuned o'
  unfolding tune
  tune-IsTuned t none h = (none, refl, tt)
  tune-IsTuned t (some c) h =
      let o = schedule_of ctx.options in
      let (c', turns, k) =
        turn-Returns o (pos_part ctx.options.seconds_per_freq) c.limit_mhz t.tuned c h.some_time
          h.sensible (record { in_step = h.in_step; same_limit = refl }) in
      (
        some c',
        ap (λ x. x >>= λ c'. done (some c')) turns,
        record {
          in_step = k.in_step;
          some_time = h.some_time;
          low = h.low;
          high = h.high;
          sensible = subst (IsSensible o) (sym k.same_limit) h.sensible;
        },
      )

  -- A turn in which the worker runs on its processor.
  abbrev pub Runs : Turn → Type 0
  Runs t = (is_past ctx.t_stop t.now ≡ false) × (t.settable 0 ctx.tid ≡ true)

module _ (ctx : Context) (good : IsFaultless ctx) where
  unfoldable pub succeeded : Shared → Shared
  succeeded sh = record sh { success_count = sh.success_count + 1 }

  -- The first checker accepts, if there is one, and no other is asked.
  pub check_on-nil :
      (t : Turn) (choices : Choices) (c : Computed ctx) (tids : List ℕ) {sh : Shared} {round : ℕ}
      (w : World ctx)
      → Holds sh round w
      → Gives sh round (check_computations ctx choices c w) (λ _. Unit {0})
      → (w' : World ctx) × (check_on ctx t choices c tids [] w ≡ done (ok [], w'))
        × Holds sh round w'
  unfolding check_on
  check_on-nil t choices c [] w h v = (w, refl, h)
  check_on-nil t choices c (i ∷ is) w h v = (v.world, rw v.returns refl, v.leaves)

  round_body_Gives :
      (t : Turn) (w : World ctx) (sh : Shared) (round : ℕ)
      → Holds sh round w
      → Build.IsValid sh.silkscreen
      → Gives (succeeded (written ctx round sh)) round (round_body ctx t w) (λ _. Unit {0})
  unfolding round_body conclude count_success succeeded
  round_body_Gives t w sh round h sound =
      let c = make_choices_lem ctx w sh round good h in
      let sh' = written ctx round sh in
      let g =
        do_computations_Gives ctx good c.choices c.small c.inside sh round c.world c.blank c.leaves
          c.original c.valid c.size c.full sound in
      let k = checker_tids_Gives ctx g.world g.leaves in
      let here : check_my_slots ctx.tid round sh'.silkscreen ≡ passed =
        unfold write_all in check-write_all ctx.tid round [] sh.silkscreen tt sound in
      let v =
        check_computations_Gives ctx good c.choices c.small c.inside sh' round g.value g.holds
          k.world k.leaves here in
      let (u, checks, leaves) = check_on-nil t c.choices g.value k.value k.world k.leaves v in
      record {
        value = tt;
        world = record u { shared = succeeded u.shared };
        returns = rw (c.returns, g.returns, k.returns, checks) refl;
        leaves = record {
          same_shared = ap succeeded leaves.same_shared;
          same_round = leaves.same_round;
          ready = leaves.ready;
        };
        holds = tt;
      }

  turn_lem :
      (t : Turn) (q : Runner ctx)
      → Runs ctx t
      → IsReady ctx q.world
      → IsTuned ctx q.control
      → (q' : Runner ctx) × (turn ctx t q ≡ done q')
        × Succeeds ctx 1 q.world q'.world
        × IsTuned ctx q'.control
  unfolding turn next_round succeeded
  turn_lem t q runs ready control =
      let w = q.world in
      let (c, tunes, tuned) = tune-IsTuned ctx t q.control control in
      let r = (w.round + 1) % 2 ^ 64 in
      let next = next_round ctx w in
      let g =
        round_body_Gives t next w.shared r
          (record { same_shared = refl; same_round = refl; ready = buffers ctx.options.do_madvise })
          ready.silkscreen in
      let same : g.world.shared ≡ succeeded (written ctx r w.shared) = g.leaves.same_shared in
      (
        record { control = c; world = g.world },
        elim (Bool-cases (ltb 1 ctx.hardware_concurrency)) [
          | inl e ↦ rw (e, runs.1, tunes, g.returns) refl
          | inr e ↦ rw (e, tunes, g.returns) refl
        ],
        record {
          ready = record {
            buffers = g.leaves.ready;
            silkscreen =
                subst (λ (x : Shared). Build.IsValid x.silkscreen) (sym same)
                  (write_my_slots_lem ctx.tid r w.shared.silkscreen ready.silkscreen).1;
          };
          successes = ap (λ (x : Shared). x.success_count) same;
          errors = ap (λ (x : Shared). x.error_count) same;
          suspects = ap (λ (x : Shared). x.suspects) same;
          stopped = ap (λ (x : Shared). x.stopped) same;
        },
        tuned,
      )
    where
      buffers : (b : Bool) → IsBufferSet ctx.page (if b then new_buffer_set else q.world.buffers)
      buffers true = new_buffer_set-IsBufferSet ctx.page
      buffers false = ready.buffers

-- A turn that has not expired, and the turns after it.
run-turn :
    (ctx : Context) (t : Turn) (ts : List Turn) (q q1 : Runner ctx) (o : Outcome (Runner ctx))
    → q.world.shared.stopped ≡ false
    → is_past ctx.t_stop t.now ≡ false
    → turn ctx t q ≡ done q1
    → run ctx ts q1 ≡ o
    → run ctx (t ∷ ts) q ≡ o
unfolding run
run-turn ctx t ts q q1 o go on turns runs =
    ap
      (λ b.
        if b || is_past ctx.t_stop t.now then done q else (turn ctx t q >>= λ q'. run ctx ts q'))
      go
    ∙ ap (λ b. if b then done q else (turn ctx t q >>= λ q'. run ctx ts q')) on
    ∙ ap (λ x. x >>= λ q'. run ctx ts q') turns
    ∙ runs

-- On a machine without faults, from a well-formed buffer set and a valid silkscreen, with the stopper
-- not told to stop, either without frequency control, or with one whose registers can be read and
-- written, whose `max_mHz_` is what the register says and whose limit is at most 25500 MHz, with a
-- positive period and frequencies that are multiples of 100 MHz, from 1000 MHz up to the limit, the
-- lower one not above the higher one; the other flags are any: in turns that have not expired and in
-- which the worker runs on its processor, the loop of `Run` returns, every round ends in a success, no
-- error is counted, no processor suspected and nobody told to stop, and the frequency control is left
-- as it is asked to be at first.
pub run_lem :
    (ctx : Context) (ts : List Turn) (q : Runner ctx) (good : IsFaultless ctx)
    → IsReady ctx q.world
    → IsTuned ctx q.control
    → q.world.shared.stopped ≡ false
    → All (Runs ctx) ts
    → (q' : Runner ctx) × (run ctx ts q ≡ done q')
      × Succeeds ctx (length ts) q.world q'.world
      × IsTuned ctx q'.control
unfolding run
run_lem ctx [] q good ready control go all = (
  q,
  refl,
  record { ready = ready; successes = omega arith; errors = refl; suspects = refl; stopped = refl },
  control,
)
run_lem ctx (t ∷ ts) q good ready control go all =
    let (q1, turns, s, control1) = turn_lem ctx good t q all.0 ready control in
    let (q', runs, s', control') = run_lem ctx ts q1 good s.ready control1 (s.stopped ∙ go) all.1 in
    (
      q',
      run-turn ctx t ts q q1 (done q') go all.0.0 turns runs,
      record {
        ready = s'.ready;
        successes = omega (arith, s.successes, s'.successes);
        errors = s'.errors ∙ s.errors;
        suspects = s'.suspects ∙ s.suspects;
        stopped = s'.stopped ∙ s.stopped;
      },
      control',
    )
