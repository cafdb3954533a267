-- ===== src/Worker/System/Laws.antt =====
-- Workers on machines without faults do not disturb each other.
use cpu_check.Base.{
  ℕ, suc, ◌+◌, ◌≡◌, refl, sym, ap, ◌∙◌, Bool, false, not, Option, none, List, [], ◌∷◌, ◌==◌,
  if◌then◌else◌, All, arith,
}
use mathlib.Core.Path.{subst}
use cpu_check.Base.{length, ◌<◌}
use cpu_check.Base.Outcome.{done, ◌>>=◌}
use cpu_check.Silkscreen.Build
use cpu_check.Worker.{Context}
use cpu_check.Worker.Faultless.{IsFaultless, IsBufferSet}
use cpu_check.Worker.Run.{Turn}
use cpu_check.Worker.Run.Laws.{IsTuned, Runs}
use cpu_check.Worker.System.{Pending, System, with_tid, as_worker, run_system}
use cpu_check.Worker.System.Moves.{IsDistinct, IsHalf, IsSystem, step-Moves, is_busy}

-- How many rounds the steps of a schedule complete, with `busy` the workers within a round.
unfoldable pub completed : List (ℕ × Turn) → (ℕ → Bool) → ℕ
completed [] busy = 0
completed ((i, t) ∷ ts) busy =
    let rest = completed ts (λ j. if j == i then not (busy j) else busy j) in
    if busy i then suc rest else rest

-- Between the rounds of all workers, with well-formed buffer sets and a valid silkscreen.
pub record AreReady (ctx : Context) (s : System ctx) : Type 0 where
  pub silkscreen : Build.IsValid s.shared.silkscreen
  pub buffers : (i : ℕ) → IsBufferSet ctx.page (s.locals i).buffers
  pub controls : (i : ℕ) → IsTuned ctx (s.locals i).control
  pub idle : (i : ℕ) → (s.locals i).pending ≡ none

module _ (ctx : Context) (good : IsFaultless ctx) where
  run_system-moves :
      (schedule : List (ℕ × Turn)) (s : System ctx) (busy : ℕ → Bool)
      → IsSystem ctx good s
      → ((j : ℕ) → is_busy ctx good (s.locals j).pending ≡ busy j)
      → s.shared.stopped ≡ false
      → IsDistinct ctx good
      → All (λ p. (p.0 < length ctx.tid_list) × Runs (with_tid ctx p.0) p.1) schedule
      → (s' : System ctx) × (run_system ctx schedule s ≡ done s')
        × (s'.shared.success_count ≡ s.shared.success_count + completed schedule busy)
        × (s'.shared.error_count ≡ s.shared.error_count)
        × (s'.shared.suspects ≡ s.shared.suspects)
        × (s'.shared.stopped ≡ s.shared.stopped)
  unfolding run_system completed
  run_system-moves [] s busy inv same going distinct runs = (s, refl, omega arith, refl, refl, refl)
  run_system-moves ((i, t) ∷ ts) s busy inv same going distinct runs =
      let flipped : ℕ → Bool = λ j. if j == i then not (busy j) else busy j in
      let m = step-Moves ctx good i t s inv runs.0.0 distinct runs.0.1 going in
      let toggled : (j : ℕ) → is_busy ctx good (m.next.locals j).pending ≡ flipped j =
        λ j. m.toggles j ∙ ap (λ (b : Bool). if j == i then not b else b) (same j) in
      let (s', rest, successes, errors, suspects, stopped) =
        run_system-moves ts m.next flipped m.sound toggled (m.stopped ∙ going) distinct runs.1 in
      (
        s',
        ap (λ o. o >>= run_system ctx ts) m.returns ∙ rest,
        counted i (completed ts flipped)
            (m.successes
              ∙ ap (λ (b : Bool). if b then s.shared.success_count + 1 else s.shared.success_count)
                  (same i))
            successes,
        errors ∙ m.errors,
        suspects ∙ m.suspects,
        stopped ∙ m.stopped,
      )
    where
      counted :
          (i n : ℕ) {a b : ℕ}
          → a ≡ (if busy i then s.shared.success_count + 1 else s.shared.success_count)
          → b ≡ a + n
          → b ≡ s.shared.success_count + (if busy i then suc n else n)
      counted i n e h = ground arith

-- On a machine without faults, with a list of processors in which none stands twice, with the workers
-- between rounds, well-formed buffers, a valid silkscreen, the stopper not told to stop, and each worker
-- without frequency control or with one whose registers can be read and written and are in step
-- with it, a positive period and flags that are sensible for its limit: in any
-- interleaving of the halves of rounds of the workers of the list, in turns that have not expired and in
-- which each runs on its processor, every round that is completed counts a success, and no error is
-- counted, no processor suspected and nobody stopped.
pub run_system_lem :
    (ctx : Context) (good : IsFaultless ctx) (schedule : List (ℕ × Turn)) (s : System ctx)
    → AreReady ctx s
    → s.shared.stopped ≡ false
    → IsDistinct ctx good
    → All (λ p. (p.0 < length ctx.tid_list) × Runs (with_tid ctx p.0) p.1) schedule
    → (s' : System ctx) × (run_system ctx schedule s ≡ done s')
      × (s'.shared.success_count ≡ s.shared.success_count + completed schedule (λ i. false))
      × (s'.shared.error_count ≡ s.shared.error_count)
      × (s'.shared.suspects ≡ s.shared.suspects)
      × (s'.shared.stopped ≡ s.shared.stopped)
run_system_lem ctx good schedule s ready going distinct runs =
    run_system-moves ctx good schedule s (λ i. false) sound
      (λ j. ap (is_busy ctx good) (ready.idle j)) going distinct runs
  where
    sound : IsSystem ctx good s
    sound = record {
      silkscreen = ready.silkscreen;
      workers = λ i _. record {
        ready = ready.buffers i;
        control = ready.controls i;
        half =
            subst
              (λ (q : Option (Pending ctx)).
                IsHalf ctx good s.shared.silkscreen i (s.locals i).round (as_worker ctx i q))
              (sym (ready.idle i)) tt;
      };
    }
