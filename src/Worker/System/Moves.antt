-- ===== src/Worker/System/Moves.antt =====
-- A step of one worker keeps what is known of all of them.
use cpu_check.Base.{
  ℕ, ◌+◌, ◌%◌, ◌^◌, ◌≡◌, ◌≢◌, refl, sym, ap, ◌∙◌, Bool, true, false, not, Option, none, some, ◌==◌,
  if◌then◌else◌, Option-cases, arith, Bool-cases, inl, inr,
}
use mathlib.Core.Path.{subst}
use cpu_check.Base.Outcome.{Outcome, done, ◌>>=◌}
use cpu_check.Silkscreen.{Silkscreen, write_my_slots}
use cpu_check.Silkscreen.Build
use cpu_check.Silkscreen.Fresh.{IsFresh, write-IsFresh, write-IsFresh_ne}
use cpu_check.Silkscreen.Laws.{write_my_slots_lem}
use cpu_check.Worker.{Context, Shared}
use cpu_check.Fvt.{Controller}
use cpu_check.Base.{length, ◌<◌}
use cpu_check.Worker.Faultless.{IsFaultless, IsBufferSet}
use cpu_check.Worker.Quiet.{written}
use cpu_check.Worker.Run.{Turn, Runner}
use cpu_check.Worker.Run.Laws.{IsReady, IsTuned, Runs, succeeded}
use cpu_check.Worker.System.{
  Pending, worker_step, Local, System, with_tid, to_worker, as_worker, as_local, tid_of, runner_of,
  local_of, system_step,
}
use cpu_check.Worker.System.Halves.{IsPending, begin_lem, finish_lem}

-- The machine is the same for the worker of another processor.
pub with_tid-IsFaultless :
    (ctx : Context) → IsFaultless ctx → (i : ℕ) → IsFaultless (with_tid ctx i)
with_tid-IsFaultless ctx good i = record {
  uniform = good.uniform;
  pages = good.pages;
  allocates = good.allocates;
  drops = good.drops;
  vectors = good.vectors;
  self_tests = good.self_tests;
  zlib = good.zlib;
  small = good.small;
  evp = good.evp;
  comparable = good.comparable;
}

-- To show something of each worker after one of them has moved.
each_worker :
    {ctx : Context} (P : ℕ → Local ctx → Type 0) (i : ℕ) (new : Local ctx) (old : ℕ → Local ctx)
    → P i new
    → ((j : ℕ) → j ≢ i → P j (old j))
    → (j : ℕ) → P j (if j == i then new else old j)
each_worker P i new old here others j = elim (Bool-cases (j == i)) [
  | inl e ↦ let same : i ≡ j = ground arith in rw e (subst (λ k. P k new) same here)
  | inr e ↦ rw e (others j (ground arith))
]

module _ (ctx : Context) (good : IsFaultless ctx) where
  -- Between the halves of a round the worker's slots are as it has left them.
  abbrev pub IsHalf : Silkscreen → (i round : ℕ) → Option (Pending (with_tid ctx i)) → Type 0
  IsHalf sc i round none = Unit
  IsHalf sc i round (some p) =
      IsPending (with_tid ctx i) (with_tid-IsFaultless ctx good i) round p
      × IsFresh sc (tid_of ctx i) round

  pub record IsWorker (sc : Silkscreen) (i : ℕ) (l : Local ctx) : Type 0 where
    pub ready : IsBufferSet ctx.page l.buffers
    pub control : IsTuned ctx l.control
    pub half : IsHalf sc i l.round (as_worker ctx i l.pending)

  -- Worker `i`, if there is one.
  abbrev IsWorkerOf : Silkscreen → ℕ → Local ctx → Type 0
  IsWorkerOf sc i l = i < length ctx.tid_list → IsWorker sc i l

  pub record IsSystem (s : System ctx) : Type 0 where
    pub silkscreen : Build.IsValid s.shared.silkscreen
    pub workers : (i : ℕ) → i < length ctx.tid_list → IsWorker s.shared.silkscreen i (s.locals i)

  -- No processor stands twice in the list.
  abbrev pub IsDistinct : Type 0
  IsDistinct =
      (i j : ℕ)
      → i < length ctx.tid_list
      → j < length ctx.tid_list
      → i ≢ j
      → tid_of ctx i ≢ tid_of ctx j

  -- Another worker writes its slots.
  IsWorker-write :
      (sc : Silkscreen) (i j round : ℕ) (l : Local ctx)
      → tid_of ctx j ≢ tid_of ctx i
      → IsWorker sc j l
      → IsWorker (write_my_slots (tid_of ctx i) round sc).0 j l
  IsWorker-write sc i j round l ne w = record {
    ready = w.ready;
    control = w.control;
    half = go (as_worker ctx j l.pending) w.half;
  }
    where
      go :
          (p : Option (Pending (with_tid ctx j)))
          → IsHalf sc j l.round p
          → IsHalf (write_my_slots (tid_of ctx i) round sc).0 j l.round p
      go none h = tt
      go (some p) h = (h.0, write-IsFresh_ne (tid_of ctx j) l.round (tid_of ctx i) round sc ne h.1)

  abbrev pub is_busy : Option (Pending ctx) → Bool
  is_busy none = false
  is_busy (some p) = true

  -- One step of a worker: which half it was, and what it leaves.
  pub record Moves (i : ℕ) (t : Turn) (s : System ctx) : Type 0 where
    pub next : System ctx
    pub returns : system_step ctx i t s ≡ done next
    pub sound : IsSystem next
    pub toggles :
        (j : ℕ)
        → is_busy (next.locals j).pending
          ≡ (if j == i then not (is_busy (s.locals j).pending) else is_busy (s.locals j).pending)
    pub successes : next.shared.success_count ≡ (
        if is_busy (s.locals i).pending then s.shared.success_count + 1 else s.shared.success_count)
    pub errors : next.shared.error_count ≡ s.shared.error_count
    pub suspects : next.shared.suspects ≡ s.shared.suspects
    pub stopped : next.shared.stopped ≡ s.shared.stopped

  -- The state once the worker `i` has moved to `w` and `p`.
  abbrev moved :
      (i : ℕ)
      → System ctx
      → Runner (with_tid ctx i)
      → Option (Pending (with_tid ctx i))
      → System ctx
  moved i s q p = record {
    shared = q.world.shared;
    locals = λ j. if j == i then local_of ctx i q p else s.locals j;
  }

  system_step-returns :
      (i : ℕ) (t : Turn) (s : System ctx) (l : Option (Pending ctx)) (w : Runner (with_tid ctx i))
      (p : Option (Pending (with_tid ctx i)))
      → (s.locals i).pending ≡ l
      → worker_step (with_tid ctx i) t (as_worker ctx i l) (runner_of ctx i s) ≡ done (w, p)
      → system_step ctx i t s ≡ done (moved i s w p)
  unfolding system_step
  system_step-returns i t s l w p is returns =
      let rest : Runner (with_tid ctx i) × Option (Pending (with_tid ctx i))
          → Outcome (System ctx) =
        λ q. done (moved i s q.0 q.1) in
      ap (λ k. worker_step (with_tid ctx i) t (as_worker ctx i k) (runner_of ctx i s) >>= rest) is
      ∙ ap (λ o. o >>= rest) returns

  moved-toggles :
      (i : ℕ) (s : System ctx) (w : Runner (with_tid ctx i)) (p : Option (Pending (with_tid ctx i)))
      → is_busy (as_local ctx i p) ≡ not (is_busy (s.locals i).pending)
      → (j : ℕ)
      → is_busy ((moved i s w p).locals j).pending
        ≡ (if j == i then not (is_busy (s.locals j).pending) else is_busy (s.locals j).pending)
  moved-toggles i s w p flips =
      each_worker
        (λ j l.
          is_busy l.pending
          ≡ (if j == i then not (is_busy (s.locals j).pending) else is_busy (s.locals j).pending))
        i (local_of ctx i w p) s.locals (let here : (i == i) ≡ true = ground arith in rw here flips)
        (λ j ne. let there : (j == i) ≡ false = ground arith in rw there refl)

  -- Whose frequency control it is does not matter.
  with_tid-IsTuned : (i : ℕ) (c : Option Controller) → IsTuned ctx c → IsTuned (with_tid ctx i) c
  with_tid-IsTuned i none h = tt
  with_tid-IsTuned i (some c) h = record {
    in_step = h.in_step;
    some_time = h.some_time;
    low = h.low;
    high = h.high;
    sensible = h.sensible;
  }

  local-IsTuned : (i : ℕ) (c : Option Controller) → IsTuned (with_tid ctx i) c → IsTuned ctx c
  local-IsTuned i none h = tt
  local-IsTuned i (some c) h = record {
    in_step = h.in_step;
    some_time = h.some_time;
    low = h.low;
    high = h.high;
    sensible = h.sensible;
  }

  module _ (i : ℕ) (t : Turn) (s : System ctx) (inv : IsSystem s) (there : i < length ctx.tid_list)
      (distinct : IsDistinct) where
    worker-IsReady : IsReady (with_tid ctx i) (runner_of ctx i s).world
    worker-IsReady = record { buffers = (inv.workers i there).ready; silkscreen = inv.silkscreen }

    worker-IsTuned : IsTuned (with_tid ctx i) (s.locals i).control
    worker-IsTuned = with_tid-IsTuned i (s.locals i).control (inv.workers i there).control

    first_half-Moves :
        Runs (with_tid ctx i) t
        → s.shared.stopped ≡ false
        → (s.locals i).pending ≡ none
        → Moves i t s
    first_half-Moves runs going idle =
        let r = ((s.locals i).round + 1) % 2 ^ 64 in
        let b =
          begin_lem (with_tid ctx i) (with_tid-IsFaultless ctx good i) t (runner_of ctx i s) runs
            going worker-IsReady worker-IsTuned in
        let old = s.shared.silkscreen in
        let me = tid_of ctx i in
        let same : b.next.world.shared ≡ written (with_tid ctx i) r s.shared =
          b.leaves.same_shared in
        let new : Local ctx = local_of ctx i b.next (some b.pending) in
        let fresh : IsFresh (write_my_slots me r old).0 me r = write-IsFresh me r old in
        let here : IsWorker (write_my_slots me r old).0 i new = record {
          ready = b.leaves.ready;
          control = local-IsTuned i b.next.control b.control;
          half =
              subst (λ (n : ℕ). IsHalf (write_my_slots me r old).0 i n (some b.pending))
                (sym b.leaves.same_round) (b.sound, fresh);
        } in
        record {
          next = moved i s b.next (some b.pending);
          returns = system_step-returns i t s none b.next (some b.pending) idle b.returns;
          sound = record {
            silkscreen =
                subst (λ (x : Shared). Build.IsValid x.silkscreen) (sym same)
                  (write_my_slots_lem me r old inv.silkscreen).1;
            workers =
                subst
                  (λ (x : Shared).
                    (j : ℕ) → IsWorkerOf x.silkscreen j (if j == i then new else s.locals j))
                  (sym same)
                  (each_worker (IsWorkerOf (write_my_slots me r old).0) i new s.locals (λ _. here)
                    (λ j ne inside.
                      IsWorker-write old i j r (s.locals j) (distinct j i inside there ne)
                        (inv.workers j inside)));
          };
          toggles = moved-toggles i s b.next (some b.pending) (rw idle refl);
          successes = rw idle (ap (λ (x : Shared). x.success_count) same);
          errors = ap (λ (x : Shared). x.error_count) same;
          suspects = ap (λ (x : Shared). x.suspects) same;
          stopped = ap (λ (x : Shared). x.stopped) same;
        }

    second_half-Moves : (p : Pending ctx) → (s.locals i).pending ≡ some p → Moves i t s
    unfolding succeeded
    second_half-Moves p busy =
        let old = s.shared.silkscreen in
        let half : IsHalf old i (s.locals i).round (some (to_worker ctx i p)) =
          subst (λ q. IsHalf old i (s.locals i).round (as_worker ctx i q)) busy
            (inv.workers i there).half in
        let f =
          finish_lem (with_tid ctx i) (with_tid-IsFaultless ctx good i) t (to_worker ctx i p)
            (runner_of ctx i s) worker-IsReady half.0 half.1 in
        let same = f.leaves.same_shared in
        let next : Runner (with_tid ctx i) = record (runner_of ctx i s) { world = f.world } in
        let new : Local ctx = local_of ctx i next none in
        let here : IsWorker old i new = record {
          ready = f.leaves.ready;
          control = (inv.workers i there).control;
          half = tt;
        } in
        record {
          next = moved i s next none;
          returns = system_step-returns i t s (some p) next none busy f.returns;
          sound = record {
            silkscreen =
                subst (λ (x : Shared). Build.IsValid x.silkscreen) (sym same) inv.silkscreen;
            workers =
                subst
                  (λ (x : Shared).
                    (j : ℕ) → IsWorkerOf x.silkscreen j (if j == i then new else s.locals j))
                  (sym same)
                  (each_worker (IsWorkerOf old) i new s.locals (λ _. here) (λ j ne. inv.workers j));
          };
          toggles = moved-toggles i s next none (rw busy refl);
          successes = rw busy (ap (λ (x : Shared). x.success_count) same);
          errors = ap (λ (x : Shared). x.error_count) same;
          suspects = ap (λ (x : Shared). x.suspects) same;
          stopped = ap (λ (x : Shared). x.stopped) same;
        }

    pub step-Moves : Runs (with_tid ctx i) t → s.shared.stopped ≡ false → Moves i t s
    step-Moves runs going = elim (Option-cases (s.locals i).pending) [
      | inl idle ↦ first_half-Moves runs going idle
      | inr (p, busy) ↦ second_half-Moves p busy
    ]
