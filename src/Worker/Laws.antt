-- ===== src/Worker/Laws.antt =====
-- The checker accepts what the writer computed, and what other threads do in between does not matter.
use cpu_check.Base.{ℕ, ◌+◌, ◌≡◌, ◌≢◌, ◌≤◌, refl, ap, some, List, All}
use cpu_check.Base.Outcome.{done, ok}
use cpu_check.Avx.{Avx}
use cpu_check.MalignBuffer.{MalignBuffer, IsValid}
use cpu_check.Silkscreen.{Silkscreen}
use cpu_check.Silkscreen.Build
use cpu_check.Silkscreen.Laws.{write_all, check-write_all}
use cpu_check.Worker.{Context, Choices, World, Shared, k_buf_max}
use cpu_check.Worker.Compute.{Computed, do_computations}
use cpu_check.Worker.Check.{check_computations}
use cpu_check.Worker.Faultless.{IsFaultless, IsBufferSet, k_capacity}
use cpu_check.Worker.Quiet.{written}
use cpu_check.Worker.Writer.{do_computations_Gives}
use cpu_check.Worker.Checker.{check_computations_Gives}

-- On a machine without faults, for choices whose size is at most the largest and whose hole lies in
-- the buffer, with any flags, from a well-formed buffer set whose original has that size:
-- `DoComputations` returns checksums and no error, and `CheckComputations` of them returns no error,
-- in whatever state the worker's engine and its vector unit are then, whatever the counters are,
-- and whatever other threads have written to the silkscreen in between.
pub check_computations-do_computations :
    (ctx : Context) (choices : Choices) (blank : MalignBuffer) (w : World ctx)
    (calls : List (ℕ × ℕ)) (others : Shared)
    → (engine : ctx.env.rng.S) (avx : Avx ctx.env.rng.S) → IsFaultless ctx
    → IsBufferSet ctx.page w.buffers
    → w.buffers.original ≡ some blank
    → IsValid ctx.page blank
    → blank.buffer_length ≡ choices.buf_size
    → blank.capacity ≡ k_capacity
    → choices.buf_size ≤ k_buf_max
    → choices.hole.start + choices.hole.hole_length ≤ choices.buf_size
    → Build.IsValid w.shared.silkscreen
    → All (λ c. ctx.tid ≢ c.0) calls
    → (c : Computed ctx) × (w' : World ctx) × (do_computations ctx choices w ≡ done (ok c, w'))
      × (v : World ctx) × (check_computations ctx choices c (record w' {
        rndeng = engine;
        avx = avx;
        shared = record others { silkscreen = write_all calls w'.shared.silkscreen };
      })
          ≡ done (ok tt, v))
check_computations-do_computations ctx choices blank w calls others engine avx good ready is valid
      size full small inside sound passes =
    let g =
      do_computations_Gives ctx good choices small inside w.shared w.round w blank
        (record { same_shared = refl; same_round = refl; ready = ready }) is valid size full
        sound in
    let sh : Shared = record others {
      silkscreen = write_all calls (written ctx w.round w.shared).silkscreen;
    } in
    let v : World ctx = record g.world {
      rndeng = engine;
      avx = avx;
      shared = record others { silkscreen = write_all calls g.world.shared.silkscreen };
    } in
    let same : v.shared ≡ sh =
      ap (λ (x : Shared). the_shared others (write_all calls x.silkscreen)) g.leaves.same_shared in
    let h =
      check_computations_Gives ctx good choices small inside sh w.round g.value g.holds v
        (record { same_shared = same; same_round = g.leaves.same_round; ready = g.leaves.ready })
        (check-write_all ctx.tid w.round calls w.shared.silkscreen passes sound) in
    (g.value, g.world, g.returns, h.world, h.returns)
  where
    the_shared : Shared → Silkscreen → Shared
    the_shared sh sc = record sh { silkscreen = sc }
