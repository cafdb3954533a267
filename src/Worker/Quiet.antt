-- ===== src/Worker/Quiet.antt =====
-- The first steps of the writer, on a machine without faults: they leave the round and the buffers.
use cpu_check.Base.Outcome.{Outcome, Result}
use cpu_check.Base.{ℕ, ◌≡◌, refl, none, Option, Bool-cases, inl, inr}
use cpu_check.Base.Outcome.{done, ok}
use cpu_check.Avx.{maybe_go_hot, burn_if_avx_heavy}
use cpu_check.Avx.Laws.{burn_if_avx_heavy-none, maybe_go_hot-none}
use cpu_check.Avx.Vectors.{AvxSyndrome}
use cpu_check.Crypto.{self_test}
use cpu_check.Silkscreen.{write_my_slots}
use cpu_check.Silkscreen.Build
use cpu_check.Silkscreen.Laws.{write_my_slots_lem}
use cpu_check.Worker.{
  Context, World, Shared, BufferSet, check, M, ◌>>-◌, avx_heavy, crypto, silkscreen_write,
  WorkerError,
}
use cpu_check.Worker.Compute.{go_hot, burn, test_ssl, write_silkscreen}
use cpu_check.Worker.Faultless.{IsFaultless, Gives}

-- A step that changes what is shared at most: it leaves the round and the buffers.
pub record Quiet {ctx : Context} (sh : Shared) (round : ℕ) (buffers : BufferSet)
    (x : Outcome (Result WorkerError Unit × World ctx)) : Type 0 where
  pub world : World ctx
  pub returns : x ≡ done (ok tt, world)
  pub same_shared : world.shared ≡ sh
  pub same_round : world.round ≡ round
  pub same_buffers : world.buffers ≡ buffers

module _ {ctx : Context} {sh : Shared} {round : ℕ} {buffers : BufferSet} where
  pub then_Quiet :
      {B : Type 0} {Q : B → Type 0} {sh' : Shared} (m : M ctx Unit) (f : Unit → M ctx B)
      (w : World ctx)
      → Quiet sh round buffers (m w)
      → ((w' : World ctx)
          → w'.shared ≡ sh
          → w'.round ≡ round
          → w'.buffers ≡ buffers
          → Gives sh' round (f tt w') Q)
      → Gives sh' round ((m >>- f) w) Q
  then_Quiet m f w q next =
      let n = next q.world q.same_shared q.same_round q.same_buffers in
      record {
        value = n.value;
        world = n.world;
        returns = rw q.returns n.returns;
        leaves = n.leaves;
        holds = n.holds;
      }

  pub check-Quiet :
      {E : Type 0} (e : Option E) (f : E → WorkerError) (w : World ctx)
      → w.shared ≡ sh
      → w.round ≡ round
      → w.buffers ≡ buffers
      → e ≡ none
      → Quiet sh round buffers (check e f w)
  check-Quiet e f w s r b fine = record {
    world = w;
    returns = rw fine refl;
    same_shared = s;
    same_round = r;
    same_buffers = b;
  }

-- What the shared state is once the worker has written its slots.
abbrev pub written : Context → ℕ → Shared → Shared
written ctx round sh = record sh { silkscreen = (write_my_slots ctx.tid round sh.silkscreen).0 }

module _ (ctx : Context) (good : IsFaultless ctx) (sh : Shared) (round : ℕ)
    (buffers : BufferSet) where
  pub go_hot-Quiet :
      (w : World ctx)
      → w.shared ≡ sh
      → w.round ≡ round
      → w.buffers ≡ buffers
      → Quiet sh round buffers (go_hot ctx w)
  unfolding go_hot
  go_hot-Quiet w s r b = elim (Bool-cases ctx.options.do_avx_heavy) [
    | inl on ↦ simp on (
        check-Quiet (maybe_go_hot ctx.env.rng ctx.avx_unit w.avx).0 avx_heavy _ s r b
          (maybe_go_hot-none ctx.env.rng ctx.avx_unit good.vectors w.avx))
    | inr off ↦ simp off (check-Quiet {E = AvxSyndrome} none avx_heavy w s r b refl)
  ]

  pub burn-Quiet :
      (w : World ctx)
      → w.shared ≡ sh
      → w.round ≡ round
      → w.buffers ≡ buffers
      → Quiet sh round buffers (burn ctx w)
  unfolding burn
  burn-Quiet w s r b = elim (Bool-cases ctx.options.do_avx_heavy) [
    | inl on ↦ simp on (
        check-Quiet (burn_if_avx_heavy ctx.avx_unit w.avx).0 avx_heavy _ s r b
          (burn_if_avx_heavy-none ctx.avx_unit good.vectors w.avx))
    | inr off ↦ simp off (check-Quiet {E = AvxSyndrome} none avx_heavy w s r b refl)
  ]

  pub test_ssl-Quiet :
      (w : World ctx)
      → w.shared ≡ sh
      → w.round ≡ round
      → w.buffers ≡ buffers
      → Quiet sh round buffers (test_ssl ctx w)
  unfolding test_ssl
  test_ssl-Quiet w s r b = elim (Bool-cases ctx.options.do_ssl_self_check) [
    | inl on ↦ simp on (check-Quiet (self_test ctx.boringssl) crypto w s r b good.self_tests)
    | inr off ↦ simp off (check-Quiet {E = AvxSyndrome} none avx_heavy w s r b refl)
  ]

  pub write_silkscreen-Quiet :
      (w : World ctx)
      → w.shared ≡ sh
      → w.round ≡ round
      → w.buffers ≡ buffers
      → Build.IsValid sh.silkscreen
      → Quiet (written ctx round sh) round buffers (write_silkscreen ctx w)
  unfolding write_silkscreen
  write_silkscreen-Quiet w s r b v =
      check-Quiet (write_my_slots ctx.tid w.round w.shared.silkscreen).1 silkscreen_write _
        (rw (s, r) refl) r b (rw (s, r) ((write_my_slots_lem ctx.tid round sh.silkscreen v).0))
