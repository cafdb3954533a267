-- ===== src/Worker/Steps.antt =====
-- The steps that the computations share, on a machine without faults.
use cpu_check.Base.{
  ℕ, ◌+◌, ◌-◌, ◌^◌, ◌≡◌, ◌≤◌, ◌<◌, refl, Bool, true, false, Option, none, some, List, length, ltb,
  if◌then◌else◌, arith, Bool-cases, Option-cases, inl, inr,
}
use cpu_check.Base.Outcome.{Outcome, done}
use cpu_check.MalignBuffer.{
  MalignBuffer, IsValid, new_malign_buffer, round_up_to_page_size, initialize, random_alignment,
}
use cpu_check.MalignBuffer.Store.{initialized, initialize-done, round_up_to_page_size_lem}
use cpu_check.MalignBuffer.Ranges.{random_flush, madvise_dont_need}
use cpu_check.Worker.{Shared, Slot, held, with_held, keep, store}
use cpu_check.Worker.{
  Context, World, M, ◌>>-◌, lift, maybe_flush, alignment, alloc, destination, advise,
}
use cpu_check.Worker.Faultless.{
  IsFaultless, k_capacity, IsAllocated, Holds, with_held-IsBufferSet, Gives, then_Gives, lift_Gives,
  keep_Gives,
}

module _ (ctx : Context) (good : IsFaultless ctx) where
  pub maybe_flush_Gives :
      {sh : Shared} {round : ℕ} (b : MalignBuffer) (w : World ctx)
      → Holds sh round w
      → Gives sh round (maybe_flush ctx b w) (λ _. Unit {0})
  unfolding maybe_flush
  maybe_flush_Gives b w t =
      let (flush, next) = ctx.env.rng.draw 0 1 w.rndeng in
      let flushed : ctx.env.rng.S =
        if ltb 0 flush then (random_flush ctx.env.rng ctx.line b next).1 else next in
      elim (Bool-cases ctx.options.do_flush) [
        | inl e ↦ record {
          value = tt;
          world = record w { rndeng = flushed };
          returns = rw e refl;
          leaves = record {
            same_shared = t.same_shared;
            same_round = t.same_round;
            ready = t.ready;
          };
          holds = tt;
        }
        | inr e ↦ record {
          value = tt;
          world = w;
          returns = rw e refl;
          leaves = record {
            same_shared = t.same_shared;
            same_round = t.same_round;
            ready = t.ready;
          };
          holds = tt;
        }
      ]

  pub alignment_Gives :
      {sh : Shared} {round : ℕ} (w : World ctx)
      → Holds sh round w
      → Gives sh round (alignment ctx w) (λ a. a < ctx.page)
  unfolding alignment random_alignment
  alignment_Gives w t = elim (Bool-cases ctx.options.do_misalign) [
    | inl e ↦ record {
      value = random_alignment ctx.env.rng ctx.page (ctx.env.rng.draw 0 (2 ^ 64 - 1) w.rndeng).0;
      world = record w { rndeng = (ctx.env.rng.draw 0 (2 ^ 64 - 1) w.rndeng).1 };
      returns = rw e refl;
      leaves = record { same_shared = t.same_shared; same_round = t.same_round; ready = t.ready };
      holds = omega (
        arith,
        good.uniform.below 0 (ctx.page - 1)
            (ctx.env.rng.seed (ctx.env.rng.draw 0 (2 ^ 64 - 1) w.rndeng).0),
        good.pages,
      );
    }
    | inr e ↦ record {
      value = 0;
      world = w;
      returns = rw e refl;
      leaves = record { same_shared = t.same_shared; same_round = t.same_round; ready = t.ready };
      holds = good.pages;
    }
  ]

  made : ℕ × List ℕ → MalignBuffer
  made r = record {
    capacity = k_capacity;
    base_address = r.0;
    alignment_offset = 0;
    buffer_length = 0;
    buffer_address = 0;
    memory = r.1;
  }

  made-done :
      (r : ℕ × List ℕ)
      → ctx.allocate (round_up_to_page_size ctx.page k_capacity + ctx.page) ≡ some r
      → new_malign_buffer ctx.allocate ctx.page k_capacity ≡ done (made r)
  unfolding new_malign_buffer made
  made-done r e = ground (arith, e)

  pub alloc_lem :
      (old : Option MalignBuffer)
      → IsAllocated ctx.page old
      → (b : MalignBuffer) × (alloc ctx old ≡ done b)
        × (b.capacity ≡ k_capacity)
        × (b.capacity + ctx.page ≤ length b.memory)
  unfolding alloc made
  alloc_lem (some b) a = (b, refl, a.0, a.1)
  alloc_lem none a =
      let (r, e, long) = good.allocates (round_up_to_page_size ctx.page k_capacity + ctx.page) in
      let (_, room, _) = round_up_to_page_size_lem ctx.page k_capacity good.pages in
      (made r, made-done r e, refl, omega arith)

  -- A destination has the size that was asked for and the full capacity.
  abbrev pub IsDestination : ℕ → MalignBuffer → Type 0
  IsDestination size b = IsValid ctx.page b × (b.buffer_length ≡ size) × (b.capacity ≡ k_capacity)

  pub destination-IsAllocated :
      (size : ℕ) (b : MalignBuffer) → IsDestination size b → IsAllocated ctx.page (some b)
  destination-IsAllocated size b d = (d.2, d.0.room)

  pub destination_Gives :
      {sh : Shared} {round : ℕ} (i : Slot) (size : ℕ) (w : World ctx)
      → size ≤ k_capacity
      → Holds sh round w
      → Gives sh round (destination ctx i size w) (IsDestination size)
  unfolding destination
  destination_Gives {sh} {round} i size w h t =
      let (b, e, cap, room) = alloc_lem (held i w.buffers) (t.ready i) in
      then_Gives {P = λ x. x ≡ b} (lift (alloc ctx (held i w.buffers))) _ w
        (lift_Gives (alloc ctx (held i w.buffers)) b w t e refl)
        (λ x w1 t1 is. then_Gives (alignment ctx) _ w1 (alignment_Gives w1 t1) (λ k w2 t2 low.
          then_Gives {P = IsDestination size} (lift (initialize ctx.page k size x)) _ w2
            (lift_Gives (initialize ctx.page k size x) (initialized k size b) w2 t2
              (rw is (initialize-done ctx.page k size b (omega arith) low))
              (record { aligned = low; fits = omega arith; placed = refl; room = room }, refl, cap))
            (λ d w3 t3 made.
              then_Gives (keep i d) _ w3
                (keep_Gives i d w3 t3 (destination-IsAllocated size d made))
                (λ _ w4 t4 _. lift_Gives (done d) d w4 t4 refl made))))

  pub advise-IsDestination :
      (madvise : Bool) (size : ℕ) (b : MalignBuffer)
      → IsDestination size b
      → IsDestination size (advise ctx madvise b)
  unfolding advise
  advise-IsDestination false size b d = d
  advise-IsDestination true size b d = elim (Option-cases (madvise_dont_need ctx.page b)) [
    | inl e ↦ rw e d
    | inr ((start, n), e) ↦ rw e (
      record {
        aligned = d.0.aligned;
        fits = d.0.fits;
        placed = d.0.placed;
        room = omega (arith, d.0.room, good.drops b.memory (start - b.base_address) n);
      },
      d.1,
      d.2,
    )
  ]

  -- An operation makes `b` of a buffer of the set, with some result, and the set keeps it.
  pub store_Gives :
      {E B : Type 0} {Q : B → Type 0} {sh sh' : Shared} {round : ℕ} (i : Slot)
      (o : Outcome (MalignBuffer × E)) (f : MalignBuffer × E → M ctx B) (b : MalignBuffer) (e : E)
      (w : World ctx)
      → Holds sh round w
      → o ≡ done (b, e)
      → IsValid ctx.page b
      → b.capacity ≡ k_capacity
      → ((w' : World ctx) → Holds sh round w' → Gives sh' round (f (b, e) w') Q)
      → Gives sh' round ((store i o >>- f) w) Q
  store_Gives i o f b e w t is valid full next =
      let kept : World ctx = record w { buffers = with_held i b w.buffers } in
      let n = next kept (record {
        same_shared = t.same_shared;
        same_round = t.same_round;
        ready = with_held-IsBufferSet ctx.page i b w.buffers t.ready (full, valid.room);
      }) in
      record {
        value = n.value;
        world = n.world;
        returns = rw is n.returns;
        leaves = n.leaves;
        holds = n.holds;
      }
