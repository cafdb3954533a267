-- ===== src/MalignBuffer/Raw.antt =====
-- Stores through `data()`, and what is read back after a `resize` to the bytes stored.
use cpu_check.Base.{
  ℕ, ◌+◌, ◌-◌, ◌≡◌, ◌≤◌, refl, ap, ◌∙◌, List, length, slice, write, arith, length-write,
  slice-write_self,
}
use cpu_check.Base.Outcome.{done}
use cpu_check.MalignBuffer.{MalignBuffer, IsValid, poke, resize, contents, offset}
use cpu_check.MalignBuffer.Store.{IsStored, store-IsStored, initialized, initialize-done}

pub poke-IsStored :
    (page : ℕ) (b : MalignBuffer) (pos : ℕ) (ys : List ℕ)
    → IsValid page b
    → pos + length ys ≤ b.buffer_length
    → IsStored page b pos ys (poke pos ys b)
poke-IsStored page b pos ys v h =
    store-IsStored page b pos ys (poke pos ys b) v h (unfold poke in ground (arith, v))

pub resize-done :
    (page len : ℕ) (b : MalignBuffer)
    → IsValid page b
    → len ≤ b.capacity
    → (resize page len b ≡ done (initialized b.alignment_offset len b))
      × IsValid page (initialized b.alignment_offset len b)
unfolding resize
resize-done page len b v h = (
  initialize-done page b.alignment_offset len b h v.aligned,
  record { aligned = v.aligned; fits = h; placed = refl; room = v.room },
)

-- A store from the start of a buffer that fits it, and a `resize` to its length.
pub record IsTrimmed (page : ℕ) (ys : List ℕ) (b : MalignBuffer) : Type 0 where
  pub stored : MalignBuffer
  pub trimmed : MalignBuffer
  pub first_returns : poke 0 ys b ≡ done stored
  pub then_returns : resize page (length ys) stored ≡ done trimmed
  pub holds : contents trimmed ≡ ys
  pub size : trimmed.buffer_length ≡ length ys
  pub valid : IsValid page trimmed
  pub capacity : trimmed.capacity ≡ b.capacity

pub poke-IsTrimmed :
    (page : ℕ) (ys : List ℕ) (b : MalignBuffer)
    → IsValid page b
    → length ys ≤ b.buffer_length
    → IsTrimmed page ys b
poke-IsTrimmed page ys b v h =
    let valid : IsValid page after = record {
      aligned = v.aligned;
      fits = v.fits;
      placed = v.placed;
      room = omega (arith, v.room, length-write b.memory (offset b + 0) ys);
    } in
    let (returns, trimmed) = resize-done page (length ys) after valid (omega (arith, v.fits)) in
    record {
      stored = after;
      trimmed = initialized b.alignment_offset (length ys) after;
      first_returns = unfold poke in ground (arith, v);
      then_returns = returns;
      holds =
          ap (λ k. slice (write b.memory (offset b + 0) ys) k (length ys)) here
          ∙ slice-write_self b.memory (offset b + 0) ys (length ys) refl
              (omega (arith, v.placed, v.aligned, v.fits, v.room));
      size = refl;
      valid = trimmed;
      capacity = refl;
    }
  where
    after : MalignBuffer
    after = record b { memory = write b.memory (offset b + 0) ys }

    here : b.base_address + b.alignment_offset - b.base_address ≡ offset b + 0
    here = omega (arith, v.placed)
