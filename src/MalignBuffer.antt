-- ===== src/MalignBuffer.antt =====
-- malign_buffer.h and malign_buffer.cc: a buffer at a chosen alignment, its ways of copying, and
-- the comparison of two buffers. A buffer owns one allocation, `memory`, whose first byte has the
-- address `base_address`; `kPageSize` is the argument `page`. Addresses and sizes do not wrap.
pub mod Copy
pub mod Store
pub mod Syndrome
pub mod Ranges
pub mod Raw
mod Tests
use cpu_check.Base.{
  ℕ, zero, suc, ◌+◌, ◌-◌, ◌*◌, ◌/◌, ◌%◌, ◌≤◌, ◌<◌, ◌≡◌, Bool, true, false, Option, none, some, List,
  [], ◌∷◌, ltb, leb, ◌==◌, if◌then◌else◌, not, length, slice, take, drop, write, replicate,
}
use cpu_check.Base.Rng.{Rng}
use cpu_check.Base.Outcome.{Outcome, done, fatal, fault, ◌>>=◌}

pub data CopyMethod : Type 0 where
  k_memcpy k_rep_mov k_sse_by128 k_avx_by256 k_avx_by512 : CopyMethod

pub record PunchedHole : Type 0 where
  pub start : ℕ
  pub hole_length : ℕ
  pub v : ℕ

-- `buffer_address` is 0, the null pointer, until the first `Initialize`.
pub record MalignBuffer : Type 0 where
  pub capacity : ℕ
  pub base_address : ℕ
  pub alignment_offset : ℕ
  pub buffer_length : ℕ
  pub buffer_address : ℕ
  pub memory : List ℕ

unfoldable pub round_up_to_page_size : ℕ → ℕ → ℕ
round_up_to_page_size page k = ((k + page - 1) / page) * page

-- The constructor. `allocate` is the result of `aligned_alloc` for a size: an address and what the
-- memory there happens to hold.
unfoldable pub new_malign_buffer : (ℕ → Option (ℕ × List ℕ)) → ℕ → ℕ → Outcome MalignBuffer
new_malign_buffer allocate page capacity =
    elim (allocate (round_up_to_page_size page capacity + page)) [
      | none ↦ fatal
      | some (address, contents) ↦ done (record {
        capacity = capacity;
        base_address = address;
        alignment_offset = 0;
        buffer_length = 0;
        buffer_address = 0;
        memory = contents;
      })
    ]

unfoldable pub initialize : ℕ → ℕ → ℕ → MalignBuffer → Outcome MalignBuffer
initialize page alignment_offset length b =
    if ltb b.capacity length
    then fatal
    else if leb page alignment_offset
    then fatal
    else done (record b {
      alignment_offset = alignment_offset;
      buffer_length = length;
      buffer_address = b.base_address + alignment_offset;
    })

unfoldable pub resize : ℕ → ℕ → MalignBuffer → Outcome MalignBuffer
unfolding initialize
resize page length b = initialize page b.alignment_offset length b

-- Where `data()` lies in the allocation.
abbrev pub offset : MalignBuffer → ℕ
offset b = b.buffer_address - b.base_address

-- The bytes at `data()`, `size()` of them.
abbrev pub contents : MalignBuffer → List ℕ
contents b = slice b.memory (offset b) b.buffer_length

-- `rep movsb`: one byte at a time, upwards.
unfoldable pub movsb : List ℕ → ℕ → List ℕ → List ℕ
movsb mem dst [] = mem
movsb mem dst (x ∷ src) = movsb (write mem dst (x ∷ [])) (dst + 1) src

-- The loop of the vector copies: block `i` of `width` bytes, with `n` blocks left.
unfoldable pub copy_blocks : ℕ → ℕ → ℕ → List ℕ → ℕ → List ℕ → List ℕ
copy_blocks width zero i mem dst src = mem
copy_blocks width (suc n) i mem dst src =
    copy_blocks width n (i + 1) (write mem (dst + i * width) (slice src (i * width) width)) dst src

-- `__sse_128_memcpy`, `__avx_256_memcpy` and `__avx_512_memcpy`, by the bytes of a register.
unfoldable pub vector_memcpy : ℕ → List ℕ → ℕ → List ℕ → List ℕ
unfolding copy_blocks
vector_memcpy width mem dst src =
    let blks = length src / width in
    write (copy_blocks width blks 0 mem dst src) (dst + blks * width) (drop (blks * width) src)

-- The `switch` of `CopyFrom`.
unfoldable pub copy_bytes : CopyMethod → List ℕ → ℕ → List ℕ → List ℕ
unfolding movsb vector_memcpy
copy_bytes k_memcpy mem dst src = write mem dst src
copy_bytes k_rep_mov mem dst src = movsb mem dst src
copy_bytes k_sse_by128 mem dst src = vector_memcpy 16 mem dst src
copy_bytes k_avx_by256 mem dst src = vector_memcpy 32 mem dst src
copy_bytes k_avx_by512 mem dst src = vector_memcpy 64 mem dst src

-- A range of `n` bytes from `pos` of the buffer lies in the allocation.
unfoldable pub within : MalignBuffer → ℕ → ℕ → Bool
within b pos n = leb (offset b + pos + n) (length b.memory)

-- Stores of other code through `data()`, such as `(b->data())[p + m] = ...` for each of the bytes.
unfoldable pub poke : ℕ → List ℕ → MalignBuffer → Outcome MalignBuffer
unfolding within
poke pos bytes b =
    if within b pos (length bytes)
    then done (record b { memory = write b.memory (offset b + pos) bytes })
    else fault

-- `CopyFrom(pos, src, m)`. The source is the memory of another buffer or of a local variable.
unfoldable pub copy_at : ℕ → List ℕ → CopyMethod → MalignBuffer → Outcome MalignBuffer
unfolding within
copy_at pos src m b =
    if ltb b.buffer_length (pos + length src)
    then fatal
    else if within b pos (length src)
    then done (record b { memory = copy_bytes m b.memory (offset b + pos) src })
    else fault

-- `CopyFrom(src, m)`.
unfoldable pub copy_string : List ℕ → CopyMethod → MalignBuffer → Outcome MalignBuffer
copy_string src m b = if b.buffer_length == length src then copy_at 0 src m b else fatal

-- `Memset`: `rep stosb` or `memset`, which store the same byte `length` times.
unfoldable pub stosb : List ℕ → ℕ → ℕ → ℕ → List ℕ
stosb mem dst v zero = mem
stosb mem dst v (suc n) = stosb (write mem dst (v ∷ [])) (dst + 1) v n

-- The bytes that `Memset` leaves, by the way that it is told to take.
unfoldable pub fill_bytes : Bool → List ℕ → ℕ → ℕ → ℕ → List ℕ
unfolding stosb
fill_bytes use_rep_stos mem dst v n =
    if use_rep_stos then stosb mem dst v n else write mem dst (replicate n v)

unfoldable pub memset : ℕ → ℕ → ℕ → Bool → MalignBuffer → Outcome MalignBuffer
unfolding within
memset pos v n use_rep_stos b =
    if within b pos n
    then done (record b { memory = fill_bytes use_rep_stos b.memory (offset b + pos) v n })
    else fault

-- `RandomAlignment`.
unfoldable pub random_alignment : Rng → ℕ → ℕ → ℕ
random_alignment r page seed = (r.draw 0 (page - 1) (r.seed seed)).0

unfoldable pub punch_hole : PunchedHole → Bool → MalignBuffer → Outcome MalignBuffer
punch_hole hole use_rep_stos b =
    if hole.hole_length == 0
    then done b
    else memset hole.start hole.v hole.hole_length use_rep_stos b

-- An initialized buffer: `data()` is where `Initialize` put it, and `size()` bytes from it, at any
-- alignment, are in the allocation.
pub record IsValid (page : ℕ) (b : MalignBuffer) : Type 0 where
  pub aligned : b.alignment_offset < page
  pub fits : b.buffer_length ≤ b.capacity
  pub placed : b.buffer_address ≡ b.base_address + b.alignment_offset
  pub room : b.capacity + page ≤ length b.memory
