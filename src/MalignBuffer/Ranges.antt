-- ===== src/MalignBuffer/Ranges.antt =====
-- The parts of malign_buffer.cc that choose ranges: holes, the advice to the kernel, cache lines.
use cpu_check.Base.{
  ℕ, zero, suc, ◌+◌, ◌-◌, ◌*◌, ◌/◌, ◌%◌, ◌^◌, ◌≡◌, ◌≤◌, ◌<◌, sym, ap, ◌∙◌, min, bit_and, Bool, true,
  false, ◌||◌, ◌==◌, Option, none, some, List, [], ◌∷◌, arith, ltb, if◌then◌else◌, All, All-mono,
  Bool-cases, inl, inr,
}
use cpu_check.Base.Bits.{bit_and_step, bit_and-mask}
use cpu_check.Base.Rng.{Rng, IsUniform}
use cpu_check.MalignBuffer.{MalignBuffer, PunchedHole}
use native.Mathlib.Nat.{
  pow-suc, one-le-pow, mod-lt, div-add-mod', mul-mod_left, mod-eq_of_lt, div-div-eq-div-mul,
  div-mul-le_self, le-div_iff_mul-le,
}

-- `x & ~(kPageSize - 1)`, on 64 bits.
abbrev pub page_floor : ℕ → ℕ → ℕ
page_floor page x = bit_and x (2 ^ 64 - page)

-- `MadviseDontNeed`: the start and the length of the range that is given up, if there is one.
unfoldable pub madvise_dont_need : ℕ → MalignBuffer → Option (ℕ × ℕ)
madvise_dont_need page b =
    let start = page_floor page (b.buffer_address + page - 1) in
    let end = page_floor page (b.buffer_address + b.buffer_length - 1) in
    if ltb start end then some (start, end - start) else none

-- `RandomPunchedHole`; `v` is the default of the struct.
unfoldable pub random_punched_hole : (r : Rng) → ℕ → MalignBuffer → PunchedHole
random_punched_hole r seed b =
    let (n, s) = r.draw 1 (min b.buffer_length 8192) (r.seed seed) in
    record { start = (r.draw 0 (b.buffer_length - n) s).0; hole_length = n; v = 0x53 }

-- The loop of `RandomFlush` from address `p`: the addresses that `clflush` is given, and the
-- engine. `line` is `kCacheLineSize`.
unfoldable pub flush_lines : (r : Rng) → ℕ → ℕ → ℕ → ℕ → r.S → List ℕ × r.S
flush_lines r line zero p end s = ([], s)
flush_lines r line (suc fuel) p end s =
    let (heads, s') = r.draw 0 1 s in
    let rest = flush_lines r line fuel (p + line) end s' in
    if ltb p end then (if ltb 0 heads then (p ∷ rest.0, rest.1) else rest) else ([], s)

-- Each turn moves on by a line, so the length is enough fuel.
unfoldable pub random_flush : (r : Rng) → ℕ → MalignBuffer → r.S → List ℕ × r.S
unfolding flush_lines
random_flush r line b s =
    flush_lines r line b.buffer_length (b.buffer_address + b.alignment_offset)
      (b.buffer_address + b.buffer_length) s

bit_and-floor : (k w x : ℕ) → k ≤ w → x < 2 ^ w → bit_and x (2 ^ w - 2 ^ k) ≡ x / 2 ^ k * 2 ^ k
bit_and-floor zero w x h lt = omega (arith, bit_and-mask w x, mod-eq_of_lt lt)
bit_and-floor (suc k) zero x h lt = absurd (omega arith)
bit_and-floor (suc k) (suc w) x h lt =
    let mask = 2 ^ suc w - 2 ^ suc k in
    let half : mask / 2 ≡ 2 ^ w - 2 ^ k = omega (arith, pow-suc 2 k, pow-suc 2 w) in
    let even : mask % 2 ≡ 0 = omega (arith, pow-suc 2 k, pow-suc 2 w) in
    let twice : 2 * 2 ^ k ≡ 2 ^ suc k = omega (arith, pow-suc 2 k) in
    let rest : bit_and (x / 2) (mask / 2) ≡ x / 2 ^ suc k * 2 ^ k =
      ap (bit_and (x / 2)) half
      ∙ bit_and-floor k w (x / 2) (omega arith) (omega (arith, pow-suc 2 w))
      ∙ ap (λ t. t * 2 ^ k) (div-div-eq-div-mul x 2 (2 ^ k) ∙ ap (λ t. x / t) twice) in
    omega (arith, bit_and_step x mask, even, rest, ap (λ (t : ℕ). x / 2 ^ suc k * t) twice)

page_floor_lem :
    (k x : ℕ)
    → k ≤ 64
    → x < 2 ^ 64
    → (page_floor (2 ^ k) x % 2 ^ k ≡ 0)
      × (page_floor (2 ^ k) x ≤ x)
      × (x < page_floor (2 ^ k) x + 2 ^ k)
page_floor_lem k x h lt =
    let e : page_floor (2 ^ k) x ≡ x / 2 ^ k * 2 ^ k = bit_and-floor k 64 x h lt in
    let m = mod-lt x {m = 2 ^ k} (one-le-pow k 2 (omega arith)) in
    let d = div-add-mod' x (2 ^ k) in
    (
      ap (λ (t : ℕ). t % 2 ^ k) e ∙ mul-mod_left (x / 2 ^ k) (2 ^ k),
      omega (arith, e, d),
      omega (arith, e, d, m),
    )

-- The range that the kernel is told to drop consists of whole pages and lies in the buffer, for a
-- page size that is a power of two.
pub madvise_dont_need_lem :
    (k : ℕ) (b : MalignBuffer) (start n : ℕ)
    → k ≤ 64
    → b.buffer_address + b.buffer_length + 2 ^ k < 2 ^ 64
    → madvise_dont_need (2 ^ k) b ≡ some (start, n)
    → (start % 2 ^ k ≡ 0)
      × ((start + n) % 2 ^ k ≡ 0)
      × (0 < n)
      × (b.buffer_address ≤ start)
      × (start + n ≤ b.buffer_address + b.buffer_length)
unfolding madvise_dont_need
madvise_dont_need_lem k b start n h room e = (
  ap (λ (t : ℕ). t % 2 ^ k) (sym (parts.0)) ∙ low.0,
  ap (λ (t : ℕ). t % 2 ^ k) sum ∙ high.0,
  omega (arith, parts.1, parts.2),
  omega (arith, parts.0, low.2),
  omega (arith, sum, high.1, parts.1, one-le-pow k 2),
)
  where
    from : ℕ
    from = page_floor (2 ^ k) (b.buffer_address + 2 ^ k - 1)

    to : ℕ
    to = page_floor (2 ^ k) (b.buffer_address + b.buffer_length - 1)

    low :
        (from % 2 ^ k ≡ 0)
        × (from ≤ b.buffer_address + 2 ^ k - 1)
        × (b.buffer_address + 2 ^ k - 1 < from + 2 ^ k)
    low = page_floor_lem k (b.buffer_address + 2 ^ k - 1) h (omega arith)

    high :
        (to % 2 ^ k ≡ 0)
        × (to ≤ b.buffer_address + b.buffer_length - 1)
        × (b.buffer_address + b.buffer_length - 1 < to + 2 ^ k)
    high = page_floor_lem k (b.buffer_address + b.buffer_length - 1) h (omega arith)

    parts : (from ≡ start) × (from < to) × (to - from ≡ n)
    parts = elim (Bool-cases (ltb from to)) [ inl before ↦ ground arith | inr empty ↦ ground arith ]

    sum : start + n ≡ to
    sum = omega (arith, parts.0, parts.1, parts.2)

-- A hole lies in the buffer and has 1 to 8192 bytes.
pub random_punched_hole_lem :
    (r : Rng) (seed : ℕ) (b : MalignBuffer)
    → IsUniform r
    → 0 < b.buffer_length
    → let hole = random_punched_hole r seed b in
      (1 ≤ hole.hole_length)
      × (hole.hole_length ≤ 8192)
      × (hole.start + hole.hole_length ≤ b.buffer_length)
unfolding random_punched_hole
random_punched_hole_lem r seed b u pos =
    let top = min b.buffer_length 8192 in
    let n = r.draw 1 top (r.seed seed) in
    let low : 1 ≤ n.0 = u.above 1 top (r.seed seed) (omega arith) in
    let high : n.0 ≤ top = u.below 1 top (r.seed seed) (omega arith) in
    (low, omega arith, omega (arith, u.below 0 (b.buffer_length - n.0) n.1 (omega arith)))

flush_lines-inside :
    (r : Rng) (line fuel p end : ℕ) (s : r.S)
    → All (λ a. (p ≤ a) × (a < end)) (flush_lines r line fuel p end s).0
unfolding flush_lines
flush_lines-inside r line zero p end s = tt
flush_lines-inside r line (suc fuel) p end s =
    let (heads, s') = r.draw 0 1 s in
    let rest =
      All-mono (λ a. (p + line ≤ a) × (a < end)) (λ a. (p ≤ a) × (a < end))
        (flush_lines r line fuel (p + line) end s').0 (λ a h. (omega arith, h.1))
        (flush_lines-inside r line fuel (p + line) end s') in
    elim (Bool-cases (ltb p end)) [
      | inr past ↦ rw past tt
      | inl before ↦ rw before (elim (Bool-cases (ltb 0 heads)) [
        | inl flush ↦ rw flush ((omega arith, ground arith), rest)
        | inr keep ↦ rw keep rest
      ])
    ]

-- Whether a byte is in a line that some `clflush` was told to flush: it flushes the whole line of the
-- address that it is given.
unfoldable pub is_flushed : ℕ → ℕ → List ℕ → Bool
is_flushed line x [] = false
is_flushed line x (a ∷ addresses) =
    let rest = is_flushed line x addresses in x / line == a / line || rest

div_mono : (n a b : ℕ) → 0 < n → a ≤ b → a / n ≤ b / n
div_mono n a b pos h =
    (le-div_iff_mul-le {k = n} {x = a / n} {y = b} pos).1 (omega (arith, h, div-mul-le_self a n))

is_flushed-All :
    (line x from end : ℕ) (addresses : List ℕ)
    → 0 < line
    → All (λ a. (from ≤ a) × (a < end)) addresses
    → is_flushed line x addresses ≡ true
    → (from / line ≤ x / line) × (x / line ≤ (end - 1) / line)
unfolding is_flushed
is_flushed-All line x from end [] pos h e = absurd (ground (arith, e))
is_flushed-All line x from end (a ∷ addresses) pos h e = elim (Bool-cases (x / line == a / line)) [
  | inl here ↦
      let same : x / line ≡ a / line = ground (arith, here) in
      let low : from / line ≤ a / line = div_mono line from a pos h.0.0 in
      let high : a / line ≤ (end - 1) / line =
        div_mono line a (end - 1) pos (omega (arith, h.0.1)) in
      (omega (arith, same, low), omega (arith, same, high))
  | inr there ↦ is_flushed-All line x from end addresses pos h.1 (ground (arith, e, there))
]

-- A byte that `RandomFlush` flushes is in a cache line from the line of the address that is
-- `alignment_offset` bytes behind `data()` up to the line of the last byte of the buffer. So the lines
-- before that address, which hold the first bytes of the buffer, are never flushed.
pub random_flush_lem :
    (r : Rng) (line : ℕ) (b : MalignBuffer) (s : r.S) (x : ℕ)
    → 0 < line
    → is_flushed line x (random_flush r line b s).0 ≡ true
    → ((b.buffer_address + b.alignment_offset) / line ≤ x / line)
      × (x / line ≤ (b.buffer_address + b.buffer_length - 1) / line)
unfolding random_flush
random_flush_lem r line b s x pos e =
    is_flushed-All line x _ _ _ pos (flush_lines-inside r line b.buffer_length _ _ s) e
