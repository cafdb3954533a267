-- ===== src/MalignBuffer/Syndrome.antt =====
-- The comparison of two buffers: `CorruptionSyndrome`, `Syndrome` and `CrackId`. A syndrome is kept
-- as the numbers that the JSON text shows, without the two addresses that `Syndrome` adds; `none`
-- is the empty text. Sizes and counts fit an `int`.
pub mod Spec
pub mod Laws
use cpu_check.Base.{
  ℕ, zero, suc, ◌+◌, ◌-◌, ◌*◌, ◌/◌, ◌%◌, ◌^◌, ◌≡◌, bit_and, bit_or, bit_xor, min, max, Bool, true,
  false, not, ◌&&◌, ◌||◌, Option, none, some, List, [], ◌∷◌, ltb, leb, ◌==◌, if◌then◌else◌, length,
  get_or,
}
use cpu_check.Base.Outcome.{Outcome, done, ◌>>=◌}
use cpu_check.MalignBuffer.{MalignBuffer, CopyMethod, contents, copy_string}

abbrev pub int_max : ℕ
int_max = 2 ^ 31 - 1

-- The variables of the loop; `none` is INT_MIN, below every index.
pub record Faults : Type 0 where
  pub wrong_bytes : ℕ
  pub wrong_bits : ℕ
  pub byte_faults : ℕ
  pub first_wrong : ℕ
  pub last_wrong : Option ℕ
  pub lane_errors : List ℕ

abbrev pub no_faults : Faults
no_faults = record {
  wrong_bytes = 0;
  wrong_bits = 0;
  byte_faults = 0;
  first_wrong = int_max;
  last_wrong = none;
  lane_errors = 0 ∷ 0 ∷ 0 ∷ 0 ∷ 0 ∷ 0 ∷ 0 ∷ 0 ∷ [];
}

-- `__builtin_popcount`, of a number of `n` bits.
unfoldable pub popcount : ℕ → ℕ → ℕ
popcount zero d = 0
popcount (suc n) d = d % 2 + popcount n (d / 2)

-- The loop over the lanes: each takes the next bit of `d`.
unfoldable pub bump_lanes : ℕ → List ℕ → List ℕ
bump_lanes d [] = []
bump_lanes d (n ∷ ns) = (if bit_and d 1 == 1 then n + 1 else n) ∷ bump_lanes (d / 2) ns

abbrev pub later : Option ℕ → ℕ → ℕ
later none i = i
later (some m) i = max m i

-- The body of the loop at index `i`.
unfoldable pub compare_byte : ℕ → ℕ → ℕ → Faults → Faults
unfolding popcount bump_lanes
compare_byte i a b st =
    let d = bit_xor a b in
    if d == 0 then st else record {
      wrong_bytes = st.wrong_bytes + 1;
      wrong_bits = st.wrong_bits + popcount 8 d;
      byte_faults = bit_or st.byte_faults d;
      first_wrong = min st.first_wrong i;
      last_wrong = some (later st.last_wrong i);
      lane_errors = bump_lanes d st.lane_errors;
    }

-- The loop from index `i` on.
unfoldable pub compare_bytes : ℕ → List ℕ → List ℕ → Faults → Faults
unfolding compare_byte
compare_bytes i (a ∷ xs) (b ∷ ys) st = compare_bytes (i + 1) xs ys (compare_byte i a b st)
compare_bytes i _ _ st = st

-- The three fields that `CrackId` prints.
pub record Crack : Type 0 where
  pub high : ℕ
  pub middle : ℕ
  pub low : ℕ

unfoldable pub crack_id : ℕ → Crack
crack_id v = record {
  high = v / 2 ^ 48;
  middle = bit_and (v / 2 ^ 24) 0xffffff;
  low = bit_and v 0xffffff;
}

-- An entry of "byteErrors": the two bytes, and the words that end at them if they are whole.
pub record ByteError : Type 0 where
  pub this_byte : ℕ
  pub that_byte : ℕ
  pub words : Option (Crack × Crack)

-- `(buf >> 8) | (uint64_t)a << 56`.
abbrev pub shift_in : ℕ → ℕ → ℕ
shift_in buf a = bit_or (buf / 2 ^ 8) (a * 2 ^ 56)

-- The loop that dumps, at index `k` with `n` rounds left.
unfoldable pub dump_bytes : ℕ → ℕ → ℕ → List ℕ → List ℕ → ℕ → ℕ → List ByteError
unfolding crack_id
dump_bytes zero k first xs ys buf_a buf_b = []
dump_bytes (suc n) k first xs ys buf_a buf_b =
    let a = get_or xs (first + k) 0 in
    let b = get_or ys (first + k) 0 in
    let word_a = shift_in buf_a a in
    let word_b = shift_in buf_b b in
    let whole = leb 7 k && (first + k) % 8 == 7 in
    record {
      this_byte = a;
      that_byte = b;
      words = if whole then some (crack_id word_a, crack_id word_b) else none;
    }
    ∷ dump_bytes n (k + 1) first xs ys (if whole then 0 else word_a) (if whole then 0 else word_b)

pub record Report : Type 0 where
  pub passed_memcmp : Bool
  pub wrong_byte_count : ℕ
  pub wrong_bit_count : ℕ
  pub corruption_width : ℕ
  pub corrupt_start : ℕ
  pub corrupt_byte_bit_mask : ℕ
  pub by_bit_lane : List ℕ
  pub byte_errors : List ByteError

pub data Syndrome : Type 0 where
  unequal_size : ℕ → ℕ → Syndrome
  wrong : Report → Syndrome
  failed_memcmp_only : Syndrome

-- `(last_wrong - first_wrong) + 1`; it is read only after a difference was found.
range_width : Option ℕ → ℕ → ℕ
range_width none first = 0
range_width (some l) first = (l - first) + 1

report : Bool → List ℕ → List ℕ → Faults → Report
report failed_memcmp xs ys st =
    let width = range_width st.last_wrong st.first_wrong in
    record {
      passed_memcmp = not failed_memcmp;
      wrong_byte_count = st.wrong_bytes;
      wrong_bit_count = st.wrong_bits;
      corruption_width = width;
      corrupt_start = st.first_wrong;
      corrupt_byte_bit_mask = st.byte_faults;
      by_bit_lane = st.lane_errors;
      byte_errors = dump_bytes (min 64 width) 0 st.first_wrong xs ys 0 0;
    }

-- `CorruptionSyndrome`, from the contents of the two buffers and what `memcmp` says of them.
unfoldable pub corruption_syndrome : Bool → List ℕ → List ℕ → Option Syndrome
unfolding report range_width
corruption_syndrome failed_memcmp xs ys =
    if length xs == length ys
    then (let st = compare_bytes 0 xs ys no_faults in
        if not (st.wrong_bits == 0) || not (st.wrong_bytes == 0)
        then some (wrong (report failed_memcmp xs ys st))
        else if failed_memcmp
        then some failed_memcmp_only
        else none)
    else some (unequal_size (length xs) (length ys))

-- `memcmp` of two ranges of one length: whether they differ.
unfoldable pub memcmp : List ℕ → List ℕ → Bool
memcmp (x ∷ xs) (y ∷ ys) = not (x == y) || memcmp xs ys
memcmp _ _ = false

-- `Syndrome`.
unfoldable pub syndrome : MalignBuffer → MalignBuffer → Option Syndrome
syndrome this that =
    corruption_syndrome (memcmp (contents this) (contents that)) (contents this) (contents that)

-- `CopyFrom(that, m)`: a copy that is checked.
unfoldable pub copy_from :
    MalignBuffer → CopyMethod → MalignBuffer → Outcome (MalignBuffer × Option Syndrome)
copy_from that m this =
    copy_string (contents that) m this >>= λ this'. done (this', syndrome this' that)
