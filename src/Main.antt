-- ===== src/Main.antt =====
-- `main` of cpu_check.cc: the flags, the list of processors, and the exit status. Arguments are lists
-- of character codes. `stream >> n` for the other integer types of the standard library is a
-- parameter: the value of `n` afterwards, by its value before.
pub mod Laws
mod Tests
use cpu_check.Base.{
  ℕ, zero, suc, ◌+◌, Bool, true, false, Option, none, some, List, [], ◌∷◌, ◌++◌, length, ◌==◌, ◌||◌,
  if◌then◌else◌,
}
use cpu_check.Base.Int.{ℤ, pos, negsuc}
use cpu_check.Base.Stream.{Extracted, eof, bad, got, extract_int}
use cpu_check.Worker.{Options}

pub record Streams : Type 0 where
  pub read_uintmax : List ℕ → ℕ → ℕ
  pub read_int64 : List ℕ → ℤ → ℤ

-- The globals before the flags are read: whether the processor is an x86, has AVX and AVX-512, and
-- whether frequency and voltage can be controlled. `error_limit` is `kErrorLimit`.
unfoldable pub default_options : Bool → Bool → Bool → Bool → Options
default_options is_x86 can_do_avx can_do_avx512f can_do_fvt = record {
  do_madvise = true;
  do_repmovsb = is_x86;
  do_sse_128_memcpy = is_x86;
  do_avx_256_memcpy = can_do_avx;
  do_avx_512_memcpy = can_do_avx512f;
  do_avx_heavy = can_do_avx;
  do_compress = true;
  do_encrypt = true;
  do_hashes = true;
  do_misalign = true;
  do_hop = true;
  do_ssl_self_check = true;
  do_flush = false;
  do_provenance = false;
  do_repstosb = is_x86;
  do_freq_sweep = false;
  do_freq_hi_lo = false;
  do_noise = false;
  do_invert_cores = false;
  fixed_min_frequency = pos 0;
  fixed_max_frequency = pos 0;
  do_fvt = can_do_fvt;
  do_fast_string_ops = true;
  seconds_per_freq = pos 300;
  error_limit = 2000;
}

-- The globals that the flags set, and the locals `tid_list` and `timeout`.
pub record Flags : Type 0 where
  pub options : Options
  pub tid_list : List ℤ
  pub timeout : ℤ

-- `stream >> n` for an `int` whose value was `old`: the value, and what is left if it succeeded.
unfoldable pub read_int : List ℕ → ℤ → ℤ × Option (List ℕ)
read_int s old = elim (extract_int s) [
  | eof ↦ (old, none)
  | bad v ↦ (v, none)
  | got v rest ↦ (v, some rest)
]

-- `if (s.peek() == ',') s.ignore();`
unfoldable pub skip_comma : List ℕ → List ℕ
skip_comma [] = []
skip_comma (c ∷ s) = if c == b',' then s else c ∷ s

-- The numbers of `-c`; each takes a character at least, so the length is enough fuel.
unfoldable pub read_tids : ℕ → List ℕ → List ℤ
unfolding skip_comma
read_tids zero s = []
read_tids (suc fuel) s = elim (extract_int s) [
  | eof ↦ []
  | bad v ↦ []
  | got v rest ↦ v ∷ read_tids fuel (skip_comma rest)
]

-- `-f`: a frequency, or two of them with a `-` between.
unfoldable pub read_frequencies : List ℕ → Options → Options
unfolding read_int
read_frequencies s o =
    let (low, left) = read_int s o.fixed_min_frequency in
    let fixed : Options = record o { fixed_min_frequency = low; fixed_max_frequency = low } in
    elim left [
      | none ↦ fixed
      | some rest ↦ elim rest [
        | [] ↦ fixed
        | c ∷ s' ↦
            if c == b'-'
            then record fixed { fixed_max_frequency = (read_int s' low).0; do_freq_sweep = true }
            else fixed
      ]
    ]

-- The letters that take the rest of the argument as a value; `none` for the others.
unfoldable pub valued : Streams → ℕ → List ℕ → Flags → Option Flags
unfolding read_tids read_frequencies read_int
valued st c s fl =
    let o = fl.options in
    if c == b'c'
    then some (record fl { tid_list = fl.tid_list ++ read_tids (length s) s })
    else if c == b'f'
    then some (record fl { options = read_frequencies s o })
    else if c == b'q'
    then some (record fl { options = record o { error_limit = st.read_uintmax s o.error_limit } })
    else if c == b'k'
    then some
        (record fl { options = record o { seconds_per_freq = (read_int s o.seconds_per_freq).0 } })
    else if c == b't'
    then some (record fl { timeout = st.read_int64 s fl.timeout })
    else none

-- The letters that stand alone; `none` is the usage message.
unfoldable pub simple_flag : ℕ → Options → Option Options
simple_flag c o =
    if c == b'a'
    then some (record o { do_misalign = false })
    else if c == b'b'
    then some (record o { do_ssl_self_check = false })
    else if c == b'd'
    then some (record o { do_repstosb = false })
    else if c == b'e'
    then some (record o { do_encrypt = false })
    else if c == b'F'
    then some (record o { do_flush = true })
    else if c == b'g'
    then some (record o { do_fvt = false })
    else if c == b'H'
    then some (record o { do_freq_hi_lo = true })
    else if c == b'h'
    then some (record o { do_hashes = false })
    else if c == b'l'
    then some (record o { do_avx_heavy = false })
    else if c == b'm'
    then some (record o { do_madvise = false })
    else if c == b'n'
    then some (record o { do_noise = true })
    else if c == b'N'
    then some (record o {
      do_noise = true;
      do_invert_cores = true;
      do_encrypt = false;
      do_hashes = false;
      do_compress = false;
      do_madvise = false;
      do_hop = false;
    })
    else if c == b'p'
    then some (record o {
      do_provenance = true;
      do_encrypt = false;
      do_hashes = false;
      do_compress = false;
    })
    else if c == b'r'
    then some (record o { do_repmovsb = false })
    else if c == b's'
    then some (record o { do_hop = false })
    else if c == b'u'
    then some (record o { do_fast_string_ops = false })
    else if c == b'x'
    then some (record o { do_avx_256_memcpy = false })
    else if c == b'X'
    then some (record o { do_avx_512_memcpy = true })
    else if c == b'Y'
    then some (record o { do_freq_sweep = true })
    else if c == b'z'
    then some (record o { do_compress = false })
    else none

-- The first that is there.
abbrev pub or_else : {A : Type 0} → Option A → Option A → Option A
or_else (some a) y = some a
or_else none y = y

abbrev pub and_then : {A B : Type 0} → Option A → (A → Option B) → Option B
and_then none f = none
and_then (some a) f = f a

-- The letters of one argument. `none`: the usage message is shown and the exit status is 2.
unfoldable pub read_letters : Streams → List ℕ → Flags → Option Flags
read_letters st [] fl = some fl
read_letters st (c ∷ s) fl =
    or_else (valued st c s fl)
      (and_then (simple_flag c fl.options) (λ o. read_letters st s (record fl { options = o })))

unfoldable pub read_argument : Streams → List ℕ → Flags → Option Flags
read_argument st [] fl = none
read_argument st (c ∷ s) fl = if c == b'-' then read_letters st s fl else none

unfoldable pub read_arguments : Streams → List (List ℕ) → Flags → Option Flags
read_arguments st [] fl = some fl
read_arguments st (a ∷ rest) fl = and_then (read_argument st a fl) (read_arguments st rest)

-- `std::find` for an index.
unfoldable pub listed : ℕ → List ℤ → Bool
listed i [] = false
listed i (pos n ∷ ts) = let rest = listed i ts in n == i || rest
listed i (negsuc n ∷ ts) = listed i ts

-- The loops from `i` on, with `k` processors left: those that are not listed, and all of them.
unfoldable pub unlisted : List ℤ → ℕ → ℕ → List ℤ
unlisted ts i zero = []
unlisted ts i (suc k) =
    let rest = unlisted ts (i + 1) k in if listed i ts then rest else pos i ∷ rest

unfoldable pub all_from : ℕ → ℕ → List ℤ
all_from i zero = []
all_from i (suc k) = pos i ∷ all_from (i + 1) k

unfoldable pub or_all : ℕ → List ℤ → List ℤ
unfolding all_from
or_all cpus [] = all_from 0 cpus
or_all cpus (t ∷ ts) = t ∷ ts

-- The processors that are tested, of `cpus`.
unfoldable pub tested : ℕ → Flags → List ℤ
unfolding unlisted or_all
tested cpus fl =
    or_all cpus (if fl.options.do_invert_cores then unlisted fl.tid_list 0 cpus else fl.tid_list)

-- `exit(errorCount != 0)`.
unfoldable pub exit_status : ℕ → ℕ
exit_status zero = 0
exit_status (suc n) = 1
