-- ===== src/Worker/Example.antt =====
-- A machine without faults, on which copies stand for compression and encryption, with data of a round.
use cpu_check.Avx.Tests.{integer_unit, integer_unit-IsLanewise}
use cpu_check.Base.{
  ℕ, ◌+◌, ◌-◌, ◌*◌, ◌/◌, ◌%◌, ◌≡◌, refl, true, false, length, none, some, List, [], ◌∷◌, ◌==◌,
  length-replicate, replicate, arith, if◌then◌else◌,
}
use native.Mathlib.Nat.{mod-lt}
use cpu_check.Base.Int.{pos}
use cpu_check.Base.Rng.{Rng, IsUniform}
use cpu_check.Compressor.{Zlib}
use cpu_check.Compressor.Laws as ZlibLaws
use cpu_check.Crc32c.Dispatch.{start}
use cpu_check.Crypto.{Evp, self_test}
use cpu_check.Crypto.Laws as EvpLaws
use cpu_check.Hasher.{md5}
use cpu_check.MalignBuffer.{MalignBuffer, IsValid, k_rep_mov}
use cpu_check.PatternGenerator.{Env, random}
use cpu_check.PatternGenerator.Chaos.{Number, FloatingPointResults, same_results}
use cpu_check.Silkscreen.{Silkscreen}
use cpu_check.Silkscreen.Build
use cpu_check.Worker.{
  Context, Choices, World, Shared, BufferSet, at_original, at_compressed, at_encrypted, at_copied,
  at_decrypted, at_decompressed, at_re_made,
}
use cpu_check.Worker.Faultless.{IsFaultless, IsBufferSet, k_capacity, Holds}
use cpu_check.Worker.Run.{new_buffer_set}

abbrev pub counter : Rng
counter = record { S = ℕ; seed = λ n. n; draw = λ lo hi s. (lo + s % (hi - lo + 1), s + 1) }

pub counter-IsUniform : IsUniform counter
counter-IsUniform = record {
  above = λ lo hi s h. omega arith;
  below = λ lo hi s h. omega (arith, mod-lt s {m = hi - lo + 1});
}

-- Arithmetic on natural numbers in place of floating point.
abbrev pub whole : Number
whole = record {
  T = ℕ;
  Wide = ℕ;
  widen = λ v. v;
  narrow = λ v. v;
  of_ℕ = λ n. n;
  literal = λ n d. n / d;
  add = ◌+◌;
  sub = ◌-◌;
  mul = ◌*◌;
  div = ◌/◌;
  eq = ◌==◌;
}

abbrev pub env : Env
env = record {
  rng = counter;
  exponential = λ n s. (s % (n + 1), s + 1);
  pid = 4242;
  floats = record { float = whole; double = whole; long_double = whole };
  words = (97 ∷ []) ∷ (98 ∷ 99 ∷ []) ∷ [];
}

abbrev pub zlib_copier : Zlib
zlib_copier = record {
  compress_bound = λ n. n + 13;
  compress2 = λ n xs. (0, 1 ∷ xs);
  uncompress = λ n xs. go xs;
}
  where
    go : List ℕ → ℕ × List ℕ
    go [] = (0, [])
    go (x ∷ xs) = (0, xs)

pub zlib_copier-IsFaultless : ZlibLaws.IsFaultless zlib_copier
zlib_copier-IsFaultless = record {
  compresses = λ xs. refl;
  bounded = λ xs. omega arith;
  restores = λ xs n h. refl;
}

abbrev pub evp_copier : Evp
evp_copier = record {
  Ctx = List ℕ;
  init = λ key i_vec encrypting. [];
  update = λ ctx xs. (true, xs, ctx);
  final = λ ctx. (true, [], ctx);
  get_tag = λ ctx. (true, replicate 16 0);
  set_tag = λ ctx tag. (true, ctx);
}

pub evp_copier-IsFaultless : EvpLaws.IsFaultless evp_copier
evp_copier-IsFaultless = record {
  seals = λ i_vec xs. refl;
  as_long = λ i_vec xs. refl;
  seal_ends = λ i_vec xs. refl;
  seal_adds = λ i_vec xs. refl;
  tags = λ i_vec xs. refl;
  sets = λ i_vec tag. refl;
  opens = λ i_vec xs. refl;
  restores = λ i_vec xs. refl;
  open_ends = λ i_vec xs. refl;
  open_adds = λ i_vec xs. refl;
}

unfoldable pub zeros : ℕ → List ℕ
zeros n = replicate n 0

pub length-zeros : (n : ℕ) → length (zeros n) ≡ n
unfolding zeros
length-zeros n = length-replicate {A = ℕ} n 0

abbrev pub ctx : Context
ctx = record {
  env = env;
  options = record {
    do_madvise = true;
    do_repmovsb = true;
    do_sse_128_memcpy = true;
    do_avx_256_memcpy = true;
    do_avx_512_memcpy = false;
    do_avx_heavy = true;
    do_hop = true;
    do_ssl_self_check = true;
    do_provenance = false;
    do_repstosb = true;
    do_freq_sweep = false;
    do_freq_hi_lo = false;
    do_noise = false;
    do_invert_cores = false;
    fixed_min_frequency = pos 0;
    fixed_max_frequency = pos 0;
    do_fvt = false;
    do_fast_string_ops = true;
    seconds_per_freq = pos 300;
    error_limit = 1000;
    do_compress = true;
    do_encrypt = true;
    do_hashes = true;
    do_misalign = true;
    do_flush = true;
  };
  avx_unit = integer_unit;
  boringssl = some 1;
  zlib = zlib_copier;
  evp = evp_copier;
  hashes = record {
    evp_md5 = λ xs. xs;
    evp_sha1 = λ xs. xs;
    evp_sha256 = λ xs. xs;
    evp_sha512 = λ xs. xs;
    zlib_adler32 = λ xs. 1;
    zlib_crc32 = λ xs. 1;
    farmhash64 = λ xs. 1;
    machine = record {
      crc32c_force = none;
      has_hw_crc = false;
      unit = record {
        crc32_u8 = λ h v. h;
        crc32_u16 = λ h v. h;
        crc32_u32 = λ h v. h;
        crc32_u64 = λ h v. h;
      };
    };
    dispatch = start;
  };
  page = 8;
  line = 64;
  allocate = λ n. some (4096, zeros n);
  dropped = λ mem start n. mem;
  shuffle = λ xs s. (xs, s + 1);
  hardware_concurrency = 2;
  tid_list = 1 ∷ 2 ∷ [];
  tid = 1;
  t_stop = some 90;
}

pub ctx_self_tests : self_test ctx.boringssl ≡ none
unfolding self_test
ctx_self_tests = refl

pub ctx_comparable : (fp : FloatingPointResults env.floats) → same_results env.floats fp fp ≡ true
unfolding same_results
ctx_comparable fp = ground arith

pub ctx-IsFaultless : IsFaultless ctx
ctx-IsFaultless = record {
  uniform = counter-IsUniform;
  pages = omega arith;
  allocates = λ n. ((4096, zeros n), refl, length-zeros n);
  drops = λ mem start n. refl;
  vectors = integer_unit-IsLanewise;
  self_tests = ctx_self_tests;
  zlib = zlib_copier-IsFaultless;
  small = λ n h. omega arith;
  evp = evp_copier-IsFaultless;
  comparable = ctx_comparable;
}

abbrev pub choices : Choices
choices = record {
  madvise = true;
  how = record { copy_method = k_rep_mov; use_repstos = true; exercise_floating_point = true };
  pattern_generator = random;
  hasher = md5;
  buf_size = 20;
  hole = record { start = 4; hole_length = 2; v = 0x53 };
}

-- An original of 20 bytes, and null pointers.
abbrev pub blank : MalignBuffer
blank = record {
  capacity = k_capacity;
  base_address = 4096;
  alignment_offset = 3;
  buffer_length = 20;
  buffer_address = 4099;
  memory = zeros (k_capacity + 8);
}

pub blank-IsValid : IsValid 8 blank
blank-IsValid = record {
  aligned = omega arith;
  fits = omega arith;
  placed = refl;
  room = omega (arith, length-zeros (k_capacity + 8));
}

abbrev pub buffers : BufferSet
buffers = record new_buffer_set { original = some blank }

pub buffers-IsBufferSet : IsBufferSet 8 buffers
buffers-IsBufferSet at_original = (refl, blank-IsValid.room)
buffers-IsBufferSet at_compressed = tt
buffers-IsBufferSet at_encrypted = tt
buffers-IsBufferSet at_copied = tt
buffers-IsBufferSet at_decrypted = tt
buffers-IsBufferSet at_decompressed = tt
buffers-IsBufferSet at_re_made = tt

abbrev pub silkscreen : Silkscreen
silkscreen = record {
  owner = 1 ∷ 2 ∷ [];
  slot_count = λ t. if t == 1 then some 1 else if t == 2 then some 1 else none;
  buffer = 0 ∷ 0 ∷ [];
}

pub silkscreen-IsValid : Build.IsValid silkscreen
silkscreen-IsValid = record { counted = λ t. unfold Build.owned in ground arith; sized = refl }

abbrev pub shared : Shared
shared = record {
  silkscreen = silkscreen;
  error_count = 0;
  success_count = 5;
  stopped = false;
  suspects = [];
}

abbrev pub world : World ctx
world = record {
  rndeng = 3;
  avx = record { level = 0; engine = 4 };
  round = 6;
  buffers = buffers;
  shared = shared;
}

pub world-Holds : Holds shared 6 world
world-Holds = record { same_shared = refl; same_round = refl; ready = buffers-IsBufferSet }
