-- ===== src/Compressor/Tests.antt =====
-- The theorem on compressor.cc at a concrete input: a compressor that copies.
use cpu_check.Base.{ℕ, ◌+◌, ◌≡◌, refl, none, List, [], ◌∷◌, replicate, arith}
use cpu_check.Base.Outcome.{done}
use cpu_check.MalignBuffer.{MalignBuffer, IsValid, contents}
use cpu_check.Compressor.{Zlib, compress, decompress}
use cpu_check.Compressor.Laws.{IsFaultless, decompress-compress}

abbrev copier : Zlib
copier = record {
  compress_bound = λ n. n + 13;
  compress2 = λ n xs. (0, 1 ∷ xs);
  uncompress = λ n xs. go xs;
}
  where
    go : List ℕ → ℕ × List ℕ
    go [] = (0, [])
    go (x ∷ xs) = (0, xs)

copier-IsFaultless : IsFaultless copier
copier-IsFaultless = record {
  compresses = λ xs. refl;
  bounded = λ xs. omega arith;
  restores = λ xs n h. refl;
}

abbrev buffer : ℕ → MalignBuffer
buffer byte = record {
  capacity = 40;
  base_address = 4096;
  alignment_offset = 3;
  buffer_length = 20;
  buffer_address = 4099;
  memory = replicate 48 byte;
}

buffer-IsValid : (byte : ℕ) → IsValid 8 (buffer byte)
buffer-IsValid byte = record {
  aligned = omega arith;
  fits = omega arith;
  placed = refl;
  room = omega arith;
}

decompress-compress_example :
    (c : MalignBuffer) × (m' : MalignBuffer) × (compress copier 8 (buffer 5) (buffer 6)
      ≡ done (c, none))
    × (decompress copier 8 c (buffer 7) ≡ done (m', none))
    × IsValid 8 m'
    × (contents m' ≡ contents (buffer 5))
    × (m'.buffer_length ≡ 20)
decompress-compress_example =
    decompress-compress copier 8 (buffer 5) (buffer 6) (buffer 7) copier-IsFaultless
      (buffer-IsValid 5) (buffer-IsValid 6) (buffer-IsValid 7) (omega arith) refl
