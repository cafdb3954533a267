-- ===== src/Compressor.antt =====
-- compressor.h and compressor.cc: a buffer compressed into another and back. zlib is a parameter.
pub mod Laws
mod Tests
use cpu_check.Base.{ℕ, ◌≡◌, Option, none, some, List, length, ◌==◌, if◌then◌else◌}
use cpu_check.Base.Outcome.{Outcome, done, ◌>>=◌}
use cpu_check.MalignBuffer.{MalignBuffer, contents, poke, resize}

-- `compress2` and `uncompress` take the room at the destination and the source. They return the
-- error, 0 for `Z_OK`, and the bytes that they stored, as many as they say in `olen`.
pub record Zlib : Type 0 where
  pub compress_bound : ℕ → ℕ
  pub compress2 : ℕ → List ℕ → ℕ × List ℕ
  pub uncompress : ℕ → List ℕ → ℕ × List ℕ

-- The numbers in the status: the error, `srcLen` and `destLen`.
pub data ZlibError : Type 0 where
  compression decompression : ℕ → ℕ → ℕ → ZlibError

-- `Compress`; `none` is `OkStatus`.
unfoldable pub compress :
    Zlib → ℕ → MalignBuffer → MalignBuffer → Outcome (MalignBuffer × Option ZlibError)
compress z page m compressed =
    let olen = z.compress_bound m.buffer_length in
    let (err, out) = z.compress2 olen (contents m) in
    resize page olen compressed >>= λ dest. poke 0 out dest >>= λ dest'.
    if err == 0
    then (resize page (length out) dest' >>= λ dest''. done (dest'', none))
    else done (dest', some (compression err m.buffer_length (length out)))

-- `Decompress`.
unfoldable pub decompress :
    Zlib → ℕ → MalignBuffer → MalignBuffer → Outcome (MalignBuffer × Option ZlibError)
decompress z page compressed m =
    let (err, out) = z.uncompress m.buffer_length (contents compressed) in
    poke 0 out m >>= λ m'.
    if err == 0
    then (resize page (length out) m' >>= λ m''. done (m'', none))
    else done (m', some (decompression err compressed.buffer_length (length out)))
