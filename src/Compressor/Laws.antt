-- ===== src/Compressor/Laws.antt =====
-- What was compressed is decompressed.
use cpu_check.Base.{ℕ, ◌≡◌, ◌≤◌, refl, sym, ap, ◌∙◌, none, List, length, arith}
use mathlib.Core.Path.{subst}
use cpu_check.Base.Outcome.{done}
use cpu_check.MalignBuffer.{MalignBuffer, IsValid, contents, poke, resize}
use cpu_check.MalignBuffer.Store.{initialized, length-contents}
use cpu_check.MalignBuffer.Raw.{resize-done, poke-IsTrimmed, IsTrimmed}
use cpu_check.Compressor.{Zlib, compress, decompress}

-- What zlib documents: with the room that `compressBound` asks for, `compress2` succeeds within it,
-- and `uncompress` restores the source whenever the destination has room for it.
pub record IsFaultless (z : Zlib) : Type 0 where
  pub compresses : (xs : List ℕ) → (z.compress2 (z.compress_bound (length xs)) xs).0 ≡ 0
  pub bounded :
      (xs : List ℕ)
      → length (z.compress2 (z.compress_bound (length xs)) xs).1 ≤ z.compress_bound (length xs)
  pub restores :
      (xs : List ℕ) (n : ℕ)
      → length xs ≤ n
      → z.uncompress n (z.compress2 (z.compress_bound (length xs)) xs).1 ≡ (0, xs)

-- What `compress2` makes of some bytes.
abbrev pub deflated : Zlib → List ℕ → List ℕ
deflated z xs = (z.compress2 (z.compress_bound (length xs)) xs).1

pub compress_lem :
    (z : Zlib) (page : ℕ) (m dest : MalignBuffer)
    → IsFaultless z
    → IsValid page m
    → IsValid page dest
    → z.compress_bound m.buffer_length ≤ dest.capacity
    → (c : MalignBuffer) × (compress z page m dest ≡ done (c, none))
      × IsValid page c
      × (contents c ≡ deflated z (contents m))
      × (c.buffer_length ≤ z.compress_bound m.buffer_length)
      × (c.capacity ≡ dest.capacity)
unfolding compress
compress_lem z page m dest works v w room = (
  c.trimmed,
  rw (r.0, first, ok) (rw c.then_returns refl),
  c.valid,
  c.holds ∙ same,
  omega (arith, c.size, most),
  c.capacity,
)
  where
    len : length (contents m) ≡ m.buffer_length
    len = length-contents m v

    bound : ℕ
    bound = z.compress_bound m.buffer_length

    out : List ℕ
    out = (z.compress2 bound (contents m)).1

    same : out ≡ deflated z (contents m)
    same = ap (λ n. (z.compress2 (z.compress_bound n) (contents m)).1) (sym len)

    ok : (z.compress2 bound (contents m)).0 ≡ 0
    ok =
        ap (λ n. (z.compress2 (z.compress_bound n) (contents m)).0) (sym len)
        ∙ works.compresses (contents m)

    most : length out ≤ bound
    most =
        subst (λ n. length (z.compress2 (z.compress_bound n) (contents m)).1 ≤ z.compress_bound n)
          len (works.bounded (contents m))

    r :
        (resize page bound dest ≡ done (initialized dest.alignment_offset bound dest))
        × IsValid page (initialized dest.alignment_offset bound dest)
    r = resize-done page bound dest w room

    c : IsTrimmed page out (initialized dest.alignment_offset bound dest)
    c = poke-IsTrimmed page out (initialized dest.alignment_offset bound dest) r.1 most

    first : poke 0 out (initialized dest.alignment_offset bound dest) ≡ done c.stored
    first = c.first_returns

pub decompress_lem :
    (z : Zlib) (page : ℕ) (xs : List ℕ) (source target : MalignBuffer)
    → IsFaultless z
    → IsValid page target
    → contents source ≡ deflated z xs
    → target.buffer_length ≡ length xs
    → (t : MalignBuffer) × (decompress z page source target ≡ done (t, none))
      × IsValid page t
      × (contents t ≡ xs)
      × (t.buffer_length ≡ length xs)
      × (t.capacity ≡ target.capacity)
unfolding decompress
decompress_lem z page xs source target works u same size = (
  d.trimmed,
  rw (same, back, d.first_returns) (rw d.then_returns refl),
  d.valid,
  d.holds,
  d.size,
  d.capacity,
)
  where
    back : z.uncompress target.buffer_length (deflated z xs) ≡ (0, xs)
    back = works.restores xs target.buffer_length (omega (arith, size))

    d : IsTrimmed page xs target
    d = poke-IsTrimmed page xs target u (omega (arith, size))

-- Compressing an initialized buffer into a second one, whose capacity reaches the compression bound,
-- succeeds when zlib works as documented; decompressing the result into any third one of the size of
-- the first succeeds too, and gives back the contents and the size of the first.
pub decompress-compress :
    (z : Zlib) (page : ℕ) (m dest target : MalignBuffer)
    → IsFaultless z
    → IsValid page m
    → IsValid page dest
    → IsValid page target
    → z.compress_bound m.buffer_length ≤ dest.capacity
    → target.buffer_length ≡ m.buffer_length
    → (c : MalignBuffer) × (m' : MalignBuffer) × (compress z page m dest ≡ done (c, none))
      × (decompress z page c target ≡ done (m', none))
      × IsValid page m'
      × (contents m' ≡ contents m)
      × (m'.buffer_length ≡ m.buffer_length)
decompress-compress z page m dest target works v w u room size =
    let (c, packs, _, holds, _, _) = compress_lem z page m dest works v w room in
    let len = length-contents m v in
    let (t, unpacks, valid, same, long, _) =
      decompress_lem z page (contents m) c target works u holds (size ∙ sym len) in
    (c, t, packs, unpacks, valid, same, long ∙ len)
