-- ===== src/MalignBuffer/Copy.antt =====
-- The ways of copying and filling agree.
use cpu_check.Base.{
  ℕ, zero, suc, ◌+◌, ◌*◌, ◌/◌, ◌≤◌, ◌≡◌, refl, sym, ap, ◌∙◌, Bool, true, false, List, [], ◌∷◌,
  arith, length, slice, take, drop, write, replicate, write-append, write-nil, take-add,
  take-append-drop, length-take,
}
use native.Mathlib.Nat.{div-mul-le_self}
use cpu_check.MalignBuffer.{
  CopyMethod, k_memcpy, k_rep_mov, k_sse_by128, k_avx_by256, k_avx_by512, movsb, copy_blocks,
  vector_memcpy, copy_bytes, stosb, fill_bytes,
}

movsb-eq-write : (mem : List ℕ) (dst : ℕ) (src : List ℕ) → movsb mem dst src ≡ write mem dst src
unfolding movsb
movsb-eq-write mem dst [] = sym (write-nil mem dst)
movsb-eq-write mem dst (x ∷ src) =
    movsb-eq-write (write mem dst (x ∷ [])) (dst + 1) src
    ∙ write-append mem dst (dst + 1) (x ∷ []) src (omega arith)

-- After `i` blocks the first `i * width` bytes stand at the destination.
copy_blocks_lem :
    (width n i : ℕ) (mem : List ℕ) (dst : ℕ) (src : List ℕ)
    → (i + n) * width ≤ length src
    → copy_blocks width n i (write mem dst (take (i * width) src)) dst src
      ≡ write mem dst (take ((i + n) * width) src)
unfolding copy_blocks
copy_blocks_lem width zero i mem dst src h =
    let e : i * width ≡ (i + 0) * width = omega arith in ap (λ k. write mem dst (take k src)) e
copy_blocks_lem width (suc n) i mem dst src h =
    ap (λ m. copy_blocks width n (i + 1) m dst src) stored
    ∙ copy_blocks_lem width n (i + 1) mem dst src (omega arith)
    ∙ ap (λ k. write mem dst (take (k * width) src)) count
  where
    count : i + 1 + n ≡ i + suc n
    count = omega arith

    stored :
        write (write mem dst (take (i * width) src)) (dst + i * width) (slice src (i * width) width)
        ≡ write mem dst (take ((i + 1) * width) src)
    stored =
        write-append mem dst (dst + i * width) (take (i * width) src) (slice src (i * width) width)
          (omega (arith, length-take (i * width) src))
        ∙ ap (write mem dst) (take-add (i * width) width src ∙ ap (λ k. take k src) (omega arith))

vector_memcpy-eq-write :
    (width : ℕ) (mem : List ℕ) (dst : ℕ) (src : List ℕ)
    → vector_memcpy width mem dst src ≡ write mem dst src
unfolding vector_memcpy
vector_memcpy-eq-write width mem dst src =
    ap (λ m. write m (dst + blks * width) (drop (blks * width) src)) blocks
    ∙ write-append mem dst (dst + blks * width) (take (blks * width) src) (drop (blks * width) src)
        (omega (arith, length-take (blks * width) src, whole))
    ∙ ap (write mem dst) (take-append-drop (blks * width) src)
  where
    blks : ℕ
    blks = length src / width

    whole : blks * width ≤ length src
    whole = div-mul-le_self (length src) width

    blocks : copy_blocks width blks 0 mem dst src ≡ write mem dst (take (blks * width) src)
    blocks =
        ap (λ m. copy_blocks width blks 0 m dst src) (sym start)
        ∙ copy_blocks_lem width blks 0 mem dst src (omega (arith, whole))
        ∙ ap (λ k. write mem dst (take (k * width) src)) (omega arith)
      where
        start : write mem dst (take (0 * width) src) ≡ mem
        start =
            let e : 0 * width ≡ 0 = omega arith in
            ap (λ k. write mem dst (take k src)) e ∙ write-nil mem dst

stosb-eq-write : (mem : List ℕ) (dst v n : ℕ) → stosb mem dst v n ≡ write mem dst (replicate n v)
unfolding stosb
stosb-eq-write mem dst v zero = sym (write-nil mem dst)
stosb-eq-write mem dst v (suc n) =
    stosb-eq-write (write mem dst (v ∷ [])) (dst + 1) v n
    ∙ write-append mem dst (dst + 1) (v ∷ []) (replicate n v) (omega arith)

-- Every way of copying leaves in memory what `memcpy` would: the byte-wise `rep movsb`, and the
-- vector copies with their blocks and the remainder, whatever the length.
pub copy_bytes-eq-write :
    (m : CopyMethod) (mem : List ℕ) (dst : ℕ) (src : List ℕ)
    → copy_bytes m mem dst src ≡ write mem dst src
unfolding copy_bytes
copy_bytes-eq-write k_memcpy mem dst src = refl
copy_bytes-eq-write k_rep_mov mem dst src = movsb-eq-write mem dst src
copy_bytes-eq-write k_sse_by128 mem dst src = vector_memcpy-eq-write 16 mem dst src
copy_bytes-eq-write k_avx_by256 mem dst src = vector_memcpy-eq-write 32 mem dst src
copy_bytes-eq-write k_avx_by512 mem dst src = vector_memcpy-eq-write 64 mem dst src

-- `rep stosb` and `memset` leave the same memory.
pub fill_bytes-eq-write :
    (use_rep_stos : Bool) (mem : List ℕ) (dst v n : ℕ)
    → fill_bytes use_rep_stos mem dst v n ≡ write mem dst (replicate n v)
unfolding fill_bytes
fill_bytes-eq-write true mem dst v n = stosb-eq-write mem dst v n
fill_bytes-eq-write false mem dst v n = refl
