-- ===== src/MalignBuffer/Store.antt =====
-- The operations that store into a buffer, seen in its contents.
use cpu_check.Base.{
  ℕ, ◌+◌, ◌-◌, ◌/◌, ◌≤◌, ◌<◌, ◌≡◌, refl, ap, ◌∙◌, ◌⊎◌, ◌≢◌, Bool-cases, Option-cases, ◌%◌, inl, inr,
  Bool, List, Option, some, none, arith, length, write, replicate, length-replicate, length-slice,
  length-write, slice-write, write_all, ltb, leb, ◌==◌,
}
use cpu_check.Base.Outcome.{Outcome, done, fatal}
use native.Mathlib.Nat.{mod-lt, div-add-mod, mul-mod_left}
use cpu_check.MalignBuffer.{
  CopyMethod, MalignBuffer, IsValid, contents, offset, copy_at, copy_string, memset, initialize,
  new_malign_buffer, round_up_to_page_size,
}
use cpu_check.MalignBuffer.Copy.{copy_bytes-eq-write, fill_bytes-eq-write}

-- `result` is a normal return of `b` with the bytes `ys` stored from position `pos` of its contents
-- and nothing else changed.
pub record IsStored (page : ℕ) (b : MalignBuffer) (pos : ℕ) (ys : List ℕ)
    (result : Outcome MalignBuffer) : Type 0 where
  pub after : MalignBuffer
  pub returns : result ≡ done after
  pub only_memory : after ≡ record b { memory = write b.memory (offset b + pos) ys }
  pub stored : contents after ≡ write (contents b) pos ys
  pub valid : IsValid page after

pub offset-IsValid : {page : ℕ} (b : MalignBuffer) → IsValid page b → offset b ≡ b.alignment_offset
offset-IsValid b v = omega (arith, v.placed)

pub length-contents :
    {page : ℕ} (b : MalignBuffer) → IsValid page b → length (contents b) ≡ b.buffer_length
length-contents b v =
    length-slice b.memory (offset b) b.buffer_length
      (omega (arith, v.aligned, v.fits, v.room, v.placed))

pub store-IsStored :
    (page : ℕ) (b : MalignBuffer) (pos : ℕ) (ys : List ℕ) (result : Outcome MalignBuffer)
    → IsValid page b
    → pos + length ys ≤ b.buffer_length
    → result ≡ done (record b { memory = write b.memory (offset b + pos) ys })
    → IsStored page b pos ys result
store-IsStored page b pos ys result v h e = record {
  after = record b { memory = write b.memory (offset b + pos) ys };
  returns = e;
  only_memory = refl;
  stored = slice-write b.memory (offset b) pos (offset b + pos) ys b.buffer_length refl h;
  valid = record {
    aligned = v.aligned;
    fits = v.fits;
    placed = v.placed;
    room = omega (arith, v.room, length-write b.memory (offset b + pos) ys);
  };
}

-- On an initialized buffer a copy of bytes that fit returns, by any method, and stores exactly them.
pub copy_at-IsStored :
    (page : ℕ) (b : MalignBuffer) (pos : ℕ) (src : List ℕ) (m : CopyMethod)
    → IsValid page b
    → pos + length src ≤ b.buffer_length
    → IsStored page b pos src (copy_at pos src m b)
copy_at-IsStored page b pos src m v h =
    store-IsStored page b pos src (copy_at pos src m b) v h
      (unfold copy_at in ground (arith, copy_bytes-eq-write m b.memory (offset b + pos) src))

-- A `Memset` of a range of an initialized buffer returns, by either method, and stores `n` times the
-- byte.
pub memset-IsStored :
    (page : ℕ) (b : MalignBuffer) (pos byte n : ℕ) (use_rep_stos : Bool)
    → IsValid page b
    → pos + n ≤ b.buffer_length
    → IsStored page b pos (replicate n byte) (memset pos byte n use_rep_stos b)
memset-IsStored page b pos byte n r v h =
    store-IsStored page b pos (replicate n byte) _ v (omega (arith, length-replicate n byte))
      (unfold memset in ground (arith, fill_bytes-eq-write r b.memory (offset b + pos) byte n))

-- The buffer that `Initialize` returns.
abbrev pub initialized : ℕ → ℕ → MalignBuffer → MalignBuffer
initialized align len b = record b {
  alignment_offset = align;
  buffer_length = len;
  buffer_address = b.base_address + align;
}

-- `Initialize` aborts exactly when the length exceeds the capacity or the alignment is not below the
-- page size; otherwise the buffer has the size and the alignment that were asked for, and the bytes
-- of `data()` lie within its allocation.
pub initialize_lem :
    (page align len : ℕ) (b : MalignBuffer)
    → b.capacity + page ≤ length b.memory
    → (((b.capacity < len) ⊎ (page ≤ align)) × (initialize page align len b ≡ fatal))
      ⊎ ((initialize page align len b ≡ done (initialized align len b))
          × IsValid page (initialized align len b)
          × (length (contents (initialized align len b)) ≡ len))
unfolding initialize
initialize_lem page align len b room = elim (Bool-cases (ltb b.capacity len)) [
  | inl long ↦ inl (inl (ground arith), rw long)
  | inr fits ↦ elim (Bool-cases (leb page align)) [
    | inl far ↦ inl (inr (ground arith), rw (fits, far))
    | inr near ↦
        let valid : IsValid page (initialized align len b) = record {
          aligned = ground arith;
          fits = ground arith;
          placed = refl;
          room = room;
        } in
        inr (rw (fits, near), valid, length-contents (initialized align len b) valid)
  ]
]

pub initialize-done :
    (page align len : ℕ) (b : MalignBuffer)
    → len ≤ b.capacity
    → align < page
    → initialize page align len b ≡ done (initialized align len b)
unfolding initialize
initialize-done page align len b h g = ground arith

-- A copy into a buffer of another size aborts; into one of the same size it makes the contents the
-- source, by any method.
pub copy_string_lem :
    (page : ℕ) (b : MalignBuffer) (src : List ℕ) (m : CopyMethod)
    → IsValid page b
    → ((b.buffer_length ≢ length src) × (copy_string src m b ≡ fatal))
      ⊎ ((b' : MalignBuffer) × (copy_string src m b ≡ done b')
          × (contents b' ≡ src)
          × IsValid page b'
          × (b'.buffer_length ≡ b.buffer_length)
          × (b'.capacity ≡ b.capacity))
unfolding copy_string
copy_string_lem page b src m v = elim (Bool-cases (b.buffer_length == length src)) [
  | inr differs ↦ inl (ground arith, rw differs)
  | inl same ↦
      let s = copy_at-IsStored page b 0 src m v (ground arith) in
      inr (
        s.after,
        rw same s.returns,
        s.stored ∙ write_all (contents b) src (ground (arith, length-contents b v)),
        s.valid,
        ap (λ (c : MalignBuffer). c.buffer_length) s.only_memory,
        ap (λ (c : MalignBuffer). c.capacity) s.only_memory,
      )
]

-- The rounded size is the least multiple of the page size that holds `k` bytes.
pub round_up_to_page_size_lem :
    (page k : ℕ)
    → 0 < page
    → (round_up_to_page_size page k % page ≡ 0)
      × (k ≤ round_up_to_page_size page k)
      × (round_up_to_page_size page k < k + page)
unfolding round_up_to_page_size
round_up_to_page_size_lem page k pos =
    let m = mod-lt (k + page - 1) {m = page} pos in
    let d = div-add-mod (k + page - 1) page in
    (mul-mod_left ((k + page - 1) / page) page, omega (arith, m, d), omega (arith, m, d))

made_facts :
    (allocate : ℕ → Option (ℕ × List ℕ)) (page capacity : ℕ) (b : MalignBuffer)
    → ((n : ℕ) (r : ℕ × List ℕ) → allocate n ≡ some r → length r.1 ≡ n)
    → new_malign_buffer allocate page capacity ≡ done b
    → (b.capacity ≡ capacity) × (length b.memory ≡ round_up_to_page_size page capacity + page)
unfolding new_malign_buffer
made_facts allocate page capacity b sized made =
    go (Option-cases (allocate (round_up_to_page_size page capacity + page)))
  where
    go :
        (allocate (round_up_to_page_size page capacity + page) ≡ none)
          ⊎ ((r : ℕ × List ℕ) × (allocate (round_up_to_page_size page capacity + page) ≡ some r))
        → (b.capacity ≡ capacity) × (length b.memory ≡ round_up_to_page_size page capacity + page)
    go (inl e) = ground arith
    go (inr ((address, mem), e)) =
        ground (arith, sized (round_up_to_page_size page capacity + page) (address, mem))

-- A new buffer, once initialized within its capacity, is valid: `aligned_alloc` gave a whole page
-- more than the capacity, so that every alignment fits.
pub new_malign_buffer_lem :
    (allocate : ℕ → Option (ℕ × List ℕ)) (page capacity : ℕ) {b : MalignBuffer}
    → 0 < page
    → ((n : ℕ) (r : ℕ × List ℕ) → allocate n ≡ some r → length r.1 ≡ n)
    → new_malign_buffer allocate page capacity ≡ done b
    → (align len : ℕ) → align < page
    → len ≤ capacity
    → (initialize page align len b ≡ done (initialized align len b))
      × IsValid page (initialized align len b)
new_malign_buffer_lem allocate page capacity {b} pos sized made align len h g =
    let (cap, size) = made_facts allocate page capacity b sized made in
    let (_, room, _) = round_up_to_page_size_lem page capacity pos in
    (
      initialize-done page align len b (omega arith) h,
      record { aligned = h; fits = omega arith; placed = refl; room = omega arith },
    )
