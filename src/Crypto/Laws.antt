-- ===== src/Crypto/Laws.antt =====
-- What was encrypted is decrypted.
use cpu_check.Base.{
  ℕ, ◌≡◌, sym, ap, ◌∙◌, Bool, true, false, none, List, [], length, arith, write-nil, write_all,
}
use cpu_check.Base.Outcome.{done, ok}
use cpu_check.MalignBuffer.{MalignBuffer, IsValid, contents, poke}
use cpu_check.MalignBuffer.Store.{IsStored, length-contents}
use cpu_check.MalignBuffer.Raw.{poke-IsStored}
use cpu_check.Crypto.{Evp, CryptoPurse, key, i_vec_of, encrypt, decrypt}

-- The cipher text and the tag of a message.
abbrev pub sealed : (e : Evp) → List ℕ → List ℕ → Bool × List ℕ × e.Ctx
sealed e i_vec xs = e.update (e.init key i_vec true) xs

abbrev pub tag_of : (e : Evp) → List ℕ → List ℕ → Bool × List ℕ
tag_of e i_vec xs = e.get_tag (e.final (sealed e i_vec xs).2).2

-- The context that has the tag of a message, and reads its cipher text.
abbrev pub opened : (e : Evp) → List ℕ → List ℕ → Bool × List ℕ × e.Ctx
opened e i_vec xs =
    e.update (e.set_tag (e.init key i_vec false) (tag_of e i_vec xs).1).1 (sealed e i_vec xs).1

-- What OpenSSL documents of GCM: every call succeeds, the cipher text is as long as the message, the
-- last call stores nothing, and with the tag of the message its cipher text is read back.
pub record IsFaultless (e : Evp) : Type 0 where
  pub seals : (i_vec xs : List ℕ) → (sealed e i_vec xs).0 ≡ true
  pub as_long : (i_vec xs : List ℕ) → length (sealed e i_vec xs).1 ≡ length xs
  pub seal_ends : (i_vec xs : List ℕ) → (e.final (sealed e i_vec xs).2).0 ≡ true
  pub seal_adds : (i_vec xs : List ℕ) → (e.final (sealed e i_vec xs).2).1 ≡ []
  pub tags : (i_vec xs : List ℕ) → (tag_of e i_vec xs).0 ≡ true
  pub sets : (i_vec tag : List ℕ) → (e.set_tag (e.init key i_vec false) tag).0 ≡ true
  pub opens : (i_vec xs : List ℕ) → (opened e i_vec xs).0 ≡ true
  pub restores : (i_vec xs : List ℕ) → (opened e i_vec xs).1 ≡ xs
  pub open_ends : (i_vec xs : List ℕ) → (e.final (opened e i_vec xs).2).0 ≡ true
  pub open_adds : (i_vec xs : List ℕ) → (e.final (opened e i_vec xs).2).1 ≡ []

abbrev pub purse_of : Evp → MalignBuffer → CryptoPurse
purse_of e m = record { i_vec = i_vec_of m; gmac_tag = (tag_of e (i_vec_of m) (contents m)).1 }

pub encrypt_lem :
    (e : Evp) (page : ℕ) (m cipher : MalignBuffer)
    → IsFaultless e
    → IsValid page m
    → IsValid page cipher
    → cipher.buffer_length ≡ m.buffer_length
    → (c : MalignBuffer) × (encrypt e m cipher ≡ done (c, ok (purse_of e m)))
      × IsValid page c
      × (contents c ≡ (sealed e (i_vec_of m) (contents m)).1)
      × (c.buffer_length ≡ m.buffer_length)
      × (c.capacity ≡ cipher.capacity)
unfolding encrypt
encrypt_lem e page m cipher works v w size = (
  s.after,
  rw s.returns (
      rw (works.seals iv xs, works.seal_ends iv xs, works.seal_adds iv xs, works.tags iv xs)
        (ground (arith, size, long))),
  s.valid,
  s.stored ∙ write_all (contents cipher) out (omega (arith, long, size, length-contents cipher w)),
  ap (λ (b : MalignBuffer). b.buffer_length) s.only_memory ∙ size,
  ap (λ (b : MalignBuffer). b.capacity) s.only_memory,
)
  where
    iv : List ℕ
    iv = i_vec_of m

    xs : List ℕ
    xs = contents m

    out : List ℕ
    out = (sealed e iv xs).1

    long : length out ≡ m.buffer_length
    long = works.as_long iv xs ∙ length-contents m v

    s : IsStored page cipher 0 out (poke 0 out cipher)
    s = poke-IsStored page cipher 0 out w (omega (arith, long, size))

pub decrypt_lem :
    (e : Evp) (page : ℕ) (iv xs : List ℕ) (source target : MalignBuffer)
    → IsFaultless e
    → IsValid page target
    → contents source ≡ (sealed e iv xs).1
    → target.buffer_length ≡ length xs
    → let purse : CryptoPurse = record { i_vec = iv; gmac_tag = (tag_of e iv xs).1 } in
      (t : MalignBuffer) × (decrypt e source purse target ≡ done (t, none))
      × IsValid page t
      × (contents t ≡ xs)
      × (t.buffer_length ≡ length xs)
      × (t.capacity ≡ target.capacity)
unfolding decrypt
decrypt_lem e page iv xs source target works u same size = (
  t.after,
  rw
      (
        works.sets iv (tag_of e iv xs).1,
        same,
        works.opens iv xs,
        works.restores iv xs,
        s.returns,
        works.open_ends iv xs,
        works.open_adds iv xs,
      )
      (rw t.returns (ground (arith, size))),
  t.valid,
  t.stored
      ∙ write-nil (contents s.after) (length xs)
      ∙ s.stored
      ∙ write_all (contents target) xs (omega (arith, size, length-contents target u)),
  ap (λ (b : MalignBuffer). b.buffer_length) t.only_memory
      ∙ ap (λ (b : MalignBuffer). b.buffer_length) s.only_memory
      ∙ size,
  ap (λ (b : MalignBuffer). b.capacity) t.only_memory
      ∙ ap (λ (b : MalignBuffer). b.capacity) s.only_memory,
)
  where
    s : IsStored page target 0 xs (poke 0 xs target)
    s = poke-IsStored page target 0 xs u (omega (arith, size))

    t : IsStored page s.after (length xs) [] (poke (length xs) [] s.after)
    t =
        poke-IsStored page s.after (length xs) [] s.valid
          (omega (arith, size, ap (λ (b : MalignBuffer). b.buffer_length) s.only_memory))

-- Encrypting an initialized buffer into another of its size succeeds when the cipher works as
-- documented; decrypting the result with the purse into any third one of the size succeeds too, and
-- gives back the contents and the size.
pub decrypt-encrypt :
    (e : Evp) (page : ℕ) (m cipher target : MalignBuffer)
    → IsFaultless e
    → IsValid page m
    → IsValid page cipher
    → IsValid page target
    → cipher.buffer_length ≡ m.buffer_length
    → target.buffer_length ≡ m.buffer_length
    → (c : MalignBuffer) × (purse : CryptoPurse) × (t : MalignBuffer) × (encrypt e m cipher
        ≡ done (c, ok purse))
      × (decrypt e c purse target ≡ done (t, none))
      × IsValid page t
      × (contents t ≡ contents m)
      × (t.buffer_length ≡ m.buffer_length)
decrypt-encrypt e page m cipher target works v w u size size' =
    let len = length-contents m v in
    let (c, seals, _, holds, _, _) = encrypt_lem e page m cipher works v w size in
    let (t, opens, valid, same, long, _) =
      decrypt_lem e page (i_vec_of m) (contents m) c target works u holds (size' ∙ sym len) in
    (c, purse_of e m, t, seals, opens, valid, same, long ∙ len)
