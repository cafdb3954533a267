-- ===== src/Crypto.antt =====
-- crypto.h and crypto.cc: AES-256-GCM over buffers. OpenSSL's cipher is a parameter.
pub mod Laws
mod Tests
use cpu_check.Base.{
  ℕ, ◌+◌, ◌≡◌, min, Bool, true, false, Option, none, some, List, [], ◌∷◌, ◌++◌, length, ◌==◌,
  if◌then◌else◌, take, write, replicate,
}
use cpu_check.Base.Outcome.{Outcome, done, ◌>>=◌, Result, ok, error}
use cpu_check.MalignBuffer.{MalignBuffer, contents, poke}

-- `EVP_CIPHER_CTX`: `init` takes the key, the vector and whether to encrypt; `update` and `final`
-- say whether they return 1, and which bytes they store.
pub record Evp : Type 1 where
  pub Ctx : Type 0
  pub init : List ℕ → List ℕ → Bool → Ctx
  pub update : Ctx → List ℕ → Bool × List ℕ × Ctx
  pub final : Ctx → Bool × List ℕ × Ctx
  pub get_tag : Ctx → Bool × List ℕ
  pub set_tag : Ctx → List ℕ → Bool × Ctx

pub record CryptoPurse : Type 0 where
  pub i_vec : List ℕ
  pub gmac_tag : List ℕ

pub data CryptoError : Type 0 where
  cipher_update encrypt_final encrypt_length get_gcm_tag : CryptoError
  set_gcm_tag decryption decrypt_final decrypt_length boringssl_self_test : CryptoError

-- "0123456789abcdef", twice.
abbrev pub key : List ℕ
key = digits ++ digits
  where
    digits : List ℕ
    digits = 48 ∷ 49 ∷ 50 ∷ 51 ∷ 52 ∷ 53 ∷ 54 ∷ 55 ∷ 56 ∷ 57 ∷ 97 ∷ 98 ∷ 99 ∷ 100 ∷ 101 ∷ 102 ∷ []

-- The first bytes of the plain text, and zeros.
abbrev pub i_vec_of : MalignBuffer → List ℕ
i_vec_of plain = write (replicate 12 0) 0 (take (min plain.buffer_length 12) (contents plain))

unfoldable pub encrypt :
    Evp → MalignBuffer → MalignBuffer → Outcome (MalignBuffer × Result CryptoError CryptoPurse)
encrypt e plain_text cipher_text =
    let i_vec = i_vec_of plain_text in
    let (updated, out, ctx) = e.update (e.init key i_vec true) (contents plain_text) in
    let (finished, unused, ctx') = e.final ctx in
    let (tagged, tag) = e.get_tag ctx' in
    poke 0 out cipher_text >>= λ cipher. done (
      cipher,
      if updated
          then (if finished
              then (if length out + length unused == cipher_text.buffer_length
                  then (if tagged
                      then ok (record { i_vec = i_vec; gmac_tag = tag })
                      else error get_gcm_tag)
                  else error encrypt_length)
              else error encrypt_final)
          else error cipher_update,
    )

unfoldable pub decrypt :
    Evp → MalignBuffer → CryptoPurse → MalignBuffer → Outcome (MalignBuffer × Option CryptoError)
decrypt e cipher_text purse plain_text =
    let (set, ctx) = e.set_tag (e.init key purse.i_vec false) purse.gmac_tag in
    let (updated, out, ctx') = e.update ctx (contents cipher_text) in
    let (finished, extra, ctx'') = e.final ctx' in
    if set
    then (poke 0 out plain_text >>= λ plain.
        if updated
        then (poke (length out) extra plain >>= λ plain'. done (
          plain',
          if finished
              then (if length out + length extra == plain_text.buffer_length
                  then none
                  else some decrypt_length)
              else some decrypt_final,
        ))
        else done (plain, some decryption))
    else done (plain_text, some set_gcm_tag)

-- `SelfTest`: `none` when BoringSSL is not used, otherwise what its self test returns.
unfoldable pub self_test : Option ℕ → Option CryptoError
self_test none = none
self_test (some result) = if result == 0 then some boringssl_self_test else none
