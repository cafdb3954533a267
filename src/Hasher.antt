-- ===== src/Hasher.antt =====
-- hasher.h and hasher.cc: the hashes of a buffer, as hexadecimal text. OpenSSL, zlib and farmhash are
-- parameters; `Crc32C` calls the repository's own crc32c.
use cpu_check.Base.{ℕ, ◌-◌, ◌≡◌, refl, List, [], ◌∷◌, length, get_or}
use cpu_check.Base.Bytes.{le_bytes}
use cpu_check.Base.Rng.{Rng}
use cpu_check.MalignBuffer.{MalignBuffer, contents}
use cpu_check.Utils.{hex_data}
use cpu_check.Crc32c.Dispatch.{Machine, Dispatch, crc32c}

pub data Hasher : Type 0 where
  md5 sha1 sha256 sha512 adler32 crc32 crc32_c farm_hash64 : Hasher

-- `EVP_Digest...` of each kind; the checksums, each from its initial value; and the state of the
-- dispatch of crc32c.
pub record HashLibs : Type 0 where
  pub evp_md5 : List ℕ → List ℕ
  pub evp_sha1 : List ℕ → List ℕ
  pub evp_sha256 : List ℕ → List ℕ
  pub evp_sha512 : List ℕ → List ℕ
  pub zlib_adler32 : List ℕ → ℕ
  pub zlib_crc32 : List ℕ → ℕ
  pub farmhash64 : List ℕ → ℕ
  pub machine : Machine
  pub dispatch : Dispatch

-- `OpenSSL_Hash`.
unfoldable pub openssl_hash : (List ℕ → List ℕ) → MalignBuffer → List ℕ
openssl_hash digest b = hex_data (digest (contents b))

-- The virtual `Hash`. `uLong` and `uint64_t` have 8 bytes, `uint32_t` has 4.
unfoldable pub hash : HashLibs → Hasher → MalignBuffer → List ℕ
unfolding openssl_hash
hash libs md5 b = openssl_hash libs.evp_md5 b
hash libs sha1 b = openssl_hash libs.evp_sha1 b
hash libs sha256 b = openssl_hash libs.evp_sha256 b
hash libs sha512 b = openssl_hash libs.evp_sha512 b
hash libs adler32 b = hex_data (le_bytes 8 (libs.zlib_adler32 (contents b)))
hash libs crc32 b = hex_data (le_bytes 8 (libs.zlib_crc32 (contents b)))
hash libs crc32_c b = hex_data (le_bytes 4 (crc32c libs.machine libs.dispatch (contents b)).1)
hash libs farm_hash64 b = hex_data (le_bytes 8 (libs.farmhash64 (contents b)))

-- `Hashers()` and `RandomHasher`.
abbrev pub hashers : List Hasher
hashers = md5 ∷ sha1 ∷ sha256 ∷ sha512 ∷ adler32 ∷ crc32 ∷ crc32_c ∷ farm_hash64 ∷ []

unfoldable pub random_hasher : Rng → ℕ → Hasher
random_hasher r seed = get_or hashers (r.draw 0 (length hashers - 1) (r.seed seed)).0 md5

pub same_contents-hash :
    (libs : HashLibs) (h : Hasher) (b c : MalignBuffer)
    → contents b ≡ contents c
    → hash libs h b ≡ hash libs h c
unfolding hash
same_contents-hash libs md5 b c e = rw e refl
same_contents-hash libs sha1 b c e = rw e refl
same_contents-hash libs sha256 b c e = rw e refl
same_contents-hash libs sha512 b c e = rw e refl
same_contents-hash libs adler32 b c e = rw e refl
same_contents-hash libs crc32 b c e = rw e refl
same_contents-hash libs crc32_c b c e = rw e refl
same_contents-hash libs farm_hash64 b c e = rw e refl
