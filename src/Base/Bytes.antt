-- ===== src/Base/Bytes.antt =====
-- Bytes, and words of memory in little-endian order.
use Prim.Native.Nat.{ℕ, zero, suc, ◌+◌, ◌*◌, ◌/◌, ◌%◌, ◌^◌, ◌<◌}
use mathlib.Core.Path.{◌≡◌, refl, ap}
use mathlib.Core.List.{List, [], ◌∷◌}
use native.Mathlib.Omega.{arith}
use native.Mathlib.Nat.{pow-suc}
use cpu_check.Base.Lists.{length, take, drop, overlay, write, All}

abbrev pub IsByte : ℕ → Type 0
IsByte b = b < 256

abbrev pub IsBytes : List ℕ → Type 0
IsBytes = All IsByte

-- `memcpy(&v, s, sizeof(v))` on a little-endian machine.
unfoldable pub load_le : List ℕ → ℕ
load_le [] = 0
load_le (b ∷ bs) = b + 256 * load_le bs

-- The `n` bytes of a word in memory order.
unfoldable pub le_bytes : ℕ → ℕ → List ℕ
le_bytes zero v = []
le_bytes (suc n) v = (v % 256) ∷ le_bytes n (v / 256)

pub le_bytes-load_le :
    (n : ℕ) (bs : List ℕ) → IsBytes bs → length bs ≡ n → le_bytes n (load_le bs) ≡ bs
unfolding le_bytes load_le
le_bytes-load_le zero [] h e = refl
le_bytes-load_le zero (b ∷ bs) h e = absurd (omega arith)
le_bytes-load_le (suc n) [] h e = absurd (omega arith)
le_bytes-load_le (suc n) (b ∷ bs) h e = ground (arith, le_bytes-load_le n bs h.1)

pub load_le-lt : (n : ℕ) (bs : List ℕ) → IsBytes bs → length bs ≡ n → load_le bs < 256 ^ n
unfolding load_le
load_le-lt zero [] h e = omega arith
load_le-lt zero (b ∷ bs) h e = absurd (omega arith)
load_le-lt (suc n) [] h e = absurd (omega arith)
load_le-lt (suc n) (b ∷ bs) h e = omega (arith, pow-suc 256 n, load_le-lt n bs h.1 (omega arith))

pub length-le_bytes : (n v : ℕ) → length (le_bytes n v) ≡ n
unfolding le_bytes
length-le_bytes zero v = refl
length-le_bytes (suc n) v = ap suc (length-le_bytes n (v / 256))

pub le_bytes-IsBytes : (n v : ℕ) → IsBytes (le_bytes n v)
unfolding le_bytes
le_bytes-IsBytes zero v = tt
le_bytes-IsBytes (suc n) v = (omega arith, le_bytes-IsBytes n (v / 256))

-- A word is got back from its bytes.
pub load_le-le_bytes : (n v : ℕ) → v < 256 ^ n → load_le (le_bytes n v) ≡ v
unfolding le_bytes load_le
load_le-le_bytes zero v h = omega arith
load_le-le_bytes (suc n) v h =
    omega (arith, pow-suc 256 n, load_le-le_bytes n (v / 256) (omega (arith, pow-suc 256 n)))

pub take-IsBytes : (n : ℕ) (bs : List ℕ) → IsBytes bs → IsBytes (take n bs)
take-IsBytes zero bs h = tt
take-IsBytes (suc n) [] h = tt
take-IsBytes (suc n) (b ∷ bs) h = (h.0, take-IsBytes n bs h.1)

pub drop-IsBytes : (n : ℕ) (bs : List ℕ) → IsBytes bs → IsBytes (drop n bs)
drop-IsBytes zero bs h = h
drop-IsBytes (suc n) [] h = tt
drop-IsBytes (suc n) (b ∷ bs) h = drop-IsBytes n bs h.1

overlay-IsBytes : (ys bs : List ℕ) → IsBytes ys → IsBytes bs → IsBytes (overlay ys bs)
overlay-IsBytes [] bs g h = h
overlay-IsBytes (y ∷ ys) [] g h = tt
overlay-IsBytes (y ∷ ys) (b ∷ bs) g h = (g.0, overlay-IsBytes ys bs g.1 h.1)

pub write-IsBytes :
    (bs : List ℕ) (p : ℕ) (ys : List ℕ) → IsBytes ys → IsBytes bs → IsBytes (write bs p ys)
write-IsBytes bs zero ys g h = overlay-IsBytes ys bs g h
write-IsBytes [] (suc p) ys g h = tt
write-IsBytes (b ∷ bs) (suc p) ys g h = (h.0, write-IsBytes bs p ys g h.1)
