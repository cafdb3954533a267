-- ===== src/Crc32c/Dispatch.antt =====
-- The dispatcher of crc32c.c: the state behind `pthread_once`, the forced software path and the
-- self-check. The calls are taken one at a time, in the order of a list.
pub mod Laws
use Prim.Native.String.{String}
use text.Mathlib.Text.{◌==◌ as str_eq}
use cpu_check.Base.{
  ℕ, zero, suc, ◌+◌, ◌*◌, ◌%◌, ◌≡◌, Bool, true, false, not, ◌&&◌, Option, none, some, List, [], ◌∷◌,
  leb, ltb, ◌==◌, if◌then◌else◌, slice,
}
use cpu_check.Base.Int.{ℤ, pos, negsuc}
use cpu_check.Crc32c.{Crc32Unit, crc32c_sw, crc32c_hw}

-- `crc32c_impl`.
pub data Impl : Type 0 where
  auto hw sw : Impl

-- `g_crc32c_once`, `g_force_sw` and `g_impl`.
pub record Dispatch : Type 0 where
  pub once : Bool
  pub force_sw : Bool
  pub impl : Impl

-- What the process finds: the variable CRC32C_FORCE, the support of SSE 4.2, and the instruction.
pub record Machine : Type 0 where
  pub crc32c_force : Option String
  pub has_hw_crc : Bool
  pub unit : Crc32Unit

abbrev pub start : Dispatch
start = record { once = false; force_sw = false; impl = sw }

-- The part of `crc32c_init` that reads the variable: the new `g_force_sw`.
forced : Machine → Bool → Bool
forced m force = elim m.crc32c_force [
  | none ↦ force
  | some env ↦ if str_eq env "sw" then true else if str_eq env "hw" then not m.has_hw_crc else force
]

pub crc32c_init : Machine → Dispatch → Dispatch
unfolding forced
crc32c_init m d =
    if d.force_sw
    then record d { impl = sw }
    else let force = forced m d.force_sw in
      record d { force_sw = force; impl = if not force && m.has_hw_crc then hw else sw }

-- `pthread_once(&g_crc32c_once, crc32c_init)`.
unfoldable pub run_once : Machine → Dispatch → Dispatch
unfolding crc32c_init
run_once m d = if d.once then d else record (crc32c_init m d) { once = true }

is_hw : Impl → Bool
is_hw hw = true
is_hw auto = false
is_hw sw = false

unfoldable pub crc32c_impl_name : Machine → Dispatch → Dispatch × String
unfolding is_hw
crc32c_impl_name m d = let d' = run_once m d in (d', if is_hw d'.impl then "hw" else "sw")

unfoldable pub crc32c_hw_available : Machine → Bool
crc32c_hw_available m = m.has_hw_crc

unfoldable pub crc32c_force_software : Machine → Dispatch → Dispatch
crc32c_force_software m d = record (run_once m (record d { force_sw = true })) { impl = sw }

-- `crc32c`.
unfoldable pub crc32c : Machine → Dispatch → List ℕ → Dispatch × ℕ
unfolding is_hw
crc32c m d s =
    let d' = run_once m d in (d', if is_hw d'.impl then crc32c_hw m.unit s else crc32c_sw s)

-- "123456789"
abbrev pub k_vec : List ℕ
k_vec = 0x31 ∷ 0x32 ∷ 0x33 ∷ 0x34 ∷ 0x35 ∷ 0x36 ∷ 0x37 ∷ 0x38 ∷ 0x39 ∷ []

-- `pattern[i] = (uint8_t)(i * 3 + 1)`, the `n` entries from `i` on.
unfoldable pub pattern_from : ℕ → ℕ → List ℕ
pattern_from zero i = []
pattern_from (suc n) i = ((i * 3 + 1) % 256) ∷ pattern_from n (i + 1)

abbrev pub pattern_size : ℕ
pattern_size = 512

unfoldable pub offsets : List ℕ
offsets = 0 ∷ 1 ∷ 2 ∷ 3 ∷ 4 ∷ 7 ∷ 8 ∷ 15 ∷ 31 ∷ 63 ∷ []

unfoldable pub lengths : List ℕ
lengths = 0 ∷ 1 ∷ 2 ∷ 3 ∷ 4 ∷ 7 ∷ 8 ∷ 15 ∷ 16 ∷ 31 ∷ 32 ∷ 63 ∷ 64 ∷ 255 ∷ []

-- One comparison of the two routines; the count of failures goes up on a mismatch.
unfoldable pub compare_on : Machine → List ℕ → ℕ → ℕ
compare_on m s failures = if crc32c_hw m.unit s == crc32c_sw s then failures else failures + 1

-- The inner loop, over the lengths.
unfoldable pub check_lengths : Machine → List ℕ → ℕ → List ℕ → ℕ → ℕ
check_lengths m buf off [] failures = failures
check_lengths m buf off (len ∷ ls) failures =
    check_lengths m buf off ls
      (if ltb pattern_size (off + len) then failures else compare_on m (slice buf off len) failures)

-- The outer loop, over the offsets.
unfoldable pub check_offsets : Machine → List ℕ → List ℕ → List ℕ → ℕ → ℕ
check_offsets m buf ls [] failures = failures
check_offsets m buf ls (off ∷ os) failures =
    check_offsets m buf ls os (check_lengths m buf off ls failures)

unfoldable pub selfcheck_failures : Machine → ℕ
selfcheck_failures m =
    check_offsets m (pattern_from pattern_size 0) lengths offsets (compare_on m k_vec 0)

unfoldable pub crc32c_selfcheck : Machine → Dispatch → Dispatch × ℤ
unfolding is_hw
crc32c_selfcheck m d =
    let d' = run_once m d in
    if is_hw d'.impl
    then (if ltb 0 (selfcheck_failures m)
        then (crc32c_force_software m d', negsuc 0)
        else (d', pos 0))
    else (d', pos 0)

-- The calls of the interface that change the state.
pub data Call : Type 0 where
  name force selfcheck : Call
  checksum : List ℕ → Call

pub step : Machine → Dispatch → Call → Dispatch
step m d name = (crc32c_impl_name m d).0
step m d force = crc32c_force_software m d
step m d selfcheck = (crc32c_selfcheck m d).0
step m d (checksum s) = (crc32c m d s).0

unfoldable pub run : Machine → Dispatch → List Call → Dispatch
unfolding step
run m d [] = d
run m d (c ∷ cs) = run m (step m d c) cs
