-- ===== src/Log.antt =====
-- log.h: which messages are logged. What a line says of the time, the thread and the file is a
-- parameter of the constructors, as the codes of its characters.
pub mod Threads
pub mod Laws
mod Tests
use cpu_check.Base.{
  ℕ, zero, suc, ◌+◌, ◌%◌, ◌^◌, Bool, true, false, List, [], ◌∷◌, ◌++◌, ltb, ◌==◌, not, ◌||◌,
  if◌then◌else◌,
}

pub data LogLevel : Type 0 where
  debug info warn error fatal : LogLevel

-- The enumerators in order.
abbrev pub rank : LogLevel → ℕ
rank debug = 0
rank info = 1
rank warn = 2
rank error = 3
rank fatal = 4

abbrev pub min_log_level : LogLevel
min_log_level = info

abbrev pub letter : LogLevel → ℕ
letter debug = b'D'
letter info = b'I'
letter warn = b'W'
letter error = b'E'
letter fatal = b'F'

-- `lvl_`, `skip_` and `os_`.
pub record Log : Type 0 where
  pub lvl : LogLevel
  pub skip : Bool
  pub os : List ℕ

-- `lvl < min_log_level`.
abbrev pub is_low : LogLevel → Bool
is_low lvl = ltb (rank lvl) (rank min_log_level)

-- A constructor, which calls `Init` unless it skips.
unfoldable pub init_log : Bool → List ℕ → LogLevel → Log
init_log skip stamp lvl = record {
  lvl = lvl;
  skip = skip;
  os = if skip then [] else letter lvl ∷ stamp;
}

unfoldable pub new_log : List ℕ → LogLevel → Log
unfolding init_log
new_log stamp lvl = init_log (is_low lvl) stamp lvl

-- LOG_EVERY_N: the counter is not touched below the level. `N` is positive.
unfoldable pub new_log_every_n : List ℕ → LogLevel → ℕ → ℕ → Log × ℕ
unfolding init_log
new_log_every_n stamp lvl n cnt =
    let cnt' = (cnt + 1) % 2 ^ 64 in
    if is_low lvl
    then (init_log true stamp lvl, cnt)
    else (init_log (not (cnt' % n == 0)) stamp lvl, cnt')

-- LOG_EVERY_N_SECS, in one thread, with `now` from the clock and `t` the time of the last message.
unfoldable pub new_log_every_n_secs : List ℕ → LogLevel → ℕ → ℕ → ℕ → Log × ℕ
unfolding init_log
new_log_every_n_secs stamp lvl n now t =
    if is_low lvl || ltb now (t + n)
    then (init_log true stamp lvl, t)
    else (init_log false stamp lvl, now)

-- `stream() << s`.
unfoldable pub stream : List ℕ → Log → Log
stream s l = record l { os = l.os ++ s }

-- The destructor: what is printed, and whether the process aborts.
unfoldable pub delete_log : Log → List (List ℕ) × Bool
delete_log l = if l.skip then ([], false) else (l.os ∷ [], rank l.lvl == 4)

-- LOG with a text.
unfoldable pub log_at : List ℕ → LogLevel → List ℕ → List (List ℕ) × Bool
unfolding new_log stream delete_log
log_at stamp lvl s = delete_log (stream s (new_log stamp lvl))

-- So many LOG_EVERY_N at one place of the code, and then the lines printed there.
unfoldable pub log_every_n : List ℕ → LogLevel → List ℕ → ℕ → ℕ → ℕ → List (List ℕ) × ℕ
unfolding new_log_every_n stream delete_log
log_every_n stamp lvl s n zero cnt = ([], cnt)
log_every_n stamp lvl s n (suc calls) cnt =
    let (before, cnt') = log_every_n stamp lvl s n calls cnt in
    let (l, cnt'') = new_log_every_n stamp lvl n cnt' in
    (before ++ (delete_log (stream s l)).0, cnt'')
