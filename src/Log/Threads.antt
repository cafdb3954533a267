-- ===== src/Log/Threads.antt =====
-- LOG_EVERY_N_SECS in threads that share the time of the last message: each reads the clock, loads
-- that time, and exchanges it if it has not changed, in steps of any order.
use cpu_check.Base.{ℕ, ◌+◌, ◌≤◌, ◌≡◌, List, [], ◌∷◌, ltb, ◌==◌, not, ◌||◌, if◌then◌else◌}

-- How far a thread is: `now` and `last` are its variables.
pub data Pc : Type 0 where
  idle : Pc
  timed : (now : ℕ) → Pc
  loaded : (now last : ℕ) → Pc

-- `lasttime` is shared; `logged` are the times of the messages, the last one first.
pub record System : Type 0 where
  pub clock : ℕ
  pub lasttime : ℕ
  pub pc : ℕ → Pc
  pub logged : List ℕ

abbrev pub set_pc : ℕ → Pc → (ℕ → Pc) → ℕ → Pc
set_pc i p pc j = if j == i then p else pc j

-- `now - last < N || !t.compare_exchange_strong(last, now)`, in a thread that then is done.
unfoldable pub exchange : ℕ → ℕ → ℕ → ℕ → System → System
exchange n i now last s =
    if ltb now (last + n) || not (s.lasttime == last)
    then record s { pc = set_pc i idle s.pc }
    else record s { pc = set_pc i idle s.pc; lasttime = now; logged = now ∷ s.logged }

-- `time` is assumed not to go back.
pub data Step (n : ℕ) (s : System) : System → Type 0 where
  tick : (clock : ℕ) → s.clock ≤ clock → Step n s (record s { clock = clock })
  read_clock : (i : ℕ) → s.pc i ≡ idle → Step n s (record s { pc = set_pc i (timed s.clock) s.pc })
  load :
      (i now : ℕ)
      → s.pc i ≡ timed now
      → Step n s (record s { pc = set_pc i (loaded now s.lasttime) s.pc })
  exchanges : (i now last : ℕ) → s.pc i ≡ loaded now last → Step n s (exchange n i now last s)

abbrev pub initial : ℕ → System
initial clock = record { clock = clock; lasttime = 0; pc = λ i. idle; logged = [] }

pub data Reach (n : ℕ) : System → Type 0 where
  start : (clock : ℕ) → Reach n (initial clock)
  later : {s t : System} → Reach n s → Step n s t → Reach n t
