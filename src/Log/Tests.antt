-- ===== src/Log/Tests.antt =====
-- Tests of log.h, and its theorems at concrete inputs.
use cpu_check.Base.{◌*◌, ◌/◌, ◌≡◌, ◌≤◌, refl, true, false, [], ◌∷◌, length, arith}
use cpu_check.Log.{debug, info, fatal, log_at, log_every_n}
use cpu_check.Log.Laws.{Spaced, logged-Spaced, log_every_n_lem}
use cpu_check.Log.Threads.{
  System, idle, timed, loaded, exchange, set_pc, Reach, start, later, read_clock, load, exchanges,
}

low_is_silent : log_at (5 ∷ []) debug (6 ∷ []) ≡ ([], false)
unfolding log_at
low_is_silent = refl

fatal_aborts : log_at (5 ∷ []) fatal (6 ∷ []) ≡ ((b'F' ∷ 5 ∷ 6 ∷ []) ∷ [], true)
unfolding log_at
fatal_aborts = refl

one_in_three : length (log_every_n [] info [] 3 7 0).0 ≡ 2
unfolding log_every_n
one_in_three = refl

log_every_n_lem_example :
    (length (log_every_n [] info [] 3 7 0).0 ≡ 7 / 3) × ((log_every_n [] info [] 3 7 0).1 ≡ 7)
log_every_n_lem_example = log_every_n_lem [] [] info 3 7 refl (omega arith) (omega arith)

-- Two threads load the same time; the first to exchange it logs, the second does not.
abbrev s0 : System
s0 = record { clock = 100; lasttime = 0; pc = λ i. idle; logged = [] }

abbrev s1 : System
s1 = record s0 { pc = set_pc 1 (timed 100) s0.pc }

abbrev s2 : System
s2 = record s1 { pc = set_pc 1 (loaded 100 0) s1.pc }

abbrev s3 : System
s3 = record s2 { pc = set_pc 2 (timed 100) s2.pc }

abbrev s4 : System
s4 = record s3 { pc = set_pc 2 (loaded 100 0) s3.pc }

abbrev s5 : System
s5 = exchange 30 1 100 0 s4

abbrev s6 : System
s6 = exchange 30 2 100 0 s5

s6_logged : s6.logged ≡ 100 ∷ []
unfolding exchange
s6_logged = refl

s6_reached : Reach 30 s6
unfolding exchange
s6_reached =
    later
      (later
        (later
          (later (later (later (start 100) (read_clock 1 refl)) (load 1 100 refl))
            (read_clock 2 refl))
          (load 2 100 refl))
        (exchanges 1 100 0 refl))
      (exchanges 2 100 0 refl)

logged-Spaced_example : Spaced 30 s6.logged × (length s6.logged * 30 ≤ s6.clock)
logged-Spaced_example = logged-Spaced s6_reached
