-- ===== src/Log/Laws.antt =====
-- How many messages are logged, and how far apart.
use cpu_check.Base.{
  ℕ, zero, suc, ◌+◌, ◌*◌, ◌/◌, ◌%◌, ◌^◌, ◌≡◌, ◌≤◌, ◌<◌, refl, ◌∙◌, false, List, [], ◌∷◌, length,
  arith, ltb, ◌==◌, not, ◌||◌, if◌then◌else◌, Bool-cases, inl, inr, length-append,
}
use mathlib.Core.Path.{subst}
use cpu_check.Log.{LogLevel, is_low, init_log, new_log_every_n, stream, delete_log, log_every_n}
use cpu_check.Log.Threads.{
  Pc, idle, timed, loaded, System, set_pc, exchange, Step, tick, read_clock, load, exchanges, Reach,
  start, later,
}

-- Each message is logged `n` seconds or more after the one before it.
abbrev pub Spaced : ℕ → List ℕ → Type 0
Spaced n [] = Unit
Spaced n (t ∷ []) = Unit
Spaced n (t ∷ t' ∷ ts) = (t' + n ≤ t) × Spaced n (t' ∷ ts)

abbrev last_of : List ℕ → ℕ
last_of [] = 0
last_of (t ∷ ts) = t

-- What a thread remembers is not in the future.
abbrev Past : ℕ → Pc → Type 0
Past clock idle = Unit
Past clock (timed now) = now ≤ clock
Past clock (loaded now last) = now ≤ clock

record Inv (n : ℕ) (s : System) : Type 0 where
  spaced : Spaced n s.logged
  same : s.lasttime ≡ last_of s.logged
  counted : length s.logged * n ≤ s.lasttime
  past : s.lasttime ≤ s.clock
  pasts : (i : ℕ) → Past s.clock (s.pc i)

Past-le : (c d : ℕ) (p : Pc) → c ≤ d → Past c p → Past d p
Past-le c d idle h k = tt
Past-le c d (timed now) h k = omega arith
Past-le c d (loaded now last) h k = omega arith

set_pc-Past :
    (clock i : ℕ) (p : Pc) (pc : ℕ → Pc)
    → Past clock p
    → ((j : ℕ) → Past clock (pc j))
    → (j : ℕ) → Past clock (set_pc i p pc j)
set_pc-Past clock i p pc h all j = elim (Bool-cases (j == i)) [
  | inl e ↦ rw e h
  | inr e ↦ rw e (all j)
]

Spaced-cons : (n t : ℕ) (ts : List ℕ) → last_of ts + n ≤ t → Spaced n ts → Spaced n (t ∷ ts)
Spaced-cons n t [] h s = tt
Spaced-cons n t (t' ∷ ts) h s = (h, s)

exchange-Inv :
    (n i now last : ℕ) (s : System)
    → Inv n s
    → s.pc i ≡ loaded now last
    → Inv n (exchange n i now last s)
unfolding exchange
exchange-Inv n i now last s v e =
    elim (Bool-cases (ltb now (last + n) || not (s.lasttime == last))) [
      | inl skips ↦ rw skips (record {
        spaced = v.spaced;
        same = v.same;
        counted = v.counted;
        past = v.past;
        pasts = set_pc-Past s.clock i idle s.pc tt v.pasts;
      })
      | inr logs ↦
          let apart : last + n ≤ now = ground arith in
          let loaded_last : s.lasttime ≡ last = ground arith in
          let here : Past s.clock (loaded now last) = subst (Past s.clock) e (v.pasts i) in
          rw logs (record {
            spaced = Spaced-cons n now s.logged (omega (arith, v.same)) v.spaced;
            same = refl;
            counted = omega (arith, v.counted);
            past = here;
            pasts = set_pc-Past s.clock i idle s.pc tt v.pasts;
          })
    ]

Step-Inv : {n : ℕ} {s t : System} → Step n s t → Inv n s → Inv n t
Step-Inv {n} {s} (tick clock h) v = record {
  spaced = v.spaced;
  same = v.same;
  counted = v.counted;
  past = omega arith;
  pasts = λ i. Past-le s.clock clock (s.pc i) h (v.pasts i);
}
Step-Inv {n} {s} (read_clock i e) v = record {
  spaced = v.spaced;
  same = v.same;
  counted = v.counted;
  past = v.past;
  pasts = set_pc-Past s.clock i (timed s.clock) s.pc (omega arith) v.pasts;
}
Step-Inv {n} {s} (load i now e) v = record {
  spaced = v.spaced;
  same = v.same;
  counted = v.counted;
  past = v.past;
  pasts =
      let here : Past s.clock (timed now) = subst (Past s.clock) e (v.pasts i) in
      set_pc-Past s.clock i (loaded now s.lasttime) s.pc here v.pasts;
}
Step-Inv {n} {s} (exchanges i now last e) v = exchange-Inv n i now last s v e

Reach-Inv : {n : ℕ} {s : System} → Reach n s → Inv n s
Reach-Inv (start clock) = record {
  spaced = tt;
  same = refl;
  counted = omega arith;
  past = omega arith;
  pasts = λ i. tt;
}
Reach-Inv (later r st) = Step-Inv st (Reach-Inv r)

-- With a clock that does not go back: however the steps of the threads at one LOG_EVERY_N_SECS are interleaved, the times of two messages
-- that follow each other are `n` seconds apart or more, and `n` times the number of messages is not
-- above the clock.
pub logged-Spaced :
    {n : ℕ} {s : System} → Reach n s → Spaced n s.logged × (length s.logged * n ≤ s.clock)
logged-Spaced r = let v = Reach-Inv r in (v.spaced, omega (arith, v.counted, v.past))

-- One more than a multiple, or not.
quotient_suc : (k n : ℕ) → 0 < n → (k + 1) / n ≡ k / n + (if (k + 1) % n == 0 then 1 else 0)
quotient_suc k n h = grind arith

-- One message on the counter `k`.
every_n_once :
    (stamp s : List ℕ) (lvl : LogLevel) (n k : ℕ)
    → is_low lvl ≡ false
    → k + 1 < 2 ^ 64
    → let (l, cnt) = new_log_every_n stamp lvl n k in
      (length (delete_log (stream s l)).0 ≡ (if (k + 1) % n == 0 then 1 else 0)) × (cnt ≡ k + 1)
unfolding new_log_every_n init_log stream delete_log
every_n_once stamp s lvl n k high few =
    let small : (k + 1) % 2 ^ 64 ≡ k + 1 = omega arith in
    elim (Bool-cases ((k + 1) % n == 0)) [
      | inl e ↦ rw (high, small, e) (refl, refl)
      | inr e ↦ rw (high, small, e) (refl, refl)
    ]

-- LOG_EVERY_N with a positive `n`, reached `calls` times at a level that is logged, prints one line in
-- `n`: `calls / n` lines, while the calls are fewer than 2 ^ 64.
pub log_every_n_lem :
    (stamp s : List ℕ) (lvl : LogLevel) (n calls : ℕ)
    → is_low lvl ≡ false
    → 0 < n
    → calls < 2 ^ 64
    → (length (log_every_n stamp lvl s n calls 0).0 ≡ calls / n)
      × ((log_every_n stamp lvl s n calls 0).1 ≡ calls)
unfolding log_every_n init_log
log_every_n_lem stamp s lvl n zero high h few = (ground arith, refl)
log_every_n_lem stamp s lvl n (suc calls) high h few =
    let before = log_every_n_lem stamp s lvl n calls high h (omega arith) in
    let now = every_n_once stamp s lvl n calls high (omega arith) in
    (
      length-append (log_every_n stamp lvl s n calls 0).0 _
          ∙ rw (before.0, before.1, now.0) (grind (arith, quotient_suc calls n h)),
      rw before.1 (omega (arith, now.1)),
    )
