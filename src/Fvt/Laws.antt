-- ===== src/Fvt/Laws.antt =====
-- The frequency that is set is in the range of the processor, and is read back.
use cpu_check.Base.{
  ℕ, suc, ◌+◌, ◌-◌, ◌*◌, ◌/◌, ◌%◌, ◌^◌, ◌≡◌, ◌≤◌, ◌<◌, refl, sym, ap, ◌∙◌, inl, inr, Bool, true,
  false, leb, ◌==◌, ◌&&◌, not, arith, ==_iff, Bool-cases, if◌then◌else◌,
}
use mathlib.Core.Path.{subst}
use cpu_check.Base.{◌≢◌, bit_and, bit_or}
use cpu_check.Fvt.{k_ia32_misc_enable, control_fast_string_ops}
use cpu_check.Base.Bits.{bit_and_step, bit_and-mask, bit_or-add}
use native.Mathlib.Nat.{mod-lt}
use cpu_check.Base.Int.{pos}
use cpu_check.Base.Outcome.{done}
use cpu_check.Fvt.Sampling.{reset_frequency_meter}
use cpu_check.Fvt.{
  Controller, Schedule, read_msr, write_msr, k_min_turbo_mhz, k_ia32_perf_ctl,
  current_freq_limit_mhz, set_current_max_freq_mhz, low_frequency, high_frequency, step_count, ramp,
  scheduled_mhz,
}

-- The registers can be read and written, and the limit fits its field.
pub record IsAccessible (c : Controller) : Type 0 where
  pub opened : c.opened ≡ true
  pub readable : (r : ℕ) → c.readable r ≡ true
  pub writable : (r : ℕ) → c.writable r ≡ true
  pub small : c.limit_mhz ≤ 25500

-- Besides, `max_mHz_` is what the register says.
pub record IsInStep (c : Controller) : Type 0 where
  pub access : IsAccessible c
  pub same : current_freq_limit_mhz c ≡ c.max_mhz

-- A frequency that the asserts of `SetCurrentMaxFreqMhzImpl` let pass.
pub record IsLegitimate (limit mhz : ℕ) : Type 0 where
  pub multiple : mhz % 100 ≡ 0
  pub above : k_min_turbo_mhz ≤ mhz
  pub below : mhz ≤ limit

-- The controller returns from setting a frequency, and the register and `max_mHz_` have it.
abbrev pub Sets : ℕ → ℕ → Controller → Type 0
Sets now mhz c =
    (c' : Controller) × (set_current_max_freq_mhz now (pos mhz) c ≡ done c')
    × (current_freq_limit_mhz c' ≡ mhz)
    × IsInStep c'
    × (c'.limit_mhz ≡ c.limit_mhz)
    × (c'.max_mhz ≡ mhz)

module _ (now mhz : ℕ) (c : Controller) where
  -- So it does when the frequency differs from `max_mHz_`, whatever the register says.
  pub set-changed :
      IsAccessible c → IsLegitimate c.limit_mhz mhz → (mhz == c.max_mhz) ≡ false → Sets now mhz c
  unfolding set_current_max_freq_mhz current_freq_limit_mhz write_msr read_msr
  set-changed s l e = (
    c',
    rw (e, test, s.opened, s.writable k_ia32_perf_ctl) refl,
    reads,
    record {
      access = record {
        opened = s.opened;
        readable = s.readable;
        writable = s.writable;
        small = s.small;
      };
      same = reads;
    },
    refl,
    refl,
  )
    where
      v : ℕ
      v = mhz / 100 * 2 ^ 8

      c' : Controller
      c' = record c {
        registers = λ r. if r == k_ia32_perf_ctl then v else c.registers r;
        max_mhz = mhz;
        meter = reset_frequency_meter now;
      }

      test : (100 * (mhz / 100) == mhz && (leb k_min_turbo_mhz mhz && leb mhz c.limit_mhz)) ≡ true
      test = ground (arith, l.multiple, l.above, l.below)

      reads : current_freq_limit_mhz c' ≡ mhz
      reads =
          rw (s.opened, s.readable k_ia32_perf_ctl) (omega (arith, l.multiple, l.below, s.small))

-- When the registers can be read and written, the limit is at most 25500 MHz and `max_mHz_` is what
-- the register says: setting a multiple of 100 MHz from 1000 MHz up to the limit returns;
-- afterwards the register and `max_mHz_` have it, the two are still in step, and the limit is as before.
pub set_current_max_freq_mhz_lem :
    (now mhz : ℕ) (c : Controller) → IsInStep c → IsLegitimate c.limit_mhz mhz → Sets now mhz c
unfolding set_current_max_freq_mhz
set_current_max_freq_mhz_lem now mhz c s l = elim (Bool-cases (mhz == c.max_mhz)) [
  | inl e ↦
      let same : mhz ≡ c.max_mhz = (==_iff mhz c.max_mhz).0 e in
      (c, rw e refl, s.same ∙ sym same, s, refl, sym same)
  | inr e ↦ set-changed now mhz c s.access l e
]

-- The steps of the ramps stay between the two frequencies.
ramp_lem :
    (low high t : ℕ)
    → low ≤ high
    → low % 100 ≡ 0
    → high % 100 ≡ 0
    → (f : ℕ) × (ramp low high (step_count low high) t ≡ done (pos f))
      × (low ≤ f)
      × (f ≤ high)
      × (f % 100 ≡ 0)
unfolding ramp step_count
ramp_lem low high t le a b =
    let n = (high - low) / 100 in
    let step = t % suc n in
    let short : step < suc n = mod-lt t {m = suc n} (omega arith) in
    let count : step_count low high ≡ suc n = ground (arith, le) in
    let steps = ap (λ (k : ℕ). ramp low high k t) count in
    let room : 100 * step ≤ high - low = omega (arith, short) in
    elim (Bool-cases (t / suc n % 2 == 1)) [
      | inl up ↦ (
        low + 100 * step,
        steps ∙ rw up refl,
        omega arith,
        omega (arith, room, le),
        omega (arith, a),
      )
      | inr down ↦
          let fits : leb (100 * step) high ≡ true = ground (arith, room) in
          (
            high - 100 * step,
            steps ∙ rw (down, fits) refl,
            omega (arith, room, le),
            omega arith,
            omega (arith, b, room),
          )
    ]

-- What a sensible schedule asks: frequencies of the flags that are multiples of 100, and from 1000 MHz up to the
-- limit, the lower one not above the higher one.
pub record IsSensible (o : Schedule) (limit : ℕ) : Type 0 where
  pub limit_multiple : limit % 100 ≡ 0
  pub low_multiple : o.fixed_min_frequency % 100 ≡ 0
  pub high_multiple : o.fixed_max_frequency % 100 ≡ 0
  pub low_above : k_min_turbo_mhz ≤ low_frequency o
  pub ordered : low_frequency o ≤ high_frequency o limit

pub high_frequency-below : (o : Schedule) (limit : ℕ) → high_frequency o limit ≤ limit
unfolding high_frequency
high_frequency-below o limit = ground arith

high_frequency-multiple :
    (o : Schedule) (limit : ℕ)
    → limit % 100 ≡ 0
    → o.fixed_max_frequency % 100 ≡ 0
    → high_frequency o limit % 100 ≡ 0
unfolding high_frequency
high_frequency-multiple o limit a b = ground (arith, a, b)

low_frequency-multiple :
    (o : Schedule) → o.fixed_min_frequency % 100 ≡ 0 → low_frequency o % 100 ≡ 0
unfolding low_frequency
low_frequency-multiple o a = ground (arith, a)

low_frequency-fixed :
    (o : Schedule)
    → (not (o.fixed_min_frequency == 0) && o.fixed_min_frequency == o.fixed_max_frequency) ≡ true
    → low_frequency o ≡ o.fixed_min_frequency
unfolding low_frequency
low_frequency-fixed o e = ground (arith, e)

pub scheduled_mhz-IsLegitimate :
    (o : Schedule) (limit t : ℕ)
    → IsSensible o limit
    → (f : ℕ) × (scheduled_mhz o limit t ≡ done (pos f)) × IsLegitimate limit f
unfolding scheduled_mhz
scheduled_mhz-IsLegitimate o limit t s =
    let low = low_frequency o in
    let high = high_frequency o limit in
    let below = high_frequency-below o limit in
    let low_100 = low_frequency-multiple o s.low_multiple in
    let high_100 = high_frequency-multiple o limit s.limit_multiple s.high_multiple in
    let at_low : IsLegitimate limit low = record {
      multiple = low_100;
      above = s.low_above;
      below = omega (arith, s.ordered, below);
    } in
    let at_high : IsLegitimate limit high = record {
      multiple = high_100;
      above = omega (arith, s.low_above, s.ordered);
      below = below;
    } in
    elim (Bool-cases
      (not (o.fixed_min_frequency == 0) && o.fixed_min_frequency == o.fixed_max_frequency)) [
        | inl e ↦ (
          o.fixed_min_frequency,
          rw e refl,
          subst (IsLegitimate limit) (low_frequency-fixed o e) at_low,
        )
        | inr e ↦
            elim (Bool-cases (
              (not o.do_freq_sweep && not o.do_freq_hi_lo)
              && (o.fixed_min_frequency == 0 && o.fixed_max_frequency == 0))) [
                | inl f ↦ (
                  limit,
                  rw (e, f) refl,
                  record {
                    multiple = s.limit_multiple;
                    above = omega (arith, s.low_above, s.ordered, below);
                    below = omega arith;
                  },
                )
                | inr f ↦ elim (Bool-cases o.do_freq_hi_lo) [
                  | inl g ↦ elim (Bool-cases (t % 2 == 1)) [
                    | inl odd ↦ (low, rw (e, f, g, odd) refl, at_low)
                    | inr even ↦ (high, rw (e, f, g, even) refl, at_high)
                  ]
                  | inr g ↦
                      let (m, ramps, from, to, hundred) =
                        ramp_lem low high t s.ordered low_100 high_100 in
                      (
                        m,
                        rw (e, f)
                            (ap
                                (λ b.
                                  if b
                                  then done (pos (if t % 2 == 1 then low else high))
                                  else ramp low high (step_count low high) t)
                                g
                              ∙ ramps),
                        record {
                          multiple = hundred;
                          above = omega (arith, s.low_above, from);
                          below = omega (arith, to, below);
                        },
                      )
                ]
              ]
      ]

-- Clearing the lowest bit of a word and setting it to `b`.
lowest_bit : (v b : ℕ) → v < 2 ^ 64 → b < 2 → bit_or (bit_and v (2 ^ 64 - 2)) b ≡ v / 2 * 2 + b
lowest_bit v b h k =
    let cleared : bit_and v (2 ^ 64 - 2) ≡ v / 2 * 2 ^ 1 =
      omega (arith, bit_and_step v (2 ^ 64 - 2), bit_and-mask 63 (v / 2)) in
    ap (λ (x : ℕ). bit_or x b) cleared ∙ bit_or-add 1 (v / 2) b (omega arith) ∙ omega arith

-- When the registers can be read and written and hold 64 bits, `ControlFastStringOps` makes the lowest
-- bit of its register what was asked, and leaves the other bits and the other registers.
pub control_fast_string_ops_lem :
    (c : Controller) (enable : Bool)
    → (c.opened ≡ true) × ((r : ℕ) → c.readable r ≡ true) × ((r : ℕ) → c.writable r ≡ true)
    → c.registers k_ia32_misc_enable < 2 ^ 64
    → let c' = control_fast_string_ops enable c in
      (read_msr c' k_ia32_misc_enable
        ≡ c.registers k_ia32_misc_enable / 2 * 2 + (if enable then 1 else 0))
      × ((r : ℕ) → r ≢ k_ia32_misc_enable → read_msr c' r ≡ read_msr c r)
unfolding control_fast_string_ops read_msr write_msr
control_fast_string_ops_lem c enable s h =
    let v = c.registers k_ia32_misc_enable in
    let bit : (if enable then 1 else 0) < 2 = ground arith in
    (
      rw (s.0, s.2 k_ia32_misc_enable, s.1 k_ia32_misc_enable)
          (lowest_bit v (if enable then 1 else 0) h bit),
      λ r ne. ground (arith, s.0, s.2 k_ia32_misc_enable, ne),
    )
