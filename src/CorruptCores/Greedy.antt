-- ===== src/CorruptCores/Greedy.antt =====
-- One round of the greedy condemnation: the core with most accusations, and whether it is tied.
use cpu_check.Base.{
  ℕ, zero, suc, ◌+◌, ◌≤◌, ◌<◌, ◌≡◌, refl, sym, ◌≢◌, Bool, true, false, ◌||◌, none, some, List, [],
  ◌∷◌, ◌++◌, ltb, ◌==◌, arith, Bool-cases, inl, inr, ℕ_discrete,
}
use mathlib.Core.Path.{subst}
use cpu_check.CorruptCores.{
  Verdict, BadCore, cores, accusation_count, Scan, scan_core, scan_cores, fresh, condemn_worst,
  dispose_worst,
}

-- The worst of the cores below `n` by their counts: `none` if nobody accuses any of them; else a
-- core that no other exceeds, and tied exactly when another one has as many accusations.
abbrev pub IsWorst : (ℕ → ℕ) → ℕ → Verdict → Bool → Type 0
IsWorst count n none tied = ((d : ℕ) → d < n → count d ≡ 0) × (tied ≡ false)
IsWorst count n (some (w, k)) tied =
    (w < n)
    × (count w ≡ k)
    × (0 < k)
    × ((d : ℕ) → d < n → count d ≤ k)
    × (tied ≡ true → (d : ℕ) × (d < n) × (d ≢ w) × (count d ≡ k))
    × (tied ≡ false → (d : ℕ) → d < n → d ≢ w → count d < k)

up_to {ℓ} : (P : ℕ → Type ℓ) (c : ℕ) → ((d : ℕ) → d < c → P d) → P c → (d : ℕ) → d < c + 1 → P d
up_to P c below here d h = elim (ℕ_discrete d c) [
  | yes e ↦ subst P (sym e) here
  | no ne ↦ below d (omega arith)
]

module _ (count : ℕ → ℕ) (c : ℕ) where
  -- Nobody was accused below `c`.
  first-IsWorst :
      (tied : Bool)
      → IsWorst count c none tied
      → let st = scan_core c (count c) (record { worst = none; tied = tied }) in
        IsWorst count (c + 1) st.worst st.tied
  unfolding scan_core
  first-IsWorst tied (h, t) = elim (Bool-cases (count c == 0)) [
    | inl nil ↦ rw nil (up_to (λ d. count d ≡ 0) c h (ground arith), t)
    | inr some_k ↦ rw some_k (
      omega arith,
      refl,
      ground arith,
      up_to (λ d. count d ≤ count c) c (λ d p. omega (arith, h d p)) (omega arith),
      (λ e. cc),
      λ e d p ne. ground (arith, h d),
    )
  ]

  keep-IsWorst :
      (w k : ℕ) (tied : Bool)
      → IsWorst count c (some (w, k)) tied
      → count c < k
      → IsWorst count (c + 1) (some (w, k)) tied
  keep-IsWorst w k tied (lt, at_w, pos_k, all, ties, lone) less = (
    omega arith,
    at_w,
    pos_k,
    up_to (λ d. count d ≤ k) c all (omega arith),
    (λ e. let t = ties e in (t.0, omega (arith, t.1), t.2, t.3)),
    λ e. up_to (λ d. d ≢ w → count d < k) c (lone e) (λ ne. less),
  )

  tie-IsWorst :
      (w k : ℕ) (tied : Bool)
      → IsWorst count c (some (w, k)) tied
      → count c ≡ k
      → IsWorst count (c + 1) (some (w, k)) true
  tie-IsWorst w k tied (lt, at_w, pos_k, all, ties, lone) same = (
    omega arith,
    at_w,
    pos_k,
    up_to (λ d. count d ≤ k) c all (omega arith),
    (λ e. (c, omega arith, (λ (q : c ≡ w). omega arith), same)),
    λ e. cc,
  )

  lead-IsWorst :
      (w k : ℕ) (tied : Bool)
      → IsWorst count c (some (w, k)) tied
      → k < count c
      → IsWorst count (c + 1) (some (c, count c)) false
  lead-IsWorst w k tied (lt, at_w, pos_k, all, ties, lone) more = (
    omega arith,
    refl,
    omega arith,
    up_to (λ d. count d ≤ count c) c (λ d p. omega (arith, all d p)) (omega arith),
    (λ e. cc),
    λ e d p ne. omega (arith, all d (omega arith)),
  )

  next-IsWorst :
      (w k : ℕ) (tied : Bool)
      → IsWorst count c (some (w, k)) tied
      → let st = scan_core c (count c) (record { worst = some (w, k); tied = tied }) in
        IsWorst count (c + 1) st.worst st.tied
  unfolding scan_core
  next-IsWorst w k tied h = elim (Bool-cases (count c == 0)) [
    | inl nil ↦ rw nil (keep-IsWorst w k tied h (ground (arith, h.2)))
    | inr some_k ↦ rw some_k (elim (Bool-cases (ltb k (count c))) [
      | inl more ↦ rw more (lead-IsWorst w k tied h (ground arith))
      | inr no_more ↦ rw no_more (elim (Bool-cases (count c == k)) [
        | inl same ↦ rw same (tie-IsWorst w k tied h (ground arith))
        | inr differs ↦ rw differs (keep-IsWorst w k tied h (ground arith))
      ])
    ])
  ]

  scan_core-IsWorst :
      (v : Verdict) (tied : Bool)
      → IsWorst count c v tied
      → let st = scan_core c (count c) (record { worst = v; tied = tied }) in
        IsWorst count (c + 1) st.worst st.tied
  scan_core-IsWorst none tied h = first-IsWorst tied h
  scan_core-IsWorst (some (w, k)) tied h = next-IsWorst w k tied h

scan_cores-IsWorst :
    (vs : List (List ℕ)) (n c : ℕ) (st : Scan) {m : ℕ}
    → c + n ≡ m
    → IsWorst (λ d. accusation_count d vs) c st.worst st.tied
    → let st' = scan_cores vs n c st in IsWorst (λ d. accusation_count d vs) m st'.worst st'.tied
unfolding scan_cores
scan_cores-IsWorst vs zero c st e h =
    let e' : c ≡ _ = omega arith in
    subst (λ k. IsWorst (λ d. accusation_count d vs) k st.worst st.tied) e' h
scan_cores-IsWorst vs (suc n) c st e h =
    scan_cores-IsWorst vs n (c + 1) _ (omega arith)
      (scan_core-IsWorst (λ d. accusation_count d vs) c st.worst st.tied h)

-- What a round of `CondemnWorst` condemns and when it finds a tie: the verdict names a core that no
-- other exceeds in accusations, and the tie is reported exactly when another core has as many; with
-- no accusation against any core there is no verdict. The round disposes of the accusations that
-- name the condemned core, and keeps the older verdicts and a tie found before.
pub condemn_worst_lem :
    (b : BadCore)
    → (v : Verdict) × (tied : Bool) × IsWorst (λ d. accusation_count d b.accused) (cores b) v tied
      × (condemn_worst b ≡ record b {
        ambiguous = b.ambiguous || tied;
        condemned = b.condemned ++ v ∷ [];
        accused = dispose_worst v b.accused;
      })
unfolding condemn_worst
condemn_worst_lem b =
    let st = scan_cores b.accused (cores b) 0 fresh in
    (
      st.worst,
      st.tied,
      scan_cores-IsWorst b.accused (cores b) 0 fresh (omega arith) (λ d p. omega arith, refl),
      refl,
    )
