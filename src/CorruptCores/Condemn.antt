-- ===== src/CorruptCores/Condemn.antt =====
-- The whole condemnation: it ends, and every accusation is accounted for once.
use cpu_check.Base.{
  ℕ, zero, suc, ◌+◌, ◌≤◌, ◌<◌, ◌≡◌, refl, sym, ap, ◌⊎◌, Bool, true, ◌||◌, none, some, List, [], ◌∷◌,
  ◌++◌, length, arith, All, Bool-cases, List-cases, inl, inr,
}
use mathlib.Core.Path.{subst}
use cpu_check.CorruptCores.{
  Verdict, BadCore, cores, contains, accusation_count, dispose, condemn_worst, dispose_worst,
  condemn_loop, condemn,
}
use cpu_check.CorruptCores.Greedy.{IsWorst, condemn_worst_lem}

-- An accusation names a core below `n`.
abbrev pub Accuses : ℕ → List ℕ → Type 0
Accuses n v = (c : ℕ) × (c < n) × (contains c v ≡ true)

-- Some verdict names a core of the accusation.
abbrev pub IsHit : List Verdict → List ℕ → Type 0
IsHit [] v = ⊥
IsHit (none ∷ cs) v = IsHit cs v
IsHit (some (w, k) ∷ cs) v = (contains w v ≡ true) ⊎ IsHit cs v

-- The counts of all verdicts together.
unfoldable pub tally : List Verdict → ℕ
tally [] = 0
tally (none ∷ cs) = tally cs
tally (some (w, k) ∷ cs) = k + tally cs

-- What the condemnation makes of `b`.
pub record IsSettled (b r : BadCore) : Type 0 where
  pub emptied : r.accused ≡ []
  pub hits : All (IsHit r.condemned) b.accused
  pub adds_up : tally r.condemned ≡ tally b.condemned + length b.accused

tally-append : (cs ds : List Verdict) → tally (cs ++ ds) ≡ tally cs + tally ds
unfolding tally
tally-append [] ds = omega arith
tally-append (none ∷ cs) ds = tally-append cs ds
tally-append (some (w, k) ∷ cs) ds = omega (arith, tally-append cs ds)

IsHit-append_left : (cs ds : List Verdict) (v : List ℕ) → IsHit cs v → IsHit (cs ++ ds) v
IsHit-append_left [] ds v h = elim h [ ]
IsHit-append_left (none ∷ cs) ds v h = IsHit-append_left cs ds v h
IsHit-append_left (some (w, k) ∷ cs) ds v (inl e) = inl e
IsHit-append_left (some (w, k) ∷ cs) ds v (inr h) = inr (IsHit-append_left cs ds v h)

IsHit-append_right : (cs ds : List Verdict) (v : List ℕ) → IsHit ds v → IsHit (cs ++ ds) v
IsHit-append_right [] ds v h = h
IsHit-append_right (none ∷ cs) ds v h = IsHit-append_right cs ds v h
IsHit-append_right (some (w, k) ∷ cs) ds v h = inr (IsHit-append_right cs ds v h)

-- The accusations that a core disposes of are those that it is counted in.
length-dispose :
    (c : ℕ) (vs : List (List ℕ)) → length (dispose c vs) + accusation_count c vs ≡ length vs
unfolding dispose accusation_count
length-dispose c [] = refl
length-dispose c (v ∷ vs) = ground (arith, length-dispose c vs)

All-dispose {ℓ} :
    (P : List ℕ → Type ℓ) (c : ℕ) (vs : List (List ℕ)) → All P vs → All P (dispose c vs)
unfolding dispose
All-dispose P c [] h = tt
All-dispose P c (v ∷ vs) h = elim (Bool-cases (contains c v)) [
  | inl hit ↦ rw hit (All-dispose P c vs h.1)
  | inr miss ↦ rw miss (h.0, All-dispose P c vs h.1)
]

-- A property of the accusations that name `c` and of those left holds of all.
All-undispose {ℓ} :
    (P : List ℕ → Type ℓ) (c : ℕ) (vs : List (List ℕ))
    → ((v : List ℕ) → contains c v ≡ true → P v)
    → All P (dispose c vs)
    → All P vs
unfolding dispose
All-undispose P c [] named left = tt
All-undispose P c (v ∷ vs) named left = elim (Bool-cases (contains c v)) [
  | inl hit ↦ (named v hit, All-undispose P c vs named (rw hit at left))
  | inr miss ↦
      let kept : P v × All P (dispose c vs) = rw miss at left in
      (kept.0, All-undispose P c vs named kept.1)
]

count_pos :
    (c : ℕ) (v : List ℕ) (vs : List (List ℕ))
    → contains c v ≡ true
    → 0 < accusation_count c (v ∷ vs)
unfolding accusation_count
count_pos c v vs h = ground arith

condemn_loop_done : (fuel : ℕ) (b : BadCore) → b.accused ≡ [] → condemn_loop (suc fuel) b ≡ b
unfolding condemn_loop
condemn_loop_done fuel b e = ground arith

condemn_loop_step :
    (fuel : ℕ) (b : BadCore) (v : List ℕ) (vs : List (List ℕ))
    → b.accused ≡ v ∷ vs
    → condemn_loop (suc fuel) b ≡ condemn_loop fuel (condemn_worst b)
unfolding condemn_loop
condemn_loop_step fuel b v vs e = ground arith

-- Verdicts are only added.
condemn_loop-keeps :
    (fuel : ℕ) (b : BadCore) (v : List ℕ)
    → IsHit b.condemned v
    → IsHit (condemn_loop fuel b).condemned v
condemn_loop-keeps zero b v h = unfold condemn_loop in h
condemn_loop-keeps (suc fuel) b v h = elim (List-cases b.accused) [
  | inl e ↦ rw (condemn_loop_done fuel b e) h
  | inr (u, us, e) ↦
      let (verdict, tied, worst, same) = condemn_worst_lem b in
      rw (condemn_loop_step fuel b u us e) (
        condemn_loop-keeps fuel (condemn_worst b) v
          (rw same (IsHit-append_left b.condemned (verdict ∷ []) v h)))
]

-- A round over a valid log condemns somebody.
condemns :
    (b : BadCore) (v : List ℕ) (vs : List (List ℕ)) (tied : Bool)
    → b.accused ≡ v ∷ vs
    → All (Accuses (cores b)) b.accused
    → IsWorst (λ d. accusation_count d b.accused) (cores b) none tied
    → ⊥
condemns b v vs tied e valid (nobody, _) =
    let (c, below, named) = (subst (All (Accuses (cores b))) e valid).0 in
    let pos = count_pos c v vs named in
    let nil : accusation_count c (v ∷ vs) ≡ 0 =
      subst (λ us. accusation_count c us ≡ 0) e (nobody c below) in
    absurd (omega arith)

IsSettled-nil : (b : BadCore) → b.accused ≡ [] → IsSettled b b
IsSettled-nil b e = record {
  emptied = e;
  hits = subst (All (IsHit b.condemned)) (sym e) tt;
  adds_up = omega (arith, ap length e);
}

-- What a round leaves, once settled, settles what it started from.
IsSettled-round :
    (b c r : BadCore) (w k : ℕ)
    → c.condemned ≡ b.condemned ++ some (w, k) ∷ []
    → c.accused ≡ dispose w b.accused
    → accusation_count w b.accused ≡ k
    → ((v : List ℕ) → IsHit c.condemned v → IsHit r.condemned v)
    → IsSettled c r
    → IsSettled b r
IsSettled-round b c r w k verdicts left counted keeps s = record {
  emptied = s.emptied;
  hits =
      All-undispose (IsHit r.condemned) w b.accused
        (λ v named. keeps v (
          subst (λ cs. IsHit cs v) (sym verdicts)
            (IsHit-append_right b.condemned (some (w, k) ∷ []) v (inl named))))
        (subst (All (IsHit r.condemned)) left s.hits);
  adds_up = omega (
    arith,
    s.adds_up,
    ap tally verdicts,
    ap length left,
    tally-append b.condemned (some (w, k) ∷ []),
    one,
    length-dispose w b.accused,
  );
}
  where
    one : tally (some (w, k) ∷ []) ≡ k
    one = unfold tally in omega arith

condemn_loop-IsSettled :
    (fuel : ℕ) (b : BadCore)
    → length b.accused ≤ fuel
    → All (Accuses (cores b)) b.accused
    → IsSettled b (condemn_loop fuel b)
condemn_loop-IsSettled zero b enough valid = elim (List-cases b.accused) [
  | inl e ↦ unfold condemn_loop in IsSettled-nil b e
  | inr (u, us, e) ↦ absurd (omega (arith, ap length e))
]
condemn_loop-IsSettled (suc fuel) b enough valid = elim (List-cases b.accused) [
  | inl e ↦ rw (condemn_loop_done fuel b e) (IsSettled-nil b e)
  | inr (u, us, e) ↦
      let (verdict, tied, worst, same) = condemn_worst_lem b in
      rw (condemn_loop_step fuel b u us e)
        (round u us e verdict tied worst same (condemn_loop-IsSettled fuel (condemn_worst b)))
]
  where
    round :
        (u : List ℕ) (us : List (List ℕ))
        → b.accused ≡ u ∷ us
        → (v : Verdict) (tied : Bool) → IsWorst (λ d. accusation_count d b.accused) (cores b) v tied
        → condemn_worst b ≡ record b {
          ambiguous = b.ambiguous || tied;
          condemned = b.condemned ++ v ∷ [];
          accused = dispose_worst v b.accused;
        }
        → (length (condemn_worst b).accused ≤ fuel
            → All (Accuses (cores (condemn_worst b))) (condemn_worst b).accused
            → IsSettled (condemn_worst b) (condemn_loop fuel (condemn_worst b)))
        → IsSettled b (condemn_loop fuel (condemn_worst b))
    round u us e none tied worst same ih = absurd (condemns b u us tied e valid worst)
    round u us e (some (w, k)) tied worst same ih =
        let left : (condemn_worst b).accused ≡ dispose w b.accused =
          unfold dispose_worst in ap (λ (c : BadCore). c.accused) same in
        IsSettled-round b (condemn_worst b) _ w k (ap (λ (c : BadCore). c.condemned) same) left
          worst.1 (condemn_loop-keeps fuel (condemn_worst b))
          (ih (omega (arith, length-dispose w b.accused, worst.1, worst.2, ap length left))
            (rw same (unfold dispose_worst in All-dispose (Accuses (cores b)) w b.accused valid)))

-- From a log in which every accusation names a core that exists, `Condemn()` ends with no accusation
-- left. Every accusation names a condemned core, and the counts printed with the condemned cores add
-- up to the number of accusations (on top of those of the verdicts there were).
pub condemn-IsSettled : (b : BadCore) → All (Accuses (cores b)) b.accused → IsSettled b (condemn b)
unfolding condemn
condemn-IsSettled b valid = condemn_loop-IsSettled (length b.accused) b (omega arith) valid
