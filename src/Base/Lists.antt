-- ===== src/Base/Lists.antt =====
-- Lists measured and indexed by native numbers, under the library's names, and the two
-- operations on a block of memory: `slice` reads a range and `write` stores one.
use Prim.Native.Nat.{ℕ, zero, suc, ◌+◌, ◌-◌, ◌≤◌, min}
use mathlib.Core.Path.{◌≡◌, refl, sym, ap, ◌∙◌}
use mathlib.Core.List.{List, [], ◌∷◌, ◌++◌}
use mathlib.Core.Option.{Option, none, some}
use native.Mathlib.Omega.{arith}

module _ {ℓ} {A : Type ℓ} where
  abbrev pub length : List A → ℕ
  length [] = 0
  length (x ∷ xs) = suc (length xs)

  abbrev pub get_elem? : List A → ℕ → Option A
  get_elem? [] i = none
  get_elem? (x ∷ xs) zero = some x
  get_elem? (x ∷ xs) (suc i) = get_elem? xs i

  abbrev pub get_or : List A → ℕ → A → A
  get_or [] i d = d
  get_or (x ∷ xs) zero d = x
  get_or (x ∷ xs) (suc i) d = get_or xs i d

  abbrev pub take : ℕ → List A → List A
  take zero xs = []
  take (suc n) [] = []
  take (suc n) (x ∷ xs) = x ∷ take n xs

  abbrev pub drop : ℕ → List A → List A
  drop zero xs = xs
  drop (suc n) [] = []
  drop (suc n) (x ∷ xs) = drop n xs

  abbrev pub replicate : ℕ → A → List A
  replicate zero a = []
  replicate (suc n) a = a ∷ replicate n a

  -- `n` items from position `p`.
  abbrev pub slice : List A → ℕ → ℕ → List A
  slice xs p n = take n (drop p xs)

  -- The items `ys` over the first ones; what does not fit is dropped.
  abbrev pub overlay : List A → List A → List A
  overlay [] xs = xs
  overlay (y ∷ ys) [] = []
  overlay (y ∷ ys) (x ∷ xs) = y ∷ overlay ys xs

  -- The items `ys` over those from position `p`.
  abbrev pub write : List A → ℕ → List A → List A
  write xs zero ys = overlay ys xs
  write [] (suc p) ys = []
  write (x ∷ xs) (suc p) ys = x ∷ write xs p ys

module _ {ℓ} {A : Type ℓ} where
  pub length-append : (xs ys : List A) → length (xs ++ ys) ≡ length xs + length ys
  length-append [] ys = omega arith
  length-append (x ∷ xs) ys = omega (arith, length-append xs ys)

  pub take-append-drop : (n : ℕ) (xs : List A) → take n xs ++ drop n xs ≡ xs
  take-append-drop zero xs = refl
  take-append-drop (suc n) [] = refl
  take-append-drop (suc n) (x ∷ xs) = ap (◌∷◌ x) (take-append-drop n xs)

  pub length-take : (n : ℕ) (xs : List A) → length (take n xs) ≡ min n (length xs)
  length-take zero xs = omega arith
  length-take (suc n) [] = omega arith
  length-take (suc n) (x ∷ xs) = omega (arith, length-take n xs)

  pub length-drop : (n : ℕ) (xs : List A) → length (drop n xs) ≡ length xs - n
  length-drop zero xs = omega arith
  length-drop (suc n) [] = omega arith
  length-drop (suc n) (x ∷ xs) = omega (arith, length-drop n xs)

  pub length-slice : (xs : List A) (p n : ℕ) → p + n ≤ length xs → length (slice xs p n) ≡ n
  length-slice xs p n h = omega (arith, length-take n (drop p xs), length-drop p xs)

  pub length-replicate : (n : ℕ) (a : A) → length (replicate n a) ≡ n
  length-replicate zero a = refl
  length-replicate (suc n) a = ap suc (length-replicate n a)

  pub length-overlay : (ys xs : List A) → length (overlay ys xs) ≡ length xs
  length-overlay [] xs = refl
  length-overlay (y ∷ ys) [] = refl
  length-overlay (y ∷ ys) (x ∷ xs) = ap suc (length-overlay ys xs)

  pub length-write : (xs : List A) (p : ℕ) (ys : List A) → length (write xs p ys) ≡ length xs
  length-write xs zero ys = length-overlay ys xs
  length-write [] (suc p) ys = refl
  length-write (x ∷ xs) (suc p) ys = ap suc (length-write xs p ys)

  overlay-append :
      (ys zs xs : List A) → write (overlay ys xs) (length ys) zs ≡ overlay (ys ++ zs) xs
  overlay-append [] zs xs = refl
  overlay-append (y ∷ ys) zs [] = refl
  overlay-append (y ∷ ys) zs (x ∷ xs) = ap (◌∷◌ y) (overlay-append ys zs xs)

  -- Two stores that abut are one store.
  pub write-append :
      (xs : List A) (p q : ℕ) (ys zs : List A)
      → q ≡ p + length ys
      → write (write xs p ys) q zs ≡ write xs p (ys ++ zs)
  write-append xs zero q ys zs e =
      let e' : q ≡ length ys = omega arith in
      ap (λ k. write (overlay ys xs) k zs) e' ∙ overlay-append ys zs xs
  write-append [] (suc p) zero ys zs e = absurd (omega arith)
  write-append [] (suc p) (suc q) ys zs e = refl
  write-append (x ∷ xs) (suc p) zero ys zs e = absurd (omega arith)
  write-append (x ∷ xs) (suc p) (suc q) ys zs e =
      ap (◌∷◌ x) (write-append xs p q ys zs (omega arith))

  pub write-nil : (xs : List A) (p : ℕ) → write xs p [] ≡ xs
  write-nil xs zero = refl
  write-nil [] (suc p) = refl
  write-nil (x ∷ xs) (suc p) = ap (◌∷◌ x) (write-nil xs p)

  take-overlay : (ys xs : List A) → length ys ≤ length xs → take (length ys) (overlay ys xs) ≡ ys
  take-overlay [] xs h = refl
  take-overlay (y ∷ ys) [] h = absurd (omega arith)
  take-overlay (y ∷ ys) (x ∷ xs) h = ap (◌∷◌ y) (take-overlay ys xs (omega arith))

  -- What a store leaves up to its end.
  pub take-write_end :
      (xs : List A) (p : ℕ) (ys : List A)
      → p + length ys ≤ length xs
      → take (p + length ys) (write xs p ys) ≡ take p xs ++ ys
  take-write_end xs zero ys h =
      let e : 0 + length ys ≡ length ys = omega arith in
      ap (λ k. take k (overlay ys xs)) e ∙ take-overlay ys xs (omega arith)
  take-write_end [] (suc p) ys h = absurd (omega arith)
  take-write_end (x ∷ xs) (suc p) ys h =
      let e : suc p + length ys ≡ suc (p + length ys) = omega arith in
      ap (λ k. take k (x ∷ write xs p ys)) e ∙ ap (◌∷◌ x) (take-write_end xs p ys (omega arith))

  -- What was stored is read back.
  pub slice-write_self :
      (xs : List A) (p : ℕ) (ys : List A) (n : ℕ)
      → n ≡ length ys
      → p + length ys ≤ length xs
      → slice (write xs p ys) p n ≡ ys
  slice-write_self xs zero ys n e h =
      ap (λ k. take k (overlay ys xs)) e ∙ take-overlay ys xs (omega arith)
  slice-write_self [] (suc p) ys n e h = absurd (omega arith)
  slice-write_self (x ∷ xs) (suc p) ys n e h = slice-write_self xs p ys n e (omega arith)

  -- A full slice of the list itself.
  pub take-length : (xs : List A) (n : ℕ) → length xs ≤ n → take n xs ≡ xs
  take-length [] zero h = refl
  take-length [] (suc n) h = refl
  take-length (x ∷ xs) zero h = absurd (omega arith)
  take-length (x ∷ xs) (suc n) h = ap (◌∷◌ x) (take-length xs n (omega arith))

-- A predicate on every item.
abbrev pub All {ℓ κ} : {A : Type ℓ} → (A → Type κ) → List A → Type κ
All P [] = Unit
All P (x ∷ xs) = P x × All P xs

module _ {ℓ} {A : Type ℓ} where
  take-overlay_inside :
      (ys xs : List A) (n : ℕ) → length ys ≤ n → take n (overlay ys xs) ≡ overlay ys (take n xs)
  take-overlay_inside [] xs n h = refl
  take-overlay_inside (y ∷ ys) xs zero h = absurd (omega arith)
  take-overlay_inside (y ∷ ys) [] (suc n) h = refl
  take-overlay_inside (y ∷ ys) (x ∷ xs) (suc n) h =
      ap (◌∷◌ y) (take-overlay_inside ys xs n (omega arith))

  take-write :
      (xs : List A) (p : ℕ) (ys : List A) (n : ℕ)
      → p + length ys ≤ n
      → take n (write xs p ys) ≡ write (take n xs) p ys
  take-write xs zero ys n h = take-overlay_inside ys xs n (omega arith)
  take-write xs (suc p) ys zero h = absurd (omega arith)
  take-write [] (suc p) ys (suc n) h = refl
  take-write (x ∷ xs) (suc p) ys (suc n) h = ap (◌∷◌ x) (take-write xs p ys n (omega arith))

  -- A store inside a range, seen in the range.
  pub slice-write :
      (xs : List A) (o p q : ℕ) (ys : List A) (n : ℕ)
      → q ≡ o + p
      → p + length ys ≤ n
      → slice (write xs q ys) o n ≡ write (slice xs o n) p ys
  slice-write xs zero p q ys n e h =
      let e' : q ≡ p = omega arith in ap (λ k. take n (write xs k ys)) e' ∙ take-write xs p ys n h
  slice-write xs (suc o) p zero ys n e h = absurd (omega arith)
  slice-write [] (suc o) p (suc q) ys zero e h = absurd_or_nil p ys h
    where
      absurd_or_nil : (p : ℕ) (ys : List A) → p + length ys ≤ 0 → [] ≡ write [] p ys
      absurd_or_nil zero [] h = refl
      absurd_or_nil zero (y ∷ ys) h = absurd (omega arith)
      absurd_or_nil (suc p) ys h = refl
  slice-write [] (suc o) zero (suc q) [] (suc n) e h = refl
  slice-write [] (suc o) zero (suc q) (y ∷ ys) (suc n) e h = refl
  slice-write [] (suc o) (suc p) (suc q) ys (suc n) e h = refl
  slice-write (x ∷ xs) (suc o) p (suc q) ys n e h = slice-write xs o p q ys n (omega arith) h

  -- A store over the whole list.
  pub write_all : (xs ys : List A) → length ys ≡ length xs → write xs 0 ys ≡ ys
  write_all [] [] h = refl
  write_all [] (y ∷ ys) h = absurd (omega arith)
  write_all (x ∷ xs) [] h = absurd (omega arith)
  write_all (x ∷ xs) (y ∷ ys) h = ap (◌∷◌ y) (write_all xs ys (omega arith))

  pub drop-nil : (m : ℕ) → drop {A = A} m [] ≡ []
  drop-nil zero = refl
  drop-nil (suc m) = refl

  pub drop-drop : (m n : ℕ) (xs : List A) → drop m (drop n xs) ≡ drop (n + m) xs
  drop-drop m zero xs = let e : m ≡ 0 + m = omega arith in ap (λ k. drop k xs) e
  drop-drop m (suc n) [] = drop-nil m ∙ sym (drop-nil (suc n + m))
  drop-drop m (suc n) (x ∷ xs) =
      let e : suc (n + m) ≡ suc n + m = omega arith in
      drop-drop m n xs ∙ ap (λ k. drop k (x ∷ xs)) e

  pub take-nil : (m : ℕ) → take {A = A} m [] ≡ []
  take-nil zero = refl
  take-nil (suc m) = refl

  pub take-add : (p n : ℕ) (xs : List A) → take p xs ++ take n (drop p xs) ≡ take (p + n) xs
  take-add zero n xs = let e : n ≡ 0 + n = omega arith in ap (λ k. take k xs) e
  take-add (suc p) n [] = take-nil n ∙ sym (take-nil (suc p + n))
  take-add (suc p) n (x ∷ xs) =
      let e : suc (p + n) ≡ suc p + n = omega arith in
      ap (◌∷◌ x) (take-add p n xs) ∙ ap (λ k. take k (x ∷ xs)) e

pub All-mono {ℓ κ μ} :
    {A : Type ℓ} (P : A → Type κ) (Q : A → Type μ) (xs : List A)
    → ((x : A) → P x → Q x)
    → All P xs
    → All Q xs
All-mono P Q [] f h = tt
All-mono P Q (x ∷ xs) f h = (f x h.0, All-mono P Q xs f h.1)

pub All-snoc {ℓ κ} :
    {A : Type ℓ} (P : A → Type κ) (xs : List A) (x : A) → All P xs → P x → All P (xs ++ x ∷ [])
All-snoc P [] x h p = (p, tt)
All-snoc P (y ∷ ys) x h p = (h.0, All-snoc P ys x h.1 p)
