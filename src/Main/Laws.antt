-- ===== src/Main/Laws.antt =====
-- Which arguments `main` takes, and which processors it tests.
use cpu_check.Base.{
  ℕ, zero, suc, ◌+◌, ◌≡◌, ◌<◌, ◌⊎◌, refl, sym, ap, ◌∙◌, inl, inr, Bool, true, false, not, ◌&&◌,
  ◌||◌, Option, none, some, List, [], ◌∷◌, ltb, leb, ◌==◌, arith, ==_iff, Bool-cases, List-cases,
  if◌then◌else◌,
}
use mathlib.Core.Path.{subst}
use cpu_check.Base.Int.{ℤ}
use cpu_check.Worker.{Options}
use cpu_check.Main.{
  Streams, Flags, valued, simple_flag, read_letters, read_argument, read_arguments, or_else,
  and_then, listed, unlisted, all_from, or_all, tested,
}

-- The letters that stand alone, and those that take a value.
abbrev pub simple_letters : List ℕ
simple_letters =
    b'a' ∷ b'b' ∷ b'd' ∷ b'e' ∷ b'F' ∷ b'g' ∷ b'H' ∷ b'h' ∷ b'l' ∷ b'm' ∷ b'n' ∷ b'N' ∷ b'p' ∷ b'r'
    ∷ b's' ∷ b'u' ∷ b'x' ∷ b'X' ∷ b'Y' ∷ b'z' ∷ []

abbrev pub valued_letters : List ℕ
valued_letters = b'c' ∷ b'f' ∷ b'q' ∷ b'k' ∷ b't' ∷ []

abbrev pub member : ℕ → List ℕ → Bool
member c [] = false
member c (k ∷ ks) = c == k || member c ks

-- Every letter is one of these, up to the first that takes a value.
unfoldable pub are_letters : List ℕ → Bool
are_letters [] = true
are_letters (c ∷ s) = member c valued_letters || member c simple_letters && are_letters s

unfoldable pub are_arguments : List (List ℕ) → Bool
unfolding are_letters
are_arguments [] = true
are_arguments ([] ∷ rest) = false
are_arguments ((c ∷ s) ∷ rest) = (c == b'-' && are_letters s) && are_arguments rest

unfoldable pub is_some : {A : Type 0} → Option A → Bool
is_some none = false
is_some (some a) = true

or_if :
    {A : Type 0} (b : Bool) (x : A) (y : Option A) {m : Bool}
    → is_some y ≡ m
    → is_some (if b then some x else y) ≡ (b || m)
unfolding is_some
or_if true x y e = refl
or_if false x y e = e

valued-member :
    (st : Streams) (c : ℕ) (s : List ℕ) (fl : Flags)
    → is_some (valued st c s fl) ≡ member c valued_letters
unfolding valued is_some
valued-member st c s fl = or_if (c == b'c') _ _ (
    or_if (c == b'f') _ _
      (or_if (c == b'q') _ _ (or_if (c == b'k') _ _ (or_if (c == b't') _ _ refl))))

simple_flag-member : (c : ℕ) (o : Options) → is_some (simple_flag c o) ≡ member c simple_letters
unfolding simple_flag is_some
simple_flag-member c o = or_if (c == b'a') _ _ (
    or_if (c == b'b') _ _ (
      or_if (c == b'd') _ _ (
        or_if (c == b'e') _ _ (
          or_if (c == b'F') _ _ (
            or_if (c == b'g') _ _ (
              or_if (c == b'H') _ _ (
                or_if (c == b'h') _ _ (
                  or_if (c == b'l') _ _ (
                    or_if (c == b'm') _ _ (
                      or_if (c == b'n') _ _ (
                        or_if (c == b'N') _ _ (
                          or_if (c == b'p') _ _ (
                            or_if (c == b'r') _ _ (
                              or_if (c == b's') _ _ (
                                or_if (c == b'u') _ _ (
                                  or_if (c == b'x') _ _ (
                                    or_if (c == b'X') _ _ (
                                      or_if (c == b'Y') _ _
                                        (or_if (c == b'z') _ _ refl)))))))))))))))))))

is_some-or_else :
    {A : Type 0} {m n : Bool} (x y : Option A)
    → is_some x ≡ m
    → is_some y ≡ n
    → is_some (or_else x y) ≡ (m || n)
unfolding is_some
is_some-or_else {n} (some a) y e f = ap (λ b. b || n) e
is_some-or_else {n} none y e f = f ∙ ap (λ b. b || n) e

is_some-and_then :
    {A B : Type 0} {m n : Bool} (x : Option A) (f : A → Option B)
    → is_some x ≡ m
    → ((a : A) → is_some (f a) ≡ n)
    → is_some (and_then x f) ≡ (m && n)
unfolding is_some
is_some-and_then {n} none f e g = ap (λ b. b && n) e
is_some-and_then {n} (some a) f e g = g a ∙ ap (λ b. b && n) e

read_letters-are_letters :
    (st : Streams) (s : List ℕ) (fl : Flags) → is_some (read_letters st s fl) ≡ are_letters s
unfolding read_letters are_letters is_some
read_letters-are_letters st [] fl = refl
read_letters-are_letters st (c ∷ s) fl =
    is_some-or_else (valued st c s fl) _ (valued-member st c s fl) (
      is_some-and_then (simple_flag c fl.options) _ (simple_flag-member c fl.options)
        (λ o. read_letters-are_letters st s (record fl { options = o })))

read_argument-are_letters :
    (st : Streams) (c : ℕ) (s : List ℕ) (fl : Flags)
    → is_some (read_argument st (c ∷ s) fl) ≡ (c == b'-' && are_letters s)
unfolding read_argument is_some
read_argument-are_letters st c s fl = elim (Bool-cases (c == b'-')) [
  | inr e ↦ rw e refl
  | inl e ↦ rw e (read_letters-are_letters st s fl)
]

-- Whether `main` takes the arguments, or shows the usage message, depends on the letters alone: each
-- argument is a `-` and known letters up to the first that takes a value, whatever the flags were.
pub read_arguments-are_arguments :
    (st : Streams) (words : List (List ℕ)) (fl : Flags)
    → is_some (read_arguments st words fl) ≡ are_arguments words
unfolding read_arguments are_arguments is_some read_argument
read_arguments-are_arguments st [] fl = refl
read_arguments-are_arguments st ([] ∷ rest) fl = refl
read_arguments-are_arguments st ((c ∷ s) ∷ rest) fl =
    is_some-and_then (read_argument st (c ∷ s) fl) _ (read_argument-are_letters st c s fl)
      (read_arguments-are_arguments st rest)

listed-all_from : (i j k : ℕ) → listed i (all_from j k) ≡ (leb j i && ltb i (j + k))
unfolding listed all_from
listed-all_from i j zero = ground arith
listed-all_from i j (suc k) = ground (arith, listed-all_from i (j + 1) k)

listed-unlisted :
    (ts : List ℤ) (i j k : ℕ)
    → listed i (unlisted ts j k) ≡ ((leb j i && ltb i (j + k)) && not (listed i ts))
unfolding listed unlisted
listed-unlisted ts i j zero = ground arith
listed-unlisted ts i j (suc k) =
    let rest = listed-unlisted ts i (j + 1) k in
    elim (Bool-cases (listed j ts)) [
      | inl t ↦ elim (Bool-cases (j == i)) [
        | inl same ↦
            let here : listed i ts ≡ true =
              subst (λ n. listed n ts ≡ true) ((==_iff j i).0 same) t in
            ground (arith, rest, t, here)
        | inr other ↦ ground (arith, rest, t, other)
      ]
      | inr f ↦ elim (Bool-cases (j == i)) [
        | inl same ↦
            let here : listed i ts ≡ false =
              subst (λ n. listed n ts ≡ false) ((==_iff j i).0 same) f in
            ground (arith, rest, f, here)
        | inr other ↦ ground (arith, rest, f, other)
      ]
    ]

tested-unlisted :
    (cpus : ℕ) (fl : Flags)
    → fl.options.do_invert_cores ≡ true
    → tested cpus fl ≡ or_all cpus (unlisted fl.tid_list 0 cpus)
unfolding tested
tested-unlisted cpus fl on = rw on refl

-- With `-N` the processors that are tested are those of the machine that the list does not name; or
-- the list names every processor of the machine, and then all of them are tested.
pub tested-listed :
    (cpus : ℕ) (fl : Flags)
    → fl.options.do_invert_cores ≡ true
    → ((i : ℕ) → listed i (tested cpus fl) ≡ (ltb i cpus && not (listed i fl.tid_list)))
      ⊎ (((i : ℕ) → i < cpus → listed i fl.tid_list ≡ true)
          × ((i : ℕ) → listed i (tested cpus fl) ≡ ltb i cpus))
unfolding or_all listed
tested-listed cpus fl on =
    let ts = fl.tid_list in
    let first = tested-unlisted cpus fl on in
    elim (List-cases (unlisted ts 0 cpus)) [
      | inr (x, ys, e) ↦ inl (λ i.
          let same : tested cpus fl ≡ unlisted ts 0 cpus = first ∙ ap (or_all cpus) e ∙ sym e in
          ap (listed i) same ∙ listed-unlisted ts i 0 cpus ∙ ground arith)
      | inl e ↦ inr (
        (λ i h. ground (arith, h, listed-unlisted ts i 0 cpus, ap (listed i) e)),
        (λ i. ap (listed i) (first ∙ ap (or_all cpus) e) ∙ listed-all_from i 0 cpus ∙ ground arith),
      )
    ]
