-- ===== src/Worker/Post.antt =====
-- What holds after a step that returns a value, and after one that returns an error, on any machine;
-- nothing is said of a step that aborts.
use cpu_check.Base.{◌≡◌, refl, Bool, true, false, Option, none, some}
use cpu_check.Base.Outcome.{Outcome, done, fatal, fault, Result, ok, error}
use cpu_check.MalignBuffer.{MalignBuffer}
use cpu_check.Worker.{
  Context, World, WorkerError, M, Slot, ◌>>-◌, lift, check, unwrap, require, store, return_error,
  with_held,
}

module _ {ctx : Context} where
  abbrev pub After :
      {A : Type 0}
      → (A → World ctx → Type 0)
      → (WorkerError → World ctx → Type 0)
      → Outcome (Result WorkerError A × World ctx)
      → Type 0
  After P E (done (ok a, w)) = P a w
  After P E (done (error e, w)) = E e w
  After P E fatal = Unit
  After P E fault = Unit

  pub record Post {A : Type 0} (P : A → World ctx → Type 0) (E : WorkerError → World ctx → Type 0)
      (o : Outcome (Result WorkerError A × World ctx)) : Type 0 where
    pub after : After P E o

  pub then_Post :
      {A B : Type 0} {P : A → World ctx → Type 0} {E : WorkerError → World ctx → Type 0}
      {Q : B → World ctx → Type 0} (m : M ctx A) (f : A → M ctx B) (w : World ctx)
      → Post P E (m w)
      → ((a : A) (w' : World ctx) → P a w' → Post Q E (f a w'))
      → Post Q E ((m >>- f) w)
  then_Post {A} {P} {E} {Q} m f w h next = record { after = go (m w) h.after }
    where
      go :
          (o : Outcome (Result WorkerError A × World ctx))
          → After P E o
          → After Q E (((λ (w' : World ctx). o) >>- f) w)
      go (done (ok a, w')) h = (next a w' h).after
      go (done (error e, w')) h = h
      go fatal h = tt
      go fault h = tt

  pub map_Post :
      {A : Type 0} {P Q : A → World ctx → Type 0} {E : WorkerError → World ctx → Type 0}
      (o : Outcome (Result WorkerError A × World ctx))
      → ((a : A) (w : World ctx) → P a w → Q a w)
      → Post P E o
      → Post Q E o
  map_Post (done (ok a, w)) f h = record { after = f a w h.after }
  map_Post (done (error e, w)) f h = record { after = h.after }
  map_Post fatal f h = record { after = tt }
  map_Post fault f h = record { after = tt }

  -- Any step, when nothing is asked.
  pub any_Post :
      {A : Type 0} (o : Outcome (Result WorkerError A × World ctx))
      → Post (λ _ _. Unit {0}) (λ _ _. Unit {0}) o
  any_Post (done (ok a, w)) = record { after = tt }
  any_Post (done (error e, w)) = record { after = tt }
  any_Post fatal = record { after = tt }
  any_Post fault = record { after = tt }

  pub return_Post :
      {A : Type 0} {P : A → World ctx → Type 0} {E : WorkerError → World ctx → Type 0} (a : A)
      (w : World ctx)
      → P a w
      → Post P E (done (ok a, w))
  return_Post a w h = record { after = h }

  pub lift-Post :
      {A : Type 0} {P : A → World ctx → Type 0} {E : WorkerError → World ctx → Type 0}
      (o : Outcome A) (w : World ctx)
      → ((a : A) → o ≡ done a → P a w)
      → Post P E (lift o w)
  lift-Post (done a) w h = record { after = h a refl }
  lift-Post fatal w h = record { after = tt }
  lift-Post fault w h = record { after = tt }

  pub store-Post :
      {F : Type 0} {P : MalignBuffer × F → World ctx → Type 0}
      {E : WorkerError → World ctx → Type 0} (i : Slot) (o : Outcome (MalignBuffer × F))
      (w : World ctx)
      → ((p : MalignBuffer × F)
          → o ≡ done p
          → P p (record w { buffers = with_held i p.0 w.buffers }))
      → Post P E (store i o w)
  store-Post i (done p) w h = record { after = h p refl }
  store-Post i fatal w h = record { after = tt }
  store-Post i fault w h = record { after = tt }

  pub check-Post :
      {F : Type 0} {P : Unit {0} → World ctx → Type 0} {E : WorkerError → World ctx → Type 0}
      (e : Option F) (f : F → WorkerError) (w : World ctx)
      → (e ≡ none → P tt w)
      → ((x : WorkerError) → Post P E (return_error x w))
      → Post P E (check e f w)
  check-Post none f w h g = record { after = h refl }
  check-Post (some x) f w h g = g (f x)

  pub unwrap-Post :
      {F A : Type 0} {P : A → World ctx → Type 0} {E : WorkerError → World ctx → Type 0}
      (r : Result F A) (f : F → WorkerError) (w : World ctx)
      → ((a : A) → r ≡ ok a → P a w)
      → ((x : WorkerError) → Post P E (return_error x w))
      → Post P E (unwrap r f w)
  unwrap-Post (ok a) f w h g = record { after = h a refl }
  unwrap-Post (error x) f w h g = g (f x)

  pub require-Post :
      {P : Unit {0} → World ctx → Type 0} {E : WorkerError → World ctx → Type 0} (test : Bool)
      (e : WorkerError) (w : World ctx)
      → (test ≡ true → P tt w)
      → ((x : WorkerError) → Post P E (return_error x w))
      → Post P E (require test e w)
  require-Post true e w h g = record { after = h refl }
  require-Post false e w h g = g e
