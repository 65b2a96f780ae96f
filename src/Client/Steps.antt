-- ===== src/Client/Steps.antt =====
-- What the steps of a client method that succeeded have returned and left.
use goph_keeper.Common.{Bool, true, ◌≡◌, refl, ap, Option, some, arith}
use goph_keeper.Client.Run.{
  Error, Result, ok, err, Exec, continue, ◌>>=◌, guard, found, on_error, other_error,
}

-- A run that succeeds with a value in a state.
abbrev pub Returns : {S A : Type 0} → Exec S A → S → A → S → Type 0
Returns {S} {A} m s a s' = ◌≡◌ {A = Result A × S} (m s) (ok a, s')

module _ {S A B : Type 0} where
  continue_steps :
      (r : Result A) (u : S) (f : A → Exec S B) (b : B) (s' : S)
      → ◌≡◌ {A = Result B × S} (continue r u f) (ok b, s')
      → (a : A) × (r ≡ ok a) × Returns (f a) u b s'
  continue_steps (ok a) u f b s' h = (a, refl, h)
  continue_steps (err e) u f b s' h = absurd cc

  -- A sequence succeeded: so did its first step, and the rest after it.
  pub steps :
      (m : Exec S A) (f : A → Exec S B) (s : S) (b : B) (s' : S)
      → Returns (m >>= f) s b s'
      → (a : A) × (u : S) × (Returns m s a u × Returns (f a) u b s')
  unfolding ◌>>=◌
  steps m f s b s' h =
      let (a, e, k) = continue_steps (m s).0 (m s).1 f b s' h in (a, (m s).1, (cc, k))

  -- The same, for a result `C` that follows from the two runs.
  pub in_steps :
      {C : Type 0} (m : Exec S A) (f : A → Exec S B) (s : S) (b : B) (s' : S)
      → Returns (m >>= f) s b s'
      → ((a : A) (u : S) → Returns m s a u → Returns (f a) u b s' → C)
      → C
  in_steps m f s b s' h next = let (a, u, (first, rest)) = steps m f s b s' h in next a u first rest

  -- A step that succeeds hands its value on.
  pub then_step :
      (m : Exec S A) (f : A → Exec S B) (s : S) (a : A) (u : S)
      → Returns m s a u
      → (m >>= f) s ≡ f a u
  unfolding ◌>>=◌
  then_step m f s a u h = ap (λ (r : Result A × S). continue r.0 r.1 f) h

pub guard_passed :
    {S : Type 0} (b : Bool) (e : Error) (s : S) (a : Unit {0}) (s' : S)
    → Returns (guard b e) s a s'
    → (b ≡ true) × (s' ≡ s)
guard_passed b e s a s' h = ground arith

pub found-some :
    {S A : Type 0} (o : Option A) (e : Error) (s : S) (a : A) (s' : S)
    → Returns (found o e) s a s'
    → (o ≡ some a) × (s' ≡ s)
found-some o e s a s' h = ground arith

other_error_ok : {A : Type 0} (r : Result A) (e : Error) (a : A) → other_error r e ≡ ok a → r ≡ ok a
other_error_ok (ok b) e a h = h
other_error_ok (err d) e a h = absurd cc

module _ {S A : Type 0} where
  pub on_error_inner :
      (m : Exec S A) (e : Error) (s : S) (a : A) (s' : S)
      → Returns (on_error m e) s a s'
      → Returns m s a s'
  unfolding on_error
  on_error_inner m e s a s' h =
      let k = other_error_ok (m s).0 e a (ap (λ (r : Result A × S). r.0) h) in cc
