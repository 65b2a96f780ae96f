-- ===== src/Server/Fails.antt =====
-- Methods that always fail, and what a method ensures that ends in one of them.
use goph_keeper.Common.{Bool, true, false, ◌≡◌, if◌then◌else◌}
use goph_keeper.Server.Error.{Error, Result, ok, err}
use goph_keeper.Server.State.{Server}
use goph_keeper.Server.Exec.{Exec, ◌>>=◌, catch, continue, handle, raise}
use goph_keeper.Server.Ensures.{Ensures}

-- A method that always fails.
abbrev pub Fails : {A : Type 0} → Exec A → Type 0
Fails {A} m = (s : Server) (a : A) → (m s).0 ≡ ok a → ⊥

module _ {A : Type 0} where
  continue-Fails :
      {B : Type 0} (r : Result B) (u : Server) (f : B → Exec A)
      → ((b : B) → Fails (f b))
      → (a : A) → (continue r u f).0 ≡ ok a
      → ⊥
  continue-Fails (ok b) u f k a h = k b u a h
  continue-Fails (err e) u f k a h = absurd cc

  pub Fails-bind :
      {B : Type 0} (m : Exec B) (f : B → Exec A) → ((b : B) → Fails (f b)) → Fails (m >>= f)
  unfolding ◌>>=◌
  Fails-bind m f k s a h = continue-Fails (m s).0 (m s).1 f k a h

  pub Fails-raise : (e : Error) → Fails (raise {A = A} e)
  Fails-raise e s a h = cc

  handle_ensures :
      (Q : A → Server → Type 0) (r : Result A) (u : Server) (f : Error → Exec A)
      → ((e : Error) → Fails (f e))
      → ((a : A) → r ≡ ok a → Q a u)
      → (a : A) → (handle r u f).0 ≡ ok a
      → Q a (handle r u f).1
  handle_ensures Q (ok b) u f k first a h = first a h
  handle_ensures Q (err e) u f k first a h = absurd (k e u a h)

module _ {A : Type 0} {P : Server → Type 0} where
  pub Ensures-Fails : {Q : A → Server → Type 0} (m : Exec A) → Fails m → Ensures P m Q
  Ensures-Fails m f = record { after = λ s p a h. absurd (f s a h) }

  -- Where a handler of an error fails again, the method succeeded.
  pub Ensures-catch :
      {Q : A → Server → Type 0} (m : Exec A) (f : Error → Exec A)
      → ((e : Error) → Fails (f e))
      → Ensures P m Q
      → Ensures P (catch m f) Q
  unfolding catch
  Ensures-catch {Q} m f k e = record {
    after = λ s p a h. handle_ensures Q (m s).0 (m s).1 f k (e.after s p) a h;
  }

-- a test for an error
pub Ensures-if :
    {A : Type 0} {P : Server → Type 0} {Q : A → Server → Type 0} (c : Bool) (m n : Exec A)
    → Fails m
    → Ensures P n Q
    → Ensures P (if c then m else n) Q
Ensures-if true m n f k = Ensures-Fails m f
Ensures-if false m n f k = k

-- a precondition that follows from another
pub Ensures-from :
    {A : Type 0} {P P' : Server → Type 0} {Q : A → Server → Type 0} {m : Exec A}
    → ((s : Server) → P s → P' s)
    → Ensures P' m Q
    → Ensures P m Q
Ensures-from f k = record { after = λ s p a h. k.after s (f s p) a h }

pub Ensures-carrying :
    {A F : Type 0} {P : Server → Type 0} {Q : A → Server → Type 0} (m : Exec A)
    → Ensures P m Q
    → Ensures (λ s. P s × F) m (λ a s. Q a s × F)
Ensures-carrying m k = record { after = λ s (p, f) a h. (k.after s p a h, f) }
