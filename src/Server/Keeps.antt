-- ===== src/Server/Keeps.antt =====
-- Invariants of methods, whether they return or fail: one rule for each way to build a method.
use goph_keeper.Common.{if◌then◌else◌, true, false, Bool, Option, some}
use goph_keeper.Server.Error.{Error, Result, ok, err}
use goph_keeper.Server.State.{Server}
use goph_keeper.Server.Exec.{
  Exec, continue, handle, catch, ignore, ◌>>=◌, pure, raise, found, guard,
}

pub record Keeps {ℓ κ} {A : Type ℓ} (P : Server → Type κ) (m : Exec A) : Type κ where
  pub at : (s : Server) → P s → P (m s).1

module _ {ℓ κ} {A : Type ℓ} {P : Server → Type κ} where
  pub Keeps-pure : (a : A) → Keeps P (pure a)
  Keeps-pure a = record { at = λ s h. h }

  pub Keeps-raise : (e : Error) → Keeps P (raise {A = A} e)
  Keeps-raise e = record { at = λ s h. h }

  pub Keeps-found : (o : Option A) (e : Error) → Keeps P (found o e)
  Keeps-found o e = record { at = λ s h. h }

pub Keeps-guard {κ} : {P : Server → Type κ} (b : Bool) (e : Error) → Keeps P (guard b e)
Keeps-guard b e = record { at = λ s h. h }

module _ {ℓ κ} {A B : Type ℓ} {P : Server → Type κ} where
  continue_keeps :
      (r : Result A) (s : Server) (f : A → Exec B)
      → P s
      → ((a : A) → Keeps P (f a))
      → P (continue r s f).1
  continue_keeps (ok a) s f h k = (k a).at s h
  continue_keeps (err e) s f h k = h

  pub Keeps-bind :
      (m : Exec A) (f : A → Exec B) → Keeps P m → ((a : A) → Keeps P (f a)) → Keeps P (m >>= f)
  unfolding ◌>>=◌
  Keeps-bind m f km kf = record { at = λ s h. continue_keeps (m s).0 (m s).1 f (km.at s h) kf }

-- A value that is there is handed on.
pub Keeps-found-some {ℓ κ} :
    {A B : Type ℓ} {P : Server → Type κ} (a : A) (e : Error) (f : A → Exec B)
    → Keeps P (f a)
    → Keeps P (found (some a) e >>= f)
unfolding ◌>>=◌
Keeps-found-some a e f k = record { at = λ s h. k.at s h }

module _ {ℓ κ} {A : Type ℓ} {P : Server → Type κ} where
  handle_keeps :
      (r : Result A) (s : Server) (f : Error → Exec A)
      → P s
      → ((e : Error) → Keeps P (f e))
      → P (handle r s f).1
  handle_keeps (ok a) s f h k = h
  handle_keeps (err e) s f h k = (k e).at s h

  pub Keeps-catch :
      (m : Exec A) (f : Error → Exec A)
      → Keeps P m
      → ((e : Error) → Keeps P (f e))
      → Keeps P (catch m f)
  unfolding catch
  Keeps-catch m f km kf = record { at = λ s h. handle_keeps (m s).0 (m s).1 f (km.at s h) kf }

  pub Keeps-if : (b : Bool) (m n : Exec A) → Keeps P m → Keeps P n → Keeps P (if b then m else n)
  Keeps-if true m n km kn = km
  Keeps-if false m n km kn = kn

pub Keeps-ignore {κ} : {P : Server → Type κ} (m : Exec (Unit {0})) → Keeps P m → Keeps P (ignore m)
Keeps-ignore m km = record { at = λ s h. km.at s h }
