-- ===== src/Server/Ensures.antt =====
-- What holds after a method that returned: from a condition before it, and one rule for each way to
-- build a method.
use goph_keeper.Common.{some, ◌≡◌, refl, arith}
use goph_keeper.Server.Error.{Error, Result, ok, err}
use goph_keeper.Server.State.{Server}
use goph_keeper.Server.Exec.{found, pure, catch, on_error, Exec, continue, ◌>>=◌}
use goph_keeper.Server.Steps.{called}
use goph_keeper.Server.Transaction.{transaction}
use goph_keeper.Server.Keeps.{Keeps}
use goph_keeper.Server.Frame.{transaction-ok}

pub record Ensures {A : Type 0} (P : Server → Type 0) (m : Exec A) (Q : A → Server → Type 0)
    : Type 0 where
  pub after : (s : Server) → P s → (a : A) → (m s).0 ≡ ok a → Q a (m s).1

-- nothing
abbrev pub Any : Server → Type 0
Any s = Unit

module _ {A B : Type 0} {R : A → Server → Type 0} {Q : B → Server → Type 0} where
  continue_ensures :
      (r : Result A) (u : Server) (f : A → Exec B)
      → ((a : A) → r ≡ ok a → R a u)
      → ((a : A) → Ensures (R a) (f a) Q)
      → (b : B) → (continue r u f).0 ≡ ok b
      → Q b (continue r u f).1
  continue_ensures (ok a) u f first rest b h = (rest a).after u (first a refl) b h
  continue_ensures (err e) u f first rest b h = absurd cc

  pub Ensures-bind :
      {P : Server → Type 0} (m : Exec A) (f : A → Exec B)
      → Ensures P m R
      → ((a : A) → Ensures (R a) (f a) Q)
      → Ensures P (m >>= f) Q
  unfolding ◌>>=◌
  Ensures-bind m f first rest = record {
    after = λ s p b h. continue_ensures (m s).0 (m s).1 f (first.after s p) rest b h;
  }

module _ {A : Type 0} {P : Server → Type 0} where
  pub Ensures-Keeps : (m : Exec A) → Keeps P m → Ensures P m (λ _. P)
  Ensures-Keeps m k = record { after = λ s p a h. k.at s p }

  pub Ensures-Any : (m : Exec A) → Ensures P m (λ _. Any)
  Ensures-Any m = record { after = λ s p a h. tt }

-- A fact that is not about the state stays.
pub Ensures-fact : {A : Type 0} {F : Type 0} (m : Exec A) → Ensures (λ _. F) m (λ _ _. F)
Ensures-fact m = record { after = λ s p a h. p }

ok_injective : {A : Type 0} (a b : A) → ◌≡◌ {A = Result A} (ok a) (ok b) → a ≡ b
ok_injective a b h = cc

pub Ensures-returns :
    {A : Type 0} {P : Server → Type 0} {Q : A → Server → Type 0} (a : A)
    → ((s : Server) → P s → Q a s)
    → Ensures P (pure a) Q
Ensures-returns {Q = Q} a k = record { after = λ s p b h. rw (ok_injective a b h) at (k s p) }

-- Another error does not change what a success leaves.
pub Ensures-on_error :
    {A : Type 0} {P : Server → Type 0} {Q : A → Server → Type 0} (m : Exec A) (f : Error → Error)
    → Ensures P m Q
    → Ensures P (on_error m f) Q
unfolding catch
Ensures-on_error m f k = record { after = λ s p a e. ground (arith, k.after s p a) }

pub Ensures-found :
    {A B : Type 0} {P : Server → Type 0} {Q : B → Server → Type 0} (a : A) (e : Error)
    (f : A → Exec B)
    → Ensures P (f a) Q
    → Ensures P (found (some a) e >>= f) Q
unfolding ◌>>=◌
Ensures-found a e f k = record { after = λ s p b h. k.after s p b h }

-- What holds of the tables after a function holds after the transaction that runs it.
pub Ensures-transaction :
    {A : Type 0} {P : Server → Type 0} {Q : A → Server → Type 0} (m : Exec A)
    → ((s : Server) → P s → P (called s))
    → ((a : A) (s t : Server) → s.db ≡ t.db → Q a t → Q a s)
    → Ensures P m Q
    → Ensures P (transaction m) Q
Ensures-transaction m begins by_tables k = record {
  after = λ s p a h.
      let (ran, same) = transaction-ok m s a h in
      by_tables a (transaction m s).1 (m (called s)).1 same (k.after (called s) (begins s p) a ran);
}

-- A step after a method that ensures a fact about its result needs to keep the invariant only for such
-- results.
module _ {A B : Type 0} {P : Server → Type 0} (F : A → Type 0) where
  continue_knows :
      (r : Result A) (u : Server) (f : A → Exec B)
      → P u
      → ((a : A) → r ≡ ok a → F a)
      → ((a : A) → F a → Keeps P (f a))
      → P (continue r u f).1
  continue_knows (ok a) u f p known rest = (rest a (known a refl)).at u p
  continue_knows (err e) u f p known rest = p

  pub Keeps-knowing :
      (m : Exec A) (f : A → Exec B)
      → Keeps P m
      → Ensures P m (λ a _. F a)
      → ((a : A) → F a → Keeps P (f a))
      → Keeps P (m >>= f)
  unfolding ◌>>=◌
  Keeps-knowing m f k known rest = record {
    at = λ s p. continue_knows (m s).0 (m s).1 f (k.at s p) (known.after s p) rest;
  }
