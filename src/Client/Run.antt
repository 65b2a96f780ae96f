-- ===== src/Client/Run.antt =====
-- A client method: it acts on a state, the local storage or the whole application, and returns a
-- value or an error. A panic is an error here, since the process ends with it.
use goph_keeper.Common.{Bool, if◌then◌else◌, Option, none, some}
use goph_keeper.Server.Error.{Error as ServerError}

pub data Error : Type 0 where
  storage_failure random_failure file_failure : Error
  invalid_key_size invalid_nonce_size open_failure : Error
  login_required item_not_found invalid_password invalid_response commit_failed : Error
  unexpected_end no_header too_short panic : Error
  rpc : ServerError → Error

pub data Result {ℓ} (A : Type ℓ) : Type ℓ where
  ok : A → Result A
  err : Error → Result A

abbrev pub Exec {ℓ} : Type ℓ → Type ℓ → Type ℓ
Exec S A = S → Result A × S

module _ {ℓ} {S A B : Type ℓ} where
  abbrev pub continue : Result A → S → (A → Exec S B) → Result B × S
  continue (ok a) s f = f a s
  continue (err e) s f = (err e, s)

infixl 5 ◌>>=◌ ◌>>◌
unfoldable pub ◌>>=◌ {ℓ} : {S A B : Type ℓ} → Exec S A → (A → Exec S B) → Exec S B
◌>>=◌ m f s = let (r, s') = m s in continue r s' f

abbrev pub ◌>>◌ {ℓ} : {S A B : Type ℓ} → Exec S A → Exec S B → Exec S B
m >> n = m >>= λ _. n

module _ {ℓ} {A : Type ℓ} where
  abbrev pub or_error : Option A → Error → Result A
  or_error none e = err e
  or_error (some a) e = ok a

  abbrev pub other_error : Result A → Error → Result A
  other_error (ok a) e = ok a
  other_error (err d) e = err e

module _ {ℓ} {S A : Type ℓ} where
  abbrev pub pure : A → Exec S A
  pure a s = (ok a, s)

  abbrev pub raise : Error → Exec S A
  raise e s = (err e, s)

  -- a value that may be missing
  abbrev pub found : Option A → Error → Exec S A
  found o e s = (or_error o e, s)

  -- Another error in place of the one that `m` fails with.
  unfoldable pub on_error : Exec S A → Error → Exec S A
  on_error m e s = let (r, s') = m s in (other_error r e, s')

-- if !condition { return err }
abbrev pub guard : {S : Type 0} → Bool → Error → Exec S (Unit {0})
guard b e s = (if b then ok tt else err e, s)
