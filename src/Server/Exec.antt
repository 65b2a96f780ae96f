-- ===== src/Server/Exec.antt =====
-- A handler or a repository method: it acts on the server's state and returns a value or an
-- error. What it wrote before an error stays written, unless a transaction takes it back.
use goph_keeper.Common.{ℕ, ◌+◌, String, Bool, if◌then◌else◌, Option, none, some}
use goph_keeper.Server.Error.{Error, Result, ok, err}
use goph_keeper.Server.State.{Server}

abbrev pub Exec {ℓ} : Type ℓ → Type ℓ
Exec A = Server → Result A × Server

module _ {ℓ κ} {A : Type ℓ} {B : Type κ} where
  abbrev pub continue : Result A → Server → (A → Exec B) → Result B × Server
  continue (ok a) s f = f a s
  continue (err e) s f = (err e, s)

infixl 5 ◌>>=◌ ◌>>◌
unfoldable pub ◌>>=◌ {ℓ} : {A B : Type ℓ} → Exec A → (A → Exec B) → Exec B
◌>>=◌ m f s = let (r, s') = m s in continue r s' f

abbrev pub ◌>>◌ {ℓ} : {A B : Type ℓ} → Exec A → Exec B → Exec B
m >> n = m >>= λ _. n

module _ {ℓ} {A : Type ℓ} where
  abbrev pub pure : A → Exec A
  pure a s = (ok a, s)

  abbrev pub raise : Error → Exec A
  raise e s = (err e, s)

  -- if err != nil { ... } after the call `m`
  abbrev pub handle : Result A → Server → (Error → Exec A) → Result A × Server
  handle (ok a) s f = (ok a, s)
  handle (err e) s f = f e s

  unfoldable pub catch : Exec A → (Error → Exec A) → Exec A
  catch m f s = let (r, s') = m s in handle r s' f

  abbrev or_error : Option A → Error → Result A
  or_error none e = err e
  or_error (some a) e = ok a

  abbrev pub found : Option A → Error → Exec A
  found o e s = (or_error o e, s)

-- if !condition { return err }
abbrev pub guard : Bool → Error → Exec (Unit {0})
guard b e s = (if b then ok tt else err e, s)

-- _ = m()
abbrev pub ignore : Exec (Unit {0}) → Exec (Unit {0})
ignore m s = (ok tt, (m s).1)

-- One call of the driver or of the object storage, which fails when the environment says so.
unfoldable pub call : Error → Exec (Unit {0})
call e s = (
  if s.env.fault s.env.calls then err e else ok tt,
  record s { env = record s.env { calls = s.env.calls + 1 } },
)

-- time.Now()
unfoldable pub now : Exec ℕ
now s = (ok (s.env.times s.env.reads), record s { env = record s.env { reads = s.env.reads + 1 } })

-- uuid.NewString()
unfoldable pub new_uuid : Exec String
new_uuid s = (ok (s.env.uuid s.env.ids), record s { env = record s.env { ids = s.env.ids + 1 } })

-- Another error in place of the one that `m` fails with.
abbrev pub on_error {ℓ} : {A : Type ℓ} → Exec A → (Error → Error) → Exec A
on_error m f = catch m (λ e. raise (f e))
