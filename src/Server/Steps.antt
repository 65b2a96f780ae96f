-- ===== src/Server/Steps.antt =====
-- How a method that succeeded ran: `advance` takes a successful run past its first step, once the
-- state that this step leaves when it succeeds is known.
use goph_keeper.Common.{◌+◌, Bool, true, ◌≡◌, refl, ap, ◌∙◌, sym, arith}
use goph_keeper.Server.Error.{Error, Result, ok, err}
use goph_keeper.Server.State.{Server}
use goph_keeper.Server.Exec.{Exec, continue, ◌>>=◌, call, now, new_uuid, guard}

-- the state after a call of the driver, after a reading of the clock, after a new identifier
abbrev pub called : Server → Server
called s = record s { env = record s.env { calls = s.env.calls + 1 } }

abbrev pub read_clock : Server → Server
read_clock s = record s { env = record s.env { reads = s.env.reads + 1 } }

abbrev pub took_id : Server → Server
took_id s = record s { env = record s.env { ids = s.env.ids + 1 } }

-- If `m` succeeds in `s`, it returns `v` and leaves `s'`.
abbrev pub Yields {ℓ} : {A : Type ℓ} → Exec A → Server → A → Server → Type ℓ
Yields {A} m s v s' = (a : A) → (m s).0 ≡ ok a → m s ≡ (ok v, s')

continue_yields {ℓ} :
    {A B : Type ℓ} (r : Result A) (u : Server) (f : A → Exec B) {v : A} {s' : Server} {b : B}
    → ((a : A) → r ≡ ok a → ◌≡◌ {A = Result A × Server} (r, u) (ok v, s'))
    → (continue r u f).0 ≡ ok b
    → (continue r u f ≡ f v s') × ((f v s').0 ≡ ok b)
continue_yields {A} {B} (ok a) u f {v = v} {s' = s'} y h =
    let p : continue (ok a) u f ≡ f v s' =
      ap (λ (r : Result A × Server). continue r.0 r.1 f) (y a refl) in
    (p, ap (λ (r : Result B × Server). r.0) (sym p) ∙ h)
continue_yields (err e) u f y h = cc

pub advance {ℓ} :
    {A B : Type ℓ} (m : Exec A) (f : A → Exec B) (s : Server) {v : A} {s' : Server} {b : B}
    → Yields m s v s'
    → ((m >>= f) s).0 ≡ ok b
    → ((m >>= f) s ≡ f v s') × ((f v s').0 ≡ ok b)
unfolding ◌>>=◌
advance m f s y h = continue_yields (m s).0 (m s).1 f y h

pub call-Yields : (e : Error) (s : Server) → Yields (call e) s tt (called s)
unfolding call
call-Yields e s a h = ground arith

pub guard-Yields : (b : Bool) (e : Error) (s : Server) → Yields (guard b e) s tt s
guard-Yields b e s a h = ground arith

pub guard_passed :
    (b : Bool) (e : Error) (s : Server) (a : Unit {0}) → (guard b e s).0 ≡ ok a → b ≡ true
guard_passed b e s a h = ground arith

pub now-Yields : (s : Server) → Yields now s (s.env.times s.env.reads) (read_clock s)
unfolding now
now-Yields s a h = refl

pub new_uuid-Yields : (s : Server) → Yields new_uuid s (s.env.uuid s.env.ids) (took_id s)
unfolding new_uuid
new_uuid-Yields s a h = refl

continue_first {ℓ} :
    {A B : Type ℓ} (r : Result A) (u : Server) (f : A → Exec B) {b : B}
    → (continue r u f).0 ≡ ok b
    → (a : A) × (r ≡ ok a)
continue_first (ok a) u f h = (a, refl)
continue_first (err e) u f h = cc

-- The first step of a successful run succeeded.
pub first {ℓ} :
    {A B : Type ℓ} (m : Exec A) (f : A → Exec B) (s : Server) {b : B}
    → ((m >>= f) s).0 ≡ ok b
    → (a : A) × ((m s).0 ≡ ok a)
unfolding ◌>>=◌
first m f s h = continue_first (m s).0 (m s).1 f h

continue_ok {ℓ} :
    {A B : Type ℓ} (r : Result A) (u : Server) (f : A → Exec B) {a : A}
    → r ≡ ok a
    → continue r u f ≡ f a u
continue_ok r u f e = rw e refl

-- A step that succeeds hands its value on.
pub bind_ok {ℓ} :
    {A B : Type ℓ} (m : Exec A) (f : A → Exec B) (s : Server) {a : A}
    → (m s).0 ≡ ok a
    → (m >>= f) s ≡ f a (m s).1
unfolding ◌>>=◌
bind_ok m f s e = continue_ok (m s).0 (m s).1 f e
