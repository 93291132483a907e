-- ===== src/Session.antt =====
-- The SQLAlchemy session of a request: what is committed, and the request's own view with its
-- uncommitted writes. A method that raises keeps what it wrote so far in its view, and leaves the
-- committed state alone.
use chatterbox.Prelude.{Bool, true, false, Option, none, some}
use chatterbox.Errors.{AppError, Exception, app_error, Result, ok, raised}
use chatterbox.Models.{Db}

pub record Session : Type 0 where
  pub committed : Db
  pub working : Db

abbrev pub Exec : Type 0 → Type 0
Exec A = Session → Result A × Session

module _ {A : Type 0} where
  abbrev pub pure : A → Exec A
  pure a s = (ok a, s)

  abbrev pub throw : Exception → Exec A
  throw e s = (raised e, s)

  abbrev pub raise : AppError → Exec A
  raise e = throw (app_error e)

  abbrev pub lift : Result A → Exec A
  lift r s = (r, s)

  -- a query
  abbrev pub gets : (Db → A) → Exec A
  gets f s = (ok (f s.working), s)

  abbrev pub or_raise : Option A → AppError → Exec A
  or_raise none e = raise e
  or_raise (some a) _ = pure a

abbrev pub continue : {A B : Type 0} → Result A → (A → Exec B) → Exec B
continue (ok a) f s = f a s
continue (raised e) f s = (raised e, s)

infixl 5 ◌>>=◌ ◌>>◌
abbrev pub ◌>>=◌ : {A B : Type 0} → Exec A → (A → Exec B) → Exec B
◌>>=◌ m f s = let (r, s') = m s in continue r f s'

abbrev pub ◌>>◌ : {B : Type 0} → Exec (Unit {0}) → Exec B → Exec B
m >> k = m >>= λ _. k

-- `if c: raise AppError(...)`
abbrev pub raise_if : Bool → AppError → Exec (Unit {0})
raise_if true e = raise e
raise_if false e = pure tt

-- a write to the request's view
abbrev pub modify : (Db → Db) → Exec (Unit {0})
modify f s = (ok tt, record s { working = f s.working })

abbrev pub commit : Exec (Unit {0})
commit s = (ok tt, record s { committed = s.working })

abbrev pub rollback : Exec (Unit {0})
rollback s = (ok tt, record s { working = s.committed })

-- A request: it begins a session, and what it did not commit is lost when it ends.
abbrev pub request : {A : Type 0} → Exec A → Db → Result A × Db
request m db = let (r, s) = m (record { committed = db; working = db }) in (r, s.committed)

-- A method that also works on the bucket of the object store: with what it has done there by the time
-- it returns or raises.
abbrev pub Stored : Type 0 → Type 0 → Type 0
Stored B A = B → Session → Result A × B × Session

module _ {A B : Type 0} where
  -- a part that leaves the bucket alone, and one that reads it
  abbrev pub keeping : Exec A → Stored B A
  keeping m b s = let (r, s') = m s in (r, b, s')

  abbrev pub reading : (B → Exec A) → Stored B A
  reading f b s = let (r, s') = f b s in (r, b, s')

  abbrev pub continue_stored : {C : Type 0} → Result A → (A → Stored B C) → Stored B C
  continue_stored (ok a) f b s = f a b s
  continue_stored (raised e) f b s = (raised e, b, s)

module _ {B : Type 0} where
  -- what others do to the bucket at that moment
  abbrev pub meanwhile : (B → B) → Stored B (Unit {0})
  meanwhile f b s = (ok tt, f b, s)

  -- a request that writes to the bucket, or fails and does not
  abbrev pub writing : (B → Result B) → Stored B (Unit {0})
  writing f b s = elim (f b) [ ok b' ↦ (ok tt, b', s) | raised e ↦ (raised e, b, s) ]

  -- the same under `try: ... except Exception: pass`
  abbrev pub trying : (B → Result B) → Stored B (Unit {0})
  trying f b s = elim (f b) [ ok b' ↦ (ok tt, b', s) | raised e ↦ (ok tt, b, s) ]

infixl 5 ◌>>-◌
abbrev pub ◌>>-◌ : {A B C : Type 0} → Stored B A → (A → Stored B C) → Stored B C
◌>>-◌ m f b s = let (r, b', s') = m b s in continue_stored r f b' s'

abbrev pub request_stored : {A B : Type 0} → Stored B A → B → Db → Result A × B × Db
request_stored m b db =
    let (r, b', s) = m b (record { committed = db; working = db }) in (r, b', s.committed)
