-- ===== src/World.antt =====
-- What the services share: the tables of the database, the rate counters in Redis, and the mail
-- that was handed to the mail service. A request runs in the transaction of `get_db`
-- (src/ezauth/dependencies.py): what it wrote to the database is committed when it returns and
-- rolled back when it raises; Redis and the mail are outside the transaction.
use ezauth.Prelude.{ℕ, String, List, ◌≡◌, refl}
use ezauth.Models.{AuthAttempt, Session, User, ApplicationKey, Domain, AuditLog}
use ezauth.Redis.{Redis}
use ezauth.Outcome.{Exec, Error, Result, ok, raised}

pub record Db : Type 0 where
  pub users : List User
  pub attempts : List AuthAttempt
  pub sessions : List Session
  pub keys : List ApplicationKey
  pub domains : List Domain
  pub audit_log : List AuditLog

-- A message for the mail service: a six-digit code, or a link. `purpose` is "verify" or "signin".
pub data Mail : Type 0 where
  code_mail : (to code purpose : String) → Mail
  link_mail : (to link purpose : String) → Mail

pub record World : Type 0 where
  pub db : Db
  pub redis : Redis ℕ
  pub outbox : List Mail

-- `yield session; commit`, `except: rollback; raise`
unfoldable pub end_transaction {ℓ} : {A : Type ℓ} → Db → Result A × World → Result A × World
end_transaction before (ok a, w) = (ok a, w)
end_transaction before (raised e, w) = (raised e, record w { db = before })

-- `get_db`, around the body of a request
unfoldable pub in_transaction : {A : Type 0} → Exec World A → Exec World A
unfolding end_transaction
in_transaction body w = end_transaction w.db (body w)

raised-end_transaction :
    {A : Type 0} (before : Db) (x : Result A × World) (e : Error)
    → (end_transaction before x).0 ≡ raised e
    → (end_transaction before x).1.db ≡ before
unfolding end_transaction
raised-end_transaction before (ok a, w) e h = cc
raised-end_transaction before (raised y, w) e h = refl

-- A request that raises leaves the database as it found it.
pub raised-in_transaction :
    {A : Type 0} (body : Exec World A) (w : World) (e : Error)
    → (in_transaction body w).0 ≡ raised e
    → (in_transaction body w).1.db ≡ w.db
unfolding in_transaction
raised-in_transaction body w e h = raised-end_transaction w.db (body w) e h
