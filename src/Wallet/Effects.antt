-- ===== src/Wallet/Effects.antt =====
-- Exceptions, the body of a transaction, and a request against the database.
use api_wallet.Prelude.{Bool, true, false, Option, none, some}
use api_wallet.Tables.{Db, Statement, connect, start, rollback}
use api_wallet.Platform.{Platform}

-- Why a request is refused.
pub data Reason : Type 0 where
  invalid_amount insufficient_funds insufficient_funds_for_transfer : Reason
  same_wallet key_required : Reason
  different_payload already_processing already_completed : Reason

-- `failure` is any other error: a statement that throws, a text that is no number.
pub data Error : Type 0 where
  bad_request conflict : Reason → Error
  failure : Error

pub data Result {ℓ} (A : Type ℓ) : Type ℓ where
  ok : A → Result A
  err : Error → Result A

-- The body of a `try` in a transaction: a throw leaves nothing to read.
abbrev pub Tx : Type 0 → Type 0
Tx A = Db → Result (A × Db)

-- A request: what it returns or throws, and the database that it leaves.
abbrev pub Action : Type 0 → Type 0
Action A = Db → Result A × Db

infixl 5 ◌>>=◌ ◌>>◌
abbrev pub ◌>>=◌ : {A B : Type 0} → Tx A → (A → Tx B) → Tx B
◌>>=◌ m f db = elim (m db) [ ok (a, db') ↦ f a db' | err e ↦ err e ]

abbrev pub ◌>>◌ : {B : Type 0} → Tx (Unit {0}) → Tx B → Tx B
m >> k = m >>= λ _. k

module _ {A : Type 0} where
  abbrev pub pure : A → Tx A
  pure a db = ok (a, db)

  abbrev pub throw : Error → Tx A
  throw e db = err e

  abbrev pub gets : (Db → A) → Tx A
  gets f db = ok (f db, db)

  abbrev pub of_option : Option A → Tx A
  of_option none db = err failure
  of_option (some a) db = ok (a, db)

  abbrev pub raise : Error → Action A
  raise e db = (err e, db)

module _ {A B : Type 0} where
  abbrev pub with_result : Result A → (A → Action B) → Action B
  with_result (ok a) f db = f a db
  with_result (err e) f db = (err e, db)

abbrev pub throw_if : Bool → Error → Tx (Unit {0})
throw_if true e = throw e
throw_if false e = pure tt

-- `await` of a statement.
pub ran : Option Db → Result (Unit {0} × Db)
ran none = err failure
ran (some db) = ok (tt, db)

module _ (p : Platform) where
  unfoldable pub run : Statement → Tx (Unit {0})
  unfolding ran
  run s db = ran (p.execute s db)

  -- `connect` and `startTransaction`, the `try`, and the `catch`, which rolls back first. A throw
  -- of the first two or of the rollback leaves the function.
  unfoldable pub in_transaction : {A : Type 0} → Tx A → (Error → Action A) → Action A
  unfolding run
  in_transaction body handler db = elim ((run connect >> run start) db) [
    | err e ↦ (err e, db)
    | ok (_, db') ↦ elim (body db') [
      | ok (a, db'') ↦ (ok a, db'')
      | err e ↦ elim (run rollback db) [ ok (_, clean) ↦ handler e clean | err e' ↦ (err e', db) ]
    ]
  ]
