-- ===== src/Wallet/Actions.antt =====
-- Requests in sequence: a statement outside a transaction commits by itself, so what was written
-- before a throw stays written.
use api_wallet.Prelude.{Bool, true, false}
use api_wallet.Wallet.Effects.{Result, ok, err, Error, Tx, Action}

infixl 5 ◌>>=◌ ◌>>◌
abbrev pub ◌>>=◌ : {A B : Type 0} → Action A → (A → Action B) → Action B
◌>>=◌ m f db = let (r, db') = m db in elim r [ ok a ↦ f a db' | err e ↦ (err e, db') ]

abbrev pub ◌>>◌ : {B : Type 0} → Action (Unit {0}) → Action B → Action B
m >> k = m >>= λ _. k

module _ {A : Type 0} where
  abbrev pub return : A → Action A
  return a db = (ok a, db)

  -- One statement with what is read around it.
  abbrev pub lift : Tx A → Action A
  lift m db = elim (m db) [ ok (a, db') ↦ (ok a, db') | err e ↦ (err e, db) ]

  abbrev pub of_result : Result A → Action A
  of_result r db = (r, db)

abbrev pub raise_if : Bool → Error → Action (Unit {0})
raise_if true e db = (err e, db)
raise_if false e db = (ok tt, db)
