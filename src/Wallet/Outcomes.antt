-- ===== src/Wallet/Outcomes.antt =====
-- What a request or the body of a transaction ensures, by how it ended, and the rule of each step.
use api_wallet.Prelude.{
  ◌+◌, ◌≤◌, ltb, ltb→lt, ltb→le, Bool-cases, ℕ, ◌<◌, All, [], ◌∷◌, Text, codes, ◌≡◌, refl, sym,
  subst, ◌≢◌, ◌⊎◌, inl, inr, Bool, true, false, Option, none, some, arith, text_eq, text_eq_refl,
  if◌then◌else◌,
}
use api_wallet.Entities.{Wallet}
use api_wallet.Tables.Rows.{lookup_by-append_missing}
use api_wallet.Tables.{
  Db, Table, Statement, connect, start, rollback, save_wallets, save_transfer, select,
  insert_wallet_or_ignore, find_wallet, effect,
}
use api_wallet.Platform.{Platform, IsDocumented, Denotes, max_units}
use api_wallet.Wallet.{
  found_or, balance_decimal, lock_wallet, supports_pessimistic_lock, Result, ok, err, Error,
  failure, bad_request, insufficient_funds, insufficient_funds_for_transfer, throw_if, Tx, Action,
  ◌>>=◌, ◌>>◌, run, in_transaction,
}

-- A body ensures `Q` of what it returns, and `C` of what it throws.
abbrev pub Ensures : {A : Type 0} → (Error → Type 0) → Result (A × Db) → (A → Db → Type 0) → Type 0
Ensures C (ok (a, db)) Q = Q a db
Ensures C (err e) Q = C e

-- A request ensures `Q` of what it returns, or `R` of what it throws.
abbrev pub Ends : {A : Type 0} → Result A × Db → (A → Db → Type 0) → (Error → Db → Type 0) → Type 0
Ends (ok a, db) Q R = Q a db
Ends (err e, db) Q R = R e db

-- A statement with no fault of amount: the balances of wallets fit their column, and the amount of a
-- transfer is above zero. Of other statements nothing is asked, so a text that is too long for its
-- column, or an amount of an event that does not fit, counts as a refusal like a lost connection.
abbrev pub IsAcceptable : Platform → Statement → Type 0
IsAcceptable p (save_wallets ws) = All (λ w. (n : ℕ) × Denotes p w.balance n × (n < max_units)) ws
IsAcceptable p (save_transfer t) = (n : ℕ) × Denotes p t.amount n × (0 < n)
IsAcceptable p _ = Unit

-- The database did not carry out a statement that is acceptable.
abbrev pub Refused : Platform → Type 0
Refused p = (s : Statement) × (db : Db) × IsAcceptable p s × (p.execute s db ≡ none)

-- Why a command throws: the wallet is `short` of the amount, an acceptable statement was refused, or
-- the outcome is a `misfit` for the schema.
abbrev pub Cause : Platform → Type 0 → Type 0 → Error → Type 0
Cause p short misfit failure = Refused p ⊎ misfit
Cause p short misfit (bad_request insufficient_funds) = short
Cause p short misfit (bad_request insufficient_funds_for_transfer) = short
Cause p short misfit _ = ⊥

pub Tx-cases :
    {A : Type 0} (r : Result (A × Db))
    → ((a : A) × (db : Db) × (r ≡ ok (a, db))) ⊎ ((e : Error) × (r ≡ err e))
Tx-cases (ok (a, db)) = inl (a, db, refl)
Tx-cases (err e) = inr (e, refl)

pub Ensures_mono :
    {A : Type 0} (C : Error → Type 0) (P Q : A → Db → Type 0) (r : Result (A × Db))
    → Ensures C r P
    → ((a : A) (db : Db) → P a db → Q a db)
    → Ensures C r Q
Ensures_mono C P Q (ok (a, db)) h f = f a db h
Ensures_mono C P Q (err e) h f = h

module _ {A B : Type 0} (C : Error → Type 0) where
  pub bind_rule :
      (m : Tx A) (f : A → Tx B) (db : Db) (P : A → Db → Type 0) (Q : B → Db → Type 0)
      → Ensures C (m db) P
      → ((a : A) (db' : Db) → P a db' → Ensures C (f a db') Q)
      → Ensures C ((m >>= f) db) Q
  bind_rule m f db P Q h k = go (m db) h
    where
      go :
          (r : Result (A × Db))
          → Ensures C r P
          → Ensures C (elim r as (λ _. Result (B × Db)) [ ok (a, db') ↦ f a db' | err e ↦ err e ]) Q
      go (ok (a, db')) h = k a db' h
      go (err e) h = h

-- The database once the wallet is there.
abbrev pub opened : Platform → Text → Db → Db
opened p id =
    effect p.stored p.uuid (insert_wallet_or_ignore (record { id = id; balance = codes "0" }))

module _ {p : Platform} (doc : IsDocumented p) where
  pub opened-found :
      (id : Text) (w : Wallet) (db : Db) → find_wallet id db ≡ some w → opened p id db ≡ db
  unfolding effect
  opened-found id w db e = rw e

  -- A missing wallet is inserted with a balance of zero, and no other wallet is touched.
  pub find_wallet-opened :
      (id k : Text) (db : Db)
      → find_wallet id db ≡ none
      → find_wallet k (opened p id db) ≡ (
          if text_eq id k
          then some (record { id = id; balance = p.stored (codes "0") })
          else find_wallet k db)
  unfolding effect find_wallet
  find_wallet-opened id k db missing = rw (missing) (
      lookup_by-append_missing (λ w. w.id) k (record { id = id; balance = p.stored (codes "0") })
        db.wallets missing)

  -- A sum that fits the column is not rounded.
  pub sum_exact : (a b : ℕ) → p.significant (a + b) < max_units → p.significant (a + b) ≡ a + b
  sum_exact a b h = elim (Bool-cases (ltb (a + b) max_units)) [
    | inl small ↦ doc.significant_small (a + b) (ltb→lt _ _ small)
    | inr large ↦ absurd (omega (arith, doc.significant_large (a + b) (ltb→le _ _ large)))
  ]

  pub sum_large : (a b : ℕ) → max_units ≤ p.significant (a + b) → max_units ≤ a + b
  sum_large a b h = elim (Bool-cases (ltb (a + b) max_units)) [
    | inl small ↦
        absurd (omega (arith, doc.significant_small (a + b) (ltb→lt _ _ small), ltb→lt _ _ small))
    | inr large ↦ ltb→le _ _ large
  ]

  balance_decimal_money :
      (t : Text) (n : ℕ) (db : Db) → Denotes p t n → balance_decimal p t db ≡ ok (p.money n, db)
  unfolding balance_decimal
  balance_decimal_money [] n db d = cc (doc.of_text_empty)
  balance_decimal_money (c ∷ t) n db d = rw d

module _ {p : Platform} (doc : IsDocumented p) (C : Error → Type 0)
    (refused : Refused p → C failure) where
  -- A statement is carried out, and by not throwing it tells something.
  pub checked_run_rule :
      {B : Type 0} (s : Statement) (k : Tx B) (db : Db) (Q : B → Db → Type 0)
      → (p.execute s db ≡ none → C failure)
      → (p.execute s db ≢ none → Ensures C (k (effect p.stored p.uuid s db)) Q)
      → Ensures C ((run p s >> k) db) Q
  unfolding run
  checked_run_rule s k db Q fails h = elim (doc.executed s db) [
    | inl thrown ↦ rw (thrown, ◌>>=◌, run) (fails thrown)
    | inr done ↦ rw (done, ◌>>=◌, run) (h (λ e. ground (arith, e, done)))
  ]

  pub run_rule :
      {B : Type 0} (s : Statement) (k : Tx B) (db : Db) (Q : B → Db → Type 0)
      → IsAcceptable p s
      → Ensures C (k (effect p.stored p.uuid s db)) Q
      → Ensures C ((run p s >> k) db) Q
  run_rule s k db Q fine h = checked_run_rule s k db Q (λ e. refused (s, db, fine, e)) (λ _. h)

  pub throw_if_rule :
      {B : Type 0} (b : Bool) (e : Error) (k : Tx B) (db : Db) (Q : B → Db → Type 0)
      → (b ≡ true → C e)
      → (b ≡ false → Ensures C (k db) Q)
      → Ensures C ((throw_if b e >> k) db) Q
  throw_if_rule true e k db Q thrown h = thrown refl
  throw_if_rule false e k db Q thrown h = h refl

  found_or_rule :
      (o : Option Wallet) (m : Tx Wallet) (db : Db) (Q : Wallet → Db → Type 0)
      → ((w : Wallet) → o ≡ some w → Q w db)
      → (o ≡ none → Ensures C (m db) Q)
      → Ensures C (found_or p o m db) Q
  found_or_rule none m db Q there missing = missing refl
  found_or_rule (some w) m db Q there missing = there w refl

  lock_wallet-Ensures :
      (id : Text) (db : Db)
      → Ensures C
          (lock_wallet p id db)
          (λ w db'. (db' ≡ opened p id db) × (find_wallet id db' ≡ some w))
  unfolding lock_wallet effect
  lock_wallet-Ensures id db =
      let lock = select Table.wallets (supports_pessimistic_lock p) in
      run_rule lock _ db _ tt (
        found_or_rule (find_wallet id db) _ db _ (λ w e. (sym (opened-found doc id w db e), e))
          λ missing.
            run_rule (insert_wallet_or_ignore (record { id = id; balance = codes "0" })) _ db _ tt (
              run_rule lock _ (opened p id db) _ tt (
                found_or_rule (find_wallet id (opened p id db)) _ (opened p id db) _
                  (λ w e. (refl, e))
                  (λ gone. cc (
                    gone,
                    subst
                        (λ b. find_wallet id (opened p id db) ≡ (
                          if b
                          then some (record { id = id; balance = p.stored (codes "0") })
                          else find_wallet id db))
                        (text_eq_refl id) (find_wallet-opened doc id id db missing),
                  )))))

  pub lock_wallet_rule :
      {B : Type 0} (id : Text) (k : Wallet → Tx B) (db : Db) (Q : B → Db → Type 0)
      → ((w : Wallet)
          → find_wallet id (opened p id db) ≡ some w
          → Ensures C (k w (opened p id db)) Q)
      → Ensures C ((lock_wallet p id >>= k) db) Q
  lock_wallet_rule id k db Q h =
      bind_rule C (lock_wallet p id) k db _ Q (lock_wallet-Ensures id db) λ w db' (e, f).
        subst (λ d. Ensures C (k w d) Q) (sym e) (h w (subst (λ d. find_wallet id d ≡ some w) e f))

  pub in_transaction_rule :
      {A : Type 0} (body : Tx A) (handler : Error → Action A) (db : Db) (Q : A → Db → Type 0)
      (R : Error → Db → Type 0)
      → Ensures C (body db) Q
      → (Refused p → R failure db)
      → ((e : Error) → body db ≡ err e → C e → Ends (handler e db) Q R)
      → Ends (in_transaction p body handler db) Q R
  unfolding in_transaction effect
  in_transaction_rule body handler db Q R ensures thrown handled = elim (doc.executed connect db) [
    | inl e ↦ rw (e, in_transaction) (thrown (connect, db, tt, e))
    | inr e ↦ elim (doc.executed start db) [
      | inl e' ↦ rw (e, in_transaction, e') (thrown (start, db, tt, e'))
      | inr e' ↦
          rw (e, in_transaction, e')
            (elim (Tx-cases (body db)) [
              | inl (a, db', b) ↦ rw b (subst (λ r. Ensures C r Q) b ensures)
              | inr (x, b) ↦ elim (doc.executed rollback db) [
                | inl f ↦ rw (b, f) (thrown (rollback, db, tt, f))
                | inr f ↦ rw (b, f) (handled x b (subst (λ r. Ensures C r Q) b ensures))
              ]
            ])
    ]
  ]

  -- `new Decimal(balance || 0)` of a balance that denotes `n` is the decimal `n`.
  pub balance_rule :
      {B : Type 0} (t : Text) (n : ℕ) (k : p.Decimal → Tx B) (db : Db) (Q : B → Db → Type 0)
      → Denotes p t n
      → Ensures C (k (p.money n) db) Q
      → Ensures C ((balance_decimal p t >>= k) db) Q
  balance_rule t n k db Q d h = rw (balance_decimal_money doc t n db d, ◌>>=◌) h
