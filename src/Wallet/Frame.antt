-- ===== src/Wallet/Frame.antt =====
-- What every statement of a command keeps, the command keeps, however it ends.
pub mod Keys
use api_wallet.Prelude.{
  Text, text_eq, ◌≡◌, refl, ◌∙◌, Bool, true, false, Option, none, some, List, [], ◌∷◌, inl, inr,
  Bool-cases,
}
use api_wallet.Entities.{Metadata, EventType, IdempotencyKey, Transfer, Wallet, pending}
use api_wallet.Tables.{
  Db, Statement, connect, start, commit, rollback, select, insert_wallet_or_ignore, save_wallets,
  save_events, save_transfer, save_outbox, effect, find_wallet, insert_missing, write_transfer,
}
use api_wallet.Platform.{Platform, IsDocumented}
use api_wallet.Wallet.{
  Error, bad_request, insufficient_funds, insufficient_funds_for_transfer, Result, ok, err,
  throw_if, raise, normalize_amount, Action, Tx, ◌>>=◌, ◌>>◌, run, balance_decimal, lock_wallet,
  of_option, record_command, deposit_body, withdraw_body, with_result, deposit, withdraw,
}
use api_wallet.Wallet.Transfer.{move_funds, transfer_body, transfer}
use api_wallet.Wallet.Transfer.Compensation.{
  is_compensated, restore_funds, compensate_found, compensate_transfer, find_debited,
}
use api_wallet.Wallet.Outcomes.{
  Ensures, Ends, bind_rule, checked_run_rule, lock_wallet_rule, in_transaction_rule,
}

abbrev pub Any : Error → Type 0
Any _ = Unit

-- The statements that the commands send.
abbrev pub IsCommand : Statement → Type 0
IsCommand connect = Unit
IsCommand start = Unit
IsCommand commit = Unit
IsCommand rollback = Unit
IsCommand (select _ _) = Unit
IsCommand (insert_wallet_or_ignore _) = Unit
IsCommand (save_wallets _) = Unit
IsCommand (save_events _) = Unit
IsCommand (save_transfer _) = Unit
IsCommand (save_outbox m) = m.status ≡ pending
IsCommand _ = ⊥

module _ {p : Platform} (doc : IsDocumented p) (I : Db → Type 0)
    (closed : (s : Statement) (db : Db)
      → IsCommand s
      → I db
      → I (effect p.stored p.uuid s db)) where
  -- The rules of the steps.
  module _ {A : Type 0} where
    abbrev pub Keeps : A → Db → Type 0
    Keeps _ db = I db

    run_step :
        (s : Statement) (k : Tx A) (db : Db)
        → IsCommand s
        → I db
        → ((db' : Db) → I db' → Ensures Any (k db') Keeps)
        → Ensures Any ((run p s >> k) db) Keeps
    run_step s k db c i h =
        checked_run_rule doc Any (λ _. tt) s k db _ (λ _. tt) (λ _. h _ (closed s db c i))

    balance_step :
        (t : Text) (k : p.Decimal → Tx A) (db : Db)
        → ((d : p.Decimal) → Ensures Any (k d db) Keeps)
        → Ensures Any ((balance_decimal p t >>= k) db) Keeps
    unfolding balance_decimal
    balance_step [] k db h = h (p.of_number 0)
    balance_step (c ∷ t) k db h = go (p.of_text (c ∷ t))
      where
        go : (o : Option p.Decimal) → Ensures Any ((of_option o >>= k) db) Keeps
        go none = tt
        go (some d) = h d

    throw_step :
        (b : Bool) (e : Error) (k : Tx A) (db : Db)
        → Ensures Any (k db) Keeps
        → Ensures Any ((throw_if b e >> k) db) Keeps
    throw_step true e k db h = tt
    throw_step false e k db h = h

    lock_step :
        (id : Text) (k : Wallet → Tx A) (db : Db)
        → I db
        → ((w : Wallet) (db' : Db) → I db' → Ensures Any (k w db') Keeps)
        → Ensures Any ((lock_wallet p id >>= k) db) Keeps
    lock_step id k db i h =
        lock_wallet_rule doc Any (λ _. tt) id k db _ λ w _. h w _ (closed _ db tt i)

  module _ (request_id : Option Text) (metadata : Option Metadata) (amount : p.Decimal) where
    record_command-Keeps :
        (id : Text) (w : Wallet) (event_type : EventType) (db : Db)
        → I db
        → Ensures Any (record_command p id amount request_id metadata w event_type db) Keeps
    unfolding record_command
    record_command-Keeps id w event_type db i =
        run_step _ _ _ tt i λ _ i.
          run_step _ _ _ tt i λ _ i. run_step _ _ _ refl i λ _ i. run_step _ _ _ tt i λ _ i. i

    deposit_body-Keeps :
        (id : Text) (db : Db)
        → I db
        → Ensures Any (deposit_body p id amount request_id metadata db) Keeps
    unfolding deposit_body
    deposit_body-Keeps id db i =
        lock_step id _ db i
          λ w db' i'. balance_step w.balance _ db' λ d. record_command-Keeps id _ _ db' i'

    withdraw_body-Keeps :
        (id : Text) (db : Db)
        → I db
        → Ensures Any (withdraw_body p id amount request_id metadata db) Keeps
    unfolding withdraw_body
    withdraw_body-Keeps id db i = lock_step id _ db i λ w db' i'. balance_step w.balance _ db' λ d.
        throw_step (p.lt d amount) (bad_request insufficient_funds) _ db'
          (record_command-Keeps id _ _ db' i')

    move_funds-Keeps :
        (from to : Text) (wf wt : Wallet) (db : Db)
        → I db
        → Ensures Any (move_funds p from to amount request_id metadata wf wt db) Keeps
    unfolding move_funds
    move_funds-Keeps from to wf wt db i = balance_step wf.balance _ db λ d.
        throw_step (p.lt d amount) (bad_request insufficient_funds_for_transfer) _ db (
          run_step _ _ _ tt i λ _ i. run_step _ _ _ tt i λ _ i. run_step _ _ _ refl i λ db' i.
            balance_step wt.balance _ db' λ d'. run_step _ _ _ tt i λ _ i.
              run_step _ _ _ tt i λ _ i. run_step _ _ _ tt i λ _ i. run_step _ _ _ refl i λ _ i.
                run_step _ _ _ refl i
                  λ _ i. run_step _ _ _ refl i λ _ i. run_step _ _ _ tt i λ _ i. i)

    transfer_body-Keeps :
        (from to : Text) (db : Db)
        → I db
        → Ensures Any (transfer_body p from to amount request_id metadata db) Keeps
    unfolding transfer_body
    transfer_body-Keeps from to db i =
        lock_step _ _ db i
          λ w db' i'. lock_step _ _ db' i' λ w' db'' i''. move_funds-Keeps from to _ _ db'' i''

    restore_funds-Keeps :
        (from to : Text) (w : Wallet) (t : Transfer) (db : Db)
        → I db
        → Ensures Any (restore_funds p from to amount request_id metadata w t db) Keeps
    unfolding restore_funds
    restore_funds-Keeps from to w t db i = balance_step w.balance _ db λ d.
        run_step _ _ _ tt i λ _ i. run_step _ _ _ tt i λ _ i.
          run_step _ _ _ tt i λ _ i. run_step _ _ _ refl i λ _ i. run_step _ _ _ refl i λ _ i. i

    compensate_found-Keeps :
        (from to : Text) (w : Wallet) (o : Option Transfer) (db : Db)
        → I db
        → Ensures Any (compensate_found p from to amount request_id metadata w o db) Keeps
    unfolding compensate_found
    compensate_found-Keeps from to w none db i = run_step _ _ _ tt i λ _ i. i
    compensate_found-Keeps from to w (some t) db i = elim (Bool-cases (is_compensated t.status)) [
      | inl c ↦ rw c (run_step _ _ _ tt i λ _ i. i)
      | inr c ↦ rw c (
          bind_rule Any (restore_funds p from to amount request_id metadata w t) _ db Keeps Keeps
            (restore_funds-Keeps from to w t db i) λ _ _ i'. run_step _ _ _ tt i' λ _ i. i)
    ]

    compensate_transfer-Keeps :
        (from to : Text) (db : Db)
        → I db
        → Ends (compensate_transfer p from to amount request_id metadata db) Keeps Keeps
    unfolding compensate_transfer
    compensate_transfer-Keeps from to db i =
        in_transaction_rule doc Any (λ _. tt) _ raise db Keeps Keeps
          (lock_step _ _ db i λ w db' i'. lock_step _ _ db' i' λ w' db'' i''.
            run_step _ _ _ tt i'' λ d i3.
              compensate_found-Keeps from to _
                (find_debited from to (p.stored (p.to_text amount)) d.transfers) d i3)
          (λ _. i) (λ _ _ _. i)

  module _ (request_id : Option Text) (metadata : Option Metadata) (amount : Text) where
    normal_rule :
        {A : Type 0} (r : Result p.Decimal) (k : p.Decimal → Action A) (db : Db)
        → I db
        → ((d : p.Decimal) → Ends (k d db) Keeps Keeps)
        → Ends (with_result r k db) Keeps Keeps
    normal_rule (ok d) k db i h = h d
    normal_rule (err x) k db i h = i

    pub deposit-Keeps :
        (id : Text) (db : Db) → I db → Ends (deposit p id amount request_id metadata db) Keeps Keeps
    unfolding deposit
    deposit-Keeps id db i = normal_rule (normalize_amount p amount) _ db i λ d.
        in_transaction_rule doc Any (λ _. tt) _ raise db Keeps Keeps
          (deposit_body-Keeps request_id metadata d id db i) (λ _. i) (λ _ _ _. i)

    pub withdraw-Keeps :
        (id : Text) (db : Db)
        → I db
        → Ends (withdraw p id amount request_id metadata db) Keeps Keeps
    unfolding withdraw
    withdraw-Keeps id db i = normal_rule (normalize_amount p amount) _ db i λ d.
        in_transaction_rule doc Any (λ _. tt) _ raise db Keeps Keeps
          (withdraw_body-Keeps request_id metadata d id db i) (λ _. i) (λ _ _ _. i)

    pub transfer-Keeps :
        (from to : Text) (db : Db)
        → I db
        → Ends (transfer p from to amount request_id metadata db) Keeps Keeps
    unfolding transfer
    transfer-Keeps from to db i = elim (Bool-cases (text_eq from to)) [
      | inl same ↦ rw same i
      | inr other ↦ rw other (
          normal_rule (normalize_amount p amount) _ db i λ d.
            in_transaction_rule doc Any (λ _. tt) _ _ db Keeps Keeps
              (transfer_body-Keeps request_id metadata d from to db i) (λ _. i)
              (λ _ _ _. compensate_transfer-Keeps request_id metadata d from to db i))
    ]
