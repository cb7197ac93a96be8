-- ===== src/System/Sides/Events.antt =====
-- What those statements keep, the consumer
-- (src/modules/messaging/wallet-events-consumer.service.ts, src/modules/messaging/rmq.consumer.ts)
-- keeps, however it ends.
use api_wallet.Prelude.{
  Text, codes, true, false, Option, none, some, inl, inr, is_empty, or_else, Bool-cases,
}
use api_wallet.Entities.{
  EventType, funds_deposited, funds_withdrawn, transfer_initiated, transfer_completed,
  transfer_failed, transfer_compensated, Payload, ConsumedEvent,
}
use api_wallet.Tables.{Db, Statement, Table, commit, select, save_consumed, effect}
use api_wallet.Platform.{Platform, IsDocumented}
use api_wallet.Wallet.{
  conflict, different_payload, already_processing, already_completed, Result, ok, err, Error, raise,
  Tx, Action, run, of_option, in_transaction,
}
use api_wallet.Wallet
use api_wallet.Wallet.Actions.{return, lift}
use api_wallet.Wallet.Outcomes.{Ends, Ensures, checked_run_rule, in_transaction_rule}
use api_wallet.Wallet.Frame.{Any}
use api_wallet.Wallet.Requests.{Keeps, return-Keeps, bind-Keeps}
use api_wallet.Consumer.{
  find_analytics, found_or_new, find_consumed, numeric_to_decimal, deposit_analytics,
  withdrawal_analytics, apply_to, apply, apply_deposit, apply_withdrawal, apply_event,
  is_already_processed, mark_processed, unless_duplicate, process, with_id, handle_event, receive,
  receipt_of, ack_on_success_nack_on_error,
}
use api_wallet.System.Sides.{IsSide, read-Keeps, run-Keeps}

module _ {p : Platform} (doc : IsDocumented p) (I : Db → Type 0)
    (closed : (s : Statement) (db : Db) → IsSide s → I db → I (effect p.stored p.uuid s db)) where
  transaction-Keeps :
      {A : Type 0} (body : Tx A)
      → ((db : Db) → I db → Ensures Any (body db) (λ _ d. I d))
      → Keeps I (in_transaction p body raise)
  transaction-Keeps body h = record {
    at = λ db i.
        in_transaction_rule doc Any (λ _. tt) body raise db (λ _ d. I d) (λ _ d. I d) (h db i)
          (λ _. i) (λ _ _ _. i);
  }

  run_step :
      {A : Type 0} (s : Statement) (k : Tx A) (db : Db)
      → IsSide s
      → I db
      → ((db' : Db) → I db' → Ensures Any (k db') (λ _ d. I d))
      → Ensures Any ((Wallet.◌>>◌ (run p s) k) db) (λ _ d. I d)
  run_step s k db c i h =
      checked_run_rule doc Any (λ _. tt) s k db _ (λ _. tt) (λ _. h _ (closed s db c i))

  commit_step : (db : Db) → I db → Ensures Any (run p commit db) (λ _ d. I d)
  unfolding run
  commit_step db i = elim (doc.executed commit db) [
    | inl e ↦ rw (run, e) tt
    | inr e ↦ rw (run, e) (closed commit db tt i)
  ]

  numeric_step :
      {A : Type 0} (t : Option Text) (k : p.Decimal → Tx A) (db : Db)
      → ((d : p.Decimal) → Ensures Any (k d db) (λ _ d. I d))
      → Ensures Any ((Wallet.◌>>=◌ (numeric_to_decimal p t) k) db) (λ _ d. I d)
  unfolding numeric_to_decimal
  numeric_step none k db h = h (p.of_number 0)
  numeric_step (some t) k db h = go (p.of_text t)
    where
      go : (o : Option p.Decimal) → Ensures Any ((Wallet.◌>>=◌ (of_option o) k) db) (λ _ d. I d)
      go none = tt
      go (some d) = h d

  deposit_analytics-Keeps :
      (id : Text) (amount : p.Decimal) (db : Db)
      → I db
      → Ensures Any (deposit_analytics p id amount db) (λ _ d. I d)
  unfolding deposit_analytics
  deposit_analytics-Keeps id amount db i = run_step (select Table.analytics true) _ _ tt i λ d i.
      numeric_step
        (some (or_else (found_or_new id (find_analytics id d)).total_deposited (codes "0"))) _ d
        λ _. run_step _ _ _ tt i λ d i. commit_step d i

  withdrawal_analytics-Keeps :
      (id : Text) (amount : p.Decimal) (db : Db)
      → I db
      → Ensures Any (withdrawal_analytics p id amount db) (λ _ d. I d)
  unfolding withdrawal_analytics
  withdrawal_analytics-Keeps id amount db i = run_step (select Table.analytics true) _ _ tt i λ d i.
      numeric_step
        (some (or_else (found_or_new id (find_analytics id d)).total_withdrawn (codes "0"))) _ d
        λ total.
          numeric_step (some (p.to_fixed (p.plus total amount))) _ d
            λ _. run_step _ _ _ tt i λ d i. commit_step d i

  numeric-Keeps : (t : Option Text) → Keeps I (lift (numeric_to_decimal p t))
  unfolding numeric_to_decimal
  numeric-Keeps none = return-Keeps _
  numeric-Keeps (some t) = go (p.of_text t)
    where
      go : (o : Option p.Decimal) → Keeps I (lift (of_option o))
      go none = record { at = λ db i. i }
      go (some d) = record { at = λ db i. i }

  apply-Keeps :
      (body : Text → p.Decimal → Tx (Unit {0})) (payload : Payload)
      → ((id : Text) (amount : p.Decimal) (db : Db)
          → I db
          → Ensures Any (body id amount db) (λ _ d. I d))
      → Keeps I (apply p body payload)
  unfolding apply apply_to
  apply-Keeps body payload h = of_wallet payload.wallet_id
    where
      of_wallet :
          (o : Option Text)
          → Keeps I (elim o as (λ _. Action (Unit {0})) [
            | none ↦ return tt
            | some id ↦ apply_to p body id payload.amount
          ])
      of_wallet none = return-Keeps tt
      of_wallet (some id) = elim (Bool-cases (is_empty id)) [
        | inl e ↦ rw e (return-Keeps tt)
        | inr e ↦ rw e (
            bind-Keeps (lift (numeric_to_decimal p payload.amount)) _ (numeric-Keeps payload.amount)
              λ amount. transaction-Keeps (body id amount) (h id amount))
      ]

  apply_event-Keeps :
      (event_type : EventType) (payload : Payload) → Keeps I (apply_event p event_type payload)
  unfolding apply_deposit apply_withdrawal
  apply_event-Keeps funds_deposited payload =
      apply-Keeps (deposit_analytics p) payload deposit_analytics-Keeps
  apply_event-Keeps funds_withdrawn payload =
      apply-Keeps (withdrawal_analytics p) payload withdrawal_analytics-Keeps
  apply_event-Keeps transfer_initiated payload = return-Keeps tt
  apply_event-Keeps transfer_completed payload = return-Keeps tt
  apply_event-Keeps transfer_failed payload = return-Keeps tt
  apply_event-Keeps transfer_compensated payload = return-Keeps tt

  unless_duplicate-Keeps :
      (id : Text) (event_type : EventType) (payload : Payload) (o : Option ConsumedEvent)
      → Keeps I (unless_duplicate p id event_type payload o)
  unfolding mark_processed
  unless_duplicate-Keeps id event_type payload (some _) = return-Keeps tt
  unless_duplicate-Keeps id event_type payload none =
      bind-Keeps (apply_event p event_type payload) _ (apply_event-Keeps event_type payload)
        λ _. run-Keeps doc I closed (save_consumed _) tt

  process-Keeps :
      (id : Text) (event_type : EventType) (payload : Payload)
      → Keeps I (process p id event_type payload)
  unfolding process is_already_processed
  process-Keeps id event_type payload =
      bind-Keeps (is_already_processed p id) (unless_duplicate p id event_type payload)
        (read-Keeps doc I closed (select Table.consumed false) (find_consumed id) tt)
        (unless_duplicate-Keeps id event_type payload)

  handle_event-Keeps :
      (event_type : Option EventType) (payload : Payload)
      → Keeps I (handle_event p event_type payload)
  unfolding handle_event
  handle_event-Keeps event_type payload = by_id payload.event_id event_type
    where
      by_id : (o : Option Text) (t : Option EventType) → Keeps I (with_id p payload o t)
      by_id none t = return-Keeps tt
      by_id (some id) none = return-Keeps tt
      by_id (some id) (some t) = elim (Bool-cases (is_empty id)) [
        | inl e ↦ rw e (return-Keeps tt)
        | inr e ↦ rw e (process-Keeps id t payload)
      ]

  pub receive-Keeps :
      (pattern_type : EventType) (payload : Payload) (db : Db)
      → I db
      → I (receive p pattern_type payload db).1
  unfolding receive ack_on_success_nack_on_error
  receive-Keeps pattern_type payload db i =
      outcome (handle_event p (some pattern_type) payload db)
        ((handle_event-Keeps (some pattern_type) payload).at db i)
    where
      outcome : (r : Result (Unit {0}) × Db) → Ends r (λ _ d. I d) (λ _ d. I d) → I (receipt_of r).1
      outcome (ok _, d) k = k
      outcome (err _, d) k = k
