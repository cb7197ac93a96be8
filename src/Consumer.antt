-- ===== src/Consumer.antt =====
-- WalletEventsConsumerService (src/modules/messaging/wallet-events-consumer.service.ts), RmqConsumer
-- and its acknowledgement (src/modules/messaging/rmq.consumer.ts, rabbitmq.strategy.ts).
pub mod Once
pub mod Saving
pub mod Tally
pub mod Counting
pub mod Stream
pub mod Rejected
pub mod Tallies
pub mod Delivery
use api_wallet.Prelude.{
  ℕ, ◌+◌, Text, codes, Bool, true, false, Option, none, some, if◌then◌else◌, is_empty, or_else,
}
use api_wallet.Entities.{
  EventType, funds_deposited, funds_withdrawn, Payload, ConsumedEvent, WalletAnalytics,
}
use api_wallet.Tables.{Db, Table, commit, select, save_consumed, save_analytics}
use api_wallet.Tables.Rows.{lookup_by}
use api_wallet.Platform.{Platform}
use api_wallet.Wallet.Effects.{
  Result, ok, err, Tx, Action, ◌>>=◌, ◌>>◌, pure, gets, of_option, raise, run, in_transaction,
}
use api_wallet.Wallet.Actions
use api_wallet.Wallet.Actions.{return, lift}

unfoldable pub find_analytics : Text → Db → Option WalletAnalytics
unfolding lookup_by
find_analytics id db = lookup_by (λ a. a.wallet_id) id db.analytics

unfoldable pub find_consumed : Text → Db → Option ConsumedEvent
unfolding lookup_by
find_consumed id db = lookup_by (λ c. c.event_id) id db.consumed

-- `findOne(…) || create(…)`
abbrev pub found_or_new : Text → Option WalletAnalytics → WalletAnalytics
found_or_new id (some a) = a
found_or_new id none = record {
  wallet_id = id;
  total_deposited = none;
  total_withdrawn = none;
  withdrawals_count = none;
  deposits_count = none;
  flagged_for_review = none;
}

-- What the channel is told about a message: `nack` without requeueing.
pub data Receipt : Type 0 where
  ack nack : Receipt

abbrev pub receipt_of : Result (Unit {0}) × Db → Receipt × Db
receipt_of (ok _, db) = (ack, db)
receipt_of (err _, db) = (nack, db)

unfoldable pub ack_on_success_nack_on_error : Action (Unit {0}) → Db → Receipt × Db
ack_on_success_nack_on_error handler db = receipt_of (handler db)

module _ (p : Platform) where
  open p use {Decimal, of_text, of_number, plus, gte, to_fixed}

  -- `new Decimal(value ?? 0)` of a text; the publisher and the columns give no numbers.
  unfoldable pub numeric_to_decimal : Option Text → Tx Decimal
  numeric_to_decimal none = pure (of_number 0)
  numeric_to_decimal (some t) = of_option (of_text t)

  abbrev pub high_amount_threshold : Decimal
  high_amount_threshold = of_number 10000

  abbrev pub rapid_withdrawal_threshold : Decimal
  rapid_withdrawal_threshold = of_number 5000

  unfoldable pub deposit_analytics : Text → Decimal → Tx (Unit {0})
  unfolding find_analytics numeric_to_decimal
  deposit_analytics wallet_id amount = do
    run p (select Table.analytics true)
    found ← gets (find_analytics wallet_id)
    let analytics = found_or_new wallet_id found
    total ← numeric_to_decimal (some (or_else analytics.total_deposited (codes "0")))
    run p (
        save_analytics (record analytics {
          total_deposited = some (to_fixed (plus total amount));
          deposits_count = some (or_else analytics.deposits_count 0 + 1);
        }))
    run p commit

  unfoldable pub withdrawal_analytics : Text → Decimal → Tx (Unit {0})
  unfolding find_analytics numeric_to_decimal
  withdrawal_analytics wallet_id amount = do
    run p (select Table.analytics true)
    found ← gets (find_analytics wallet_id)
    let analytics = found_or_new wallet_id found
    total ← numeric_to_decimal (some (or_else analytics.total_withdrawn (codes "0")))
    let total_withdrawn = to_fixed (plus total amount)
    let flagged =
        if gte amount high_amount_threshold then some true else analytics.flagged_for_review
    new_total ← numeric_to_decimal (some total_withdrawn)
    run p (
        save_analytics (record analytics {
          total_withdrawn = some total_withdrawn;
          withdrawals_count = some (or_else analytics.withdrawals_count 0 + 1);
          flagged_for_review =
              if gte new_total rapid_withdrawal_threshold then some true else flagged;
        }))
    run p commit

  -- `manager.transaction(…)` on a wallet.
  unfoldable pub apply_to :
      (Text → Decimal → Tx (Unit {0})) → Text → Option Text → Action (Unit {0})
  unfolding numeric_to_decimal
  apply_to body wallet_id amount =
      if is_empty wallet_id
      then return tt
      else Actions.◌>>=◌ (lift (numeric_to_decimal amount))
          λ amount. in_transaction p (body wallet_id amount) raise

  unfoldable pub apply : (Text → Decimal → Tx (Unit {0})) → Payload → Action (Unit {0})
  unfolding apply_to
  apply body payload = elim payload.wallet_id [
    | none ↦ return tt
    | some wallet_id ↦ apply_to body wallet_id payload.amount
  ]

  unfoldable pub apply_deposit : Payload → Action (Unit {0})
  unfolding apply deposit_analytics
  apply_deposit = apply deposit_analytics

  unfoldable pub apply_withdrawal : Payload → Action (Unit {0})
  unfolding apply withdrawal_analytics
  apply_withdrawal = apply withdrawal_analytics

  abbrev pub apply_event : EventType → Payload → Action (Unit {0})
  apply_event funds_deposited payload = apply_deposit payload
  apply_event funds_withdrawn payload = apply_withdrawal payload
  apply_event _ payload = return tt

  unfoldable pub is_already_processed : Text → Action (Option ConsumedEvent)
  unfolding find_consumed
  is_already_processed event_id =
      lift (run p (select Table.consumed false) >>= λ _. gets (find_consumed event_id))

  unfoldable pub mark_processed : Text → EventType → Action (Unit {0})
  mark_processed event_id event_type =
      lift (run p (save_consumed (record { event_id = event_id; event_type = event_type })))

  abbrev pub unless_duplicate :
      Text → EventType → Payload → Option ConsumedEvent → Action (Unit {0})
  unless_duplicate event_id event_type payload (some _) = return tt
  unless_duplicate event_id event_type payload none =
      Actions.◌>>◌ (apply_event event_type payload) (mark_processed event_id event_type)

  unfoldable pub process : Text → EventType → Payload → Action (Unit {0})
  unfolding apply_deposit apply_withdrawal is_already_processed mark_processed
  process event_id event_type payload =
      Actions.◌>>=◌ (is_already_processed event_id) (unless_duplicate event_id event_type payload)

  -- The tests of `handleEvent` on the id and the type.
  abbrev pub with_id : Payload → Option Text → Option EventType → Action (Unit {0})
  with_id payload (some id) (some event_type) =
      if is_empty id then return tt else process id event_type payload
  with_id payload (some id) none = return tt
  with_id payload none _ = return tt

  -- `handleEvent` of a payload with this `eventType`.
  unfoldable pub handle_event : Option EventType → Payload → Action (Unit {0})
  unfolding process
  handle_event event_type payload = with_id payload payload.event_id event_type

  -- The handlers of RmqConsumer, one for each pattern: the type of the event is that of the pattern.
  unfoldable pub receive : EventType → Payload → Db → Receipt × Db
  unfolding handle_event ack_on_success_nack_on_error
  receive pattern_type payload =
      ack_on_success_nack_on_error (handle_event (some pattern_type) payload)
