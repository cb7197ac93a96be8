-- ===== src/OutboxPublisher.antt =====
-- OutboxPublisherService (src/modules/wallet/outbox-publisher.service.ts): one cycle of the
-- publisher. The broker is a parameter, and so are the rows that other transactions have locked.
pub mod Sorting
pub mod Messages
pub mod Frame
pub mod Cycle
pub mod Progress
pub mod Overlap
pub mod Retries
pub mod Timer
use api_wallet.Prelude.{
  ℕ, suc, ◌+◌, ◌-◌, ◌*◌, ◌^◌, Text, Bool, true, false, not, ◌&&◌, Option, none, some, List, [], ◌∷◌,
  take, leb, if◌then◌else◌,
}
use api_wallet.Entities.{
  EventType, Payload, OutboxMessage, OutboxStatus, pending, published, failed,
}
use api_wallet.Tables.{
  Db, Table, OutboxPatch, commit, rollback, select, save_messages, update_message,
}
use api_wallet.Platform.{Platform}
use api_wallet.Wallet.Effects.{
  Result, ok, err, failure, Tx, Action, run, gets, pure, in_transaction,
}
use api_wallet.Wallet.Effects
use api_wallet.Wallet.Actions.{◌>>=◌, ◌>>◌, return, lift}

-- The RabbitMQ client: `emit` completes, or it fails with a message, and a statement that fails
-- outside a transaction has a message too.
pub record Broker : Type 0 where
  pub emit : Db → EventType → Payload → Option Text
  pub statement_error : Text
  pub is_locked : Db → OutboxMessage → Bool

abbrev pub default_batch_size : ℕ
default_batch_size = 50

abbrev pub max_attempts_before_failure : ℕ
max_attempts_before_failure = 10

unfoldable pub calculate_backoff : ℕ → ℕ
calculate_backoff attempts =
    let delay = 1000 * 2 ^ (attempts - 1) in if leb delay 30000 then delay else 30000

abbrev pub is_pending : OutboxStatus → Bool
is_pending pending = true
is_pending _ = false

-- `msg.nextAttemptAt IS NULL OR msg.nextAttemptAt <= now()`
abbrev pub is_due : ℕ → Option ℕ → Bool
is_due now none = true
is_due now (some t) = leb t now

-- The order of `createdAt ASC`, where NULL is last.
abbrev pub no_later : Option ℕ → Option ℕ → Bool
no_later (some s) (some t) = leb s t
no_later _ none = true
no_later none (some _) = false

abbrev pub created_by : OutboxMessage → OutboxMessage → Bool
created_by a b = no_later a.created_at b.created_at

unfoldable pub insert_by_time : OutboxMessage → List OutboxMessage → List OutboxMessage
insert_by_time m [] = m ∷ []
insert_by_time m (n ∷ ms) = if created_by m n then m ∷ n ∷ ms else n ∷ insert_by_time m ms

unfoldable pub attempted : List OutboxMessage → List OutboxMessage
attempted [] = []
attempted (m ∷ ms) = record m { attempts = m.attempts + 1 } ∷ attempted ms

module _ (p : Platform) (broker : Broker) where
  -- The `where` of the query, with the rows that are locked skipped.
  abbrev pub is_chosen : Db → OutboxMessage → Bool
  is_chosen db m =
      is_pending m.status && (is_due db.clock m.next_attempt_at && not (broker.is_locked db m))

  unfoldable pub candidates : Db → List OutboxMessage → List OutboxMessage
  unfolding insert_by_time
  candidates db [] = []
  candidates db (m ∷ ms) =
      if is_chosen db m then insert_by_time m (candidates db ms) else candidates db ms

  unfoldable pub find_batch : ℕ → Db → List OutboxMessage
  unfolding candidates
  find_batch batch_size db = take batch_size (candidates db db.outbox)

  unfoldable pub save_batch : List OutboxMessage → Tx (List OutboxMessage)
  unfolding attempted
  save_batch [] = Effects.◌>>◌ (run p commit) (pure [])
  save_batch (m ∷ ms) =
      Effects.◌>>◌ (run p (save_messages (attempted (m ∷ ms))))
        (Effects.◌>>◌ (run p commit) (pure (attempted (m ∷ ms))))

  -- The transaction: the messages of the batch are read, counted as attempted and saved.
  unfoldable pub load_batch : ℕ → Tx (List OutboxMessage)
  unfolding find_batch save_batch
  load_batch batch_size =
      Effects.◌>>◌ (run p (select Table.outbox true))
        (Effects.◌>>=◌ (gets (find_batch batch_size)) save_batch)

  -- The `catch` of `publishMessage`.
  unfoldable pub publish_failed : OutboxMessage → Text → Action (Unit {0})
  unfolding calculate_backoff
  publish_failed message message_error db =
      let attempts = message.attempts in
      let next_delay_ms = calculate_backoff attempts in
      lift
        (run p (
          update_message message.id (record {
            status = if leb max_attempts_before_failure attempts then failed else pending;
            published_at = none;
            next_attempt_at = some (db.clock + next_delay_ms);
            last_error = some message_error;
          })))
        db

  unfoldable pub publish_accepted : OutboxMessage → Action (Unit {0})
  unfolding publish_failed
  publish_accepted message db =
      elim (run p
        (update_message message.id (record {
          status = published;
          published_at = some (some db.clock);
          next_attempt_at = none;
          last_error = none;
        }))
        db) [
          | ok (_, db') ↦ (ok tt, db')
          | err _ ↦ publish_failed message broker.statement_error db
        ]

  unfoldable pub publish_message : OutboxMessage → Action (Unit {0})
  unfolding publish_accepted publish_failed
  publish_message message db = elim (broker.emit db message.event_type message.payload) [
    | none ↦ publish_accepted message db
    | some message_error ↦ publish_failed message message_error db
  ]

  unfoldable pub publish_all : List OutboxMessage → Action (Unit {0})
  unfolding publish_message
  publish_all [] = return tt
  publish_all (m ∷ ms) = publish_message m >> publish_all ms

  abbrev pub caught : Result (Unit {0}) × Db → Result (Unit {0}) × Db
  caught (ok _, db) = (ok tt, db)
  caught (err _, db) = (err failure, db)

  -- The loop, and the `catch`, whose rollback throws since the transaction is committed.
  unfoldable pub publish_batch : List OutboxMessage → Action (Unit {0})
  unfolding publish_all
  publish_batch messages db = caught (publish_all messages db)

  -- `publishPending`. A throw before the commit rolls the batch back, and nothing is published.
  unfoldable pub publish_pending : ℕ → Action (Unit {0})
  unfolding load_batch publish_batch
  publish_pending batch_size =
      in_transaction p (load_batch batch_size) (λ _. return []) >>= publish_batch
