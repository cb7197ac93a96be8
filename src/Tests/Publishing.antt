-- ===== src/Tests/Publishing.antt =====
-- Runs of the outbox publisher on the sample platform, and its theorems at concrete inputs.
use api_wallet.Prelude.{
  true, arith, leb, if◌then◌else◌, text_eq, ◌≢◌, map, codes, ◌*◌, ◌≤◌, ◌≡◌, refl, none, some, [],
  ◌∷◌, All, length, false,
}
use api_wallet.Entities.{
  OutboxStatus, EventType, Payload, OutboxMessage, pending, published, funds_deposited,
}
use api_wallet.Tables.{Db, update_message, effect, OutboxPatch}
use api_wallet.Sample.{platform, execute, platform-IsDocumented, platform-reliable}
use api_wallet.Wallet.{deposit, failure, in_transaction}
use api_wallet.Wallet.Outcomes.{Ends, Refused}
use api_wallet.OutboxPublisher.{
  Broker, attempted, calculate_backoff, find_batch, publish_message, publish_pending,
}
use api_wallet.OutboxPublisher.Progress.{
  is_waiting, IsSent, publish_pending-ids, publish_pending-Sent,
}
use api_wallet.OutboxPublisher.Overlap.{load_together, load_together-twice}
use api_wallet.OutboxPublisher.Retries.{alone, cycles, cycles-fail}
use api_wallet.OutboxPublisher.Sorting.{IsSorted}
use api_wallet.OutboxPublisher.Messages.{
  calculate_backoff-doubles, IsChosen, Settles, find_batch-IsChosen, publish_message-Settles,
}
use api_wallet.OutboxPublisher.Cycle.{IsSettled, publish_pending-IsSettled}
use api_wallet.Tests.{funded}

abbrev pub willing : Broker
willing = record { emit = λ _ _ _. none; statement_error = []; is_locked = λ _ _. false }

calculate_backoff-doubles_example :
    (calculate_backoff 1 ≡ 1000)
    × (calculate_backoff 5
        ≡ (if leb (2 * calculate_backoff 4) 30000 then 2 * calculate_backoff 4 else 30000))
    × (1000 ≤ calculate_backoff 3)
    × (calculate_backoff 3 ≤ 30000)
calculate_backoff-doubles_example = calculate_backoff-doubles 3

find_batch-IsChosen_example :
    (length (find_batch platform willing 50 funded) ≤ 50)
    × IsSorted (find_batch platform willing 50 funded)
    × All (λ m. IsChosen funded m × (m.attempts ≡ 0)) (find_batch platform willing 50 funded)
unfolding deposit in_transaction execute
find_batch-IsChosen_example =
    find_batch-IsChosen platform willing (λ m. m.attempts ≡ 0) 50 funded (refl, tt)

publish_pending_run :
    All (λ m. m.status ≡ published) (publish_pending platform willing 50 funded).1.outbox
unfolding deposit in_transaction execute publish_pending find_batch
publish_pending_run = (refl, tt)

publish_pending-IsSettled_example :
    All IsSettled (publish_pending platform willing 50 funded).1.outbox
unfolding deposit in_transaction execute publish_pending find_batch
publish_pending-IsSettled_example =
    publish_pending-IsSettled platform-IsDocumented willing 50 funded (((λ e. cc), (λ e. cc)), tt)

-- A message of the outbox at its tenth attempt.
abbrev tenth : OutboxMessage
tenth = record {
  id = some (codes "m1");
  event_type = funds_deposited;
  payload = record {
    event_id = none;
    wallet_id = none;
    to_wallet_id = none;
    transfer_id = none;
    amount = none;
    request_id = none;
    metadata = none;
  };
  status = pending;
  attempts = 10;
  next_attempt_at = none;
  published_at = none;
  last_error = none;
  created_at = none;
}

abbrev pub refusing : Broker
refusing = record willing { emit = λ _ _ _. some (codes "down") }

publish_message-Settles_example :
    Ends
      (publish_message platform refusing tenth funded)
      (λ _ d.
        (patch : OutboxPatch) × (d
          ≡ effect platform.stored platform.uuid (update_message tenth.id patch) funded)
        × Settles platform refusing funded tenth patch)
      (λ e d. (e ≡ failure) × (d ≡ funded) × Refused platform)
publish_message-Settles_example =
    publish_message-Settles platform-IsDocumented refusing tenth funded

publish_pending-Sent_example :
    Ends
      (publish_pending platform willing 50 funded)
      (λ _ d. All (λ m. is_waiting willing funded m ≡ true → IsSent none m d.outbox) funded.outbox)
      (λ _ _. ⊥)
unfolding deposit in_transaction execute
publish_pending-Sent_example =
    publish_pending-Sent platform-IsDocumented willing none (λ _ _ _. refl) platform-reliable 50
      funded (omega arith)

-- The batch is not empty: the message of the deposit is published.
sent_run :
    map (λ m. m.status) (publish_pending platform willing 50 funded).1.outbox ≡ published ∷ []
unfolding deposit in_transaction execute publish_pending find_batch
sent_run = refl

publish_pending-ids_example :
    map (λ r. r.id) (publish_pending platform refusing 50 funded).1.outbox
    ≡ map (λ r. r.id) funded.outbox
publish_pending-ids_example = publish_pending-ids platform-IsDocumented refusing 50 funded

-- A new message that the broker keeps refusing, and its ten cycles.
abbrev first : OutboxMessage
first = record tenth { attempts = 0 }

abbrev declines :
    (db : Db) (event_type : EventType) (payload : Payload)
    → refusing.emit db event_type payload ≢ none
declines db event_type payload e = cc

cycles-fail_example :
    (m' : OutboxMessage) × ((cycles platform refusing 49 10 (alone first funded)).outbox ≡ m' ∷ [])
    × (m'.id ≡ some (codes "m1"))
    × (m'.status ≡ OutboxStatus.failed)
    × (m'.attempts ≡ 10)
cycles-fail_example =
    cycles-fail platform-IsDocumented refusing declines (λ _ _. refl) platform-reliable 49 9 first
      (codes "m1") funded refl refl refl (omega arith)

load_together-twice_example :
    Ends
      (load_together platform willing 50 funded)
      (λ (first, second) _.
        (first ≡ attempted (find_batch platform willing 50 funded)) × (second ≡ attempted first))
      (λ _ _. ⊥)
unfolding deposit in_transaction execute text_eq
load_together-twice_example =
    load_together-twice platform-IsDocumented platform-reliable willing (λ _ _. refl) 50 funded
      ((refl, ((λ _. refl), tt)), tt)
