-- ===== src/Consumer/Delivery.antt =====
-- Messages as the broker delivers them (src/modules/messaging/rmq.consumer.ts,
-- src/modules/messaging/rabbitmq.strategy.ts).
use api_wallet.Prelude.{Text, ◌≡◌, refl, ap, ◌⊎◌, some, inl, inr}
use api_wallet.Entities.{EventType, Payload}
use api_wallet.Tables.{Db}
use api_wallet.Platform.{Platform, IsDocumented}
use api_wallet.Wallet.{Result, ok, err}
use api_wallet.Wallet.Outcomes.{Refused}
use api_wallet.Consumer.{
  ack, nack, receipt_of, process, ack_on_success_nack_on_error, handle_event, receive,
}
use api_wallet.Consumer.Tally.{Delivery, IsProper}
use api_wallet.Consumer.Once.{handle_event-once}

-- Only a handler that returns is acknowledged.
receipt_of-ack : (r : Result (Unit {0}) × Db) (d : Db) → receipt_of r ≡ (ack, d) → r ≡ (ok tt, d)
receipt_of-ack (ok _, x) d e = cc
receipt_of-ack (err _, x) d e = cc

-- A proper message is processed under its own id.
pub receive-process :
    (p : Platform) (m : Delivery) (db : Db)
    → IsProper p m
    → receive p m.pattern_type m.payload db
      ≡ receipt_of (process p m.id m.pattern_type m.payload db)
unfolding receive handle_event ack_on_success_nack_on_error
receive-process p m db proper = ap receipt_of the_process
  where
    the_process :
        handle_event p (some m.pattern_type) m.payload db
        ≡ process p m.id m.pattern_type m.payload db
    the_process = rw (handle_event, proper.0, proper.1) refl

-- Once a message was acknowledged, a message with its event id, by whatever pattern it comes, is
-- acknowledged and changes nothing while the consumed events stand as they were left, unless the
-- database refuses the lookup of the event; then it is rejected and changes nothing.
pub receive-again :
    {p : Platform} (doc : IsDocumented p) (id : Text) (pattern_type again_type : EventType)
    (payload again : Payload) (db handled later : Db)
    → payload.event_id ≡ some id
    → again.event_id ≡ some id
    → receive p pattern_type payload db ≡ (ack, handled)
    → later.consumed ≡ handled.consumed
    → (receive p again_type again later ≡ (ack, later))
      ⊎ ((receive p again_type again later ≡ (nack, later)) × Refused p)
unfolding receive ack_on_success_nack_on_error
receive-again {p} doc id pattern_type again_type payload again db handled later e e' out same =
    elim (handle_event-once doc id pattern_type again_type payload again db handled later e e'
      (receipt_of-ack (handle_event p (some pattern_type) payload db) handled out) same) [
        | inl h ↦ inl (ap receipt_of h)
        | inr (h, refused) ↦ inr (ap receipt_of h, refused)
      ]
