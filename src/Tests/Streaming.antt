-- ===== src/Tests/Streaming.antt =====
-- Deliveries of two events, one of which comes twice (src/modules/messaging/rmq.consumer.ts), on the
-- sample platform.
use api_wallet.Prelude.{arith, Text, text_eq, codes, ◌≡◌, refl, some, List, [], ◌∷◌}
use api_wallet.Entities.{EventType, funds_deposited, funds_withdrawn}
use api_wallet.Tables.{Db}
use api_wallet.Platform.{max_units}
use api_wallet.Sample.{platform, platform-IsDocumented, platform-reliable}
use api_wallet.Wallet.Books.{empty}
use api_wallet.Consumer.{ack}
use api_wallet.Consumer.Tally.{Delivery, Tallied}
use api_wallet.Consumer.Stream.{receive_all, receive_all-Tallied}
use api_wallet.Tests.{alice, ten}
use api_wallet.Tests.Consuming.{message}

abbrev pub of_ten : EventType → Text → Delivery
of_ten pattern_type id = record {
  pattern_type = pattern_type;
  payload = record (message ten) { event_id = some id };
  id = id;
  wallet = alice;
  units = 100000;
}

abbrev deliveries : List Delivery
deliveries =
    of_ten funds_withdrawn (codes "e1")
    ∷ of_ten funds_deposited (codes "e2")
    ∷ of_ten funds_withdrawn (codes "e1")
    ∷ []

receive_all-Tallied_example :
    (d : Db) × (receive_all platform deliveries empty ≡ (ack ∷ ack ∷ ack ∷ [], d))
    × Tallied platform
        (of_ten funds_deposited (codes "e2") ∷ of_ten funds_withdrawn (codes "e1") ∷ [])
        d
unfolding max_units text_eq
receive_all-Tallied_example =
    receive_all-Tallied platform-IsDocumented platform-reliable deliveries empty
      (
        (refl, refl, refl, refl, (ten, refl, refl)),
        (
          (refl, refl, refl, refl, (ten, refl, refl)),
          ((refl, refl, refl, refl, (ten, refl, refl)), tt),
        ),
      )
      (omega arith) refl refl
