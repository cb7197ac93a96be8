-- ===== src/Tests/Rejecting.antt =====
-- A withdrawal event (src/modules/messaging/wallet-events-consumer.service.ts) on the sample platform
-- with a database that does not take a consumed event.
use api_wallet.Prelude.{arith, codes, ◌≡◌, refl, ◌⊎◌, inl, Option, none, some}
use api_wallet.Entities.{funds_withdrawn}
use api_wallet.Tables.{Db, Statement, save_consumed, effect}
use api_wallet.Platform.{Platform, IsDocumented, max_units}
use api_wallet.Sample.{platform, execute, platform-IsDocumented}
use api_wallet.Wallet.{in_transaction}
use api_wallet.Wallet.Books.{empty}
use api_wallet.Consumer.{receive, handle_event, find_consumed, ack_on_success_nack_on_error}
use api_wallet.Consumer.Rejected.{Applied, receive-rejected}
use api_wallet.Tests.{ten}
use api_wallet.Tests.Streaming.{of_ten}

abbrev refuse_consumed : Statement → Db → Option Db
refuse_consumed (save_consumed c) db = none
refuse_consumed s db = execute s db

abbrev forgetful : Platform
forgetful = record platform { execute = refuse_consumed }

refused_or_done :
    (s : Statement) (db : Db)
    → (refuse_consumed s db ≡ none)
      ⊎ (refuse_consumed s db ≡ some (effect platform.stored platform.uuid s db))
refused_or_done (save_consumed c) db = inl refl
refused_or_done s db = platform-IsDocumented.executed s db

forgetful-IsDocumented : IsDocumented forgetful
unfolding execute
forgetful-IsDocumented = record {
  of_number_money = platform-IsDocumented.of_number_money;
  plus_money = platform-IsDocumented.plus_money;
  significant_small = platform-IsDocumented.significant_small;
  significant_large = platform-IsDocumented.significant_large;
  minus_money = platform-IsDocumented.minus_money;
  lt_money = platform-IsDocumented.lt_money;
  gte_money = platform-IsDocumented.gte_money;
  to_places_money = platform-IsDocumented.to_places_money;
  to_fixed_money = platform-IsDocumented.to_fixed_money;
  to_text_money = platform-IsDocumented.to_text_money;
  of_text_empty = platform-IsDocumented.of_text_empty;
  money_injective = platform-IsDocumented.money_injective;
  stored_money = platform-IsDocumented.stored_money;
  stored_zero = platform-IsDocumented.stored_zero;
  zero_text = platform-IsDocumented.zero_text;
  default_zero = platform-IsDocumented.default_zero;
  balance_fits = platform-IsDocumented.balance_fits;
  amount_positive = platform-IsDocumented.amount_positive;
  uuid_injective = platform-IsDocumented.uuid_injective;
  uuid_nonempty = platform-IsDocumented.uuid_nonempty;
  executed = refused_or_done;
}

-- What it leaves: the withdrawal is in the analytics.
abbrev left : Db
left = (receive forgetful funds_withdrawn (of_ten funds_withdrawn (codes "e1")).payload empty).1

receive-rejected_example :
    (left ≡ empty)
    ⊎ (Applied forgetful-IsDocumented
          (of_ten funds_withdrawn (codes "e1"))
          empty
          0
          0
          funds_withdrawn
          left
        × (find_consumed (codes "e1") left ≡ none))
unfolding receive handle_event in_transaction execute ack_on_success_nack_on_error max_units
receive-rejected_example =
    receive-rejected forgetful-IsDocumented (of_ten funds_withdrawn (codes "e1")) empty 0 0
      (refl, refl, refl, refl, (ten, refl, refl)) refl refl (omega arith) (omega arith) left refl
