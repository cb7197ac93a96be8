-- ===== src/Tests/Consuming.antt =====
-- Runs of the consumer on the sample platform, and its theorems at concrete inputs.
use api_wallet.Prelude.{
  arith, ◌+◌, ◌*◌, Text, codes, ◌≡◌, refl, true, false, ◌||◌, ◌⊎◌, leb, none, some, [], ◌∷◌,
  or_else, if◌then◌else◌,
}
use api_wallet.Entities.{Payload, funds_deposited, funds_withdrawn}
use api_wallet.Tables.{Db, stored_analytics}
use api_wallet.Platform.{Denotes, max_units}
use api_wallet.Sample.{platform, execute, platform-IsDocumented}
use api_wallet.Wallet.{ok, failure, in_transaction}
use api_wallet.Wallet.Outcomes.{Ends, Refused}
use api_wallet.Wallet.Requests.{Recalls}
use api_wallet.Wallet.Books.{empty}
use api_wallet.Consumer.{
  find_analytics, found_or_new, handle_event, apply_deposit, apply_withdrawal,
  ack_on_success_nack_on_error, ack, nack, receive,
}
use api_wallet.Consumer.Delivery.{receive-again}
use api_wallet.Consumer.Once.{handle_event-once}
use api_wallet.Consumer.Tallies.{apply_withdrawal-Withdrawn, apply_deposit-Deposited}
use api_wallet.Tests.{alice, ten, twenty_five}

abbrev pub message : Text → Payload
message amount = record {
  event_id = some (codes "e1");
  wallet_id = some alice;
  to_wallet_id = none;
  transfer_id = none;
  amount = some amount;
  request_id = none;
  metadata = none;
}

abbrev handled : Db
handled = (handle_event platform (some funds_withdrawn) (message ten) empty).1

handled_run :
    handled.analytics
    ≡ record {
      wallet_id = alice;
      total_deposited = some (codes "0.0000");
      total_withdrawn = some ten;
      withdrawals_count = some 1;
      deposits_count = some 0;
      flagged_for_review = some false;
    }
      ∷ []
unfolding handle_event in_transaction execute
handled_run = refl

-- 10000.0000 in the sample's notation is flagged.
large_run :
    find_analytics alice
      (handle_event platform (some funds_withdrawn) (message (b'+' ∷ 1000000000 ∷ [])) empty).1
    ≡ some (record {
      wallet_id = alice;
      total_deposited = some (codes "0.0000");
      total_withdrawn = some (b'+' ∷ 1000000000 ∷ []);
      withdrawals_count = some 1;
      deposits_count = some 0;
      flagged_for_review = some true;
    })
unfolding handle_event in_transaction execute
large_run = refl

garbage_run :
    (ack_on_success_nack_on_error
      (handle_event platform (some funds_withdrawn) (message (codes "ten")))
      empty).1.analytics
    ≡ []
unfolding handle_event in_transaction execute ack_on_success_nack_on_error
garbage_run = refl

handle_event-once_example :
    Recalls platform
      (handle_event platform (some funds_deposited) (message twenty_five) handled)
      (ok tt)
      handled
unfolding handle_event in_transaction execute
handle_event-once_example =
    handle_event-once platform-IsDocumented (codes "e1") funds_withdrawn funds_deposited
      (message ten) (message twenty_five) empty handled handled refl refl refl refl

apply_withdrawal-Withdrawn_example :
    Ends
      (apply_withdrawal platform (message ten) handled)
      (λ _ d.
        (total : Text) × Denotes platform (platform.stored total) (100000 + 100000)
        × (find_analytics alice d
            ≡ some (
                stored_analytics platform.stored platform.uuid
                  (record (found_or_new alice (find_analytics alice handled)) {
                    total_withdrawn = some total;
                    withdrawals_count = some (
                        or_else
                          (found_or_new alice (find_analytics alice handled)).withdrawals_count
                          0
                        + 1);
                    flagged_for_review =
                        if leb (10000 * 10000) 100000 || leb (5000 * 10000) (100000 + 100000)
                        then some true
                        else (found_or_new alice (find_analytics alice handled)).flagged_for_review;
                  }))))
      (λ e d. (d ≡ handled) × (e ≡ failure) × Refused platform)
unfolding handle_event in_transaction execute find_analytics max_units
apply_withdrawal-Withdrawn_example =
    apply_withdrawal-Withdrawn platform-IsDocumented (message ten) alice ten 100000 100000 handled
      refl refl refl refl refl (omega arith)

apply_deposit-Deposited_example :
    Ends
      (apply_deposit platform (message ten) handled)
      (λ _ d.
        (total : Text) × Denotes platform (platform.stored total) (0 + 100000)
        × (find_analytics alice d
            ≡ some (
                stored_analytics platform.stored platform.uuid
                  (record (found_or_new alice (find_analytics alice handled)) {
                    total_deposited = some total;
                    deposits_count = some (
                        or_else (found_or_new alice (find_analytics alice handled)).deposits_count 0
                        + 1);
                  }))))
      (λ e d. (d ≡ handled) × (e ≡ failure) × Refused platform)
unfolding handle_event in_transaction execute find_analytics max_units
apply_deposit-Deposited_example =
    apply_deposit-Deposited platform-IsDocumented (message ten) alice ten 100000 0 handled refl refl
      refl refl refl (omega arith)

receive-again_example :
    (receive platform funds_deposited (message twenty_five) handled ≡ (ack, handled))
    ⊎ ((receive platform funds_deposited (message twenty_five) handled ≡ (nack, handled))
        × Refused platform)
unfolding receive handle_event in_transaction execute ack_on_success_nack_on_error
receive-again_example =
    receive-again platform-IsDocumented (codes "e1") funds_withdrawn funds_deposited (message ten)
      (message twenty_five) empty handled handled refl refl refl refl
