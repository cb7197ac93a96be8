-- ===== src/Consumer/Tallies.antt =====
-- What a withdrawal or a deposit adds to the analytics of its wallet
-- (src/modules/messaging/wallet-events-consumer.service.ts).
use api_wallet.Prelude.{
  ◌*◌, ℕ, ◌+◌, ◌<◌, Text, codes, ◌≡◌, refl, true, false, ◌||◌, leb, some, is_empty, or_else,
  if◌then◌else◌,
}
use api_wallet.Entities.{Payload}
use api_wallet.Tables.{Db, stored_analytics}
use api_wallet.Platform.{Platform, IsDocumented, Denotes, max_units}
use api_wallet.Wallet.{failure}
use api_wallet.Wallet.Outcomes.{Ends, Refused}
use api_wallet.Consumer.{find_analytics, found_or_new, apply_withdrawal, apply_deposit}
use api_wallet.Wallet.Requests.{Ends_mono}
use api_wallet.Consumer.Saving.{
  withdrawn_row, deposited_row, Saves-found, apply_withdrawal-Saves, apply_deposit-Saves,
}

-- A withdrawal event of a wallet adds its amount to the total withdrawn and one to the count, and
-- flags the wallet if the amount is 10000 or more or the new total is 5000 or more, as long as the
-- total fits numeric(20,4); what else was known of the wallet stays, and nothing is known of a wallet
-- before its first event: its row then has the defaults of its columns. An event that is not applied
-- throws because the database refused a statement, and changes nothing.
pub apply_withdrawal-Withdrawn :
    {p : Platform} (doc : IsDocumented p) (payload : Payload) (id t : Text) (n w : ℕ) (db : Db)
    → payload.wallet_id ≡ some id
    → is_empty id ≡ false
    → payload.amount ≡ some t
    → Denotes p t n
    → Denotes p (or_else (found_or_new id (find_analytics id db)).total_withdrawn (codes "0")) w
    → w + n < max_units
    → Ends
        (apply_withdrawal p payload db)
        (λ _ d.
          (total : Text) × Denotes p (p.stored total) (w + n)
          × (find_analytics id d
              ≡ some (
                  stored_analytics p.stored p.uuid
                    (record (found_or_new id (find_analytics id db)) {
                      total_withdrawn = some total;
                      withdrawals_count = some (
                          or_else (found_or_new id (find_analytics id db)).withdrawals_count 0 + 1);
                      flagged_for_review =
                          if leb (10000 * 10000) n || leb (5000 * 10000) (w + n)
                          then some true
                          else (found_or_new id (find_analytics id db)).flagged_for_review;
                    }))))
        (λ e d. (d ≡ db) × (e ≡ failure) × Refused p)
apply_withdrawal-Withdrawn {p} doc payload id t n w db named filled given amount before small =
    Ends_mono (apply_withdrawal p payload db) _ _ _ _
      (apply_withdrawal-Saves doc id n w db payload t named filled given amount small before)
      (λ _ d saved. Saves-found doc id n w db (withdrawn_row doc id n w db) (λ _. refl) d saved)
      (λ _ _ thrown. thrown)

-- A deposit event of a wallet adds its amount to the total deposited and one to the count, as long as
-- the total fits numeric(20,4); what else was known of the wallet stays, the flag included, and what
-- was not takes the defaults of its columns. An event that is not applied throws because the
-- database refused a statement, and changes nothing.
pub apply_deposit-Deposited :
    {p : Platform} (doc : IsDocumented p) (payload : Payload) (id t : Text) (n w : ℕ) (db : Db)
    → payload.wallet_id ≡ some id
    → is_empty id ≡ false
    → payload.amount ≡ some t
    → Denotes p t n
    → Denotes p (or_else (found_or_new id (find_analytics id db)).total_deposited (codes "0")) w
    → w + n < max_units
    → Ends
        (apply_deposit p payload db)
        (λ _ d.
          (total : Text) × Denotes p (p.stored total) (w + n)
          × (find_analytics id d
              ≡ some (
                  stored_analytics p.stored p.uuid
                    (record (found_or_new id (find_analytics id db)) {
                      total_deposited = some total;
                      deposits_count =
                          some
                            (or_else (found_or_new id (find_analytics id db)).deposits_count 0 + 1);
                    }))))
        (λ e d. (d ≡ db) × (e ≡ failure) × Refused p)
apply_deposit-Deposited {p} doc payload id t n w db named filled given amount before small =
    Ends_mono (apply_deposit p payload db) _ _ _ _
      (apply_deposit-Saves doc id n w db payload t named filled given amount small before)
      (λ _ d saved. Saves-found doc id n w db (deposited_row doc id n w db) (λ _. refl) d saved)
      (λ _ _ thrown. thrown)
