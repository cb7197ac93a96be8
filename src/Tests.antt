-- ===== src/Tests.antt =====
-- Runs of the model on the sample platform, and the theorems at concrete inputs.
mod Requests
mod Publishing
mod Consuming
mod Streaming
mod Rejecting
mod Running
mod Reading
mod Settings
use api_wallet.Prelude.{◌-◌, ◌≤◌, ◌<◌, Text, codes, text_eq, text_le, ◌≡◌, refl, none, [], ◌∷◌, ◌⊎◌}
use api_wallet.Tables.{Db}
use api_wallet.Platform.{Denotes, max_units}
use api_wallet.Sample.{platform, execute, platform-IsDocumented}
use api_wallet.Wallet.{deposit, withdraw, failure, in_transaction}
use api_wallet.Wallet.{order_wallet_ids}
use api_wallet.Wallet.Conservation.{total, transfer-total}
use api_wallet.Wallet.Outcomes.{Ends, Cause, Refused}
use api_wallet.Wallet.Books.{Books, Ledger, set, empty, empty-Books}
use api_wallet.Wallet.Commands.{deposit-Books, withdraw-Books}
use api_wallet.Wallet.Transfer.{transfer}
use api_wallet.Wallet.TransferOutcome.{Credited, Unmoved, Hindered, transfer-Books}

-- 25.0000 and 10.0000 in the sample's notation.
abbrev pub twenty_five : Text
twenty_five = b'+' ∷ 2500000 ∷ []

abbrev pub ten : Text
ten = b'+' ∷ 1000000 ∷ []

abbrev pub alice : Text
alice = codes "alice"

abbrev pub bob : Text
bob = codes "bob"

-- The sender holds 25.0000 after one deposit.
abbrev pub funded : Db
funded = (deposit platform alice twenty_five none none empty).1

abbrev pub funded_ledger : Ledger
funded_ledger = set (λ _. 0) alice 250000

pub funded-Books : Books platform funded funded_ledger
unfolding deposit in_transaction execute
funded-Books =
    (deposit-Books platform-IsDocumented alice twenty_five none none 250000 empty (λ _. 0) refl
      (empty-Books platform)).0

deposit_run : funded.wallets ≡ record { id = alice; balance = twenty_five } ∷ []
unfolding deposit in_transaction execute
deposit_run = refl

transfer_run :
    (transfer platform alice bob ten none none funded).1.wallets
    ≡ record { id = alice; balance = b'+' ∷ 1500000 ∷ [] } ∷ record { id = bob; balance = ten } ∷ []
unfolding deposit transfer in_transaction execute text_le
transfer_run = refl

-- A transfer of more than the sender holds is answered by `failed`.
overdraft_run :
    (transfer platform bob alice ten none none funded).1.wallets
    ≡ record { id = alice; balance = twenty_five }
      ∷ record { id = bob; balance = codes "0.0000" }
      ∷ []
unfolding deposit transfer in_transaction execute text_le
overdraft_run = refl

deposit-Books_example :
    Ends
      (deposit platform alice twenty_five none none empty)
      (λ r db'. Books platform db' (set (λ _. 0) alice 250000) × Denotes platform r.balance 250000)
      (λ e db'. (db' ≡ empty) × Cause platform ⊥ (max_units ≤ 250000) e)
unfolding deposit
deposit-Books_example =
    deposit-Books platform-IsDocumented alice twenty_five none none 250000 empty (λ _. 0) refl
      (empty-Books platform)

withdraw-Books_example :
    Ends
      (withdraw platform alice ten none none funded)
      (λ r db'.
        (100000 ≤ funded_ledger alice)
        × Books platform db' (set funded_ledger alice (funded_ledger alice - 100000))
        × Denotes platform r.balance (funded_ledger alice - 100000))
      (λ e db'. (db' ≡ funded) × Cause platform (funded_ledger alice < 100000) ⊥ e)
unfolding withdraw
withdraw-Books_example =
    withdraw-Books platform-IsDocumented alice ten none none 100000 funded funded_ledger refl
      funded-Books

transfer-Books_example :
    Ends
      (transfer platform alice bob ten none none funded)
      (λ r db'.
        Credited platform alice bob 100000 funded_ledger r db'
        ⊎ (Unmoved platform alice bob 100000 funded_ledger r db'
            × Hindered platform alice bob 100000 funded_ledger))
      (λ e db'. (db' ≡ funded) × (e ≡ failure) × Refused platform)
unfolding transfer text_eq
transfer-Books_example =
    transfer-Books platform-IsDocumented alice bob ten none none 100000 funded funded_ledger refl
      refl funded-Books

transfer-total_example :
    Ends
      (transfer platform alice bob ten none none funded)
      (λ _ d.
        (after : Ledger) × Books platform d after
        × (total after (bob ∷ alice ∷ []) ≡ total funded_ledger (bob ∷ alice ∷ [])))
      (λ _ d. d ≡ funded)
unfolding transfer text_eq
transfer-total_example =
    transfer-total platform-IsDocumented alice bob ten none none 100000 funded funded_ledger
      (bob ∷ alice ∷ []) refl refl funded-Books ((refl, tt), (tt, tt)) refl refl
