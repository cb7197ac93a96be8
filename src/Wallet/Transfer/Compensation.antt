-- ===== src/Wallet/Transfer/Compensation.antt =====
-- `compensateTransfer` (src/modules/wallet/wallet.service.ts): the handler of a failed transfer.
use api_wallet.Prelude.{
  suc, Text, codes, text_eq, Bool, true, false, ◌&&◌, Option, none, some, List, [], ◌∷◌,
  if◌then◌else◌, or_else,
}
use api_wallet.Entities.{
  transfer_failed, transfer_compensated, Value, Metadata, assign, Wallet, WalletEvent, Payload,
  Transfer, TransferStatus, debited, compensated, TransferCommandResult,
}
use api_wallet.Tables.{
  Table, commit, select, save_wallets, save_events, save_transfer, number_event,
}
use api_wallet.Platform.{Platform}
use api_wallet.Wallet.{
  Tx, Action, ◌>>=◌, ◌>>◌, pure, gets, raise, run, in_transaction, order_wallet_ids,
  balance_decimal, create_event, lock_wallet, enqueue_outbox, supports_pessimistic_lock,
}

abbrev pub is_debited : TransferStatus → Bool
is_debited debited = true
is_debited _ = false

abbrev pub is_compensated : TransferStatus → Bool
is_compensated compensated = true
is_compensated _ = false

-- The `where` of `findOne`, on the rows of the table; the amount is compared as the column holds it.
unfoldable pub find_debited : Text → Text → Text → List Transfer → Option Transfer
find_debited from to amount [] = none
find_debited from to amount (t ∷ rows) =
    if text_eq t.from_wallet_id from
      && (text_eq t.to_wallet_id to && (text_eq t.amount amount && is_debited t.status))
    then some t
    else find_debited from to amount rows

module _ (p : Platform) (from_wallet_id to_wallet_id : Text) (amount : p.Decimal)
    (request_id : Option Text) (metadata : Option Metadata) where
  open p use {plus, to_fixed, to_text, uuid, stored}

  abbrev compensation_payload : Transfer → WalletEvent → Payload
  compensation_payload transfer event = record {
    event_id = event.id;
    wallet_id = some from_wallet_id;
    to_wallet_id = some to_wallet_id;
    transfer_id = transfer.id;
    amount = some (to_text amount);
    request_id = request_id;
    metadata = metadata;
  }

  abbrev compensation_result : Wallet → Option Text → TransferStatus → TransferCommandResult
  compensation_result wallet transfer_id status = record {
    command = record { wallet_id = from_wallet_id; balance = wallet.balance; events = [] };
    to_wallet_id = to_wallet_id;
    transfer_id = transfer_id;
    transfer_status = status;
  }

  -- The body of `if (transfer.status !== 'compensated')`.
  unfoldable pub restore_funds : Wallet → Transfer → Tx (Wallet × Transfer)
  unfolding balance_decimal create_event enqueue_outbox
  restore_funds from_wallet transfer = do
    balance ← balance_decimal p from_wallet.balance
    let wallet = record from_wallet { balance = to_fixed (plus balance amount) }
    let reversed = record transfer {
      status = compensated;
      failure_reason = some (codes "credit_failed");
    }
    let details = some (assign (codes "toWalletId") (Value.text to_wallet_id) (or_else metadata []))
    let failed_event = create_event p from_wallet_id transfer_failed amount request_id details
    let compensated_event =
        create_event p from_wallet_id transfer_compensated amount request_id details
    run p (save_wallets (wallet ∷ []))
    run p (save_transfer reversed)
    n ← gets (λ db. db.issued)
    now ← gets (λ db. db.clock)
    run p (save_events (failed_event ∷ compensated_event ∷ []))
    enqueue_outbox p transfer_failed
        (compensation_payload reversed (number_event stored uuid now n failed_event))
    enqueue_outbox p transfer_compensated
        (compensation_payload reversed (number_event stored uuid now (suc n) compensated_event))
    pure (wallet, reversed)

  unfoldable pub compensate_found : Wallet → Option Transfer → Tx TransferCommandResult
  unfolding restore_funds
  compensate_found from_wallet none = do
    run p commit
    pure (compensation_result from_wallet (some []) TransferStatus.failed)
  compensate_found from_wallet (some transfer) = do
    (wallet, reversed) ←
        if is_compensated transfer.status
        then pure (from_wallet, transfer)
        else restore_funds from_wallet transfer
    run p commit
    pure (compensation_result wallet reversed.id reversed.status)

  -- The steps once both wallets are locked.
  unfoldable pub compensate_locked : Wallet → Tx TransferCommandResult
  unfolding find_debited compensate_found
  compensate_locked from_wallet = do
    run p (select Table.transfers (supports_pessimistic_lock p))
    transfer ←
        gets (λ db. find_debited from_wallet_id to_wallet_id (stored (to_text amount)) db.transfers)
    compensate_found from_wallet transfer

  unfoldable pub compensate_body : Tx TransferCommandResult
  unfolding order_wallet_ids lock_wallet compensate_locked
  compensate_body = do
    let (first_id, second_id) = order_wallet_ids from_wallet_id to_wallet_id
    first_wallet ← lock_wallet p first_id
    second_wallet ← lock_wallet p second_id
    compensate_locked
        (if text_eq first_wallet.id from_wallet_id then first_wallet else second_wallet)

  unfoldable pub compensate_transfer : Action TransferCommandResult
  unfolding compensate_body
  compensate_transfer = in_transaction p compensate_body raise
