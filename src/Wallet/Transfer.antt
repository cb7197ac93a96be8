-- ===== src/Wallet/Transfer.antt =====
-- `transfer` and `compensateTransfer` of WalletService (src/modules/wallet/wallet.service.ts).
pub mod Compensation
use api_wallet.Prelude.{
  suc, Text, codes, text_eq, Option, none, some, List, [], ◌∷◌, if◌then◌else◌, or_else,
}
use api_wallet.Entities.{
  EventType, funds_deposited, funds_withdrawn, transfer_initiated, transfer_completed, Value,
  Metadata, assign, Wallet, WalletEvent, Payload, Transfer, initiated, credited,
  WalletCommandResult, TransferCommandResult,
}
use api_wallet.Tables.{commit, save_wallets, save_events, save_transfer, number_event}
use api_wallet.Platform.{Platform}
use api_wallet.Wallet.{
  Tx, Action, ◌>>=◌, ◌>>◌, pure, gets, throw_if, with_result, raise, run, in_transaction,
  bad_request, insufficient_funds_for_transfer, same_wallet, order_wallet_ids, normalize_amount,
  balance_decimal, create_event, lock_wallet, enqueue_outbox,
}
use Compensation.{compensate_transfer}

module _ (p : Platform) (from_wallet_id to_wallet_id : Text) where
  open p use {Decimal, plus, minus, lt, to_fixed, to_text, uuid, stored}

  module _ (amount : Decimal) (request_id : Option Text) (metadata : Option Metadata) where
    abbrev pub new_transfer : Transfer
    new_transfer = record {
      id = none;
      from_wallet_id = from_wallet_id;
      to_wallet_id = to_wallet_id;
      amount = to_text amount;
      status = initiated;
      request_id = request_id;
      failure_reason = none;
    }

    abbrev initiated_payload : Transfer → WalletEvent → Payload
    initiated_payload transfer event = record {
      event_id = event.id;
      wallet_id = some from_wallet_id;
      to_wallet_id = some to_wallet_id;
      transfer_id = transfer.id;
      amount = some (to_text amount);
      request_id = request_id;
      metadata = metadata;
    }

    abbrev event_payload : Transfer → WalletEvent → Payload
    event_payload transfer event = record {
      event_id = event.id;
      wallet_id = some event.wallet_id;
      to_wallet_id = some to_wallet_id;
      transfer_id = transfer.id;
      amount = event.amount;
      request_id = request_id;
      metadata = metadata;
    }

    -- The `for` loop over the three later events, and the `rest` that follows it.
    unfoldable pub enqueue_events :
        Transfer → List WalletEvent → Tx TransferCommandResult → Tx TransferCommandResult
    unfolding enqueue_outbox
    enqueue_events transfer [] rest = rest
    enqueue_events transfer (event ∷ events) rest =
        enqueue_outbox p event.event_type (event_payload transfer event)
        >> enqueue_events transfer events rest

    -- The `try` once both wallets are locked: the transfer and its first event are saved and
    -- announced, then the debit, the credit and the three later events.
    unfoldable pub move_funds : Wallet → Wallet → Tx TransferCommandResult
    unfolding balance_decimal create_event enqueue_outbox enqueue_events
    move_funds from_wallet to_wallet = do
      from_balance ← balance_decimal p from_wallet.balance
      throw_if (lt from_balance amount) (bad_request insufficient_funds_for_transfer)
      t ← gets (λ db. db.issued)
      run p (save_transfer new_transfer)
      let transfer = record new_transfer { id = some (uuid t) }
      i ← gets (λ db. db.issued)
      now ← gets (λ db. db.clock)
      let initiated_event =
          create_event p from_wallet_id transfer_initiated amount request_id metadata
      run p (save_events (initiated_event ∷ []))
      let announced = number_event stored uuid now i initiated_event
      enqueue_outbox p transfer_initiated (initiated_payload transfer announced)
      let debited_wallet = record from_wallet { balance = to_fixed (minus from_balance amount) }
      let debit_event = create_event p from_wallet_id funds_withdrawn amount request_id metadata
      to_balance ← balance_decimal p to_wallet.balance
      let credited_wallet = record to_wallet { balance = to_fixed (plus to_balance amount) }
      let credited_transfer = record transfer { status = credited }
      let credit_event = create_event p to_wallet_id funds_deposited amount request_id metadata
      let completed_event =
          create_event p from_wallet_id transfer_completed amount request_id
            (some (assign (codes "toWalletId") (Value.text to_wallet_id) (or_else metadata [])))
      run p (save_wallets (debited_wallet ∷ credited_wallet ∷ []))
      run p (save_transfer credited_transfer)
      n ← gets (λ db. db.issued)
      run p (save_events (debit_event ∷ credit_event ∷ completed_event ∷ []))
      let debit = number_event stored uuid now n debit_event
      let credit = number_event stored uuid now (suc n) credit_event
      let completed = number_event stored uuid now (suc (suc n)) completed_event
      enqueue_events credited_transfer (debit ∷ credit ∷ completed ∷ []) do
        run p commit
        pure (record {
          command = record {
            wallet_id = from_wallet_id;
            balance = debited_wallet.balance;
            events = announced ∷ debit ∷ credit ∷ completed ∷ [];
          };
          to_wallet_id = to_wallet_id;
          transfer_id = credited_transfer.id;
          transfer_status = credited_transfer.status;
        })

    unfoldable pub transfer_body : Tx TransferCommandResult
    unfolding order_wallet_ids lock_wallet move_funds
    transfer_body = do
      let (first_id, second_id) = order_wallet_ids from_wallet_id to_wallet_id
      first_wallet ← lock_wallet p first_id
      second_wallet ← lock_wallet p second_id
      let from_wallet =
          if text_eq first_wallet.id from_wallet_id then first_wallet else second_wallet
      let to_wallet = if text_eq first_wallet.id from_wallet_id then second_wallet else first_wallet
      move_funds from_wallet to_wallet

  unfoldable pub transfer : Text → Option Text → Option Metadata → Action TransferCommandResult
  unfolding normalize_amount transfer_body compensate_transfer
  transfer amount request_id metadata =
      if text_eq from_wallet_id to_wallet_id
      then raise (bad_request same_wallet)
      else with_result (normalize_amount p amount) λ normalized.
        in_transaction p (transfer_body normalized request_id metadata)
          λ error. compensate_transfer p from_wallet_id to_wallet_id normalized request_id metadata
