-- ===== src/Wallet.antt =====
-- WalletService (src/modules/wallet/wallet.service.ts): the helpers, deposits and withdrawals.
pub mod Effects
pub mod Actions
pub mod Transfer
pub mod Outcomes
pub mod Books
pub mod Commands
pub mod Transfers
pub mod TransferOutcome
pub mod Idle
pub mod Conservation
pub mod Frame
pub mod Requests
pub use Effects.*
unfoldable pub use Effects.{run, in_transaction}
use api_wallet.Prelude.{
  ℕ, suc, Text, codes, text_eq, text_le, Bool, Option, none, some, List, [], ◌∷◌, ◌&&◌, not,
  if◌then◌else◌, is_empty,
}
use api_wallet.Entities.{
  EventType, funds_deposited, funds_withdrawn, Metadata, Wallet, WalletEvent, Payload,
  OutboxMessage, pending, WalletCommandResult,
}
use api_wallet.Tables.{
  Db, Table, find_wallet, commit, select, insert_wallet_or_ignore, save_wallets, save_events,
  save_outbox, number_event,
}
use api_wallet.Platform.{Platform}

unfoldable pub order_wallet_ids : Text → Text → Text × Text
order_wallet_ids a b = if text_le a b then (a, b) else (b, a)

module _ (p : Platform) where
  open p use {
    Decimal, of_text, of_number, plus, minus, lt, lte, to_places, to_fixed, to_text, uuid,
    database_type,
  }

  -- The `catch` turns what the constructor throws, and the refusal of an amount that is not
  -- positive, into the same exception.
  unfoldable pub normalize_amount : Text → Result Decimal
  normalize_amount amount = elim (of_text amount) [
    | none ↦ err (bad_request invalid_amount)
    | some dec ↦
        if lte dec (of_number 0) then err (bad_request invalid_amount) else ok (to_places dec)
  ]

  -- `new Decimal(balance || 0)`
  unfoldable pub balance_decimal : Text → Tx Decimal
  balance_decimal balance =
      if is_empty balance then pure (of_number 0) else of_option (of_text balance)

  unfoldable pub create_event :
      Text → EventType → Decimal → Option Text → Option Metadata → WalletEvent
  create_event wallet_id event_type amount request_id metadata = record {
    id = none;
    wallet_id = wallet_id;
    event_type = event_type;
    amount = some (to_fixed amount);
    metadata = metadata;
    request_id = request_id;
    created_at = none;
  }

  unfoldable pub supports_pessimistic_lock : Bool
  supports_pessimistic_lock =
      not (text_eq database_type (codes "sqlite")) && not (text_eq database_type (codes "sqljs"))

  abbrev pub found_or : Option Wallet → Tx Wallet → Tx Wallet
  found_or (some w) _ = pure w
  found_or none otherwise = otherwise

  unfoldable pub lock_wallet : Text → Tx Wallet
  lock_wallet wallet_id = do
    run p (select Table.wallets supports_pessimistic_lock)
    wallet ← gets (find_wallet wallet_id)
    found_or wallet do
      run p (insert_wallet_or_ignore (record { id = wallet_id; balance = codes "0" }))
      run p (select Table.wallets supports_pessimistic_lock)
      created ← gets (find_wallet wallet_id)
      found_or created (throw failure)

  unfoldable pub enqueue_outbox : EventType → Payload → Tx Unit
  enqueue_outbox event_type payload = run p (
      save_outbox (record {
        id = none;
        event_type = event_type;
        payload = payload;
        status = pending;
        attempts = 0;
        next_attempt_at = none;
        published_at = none;
        last_error = none;
        created_at = none;
      }))

  module _ (wallet_id : Text) (amount : Decimal) (request_id : Option Text)
      (metadata : Option Metadata) where
    abbrev command_payload : WalletEvent → Payload
    command_payload event = record {
      event_id = event.id;
      wallet_id = some wallet_id;
      to_wallet_id = none;
      transfer_id = none;
      amount = some (to_text amount);
      request_id = request_id;
      metadata = metadata;
    }

    -- What a deposit and a withdrawal have in common: the last statements of the `try`.
    unfoldable pub record_command : Wallet → EventType → Tx WalletCommandResult
    unfolding create_event enqueue_outbox
    record_command wallet event_type = do
      let event = create_event wallet_id event_type amount request_id metadata
      run p (save_wallets (wallet ∷ []))
      n ← gets (λ db. db.issued)
      now ← gets (λ db. db.clock)
      run p (save_events (event ∷ []))
      let saved = number_event p.stored uuid now n event
      enqueue_outbox event_type (command_payload saved)
      run p commit
      pure (record { wallet_id = wallet_id; balance = wallet.balance; events = saved ∷ [] })

    unfoldable pub deposit_body : Tx WalletCommandResult
    unfolding record_command lock_wallet balance_decimal
    deposit_body = do
      wallet ← lock_wallet wallet_id
      balance ← balance_decimal wallet.balance
      record_command (record wallet { balance = to_fixed (plus balance amount) }) funds_deposited

    unfoldable pub withdraw_body : Tx WalletCommandResult
    unfolding record_command lock_wallet balance_decimal
    withdraw_body = do
      wallet ← lock_wallet wallet_id
      balance ← balance_decimal wallet.balance
      throw_if (lt balance amount) (bad_request insufficient_funds)
      record_command (record wallet { balance = to_fixed (minus balance amount) }) funds_withdrawn

  module _ (wallet_id : Text) (amount : Text) (request_id : Option Text)
      (metadata : Option Metadata) where
    unfoldable pub deposit : Action WalletCommandResult
    unfolding normalize_amount deposit_body
    deposit =
        with_result (normalize_amount amount) λ normalized.
          in_transaction p (deposit_body wallet_id normalized request_id metadata) raise

    unfoldable pub withdraw : Action WalletCommandResult
    unfolding normalize_amount withdraw_body
    withdraw = with_result (normalize_amount amount) λ normalized.
        in_transaction p (withdraw_body wallet_id normalized request_id metadata) raise
