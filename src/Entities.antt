-- ===== src/Entities.antt =====
-- The rows of the tables, after the entity classes, and the results that the commands return
-- (src/modules/wallet/entities, src/modules/messaging/entities, src/modules/wallet).
-- A field that the database or a later statement fills is an `Option`; a timestamp is a number.
use api_wallet.Prelude.{ℕ, Text, text_eq, Bool, Option, List, [], ◌∷◌, if◌then◌else◌}

-- The type of an event: the strings that the service writes.
pub data EventType : Type 0 where
  funds_deposited funds_withdrawn transfer_initiated : EventType
  transfer_completed transfer_failed transfer_compensated : EventType

-- A value of a metadata object: a string, or any other value by its JSON text.
pub data Value : Type 0 where
  text json : Text → Value

abbrev pub Metadata : Type 0
Metadata = List (Text × Value)

-- `{ ...metadata, [name]: value }`
unfoldable pub assign : Text → Value → Metadata → Metadata
assign name value [] = (name, value) ∷ []
assign name value ((k, v) ∷ more) =
    if text_eq k name then (k, value) ∷ more else (k, v) ∷ assign name value more

pub record Wallet : Type 0 where
  pub id : Text
  pub balance : Text

pub record WalletEvent : Type 0 where
  pub id : Option Text
  pub wallet_id : Text
  pub event_type : EventType
  pub amount : Option Text
  pub metadata : Option Metadata
  pub request_id : Option Text
  pub created_at : Option ℕ

pub data TransferStatus : Type 0 where
  initiated debited credited failed compensated : TransferStatus

pub record Transfer : Type 0 where
  pub id : Option Text
  pub from_wallet_id : Text
  pub to_wallet_id : Text
  pub amount : Text
  pub status : TransferStatus
  pub request_id : Option Text
  pub failure_reason : Option Text

-- The payload of a message, for the outbox and for the consumer.
pub record Payload : Type 0 where
  pub event_id : Option Text
  pub wallet_id : Option Text
  pub to_wallet_id : Option Text
  pub transfer_id : Option Text
  pub amount : Option Text
  pub request_id : Option Text
  pub metadata : Option Metadata

pub data OutboxStatus : Type 0 where
  pending published failed : OutboxStatus

pub record OutboxMessage : Type 0 where
  pub id : Option Text
  pub event_type : EventType
  pub payload : Payload
  pub status : OutboxStatus
  pub attempts : ℕ
  pub next_attempt_at : Option ℕ
  pub published_at : Option ℕ
  pub last_error : Option Text
  pub created_at : Option ℕ

pub data IdempotencyStatus : Type 0 where
  processing completed failed : IdempotencyStatus

pub record WalletCommandResult : Type 0 where
  pub wallet_id : Text
  pub balance : Text
  pub events : List WalletEvent

-- `extends WalletCommandResult`
pub record TransferCommandResult : Type 0 where
  pub command : WalletCommandResult
  pub to_wallet_id : Text
  pub transfer_id : Option Text
  pub transfer_status : TransferStatus

-- The body of a stored response: that of a deposit or a withdrawal, or that of a transfer.
pub data ResponseBody : Type 0 where
  of_command : WalletCommandResult → ResponseBody
  of_transfer : TransferCommandResult → ResponseBody

pub record IdempotencyKey : Type 0 where
  pub id : Text
  pub request_hash : Option Text
  pub status : IdempotencyStatus
  pub response_body : Option ResponseBody
  pub response_status : Option ℕ
  pub updated_at : ℕ
  pub locked_at : Option ℕ

pub record ConsumedEvent : Type 0 where
  pub event_id : Text
  pub event_type : EventType

pub record WalletAnalytics : Type 0 where
  pub wallet_id : Text
  pub total_deposited : Option Text
  pub total_withdrawn : Option Text
  pub withdrawals_count : Option ℕ
  pub deposits_count : Option ℕ
  pub flagged_for_review : Option Bool
