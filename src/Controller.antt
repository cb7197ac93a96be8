-- ===== src/Controller.antt =====
-- WalletController (src/modules/wallet/wallet.controller.ts): the commands behind the idempotency
-- keys. A request is its path, its method and the headers that the handlers read.
-- A handler passes the key as the request id: `key ?? requestIdHeader` is the key, which is resolved.
pub mod KeyStates
pub mod Replay
pub mod Handlers
use api_wallet.Prelude.{
  ℕ, zero, suc, Text, Bool, true, false, Option, none, some, if◌then◌else◌, is_empty, or_else,
}
use api_wallet.Entities.{
  Metadata, ResponseBody, of_command, of_transfer, WalletCommandResult, TransferCommandResult,
}
use api_wallet.Platform.{Platform}
use api_wallet.Wallet.Effects.{Result, ok, err, Action, bad_request, key_required}
use api_wallet.Wallet.Actions.{◌>>=◌, ◌>>◌, return, of_result}
use api_wallet.Wallet.{deposit, withdraw}
use api_wallet.Wallet.Transfer.{transfer}
use api_wallet.Idempotency.{
  Hashing, hash_payload, IdempotencyRecord, is_completed, begin, finalize, get,
}

-- DepositDto; WithdrawDto has the same fields, and TransferDto the receiver too.
pub record CommandDto : Type 0 where
  pub idempotency_key : Option Text
  pub amount : Text
  pub metadata : Option Metadata

abbrev pub WithdrawDto : Type 0
WithdrawDto = CommandDto

pub record TransferDto : Type 0 where
  pub command : CommandDto
  pub to_wallet_id : Text

pub record Request : Type 0 where
  pub path : Text
  pub method : Text
  pub idempotency_key : Option Text
  pub x_idempotency_key : Option Text
  pub x_request_id : Option Text

-- A command with its path parameter and its body.
pub data Call : Type 0 where
  deposit_call : Text → CommandDto → Call
  withdraw_call : Text → WithdrawDto → Call
  transfer_call : Text → TransferDto → Call

-- What `hashPayload` is given.
pub data RequestPayload : Type 0 where
  command_payload : (path method wallet_id : Text) → CommandDto → RequestPayload
  transfer_payload : (path method wallet_id to_wallet_id : Text) → TransferDto → RequestPayload

pub record Response : Type 0 where
  pub status : ℕ
  pub body : ResponseBody

-- `bodyKey ?? headerKey`
abbrev pub first_key : Option Text → Option Text → Option Text
first_key (some k) _ = some k
first_key none k = k

unfoldable pub resolve_idempotency_key : Request → Option Text → Result Text
resolve_idempotency_key req body_key =
    elim (first_key body_key (first_key req.idempotency_key req.x_idempotency_key)) [
      | none ↦ err (bad_request key_required)
      | some key ↦ if is_empty key then err (bad_request key_required) else ok key
    ]

-- The stored response, if the request was completed and has one; a status of 0 is falsy.
unfoldable pub cached_response : Option IdempotencyRecord → Option Response
cached_response none = none
cached_response (some r) =
    if is_completed r.status then stored r.response_status r.response_body else none
  where
    stored : Option ℕ → Option ResponseBody → Option Response
    stored (some (suc n)) (some body) = some (record { status = suc n; body = body })
    stored _ _ = none

module _ (p : Platform) (h : Hashing RequestPayload) where
  -- The part that the three handlers share: the stored response, or the command between `begin`
  -- and `finalize`.
  unfoldable pub run_command : Text → Text → Action ResponseBody → Action Response
  unfolding begin finalize
  run_command key hash command = do
    begin p (some key) (some hash)
    body ← command
    finalize p (some key) 200 body
    return (record { status = 200; body = body })

  unfoldable pub answer : Text → Text → Action ResponseBody → Action Response
  unfolding run_command get cached_response
  answer key hash command = do
    cached ← get p (some key) (some hash)
    elim (cached_response cached) [
      | some response ↦ return response
      | none ↦ run_command key hash command
    ]

  unfoldable pub deposit_handler : Text → CommandDto → Request → Action Response
  unfolding resolve_idempotency_key hash_payload answer
  deposit_handler wallet_id dto req = do
    key ← of_result (resolve_idempotency_key req dto.idempotency_key)
    answer key (hash_payload h (command_payload req.path req.method wallet_id dto)) do
      result ← deposit p wallet_id dto.amount (some key) dto.metadata
      return (of_command result)

  unfoldable pub withdraw_handler : Text → WithdrawDto → Request → Action Response
  unfolding resolve_idempotency_key hash_payload answer
  withdraw_handler wallet_id dto req = do
    key ← of_result (resolve_idempotency_key req dto.idempotency_key)
    answer key (hash_payload h (command_payload req.path req.method wallet_id dto)) do
      result ← withdraw p wallet_id dto.amount (some key) dto.metadata
      return (of_command result)

  unfoldable pub transfer_handler : Text → TransferDto → Request → Action Response
  unfolding resolve_idempotency_key hash_payload answer
  transfer_handler wallet_id dto req = do
    key ← of_result (resolve_idempotency_key req dto.command.idempotency_key)
    answer key
        (hash_payload h (transfer_payload req.path req.method wallet_id dto.to_wallet_id dto))
        do
          result ←
              transfer p wallet_id dto.to_wallet_id dto.command.amount (some key)
                dto.command.metadata
          return (of_transfer result)

  -- The three routes.
  unfoldable pub handle : Call → Request → Action Response
  unfolding deposit_handler withdraw_handler transfer_handler
  handle (deposit_call wallet_id dto) = deposit_handler wallet_id dto
  handle (withdraw_call wallet_id dto) = withdraw_handler wallet_id dto
  handle (transfer_call wallet_id dto) = transfer_handler wallet_id dto
