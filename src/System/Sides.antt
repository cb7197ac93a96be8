-- ===== src/System/Sides.antt =====
-- The statements on keys, consumed events and analytics, and what they keep.
pub mod Keys
pub mod Answers
pub mod Events
use api_wallet.Prelude.{
  ℕ, Text, codes, ◌≡◌, refl, Bool, true, false, Option, none, some, [], ◌∷◌, inl, inr, is_empty,
  or_else, Bool-cases, ◌-◌,
}
use api_wallet.Entities.{
  EventType, funds_deposited, funds_withdrawn, transfer_initiated, transfer_completed,
  transfer_failed, transfer_compensated, IdempotencyKey, ResponseBody, Payload, ConsumedEvent,
}
use api_wallet.Tables.{
  Db, Statement, Table, connect, start, commit, rollback, select, save_key, complete_key,
  delete_keys, save_consumed, save_analytics, effect,
}
use api_wallet.Platform.{Platform, IsDocumented}
use api_wallet.Wallet.{
  conflict, different_payload, already_processing, already_completed, Result, ok, err, Error, raise,
  Tx, Action, run, of_option, in_transaction,
}
use api_wallet.Wallet
use api_wallet.Wallet.Actions.{◌>>=◌, ◌>>◌, return, lift, raise_if}
use api_wallet.Wallet.Outcomes.{Ends, Ensures, checked_run_rule, in_transaction_rule}
use api_wallet.Wallet.Frame.{Any}
use api_wallet.Wallet.Requests.{
  bind_action_rule, Keeps, return-Keeps, raise-Keeps, raise_if-Keeps, bind-Keeps,
}
use api_wallet.Idempotency.{
  hash_differs, is_processing, is_completed, IdempotencyRecord, find_key, read_key, as_record,
  check_existing, store_key, begin_key, begin, finalize, get, cleanup_expired,
}
use api_wallet.Controller.{RequestPayload, Response, cached_response, run_command, answer}
use api_wallet.Idempotency.{Hashing}
use api_wallet.Consumer.{
  find_analytics, found_or_new, find_consumed, numeric_to_decimal, deposit_analytics,
  withdrawal_analytics, apply_to, apply, apply_deposit, apply_withdrawal, apply_event,
  is_already_processed, mark_processed, unless_duplicate, process, handle_event, receive,
  receipt_of, ack_on_success_nack_on_error,
}

abbrev pub IsSide : Statement → Type 0
IsSide connect = Unit
IsSide start = Unit
IsSide commit = Unit
IsSide rollback = Unit
IsSide (select _ _) = Unit
IsSide (save_key _) = Unit
IsSide (complete_key _ _ _) = Unit
IsSide (delete_keys _) = Unit
IsSide (save_consumed _) = Unit
IsSide (save_analytics _) = Unit
IsSide _ = ⊥

module _ {p : Platform} (doc : IsDocumented p) (I : Db → Type 0)
    (closed : (s : Statement) (db : Db) → IsSide s → I db → I (effect p.stored p.uuid s db)) where
  pub read-Keeps :
      {A : Type 0} (s : Statement) (f : Db → A)
      → IsSide s
      → Keeps I (lift (Wallet.◌>>=◌ (run p s) λ _. Wallet.gets f))
  unfolding run
  read-Keeps s f c = record {
    at = λ db i. elim (doc.executed s db) [
      | inl e ↦ rw (e, run, lift) i
      | inr e ↦ rw (e, run, lift) (closed s db c i)
    ];
  }

  pub run-Keeps : (s : Statement) → IsSide s → Keeps I (lift (run p s))
  unfolding run
  run-Keeps s c = record {
    at = λ db i. elim (doc.executed s db) [
      | inl e ↦ rw (e, run, lift) i
      | inr e ↦ rw (e, run, lift) (closed s db c i)
    ];
  }
