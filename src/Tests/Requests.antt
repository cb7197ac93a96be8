-- ===== src/Tests/Requests.antt =====
-- Runs of the handlers on the sample platform, and their theorems at concrete inputs.
use api_wallet.Prelude.{text_eq, ◌-◌, ◌≤◌, ◌⊎◌, All, arith, codes, ◌≡◌, refl, none, some, [], ◌∷◌}
use api_wallet.Entities.{IdempotencyKey, completed, of_command, funds_deposited}
use api_wallet.Tables.{Db}
use api_wallet.Sample.{platform, execute, platform-IsDocumented}
use api_wallet.Wallet.{
  Result, ok, err, deposit, withdraw, conflict, insufficient_funds, already_processing,
  in_transaction,
}
use api_wallet.Wallet.Outcomes.{Refused}
use api_wallet.Wallet.Books.{empty}
use api_wallet.Wallet.Effects.{run}
use api_wallet.Wallet.Actions.{◌>>◌}
use api_wallet.Idempotency.{begin, Hashing, find_key, cleanup_expired}
use api_wallet.Idempotency.Expiry.{cleanup_expired-fresh}
use api_wallet.Controller.{
  CommandDto, Request, RequestPayload, command_payload, transfer_payload, Response, deposit_call,
  withdraw_call, handle,
}
use api_wallet.Wallet.Requests.{Recalls}
use api_wallet.Controller.Handlers.{handle-again, handle-stuck}
use api_wallet.Tests.{alice, ten, twenty_five}

abbrev pub hashing : Hashing RequestPayload
hashing = record {
  stringify = λ payload. elim payload [
    | command_payload _ _ _ dto ↦ dto.amount
    | transfer_payload _ _ _ _ dto ↦ dto.command.amount
  ];
  sha256_hex = λ text. b'#' ∷ text;
}

abbrev pub request : Request
request = record {
  path = codes "/wallet/alice/deposit";
  method = codes "POST";
  idempotency_key = some (codes "k1");
  x_idempotency_key = none;
  x_request_id = none;
}

abbrev pub dto : CommandDto
dto = record { idempotency_key = none; amount = ten; metadata = none }

abbrev pub answered : Result Response × Db
answered = handle platform hashing (deposit_call alice dto) request empty

abbrev response : Response
response = record {
  status = 200;
  body = of_command (record {
    wallet_id = alice;
    balance = ten;
    events =
        record {
          id = some (1 ∷ []);
          wallet_id = alice;
          event_type = funds_deposited;
          amount = some ten;
          metadata = none;
          request_id = some (codes "k1");
          created_at = some 0;
        }
        ∷ [];
  });
}

-- After the deposit, another one without a key.
abbrev answered_later : Db
answered_later = (deposit platform alice twenty_five none none answered.1).1

-- A withdrawal that the empty wallet cannot cover, and a deposit that would cover it.
abbrev refused : Db
refused = (handle platform hashing (withdraw_call alice dto) request empty).1

abbrev refused_later : Db
refused_later = (deposit platform alice twenty_five none none refused).1

answered_run :
    (handle platform hashing (deposit_call alice dto) request answered_later).0 ≡ ok response
unfolding handle deposit execute in_transaction
answered_run = refl

handle-again_example :
    Recalls platform
      (handle platform hashing (deposit_call alice dto) request answered_later)
      (ok response)
      answered_later
unfolding handle deposit execute in_transaction
handle-again_example =
    handle-again platform-IsDocumented hashing (deposit_call alice dto) request response empty
      answered.1 answered_later refl refl

handle-stuck_example :
    Recalls platform
      (handle platform hashing (withdraw_call alice dto) request refused_later)
      (err (conflict already_processing))
      refused_later
unfolding handle deposit withdraw execute in_transaction
handle-stuck_example =
    handle-stuck platform-IsDocumented hashing (withdraw_call alice dto) request insufficient_funds
      empty refused refused_later (λ e. cc) refl refl

-- The key of the deposit, and the database an hour later.
abbrev hour_later : Db
hour_later = record answered.1 { clock = 3600000 }

abbrev stale : Db
stale = (cleanup_expired platform 3599999 hour_later)

cleanup_run : stale.keys ≡ []
unfolding handle in_transaction execute cleanup_expired deposit
cleanup_run = refl

abbrev touched : IdempotencyKey
touched = record {
  id = codes "k1";
  request_hash = some (b'#' ∷ ten);
  status = completed;
  response_body = some response.body;
  response_status = some 200;
  updated_at = 0;
  locked_at = none;
}

cleanup_expired-fresh_example :
    (All
        (λ k. hour_later.clock - 86400000 ≤ k.updated_at)
        (cleanup_expired platform 86400000 hour_later).keys
      × (find_key (codes "k1") (cleanup_expired platform 86400000 hour_later) ≡ some touched))
    ⊎ ((cleanup_expired platform 86400000 hour_later ≡ hour_later) × Refused platform)
unfolding handle in_transaction execute find_key deposit
cleanup_expired-fresh_example =
    cleanup_expired-fresh platform-IsDocumented 86400000 (codes "k1") touched hour_later refl
      (omega arith)

-- A request that begins after another with its key is refused.
begin_again_run :
    ((begin platform (some (codes "k1")) (some (codes "h1"))
        >> begin platform (some (codes "k1")) (some (codes "h1")))
      empty).0
    ≡ err (conflict already_processing)
unfolding begin execute text_eq run
begin_again_run = refl
