-- ===== src/Idempotency.antt =====
-- IdempotencyService (src/modules/wallet/idempotency.service.ts) and the expiry of its keys
-- (src/modules/wallet/idempotency-cleanup.service.ts).
pub mod Expiry
pub mod Timer
use api_wallet.Prelude.{
  ℕ, ◌-◌, Text, text_eq, Bool, true, false, not, ◌&&◌, Option, none, some, if◌then◌else◌, is_empty,
}
use api_wallet.Entities.{IdempotencyKey, IdempotencyStatus, processing, completed, ResponseBody}
use api_wallet.Tables.{Db, Table, select, save_key, complete_key, delete_keys}
use api_wallet.Tables.Rows.{lookup_by}
use api_wallet.Platform.{Platform}
use api_wallet.Wallet.Effects.{
  Tx, Action, run, gets, raise, bad_request, conflict, key_required, different_payload,
  already_processing, already_completed,
}
use api_wallet.Wallet.Effects
use api_wallet.Wallet.Actions.{◌>>=◌, ◌>>◌, return, lift, raise_if}

-- `crypto` and the serialization of a payload.
pub record Hashing (P : Type 0) : Type 0 where
  pub stringify : P → Text
  pub sha256_hex : Text → Text

unfoldable pub hash_payload : {P : Type 0} → Hashing P → P → Text
hash_payload h payload = h.sha256_hex (h.stringify payload)

pub record IdempotencyRecord : Type 0 where
  pub status : IdempotencyStatus
  pub response_status : Option ℕ
  pub response_body : Option ResponseBody

unfoldable pub find_key : Text → Db → Option IdempotencyKey
unfolding lookup_by
find_key key db = lookup_by (λ r. r.id) key db.keys

-- `requestHash && stored && stored !== requestHash`
unfoldable pub hash_differs : Option Text → Option Text → Bool
hash_differs (some given) (some stored) =
    not (is_empty given) && (not (is_empty stored) && not (text_eq stored given))
hash_differs _ _ = false

abbrev pub is_processing : IdempotencyStatus → Bool
is_processing processing = true
is_processing _ = false

abbrev pub is_completed : IdempotencyStatus → Bool
is_completed completed = true
is_completed _ = false

module _ (p : Platform) where
  -- `repo.findOne({ where: { id: key } })`
  unfoldable pub read_key : Text → Action (Option IdempotencyKey)
  unfolding find_key
  read_key key = lift (Effects.◌>>=◌ (run p (select Table.keys false)) λ _. gets (find_key key))

  -- The checks of `begin` on the row that was found.
  unfoldable pub check_existing : Option Text → Option IdempotencyKey → Action (Unit {0})
  unfolding hash_differs
  check_existing hash none = return tt
  check_existing hash (some existing) = do
    raise_if (hash_differs hash existing.request_hash) (conflict different_payload)
    raise_if (is_processing existing.status) (conflict already_processing)
    raise_if (is_completed existing.status) (conflict already_completed)

  -- `create` makes an entity without a response, so `save` clears that of an existing row.
  unfoldable pub store_key : Text → Option Text → Action (Unit {0})
  store_key key hash db =
      lift
        (run p (
          save_key (record {
            id = key;
            request_hash = hash;
            status = processing;
            response_body = none;
            response_status = none;
            updated_at = db.clock;
            locked_at = some db.clock;
          })))
        db

  unfoldable pub begin_key : Text → Option Text → Action (Unit {0})
  unfolding read_key check_existing store_key
  begin_key key hash = do existing ← read_key key; check_existing hash existing; store_key key hash

  unfoldable pub begin : Option Text → Option Text → Action (Unit {0})
  unfolding begin_key
  begin none hash = raise (bad_request key_required)
  begin (some key) hash =
      if is_empty key then raise (bad_request key_required) else begin_key key hash

  unfoldable pub finalize : Option Text → ℕ → ResponseBody → Action (Unit {0})
  finalize none status body = return tt
  finalize (some key) status body =
      if is_empty key then return tt else lift (run p (complete_key key status body))

  -- What `get` makes of the row that was found.
  unfoldable pub as_record : Option Text → Option IdempotencyKey → Action (Option IdempotencyRecord)
  unfolding hash_differs
  as_record hash none = return none
  as_record hash (some row) = do
    raise_if (hash_differs hash row.request_hash) (conflict different_payload)
    return (
        some (record {
          status = row.status;
          response_status = row.response_status;
          response_body = row.response_body;
        }))

  unfoldable pub get : Option Text → Option Text → Action (Option IdempotencyRecord)
  unfolding read_key as_record
  get none hash = return none
  get (some key) hash = if is_empty key then return none else (read_key key >>= as_record hash)

  -- `cleanupExpired`, an hourly task: keys not touched for the time to live are deleted, and an
  -- error is only logged.
  unfoldable pub cleanup_expired : (ttl_ms : ℕ) → Db → Db
  cleanup_expired ttl_ms db = (lift (run p (delete_keys (db.clock - ttl_ms))) db).1
