-- ===== src/System/Sides/Keys.antt =====
-- What those statements keep, the handlers of WalletController
-- (src/modules/wallet/wallet.controller.ts), the idempotency service
-- (src/modules/wallet/idempotency.service.ts) and its cleanup
-- (src/modules/wallet/idempotency-cleanup.service.ts) keep, however they end.
use api_wallet.Prelude.{ℕ, Text, false, Option, none, some, inl, inr, is_empty, Bool-cases, ◌-◌}
use api_wallet.Entities.{IdempotencyKey, ResponseBody}
use api_wallet.Tables.{Db, Statement, Table, select, save_key, complete_key, delete_keys, effect}
use api_wallet.Platform.{Platform, IsDocumented}
use api_wallet.Wallet.{
  conflict, different_payload, already_processing, already_completed, Result, ok, err, run,
}
use api_wallet.Wallet.Actions.{lift}
use api_wallet.Wallet.Outcomes.{Ends}
use api_wallet.Wallet.Requests.{Keeps, return-Keeps, raise-Keeps, raise_if-Keeps, bind-Keeps}
use api_wallet.Idempotency.{
  hash_differs, is_processing, is_completed, find_key, read_key, as_record, check_existing,
  store_key, begin_key, begin, finalize, get, cleanup_expired,
}
use api_wallet.System.Sides.{IsSide, read-Keeps, run-Keeps}

module _ {p : Platform} (doc : IsDocumented p) (I : Db → Type 0)
    (closed : (s : Statement) (db : Db) → IsSide s → I db → I (effect p.stored p.uuid s db)) where
  read_key-Keeps : (key : Text) → Keeps I (read_key p key)
  unfolding read_key
  read_key-Keeps key = read-Keeps doc I closed (select Table.keys false) (find_key key) tt

  as_record-Keeps : (hash : Option Text) (o : Option IdempotencyKey) → Keeps I (as_record p hash o)
  unfolding as_record
  as_record-Keeps hash none = return-Keeps none
  as_record-Keeps hash (some row) = bind-Keeps _ _ (raise_if-Keeps _ _) (λ _. return-Keeps _)

  pub get-Keeps : (key hash : Option Text) → Keeps I (get p key hash)
  unfolding get
  get-Keeps none hash = return-Keeps none
  get-Keeps (some key) hash = elim (Bool-cases (is_empty key)) [
    | inl e ↦ rw e (return-Keeps none)
    | inr e ↦
        rw e (
          bind-Keeps (read_key p key) (as_record p hash) (read_key-Keeps key)
            (as_record-Keeps hash))
  ]

  check_existing-Keeps :
      (hash : Option Text) (o : Option IdempotencyKey) → Keeps I (check_existing p hash o)
  unfolding check_existing
  check_existing-Keeps hash none = return-Keeps tt
  check_existing-Keeps hash (some row) =
      bind-Keeps _ _
        (raise_if-Keeps (hash_differs hash row.request_hash) (conflict different_payload))
        λ _.
          bind-Keeps _ _ (raise_if-Keeps (is_processing row.status) (conflict already_processing))
            λ _. raise_if-Keeps (is_completed row.status) (conflict already_completed)

  store_key-Keeps : (key : Text) (hash : Option Text) → Keeps I (store_key p key hash)
  unfolding store_key
  store_key-Keeps key hash = record {
    at = λ db i. (run-Keeps doc I closed (save_key _) tt).at db i;
  }

  pub begin-Keeps : (key hash : Option Text) → Keeps I (begin p key hash)
  unfolding begin begin_key
  begin-Keeps none hash = raise-Keeps _
  begin-Keeps (some key) hash = elim (Bool-cases (is_empty key)) [
    | inl e ↦ rw e (raise-Keeps _)
    | inr e ↦ rw e (
        bind-Keeps (read_key p key) _ (read_key-Keeps key) λ o.
          bind-Keeps (check_existing p hash o) _ (check_existing-Keeps hash o)
            λ _. store_key-Keeps key hash)
  ]

  pub finalize-Keeps :
      (key : Option Text) (status : ℕ) (body : ResponseBody) → Keeps I (finalize p key status body)
  unfolding finalize
  finalize-Keeps none status body = return-Keeps tt
  finalize-Keeps (some key) status body = elim (Bool-cases (is_empty key)) [
    | inl e ↦ rw e (return-Keeps tt)
    | inr e ↦ rw e (run-Keeps doc I closed (complete_key key status body) tt)
  ]

  pub cleanup_expired-Keeps : (ttl_ms : ℕ) (db : Db) → I db → I (cleanup_expired p ttl_ms db)
  unfolding cleanup_expired
  cleanup_expired-Keeps ttl_ms db i =
      outcome (lift (run p (delete_keys (db.clock - ttl_ms))) db)
        ((run-Keeps doc I closed (delete_keys (db.clock - ttl_ms)) tt).at db i)
    where
      outcome : (r : Result (Unit {0}) × Db) → Ends r (λ _ d. I d) (λ _ d. I d) → I r.1
      outcome (ok _, d) k = k
      outcome (err _, d) k = k
