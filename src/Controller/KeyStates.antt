-- ===== src/Controller/KeyStates.antt =====
-- The states of an idempotency key, and how `get`, `begin` and `finalize` of IdempotencyService
-- (src/modules/wallet/idempotency.service.ts) move between them.
use api_wallet.Prelude.{
  arith, Text, text_eq, text_eq_refl, ◌≡◌, refl, ◌∙◌, subst, ◌⊎◌, true, false, Option, none, some,
  List, inl, inr, is_empty, Bool-cases,
}
use api_wallet.Entities.{IdempotencyKey, IdempotencyStatus, processing, completed, ResponseBody}
use api_wallet.Tables.{Db, Table, Statement, select, save_key, complete_key, effect}
use api_wallet.Tables.Rows.{lookup_by, lookup_by-key, lookup_by-upsert_by, lookup_by-update_where}
use api_wallet.Platform.{Platform, IsDocumented}
use api_wallet.Wallet.{
  ok, err, Error, failure, bad_request, conflict, already_processing, already_completed, run,
}
use api_wallet.Wallet.Actions.{◌>>◌, lift, raise_if}
use api_wallet.Wallet.Outcomes.{Ends, Refused}
use api_wallet.Idempotency.{
  IdempotencyRecord, find_key, hash_differs, is_processing, is_completed, read_key, as_record,
  check_existing, store_key, begin_key, begin, finalize, get,
}
use api_wallet.Controller.{Response, cached_response}
use api_wallet.Wallet.Requests.{bind_action_rule}

abbrev pub record_of : IdempotencyKey → IdempotencyRecord
record_of row = record {
  status = row.status;
  response_status = row.response_status;
  response_body = row.response_body;
}

-- The row of the key was stored for this payload and holds the response.
abbrev pub Answers : Text → Text → Response → List IdempotencyKey → Type 0
Answers key hash response keys =
    (row : IdempotencyKey) × (lookup_by (λ r. r.id) key keys ≡ some row)
    × (hash_differs (some hash) row.request_hash ≡ false)
    × (cached_response (some (record_of row)) ≡ some response)

-- The row of the key was stored for this payload, and its request is not completed.
abbrev pub Blocks : Text → Text → List IdempotencyKey → Type 0
Blocks key hash keys =
    (row : IdempotencyKey) × (lookup_by (λ r. r.id) key keys ≡ some row)
    × (row.request_hash ≡ some hash)
    × (row.status ≡ processing)

-- The response of the record that was read, if it has one, is the one that the key holds.
abbrev pub Recorded : Text → Text → Option IdempotencyRecord → Db → Type 0
Recorded key hash o db =
    (response : Response) → cached_response o ≡ some response → Answers key hash response db.keys

-- What is left when the command refused the request.
abbrev pub Left : Text → Text → Error → Db → Type 0
Left key hash (bad_request _) db = Blocks key hash db.keys
Left key hash _ db = Unit

pub hash_differs_refl : (hash : Text) → hash_differs (some hash) (some hash) ≡ false
unfolding hash_differs
hash_differs_refl hash = ground (arith, text_eq_refl hash)

module _ {p : Platform} (doc : IsDocumented p) (key : Text) where
  lift-run :
      (s : Statement) (db : Db)
      → (lift (run p s) db ≡ (ok tt, effect p.stored p.uuid s db))
        ⊎ ((lift (run p s) db ≡ (err failure, db)) × (p.execute s db ≡ none))
  unfolding run
  lift-run s db = elim (doc.executed s db) [
    | inl e ↦ inr (rw (e, run, lift) refl, e)
    | inr e ↦ inl (rw (e, run, lift) refl)
  ]

  pub read_key-cases :
      (db : Db)
      → (read_key p key db ≡ (ok (find_key key db), db))
        ⊎ ((read_key p key db ≡ (err failure, db)) × Refused p)
  unfolding read_key effect run
  read_key-cases db = elim (doc.executed (select Table.keys false) db) [
    | inl e ↦ inr (rw (e, run, lift) refl, (select Table.keys false, db, tt, e))
    | inr e ↦ inl (rw (e, run, lift) refl)
  ]

  module _ (hash : Text) (nonempty : is_empty key ≡ false) where
    as_record-Answers :
        (o : Option IdempotencyKey) (db : Db)
        → lookup_by (λ r. r.id) key db.keys ≡ o
        → Ends (as_record p (some hash) o db) (Recorded key hash) (Left key hash)
    unfolding as_record cached_response
    as_record-Answers none db found = λ response c. cc
    as_record-Answers (some row) db found =
        elim (Bool-cases (hash_differs (some hash) row.request_hash)) [
          | inl differs ↦ rw differs tt
          | inr same ↦ rw same (λ response c. (row, found, same, c))
        ]

    read_key-Ends :
        (db : Db)
        → Ends (read_key p key db) (λ o d. lookup_by (λ r. r.id) key d.keys ≡ o) (Left key hash)
    unfolding find_key
    read_key-Ends db = elim (read_key-cases db) [ inr (e, _) ↦ rw e tt | inl e ↦ rw e refl ]

    pub get-Answers :
        (db : Db) → Ends (get p (some key) (some hash) db) (Recorded key hash) (Left key hash)
    unfolding get
    get-Answers db = rw nonempty (
        bind_action_rule (read_key p key) (as_record p (some hash)) db
          (λ o d. lookup_by (λ r. r.id) key d.keys ≡ o) (Recorded key hash) (Left key hash)
          (read_key-Ends db) (λ o d found. as_record-Answers o d found))

    new_key : Db → IdempotencyKey
    new_key db = record {
      id = key;
      request_hash = some hash;
      status = processing;
      response_body = none;
      response_status = none;
      updated_at = db.clock;
      locked_at = some db.clock;
    }

    store_key-Blocks :
        (db : Db)
        → Ends (store_key p key (some hash) db) (λ _ d. Blocks key hash d.keys) (Left key hash)
    unfolding store_key effect new_key
    store_key-Blocks db = elim (lift-run (save_key (new_key db)) db) [
      | inr (e, _) ↦ rw e tt
      | inl e ↦ rw e (
        new_key db,
        lookup_by-upsert_by (λ r. r.id) key (new_key db) db.keys ∙ rw (text_eq_refl key) refl,
        refl,
        refl,
      )
    ]

    check_existing-Ends :
        (o : Option IdempotencyKey) (db : Db)
        → Ends (check_existing p (some hash) o db) (λ _ _. Unit {0}) (Left key hash)
    unfolding check_existing
    check_existing-Ends none db = tt
    check_existing-Ends (some row) db =
        elim (Bool-cases (hash_differs (some hash) row.request_hash)) [
          | inl differs ↦ rw differs tt
          | inr same ↦ rw same (by_status row.status)
        ]
      where
        by_status :
            (s : IdempotencyStatus)
            → Ends
                ((raise_if (is_processing s) (conflict already_processing)
                    >> raise_if (is_completed s) (conflict already_completed))
                  db)
                (λ _ _. Unit {0})
                (Left key hash)
        by_status processing = tt
        by_status completed = tt
        by_status IdempotencyStatus.failed = tt

    begin_key-Blocks :
        (db : Db)
        → Ends (begin_key p key (some hash) db) (λ _ d. Blocks key hash d.keys) (Left key hash)
    unfolding begin_key
    begin_key-Blocks db =
        bind_action_rule (read_key p key)
          (λ o. check_existing p (some hash) o >> store_key p key (some hash)) db
          (λ o d. lookup_by (λ r. r.id) key d.keys ≡ o) (λ _ d. Blocks key hash d.keys)
          (Left key hash) (read_key-Ends db)
          λ o d _.
            bind_action_rule (check_existing p (some hash) o) (λ _. store_key p key (some hash)) d
              (λ _ _. Unit) (λ _ d. Blocks key hash d.keys) (Left key hash)
              (check_existing-Ends o d) λ _ d' _. store_key-Blocks d'

    pub begin-Blocks :
        (db : Db)
        → Ends (begin p (some key) (some hash) db) (λ _ d. Blocks key hash d.keys) (Left key hash)
    unfolding begin
    begin-Blocks db = rw nonempty (begin_key-Blocks db)

    completed_key : ResponseBody → Db → IdempotencyKey → IdempotencyKey
    completed_key body db row = record row {
      status = completed;
      response_status = some 200;
      response_body = some body;
      locked_at = none;
      updated_at = db.clock;
    }

    pub finalize-Answers :
        (body : ResponseBody) (db : Db)
        → Blocks key hash db.keys
        → Ends
            (finalize p (some key) 200 body db)
            (λ _ d. Answers key hash (record { status = 200; body = body }) d.keys)
            (Left key hash)
    unfolding finalize effect cached_response completed_key
    finalize-Answers body db (row, found, hashed, busy) =
        let there : text_eq row.id key ≡ true =
          subst (λ k. text_eq row.id k ≡ true) (lookup_by-key (λ r. r.id) key row db.keys found)
            (text_eq_refl row.id) in
        elim (lift-run (complete_key key 200 body) db) [
          | inr (e, _) ↦ rw (nonempty, e) tt
          | inl e ↦
              rw (nonempty, e)
                (
                  completed_key body db row,
                  lookup_by-update_where (λ r. r.id) key (λ r. text_eq r.id key)
                        (completed_key body db) row db.keys (λ _. refl) found
                      ∙ rw there refl,
                  rw hashed (hash_differs_refl hash),
                  refl,
                )
        ]
