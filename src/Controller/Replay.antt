-- ===== src/Controller/Replay.antt =====
-- What the handlers of WalletController (src/modules/wallet/wallet.controller.ts) answer to a
-- request that comes again.
use api_wallet.Prelude.{Text, ◌≡◌, refl, sym, subst, false, Option, none, some, List, inl, is_empty}
use api_wallet.Entities.{IdempotencyKey, processing, ResponseBody}
use api_wallet.Tables.{Db}
use api_wallet.Tables.Rows.{lookup_by}
use api_wallet.Platform.{Platform, IsDocumented}
use api_wallet.Wallet.{Result, ok, err, failure, bad_request, conflict, already_processing, Action}
use api_wallet.Wallet.Actions.{◌>>=◌, ◌>>◌, return}
use api_wallet.Wallet.Outcomes.{Ends}
use api_wallet.Idempotency.{
  Hashing, find_key, hash_differs, read_key, as_record, check_existing, store_key, begin_key, begin,
  finalize, get,
}
use api_wallet.Controller.{RequestPayload, Response, cached_response, run_command, answer}
use api_wallet.Wallet.Requests.{Recalls, bind_action_rule, bind-Recalls, raise-Recalls}
use api_wallet.Controller.KeyStates.{
  record_of, Answers, Blocks, Left, hash_differs_refl, read_key-cases, Recorded, get-Answers,
  begin-Blocks, finalize-Answers,
}

module _ {p : Platform} (doc : IsDocumented p) (h : Hashing RequestPayload) (key : Text)
    (hash : Text) (nonempty : is_empty key ≡ false) where
  abbrev success : ResponseBody → Response
  success body = record { status = 200; body = body }

  abbrev finished : ResponseBody → Action Response
  finished body = finalize p (some key) 200 body >> return (success body)

  abbrev pub Replied : Response → Db → Type 0
  Replied r db = Answers key hash r db.keys

  run_command-Answers :
      (command : Action ResponseBody) (db : Db)
      → ((d : Db) → Ends (command d) (λ _ d'. d'.keys ≡ d.keys) (λ _ d'. d'.keys ≡ d.keys))
      → Ends (run_command p h key hash command db) Replied (Left key hash)
  unfolding run_command
  run_command-Answers command db keeps =
      bind_action_rule (begin p (some key) (some hash)) (λ _. command >>= finished) db
        (λ _ d. Blocks key hash d.keys) Replied (Left key hash)
        (begin-Blocks doc key hash nonempty db)
        λ _ d blocks.
          bind_action_rule command finished d (λ _ d'. Blocks key hash d'.keys) Replied
            (Left key hash) (kept d.keys (command d) blocks (keeps d))
            λ body d' blocks'.
              bind_action_rule (finalize p (some key) 200 body) (λ _. return (success body)) d'
                (λ _ d''. Answers key hash (success body) d''.keys) Replied (Left key hash)
                (finalize-Answers doc key hash nonempty body d' blocks') λ _ _ a. a
    where
      kept :
          (keys : List IdempotencyKey) (r : Result ResponseBody × Db)
          → Blocks key hash keys
          → Ends r (λ _ d'. d'.keys ≡ keys) (λ _ d'. d'.keys ≡ keys)
          → Ends r (λ _ d'. Blocks key hash d'.keys) (Left key hash)
      kept keys (ok a, d) b e = subst (Blocks key hash) (sym e) b
      kept keys (err (bad_request _), d) b e = subst (Blocks key hash) (sym e) b
      kept keys (err (conflict _), d) b e = tt
      kept keys (err failure, d) b e = tt

  abbrev respond : Action ResponseBody → Option Response → Action Response
  respond command (some response) = return response
  respond command none = run_command p h key hash command

  respond-Answers :
      (command : Action ResponseBody) (c : Option Response) (db : Db)
      → ((d : Db) → Ends (command d) (λ _ d'. d'.keys ≡ d.keys) (λ _ d'. d'.keys ≡ d.keys))
      → ((response : Response) → c ≡ some response → Answers key hash response db.keys)
      → Ends (respond command c db) Replied (Left key hash)
  respond-Answers command none db keeps answers = run_command-Answers command db keeps
  respond-Answers command (some response) db keeps answers = answers response refl

  -- Whatever a request with this key and payload was answered, the key holds; what its command
  -- refused leaves the key in progress.
  pub answer-Answers :
      (command : Action ResponseBody) (db : Db)
      → ((d : Db) → Ends (command d) (λ _ d'. d'.keys ≡ d.keys) (λ _ d'. d'.keys ≡ d.keys))
      → Ends (answer p h key hash command db) Replied (Left key hash)
  unfolding answer
  answer-Answers command db keeps =
      bind_action_rule (get p (some key) (some hash)) (λ o. respond command (cached_response o)) db
        (Recorded key hash) Replied (Left key hash) (get-Answers doc key hash nonempty db)
        λ o d answers. respond-Answers command (cached_response o) d keeps answers

  module _ (row : IdempotencyKey) (db : Db) (found : lookup_by (λ r. r.id) key db.keys ≡ some row)
      (same : hash_differs (some hash) row.request_hash ≡ false) where
    get-Recalls : Recalls p (get p (some key) (some hash) db) (ok (some (record_of row))) db
    unfolding get as_record find_key
    get-Recalls = rw nonempty (
        bind-Recalls p (read_key p key) (as_record p (some hash)) db (find_key key db)
          (ok (some (record_of row))) (read_key-cases doc key db) (inl (rw (found, same) refl)))

    begin-Recalls :
        row.status ≡ processing
        → Recalls p (begin p (some key) (some hash) db) (err (conflict already_processing)) db
    unfolding begin begin_key check_existing find_key
    begin-Recalls busy = rw nonempty (
        bind-Recalls p (read_key p key)
          (λ o. check_existing p (some hash) o >> store_key p key (some hash)) db (find_key key db)
          (err (conflict already_processing)) (read_key-cases doc key db)
          (inl (rw (found, same, busy) refl)))

  -- What the key holds decides the answer, and nothing changes.
  pub answer-recalled :
      (command : Action ResponseBody) (response : Response) (db : Db)
      → Answers key hash response db.keys
      → Recalls p (answer p h key hash command db) (ok response) db
  unfolding answer
  answer-recalled command response db (row, found, same, stored) =
      bind-Recalls p (get p (some key) (some hash)) (λ o. respond command (cached_response o)) db
        (some (record_of row)) (ok response) (get-Recalls row db found same)
        (inl (rw (stored, respond) refl))

  pub answer-blocked :
      (command : Action ResponseBody) (db : Db)
      → Blocks key hash db.keys
      → Recalls p (answer p h key hash command db) (err (conflict already_processing)) db
  unfolding answer run_command cached_response
  answer-blocked command db (row, found, hashed, busy) =
      let same : hash_differs (some hash) row.request_hash ≡ false =
        rw hashed (hash_differs_refl hash) in
      bind-Recalls p (get p (some key) (some hash)) (λ o. respond command (cached_response o)) db
        (some (record_of row)) (err (conflict already_processing)) (get-Recalls row db found same)
        (rw busy (
          raise-Recalls p (begin p (some key) (some hash)) (λ _. command >>= finished) db
            (conflict already_processing) (begin-Recalls row db found same busy)))
