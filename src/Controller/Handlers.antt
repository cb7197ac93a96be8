-- ===== src/Controller/Handlers.antt =====
-- The three handlers of WalletController (src/modules/wallet/wallet.controller.ts), when the same
-- request comes again.
use api_wallet.Prelude.{
  Text, ◌≡◌, ◌≢◌, refl, sym, ◌∙◌, subst, ◌⊎◌, inl, inr, false, Option, some, is_empty, Bool-cases,
  Option-cases,
}
use api_wallet.Entities.{ResponseBody, of_command, of_transfer}
use api_wallet.Tables.{Db}
use api_wallet.Platform.{Platform, IsDocumented}
use api_wallet.Wallet.{
  ok, err, bad_request, conflict, Reason, key_required, already_processing, Action, deposit,
  withdraw,
}
use api_wallet.Wallet.Transfer.{transfer}
use api_wallet.Wallet.Actions.{◌>>=◌, return}
use api_wallet.Wallet.Outcomes.{Ends}
use api_wallet.Wallet.Frame.{deposit-Keeps, withdraw-Keeps, transfer-Keeps}
use api_wallet.Wallet.Frame.Keys.{keys-closed}
use api_wallet.Idempotency.{Hashing, hash_payload}
use api_wallet.Controller.{
  Request, RequestPayload, command_payload, transfer_payload, Response, Call, deposit_call,
  withdraw_call, transfer_call, first_key, resolve_idempotency_key, answer, handle,
}
use api_wallet.Wallet.Requests.{Recalls, bind_action_rule}
use api_wallet.Controller.KeyStates.{Left, Blocks, Answers}
use api_wallet.Controller.Replay.{answer-Answers, answer-recalled, answer-blocked}

abbrev pub body_key : Call → Option Text
body_key (deposit_call _ dto) = dto.idempotency_key
body_key (withdraw_call _ dto) = dto.idempotency_key
body_key (transfer_call _ dto) = dto.command.idempotency_key

abbrev pub payload : Call → Request → RequestPayload
payload (deposit_call id dto) req = command_payload req.path req.method id dto
payload (withdraw_call id dto) req = command_payload req.path req.method id dto
payload (transfer_call id dto) req = transfer_payload req.path req.method id dto.to_wallet_id dto

pub resolve-cases :
    (req : Request) (key : Option Text)
    → (resolve_idempotency_key req key ≡ err (bad_request key_required))
      ⊎ ((k : Text) × (resolve_idempotency_key req key ≡ ok k) × (is_empty k ≡ false))
unfolding resolve_idempotency_key
resolve-cases req key =
    elim (Option-cases (first_key key (first_key req.idempotency_key req.x_idempotency_key))) [
      | inl missing ↦ inl (rw (resolve_idempotency_key, missing) refl)
      | inr (k, given) ↦ elim (Bool-cases (is_empty k)) [
        | inl blank ↦ inl (rw (resolve_idempotency_key, given, blank) refl)
        | inr filled ↦ inr (k, rw (resolve_idempotency_key, given, filled) refl, filled)
      ]
    ]

module _ (p : Platform) (h : Hashing RequestPayload) where
  abbrev pub command_of : Call → Text → Action ResponseBody
  command_of (deposit_call id dto) key =
      deposit p id dto.amount (some key) dto.metadata >>= λ r. return (of_command r)
  command_of (withdraw_call id dto) key =
      withdraw p id dto.amount (some key) dto.metadata >>= λ r. return (of_command r)
  command_of (transfer_call id dto) key =
      transfer p id dto.to_wallet_id dto.command.amount (some key) dto.command.metadata >>= λ r.
      return (of_transfer r)

  abbrev answer_of : Call → Request → Text → Action Response
  answer_of call req key = answer p h key (hash_payload h (payload call req)) (command_of call key)

  pub handle-resolved :
      (call : Call) (req : Request) (key : Text) (db : Db)
      → resolve_idempotency_key req (body_key call) ≡ ok key
      → handle p h call req db ≡ answer_of call req key db
  unfolding handle
  handle-resolved (deposit_call id dto) req key db e = rw e refl
  handle-resolved (withdraw_call id dto) req key db e = rw e refl
  handle-resolved (transfer_call id dto) req key db e = rw e refl

  pub handle-unresolved :
      (call : Call) (req : Request) (db : Db)
      → resolve_idempotency_key req (body_key call) ≡ err (bad_request key_required)
      → handle p h call req db ≡ (err (bad_request key_required), db)
  unfolding handle
  handle-unresolved (deposit_call id dto) req db e = rw e refl
  handle-unresolved (withdraw_call id dto) req db e = rw e refl
  handle-unresolved (transfer_call id dto) req db e = rw e refl

  module _ (doc : IsDocumented p) where
    -- The result is put in an envelope, and the keys stay.
    wrapped :
        {A : Type 0} (f : A → ResponseBody) (m : Action A) (db : Db)
        → Ends (m db) (λ _ d. d.keys ≡ db.keys) (λ _ d. d.keys ≡ db.keys)
        → Ends ((m >>= λ r. return (f r)) db) (λ _ d. d.keys ≡ db.keys) (λ _ d. d.keys ≡ db.keys)
    wrapped f m db h =
        bind_action_rule m (λ r. return (f r)) db (λ _ d. d.keys ≡ db.keys)
          (λ _ d. d.keys ≡ db.keys) (λ _ d. d.keys ≡ db.keys) h (λ _ _ e. e)

    command_of-Keeps :
        (call : Call) (key : Text) (db : Db)
        → Ends (command_of call key db) (λ _ d. d.keys ≡ db.keys) (λ _ d. d.keys ≡ db.keys)
    command_of-Keeps (deposit_call id dto) key db =
        wrapped of_command (deposit p id dto.amount (some key) dto.metadata) db (
          deposit-Keeps doc (λ d. d.keys ≡ db.keys) (keys-closed p db.keys) (some key) dto.metadata
            dto.amount id db refl)
    command_of-Keeps (withdraw_call id dto) key db =
        wrapped of_command (withdraw p id dto.amount (some key) dto.metadata) db (
          withdraw-Keeps doc (λ d. d.keys ≡ db.keys) (keys-closed p db.keys) (some key) dto.metadata
            dto.amount id db refl)
    command_of-Keeps (transfer_call id dto) key db =
        wrapped of_transfer
          (transfer p id dto.to_wallet_id dto.command.amount (some key) dto.command.metadata) db
          (transfer-Keeps doc (λ d. d.keys ≡ db.keys) (keys-closed p db.keys) (some key)
            dto.command.metadata dto.command.amount id dto.to_wallet_id db refl)

    -- What the key holds once the request was handled.
    handled :
        (call : Call) (req : Request) (key : Text) (db : Db)
        → is_empty key ≡ false
        → Ends
            (answer_of call req key db)
            (λ r d. Answers key (hash_payload h (payload call req)) r d.keys)
            (Left key (hash_payload h (payload call req)))
    handled call req key db filled =
        answer-Answers doc h key (hash_payload h (payload call req)) filled (command_of call key) db
          (command_of-Keeps call key)

-- A deposit, withdrawal or transfer that was answered with a response gets the same response
-- whenever the same request comes again while the idempotency keys stand as it left them, and the
-- database, whatever else happened to it, does not change; unless the database refuses the lookup
-- of the key.
pub handle-again :
    {p : Platform} (doc : IsDocumented p) (h : Hashing RequestPayload) (call : Call) (req : Request)
    (response : Response) (db answered later : Db)
    → handle p h call req db ≡ (ok response, answered)
    → later.keys ≡ answered.keys
    → Recalls p (handle p h call req later) (ok response) later
handle-again {p} doc h call req response db answered later out same =
    elim (resolve-cases req (body_key call)) [
      | inl e ↦ cc (handle-unresolved p h call req db e)
      | inr (key, e, filled) ↦
          let hash = hash_payload h (payload call req) in
          let held : Answers key hash response answered.keys =
            subst (λ o. Ends o (λ r d. Answers key hash r d.keys) (Left key hash))
              (sym (handle-resolved p h call req key db e) ∙ out)
              (handled p h doc call req key db filled) in
          subst (λ o. Recalls p o (ok response) later)
            (sym (handle-resolved p h call req key later e))
            (answer-recalled doc h key hash filled (command_of p h call key) response later
              (subst (Answers key hash response) (sym same) held))
    ]

-- A deposit, withdrawal or transfer that was refused for its amount, its funds or its wallets leaves
-- its idempotency key in progress: whenever the same request comes again while the keys stand, it
-- is refused as already being processed and changes nothing, unless the database refuses the lookup
-- of the key.
pub handle-stuck :
    {p : Platform} (doc : IsDocumented p) (h : Hashing RequestPayload) (call : Call) (req : Request)
    (reason : Reason) (db refused later : Db)
    → reason ≢ key_required
    → handle p h call req db ≡ (err (bad_request reason), refused)
    → later.keys ≡ refused.keys
    → Recalls p (handle p h call req later) (err (conflict already_processing)) later
handle-stuck {p} doc h call req reason db refused later other out same =
    elim (resolve-cases req (body_key call)) [
      | inl e ↦ absurd (other (cc (handle-unresolved p h call req db e)))
      | inr (key, e, filled) ↦
          let hash = hash_payload h (payload call req) in
          let held : Blocks key hash refused.keys =
            subst (λ o. Ends o (λ r d. Answers key hash r d.keys) (Left key hash))
              (sym (handle-resolved p h call req key db e) ∙ out)
              (handled p h doc call req key db filled) in
          subst (λ o. Recalls p o (err (conflict already_processing)) later)
            (sym (handle-resolved p h call req key later e))
            (answer-blocked doc h key hash filled (command_of p h call key) later
              (subst (Blocks key hash) (sym same) held))
    ]
