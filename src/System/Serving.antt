-- ===== src/System/Serving.antt =====
-- A request to WalletController (src/modules/wallet/wallet.controller.ts) in a sound database.
use api_wallet.Prelude.{
  none, ℕ, Text, text_eq, ◌≡◌, refl, sym, subst, ◌⊎◌, inl, inr, some, Bool-cases, Option-cases,
}
use api_wallet.Entities.{ResponseBody, of_command, of_transfer}
use api_wallet.Tables.{Db, Statement, effect}
use api_wallet.Platform.{Platform, IsDocumented}
use api_wallet.Wallet.{
  Result, Error, ok, err, bad_request, invalid_amount, normalize_amount, deposit, withdraw,
}
use api_wallet.Wallet.Transfer.{transfer}
use api_wallet.Wallet.Actions.{return}
use api_wallet.Wallet.Outcomes.{Ends}
use api_wallet.Wallet.Books.{Ledger, Books}
use api_wallet.Wallet.Commands.{deposit-Books, withdraw-Books}
use api_wallet.Wallet.TransferOutcome.{transfer-Books}
use api_wallet.Wallet.Frame.{deposit-Keeps, withdraw-Keeps, transfer-Keeps}
use api_wallet.Wallet.Requests.{bind_action_rule, Ends_mono}
use api_wallet.Idempotency.{Hashing, hash_payload, find_key}
use api_wallet.Controller.{
  CommandDto, TransferDto, resolve_idempotency_key, Request, RequestPayload, Call, deposit_call,
  withdraw_call, transfer_call, handle,
}
use api_wallet.Controller.Handlers.{
  body_key, payload, resolve-cases, command_of, handle-resolved, handle-unresolved,
}
use api_wallet.System.{IsFinite, IsValid}
use api_wallet.System.Sides.{IsSide}
use api_wallet.System.Sound.{IsSoundAt, Kept, command-Kept, side-IsSoundAt}
use api_wallet.System.Postings.{Posts}
use api_wallet.System.Sides.Answers.{answer-Either, answer-Responds}

-- What ends in two ways at once.
Ends-and :
    {A : Type 0} (r : Result A × Db) (Q Q' : A → Db → Type 0) (R R' : Error → Db → Type 0)
    → Ends r Q R
    → Ends r Q' R'
    → Ends r (λ a d. Q a d × Q' a d) (λ e d. R e d × R' e d)
Ends-and (ok a, d) Q Q' R R' h k = (h, k)
Ends-and (err e, d) Q Q' R R' h k = (h, k)

module _ (p : Platform) (l : Ledger) (call : Call) where
  -- The request did what it may do to this ledger, and the database is sound after it.
  abbrev pub Served : ResponseBody → Db → Type 0
  Served body d = (l' : Ledger) × Posts p call body l l' × IsSoundAt p l' d

  -- The request did nothing to the ledger, or what it may do.
  abbrev pub AllOrNothing : {A : Type 0} → A → Db → Type 0
  AllOrNothing _ d = IsSoundAt p l d ⊎ ((body : ResponseBody) × Served body d)

module _ {p : Platform} (doc : IsDocumented p) where
  -- An amount is refused, or it is a number of ten-thousandths.
  pub normalize_amount-cases :
      (amount : Text)
      → IsFinite p amount
      → (normalize_amount p amount ≡ err (bad_request invalid_amount))
        ⊎ ((n : ℕ) × (normalize_amount p amount ≡ ok (p.money n)))
  unfolding normalize_amount
  normalize_amount-cases amount finite = elim (Option-cases (p.of_text amount)) [
    | inl e ↦ inl (rw (normalize_amount, e) refl)
    | inr (d, e) ↦ elim (Bool-cases (p.lte d (p.of_number 0))) [
      | inl low ↦ inl (rw (normalize_amount, e, low) refl)
      | inr above ↦
          let (n, m) = doc.to_places_money d (finite d e) above in
          inr (n, rw (normalize_amount, e, above, m) refl)
    ]
  ]

  abbrev Stays : Ledger → Error → Db → Type 0
  Stays l _ d = IsSoundAt p l d

  deposit-Served :
      (id key : Text) (dto : CommandDto) (l : Ledger) (db : Db)
      → IsFinite p dto.amount
      → IsSoundAt p l db
      → Ends
          (deposit p id dto.amount (some key) dto.metadata db)
          (λ r d. Served p l (deposit_call id dto) (of_command r) d)
          (Stays l)
  unfolding deposit
  deposit-Served id key dto l db finite (b, n, s) =
      elim (normalize_amount-cases dto.amount finite) [
        | inl e ↦ rw e (b, n, s)
        | inr (k, e) ↦
            Ends_mono (deposit p id dto.amount (some key) dto.metadata db) _ _ _ (Stays l)
              (Ends-and (deposit p id dto.amount (some key) dto.metadata db) _ (λ _ d. Kept p d) _
                (λ _ d. Kept p d)
                (deposit-Books doc id dto.amount (some key) dto.metadata k db l e b)
                (deposit-Keeps doc (Kept p) (command-Kept p) (some key) dto.metadata dto.amount id
                  db (n, s)))
              (λ r d ((b', denoted), (n', s')). (_, (r, k, refl, e, refl, denoted), (b', n', s')))
              (λ x d ((same, cause), (n', s')). (subst (λ d. Books p d l) (sym same) b, n', s'))
      ]

  withdraw-Served :
      (id key : Text) (dto : CommandDto) (l : Ledger) (db : Db)
      → IsFinite p dto.amount
      → IsSoundAt p l db
      → Ends
          (withdraw p id dto.amount (some key) dto.metadata db)
          (λ r d. Served p l (withdraw_call id dto) (of_command r) d)
          (Stays l)
  unfolding withdraw
  withdraw-Served id key dto l db finite (b, n, s) =
      elim (normalize_amount-cases dto.amount finite) [
        | inl e ↦ rw e (b, n, s)
        | inr (k, e) ↦
            Ends_mono (withdraw p id dto.amount (some key) dto.metadata db) _ _ _ (Stays l)
              (Ends-and (withdraw p id dto.amount (some key) dto.metadata db) _ (λ _ d. Kept p d) _
                (λ _ d. Kept p d)
                (withdraw-Books doc id dto.amount (some key) dto.metadata k db l e b)
                (withdraw-Keeps doc (Kept p) (command-Kept p) (some key) dto.metadata dto.amount id
                  db (n, s)))
              (λ r d ((low, b', denoted), (n', s')).
                (_, (r, k, refl, e, low, refl, denoted), (b', n', s')))
              (λ x d ((same, cause), (n', s')). (subst (λ d. Books p d l) (sym same) b, n', s'))
      ]

  transfer-Served :
      (id key : Text) (dto : TransferDto) (l : Ledger) (db : Db)
      → IsFinite p dto.command.amount
      → IsSoundAt p l db
      → Ends
          (transfer p id dto.to_wallet_id dto.command.amount (some key) dto.command.metadata db)
          (λ r d. Served p l (transfer_call id dto) (of_transfer r) d)
          (Stays l)
  unfolding transfer
  transfer-Served id key dto l db finite (b, n, s) =
      let to = dto.to_wallet_id in
      let amount = dto.command.amount in
      let m = transfer p id to amount (some key) dto.command.metadata in
      elim (Bool-cases (text_eq id to)) [
        | inl same ↦ rw same (b, n, s)
        | inr other ↦ elim (normalize_amount-cases amount finite) [
          | inl e ↦ rw (other, e) (b, n, s)
          | inr (k, e) ↦
              Ends_mono (m db) _ _ _ (Stays l)
                (Ends-and (m db) _ (λ _ d. Kept p d) _ (λ _ d. Kept p d)
                  (transfer-Books doc id to amount (some key) dto.command.metadata k db l other e b)
                  (transfer-Keeps doc (Kept p) (command-Kept p) (some key) dto.command.metadata
                    amount id to db (n, s)))
                (λ r d (q, (n', s')). elim q [
                  | inl (above, enough, b', denoted, state) ↦ (
                    _,
                    (r, refl, other, inl (state, (k, e, above, enough, refl, denoted))),
                    (b', n', s'),
                  )
                  | inr ((b', denoted, state, none_sent), hindered) ↦
                      (l, (r, refl, other, inr (state, refl, none_sent)), (b', n', s'))
                ])
                (λ x d ((same, failed, refused), (n', s')).
                  (subst (λ d. Books p d l) (sym same) b, n', s'))
        ]
      ]

  module _ (h : Hashing RequestPayload) (l : Ledger) where
    command_of-Served :
        (call : Call) (key : Text) (db : Db)
        → IsValid p call
        → IsSoundAt p l db
        → Ends (command_of p h call key db) (Served p l call) (Stays l)
    command_of-Served (deposit_call id dto) key db finite s =
        bind_action_rule (deposit p id dto.amount (some key) dto.metadata)
          (λ r. return (of_command r)) db _ (Served p l (deposit_call id dto)) (Stays l)
          (deposit-Served id key dto l db finite s) (λ _ _ q. q)
    command_of-Served (withdraw_call id dto) key db finite s =
        bind_action_rule (withdraw p id dto.amount (some key) dto.metadata)
          (λ r. return (of_command r)) db _ (Served p l (withdraw_call id dto)) (Stays l)
          (withdraw-Served id key dto l db finite s) (λ _ _ q. q)
    command_of-Served (transfer_call id dto) key db finite s =
        bind_action_rule
          (transfer p id dto.to_wallet_id dto.command.amount (some key) dto.command.metadata)
          (λ r. return (of_transfer r)) db _ (Served p l (transfer_call id dto)) (Stays l)
          (transfer-Served id key dto l db finite s) (λ _ _ q. q)

    side-Served :
        (call : Call) (body : ResponseBody) (s : Statement) (db : Db)
        → IsSide s
        → Served p l call body db
        → Served p l call body (effect p.stored p.uuid s db)
    side-Served call body s db c (l', posts, sound) = (l', posts, side-IsSoundAt p l' s db c sound)

    -- However a request ends, in a sound database, it did all or nothing.
    pub handle-AllOrNothing :
        (call : Call) (req : Request) (db : Db)
        → IsValid p call
        → IsSoundAt p l db
        → Ends (handle p h call req db) (AllOrNothing p l call) (AllOrNothing p l call)
    handle-AllOrNothing call req db valid sound = elim (resolve-cases req (body_key call)) [
      | inl e ↦
          subst (λ r. Ends r (AllOrNothing p l call) (AllOrNothing p l call))
            (sym (handle-unresolved p h call req db e)) (inl sound)
      | inr (key, e, filled) ↦
          subst (λ r. Ends r (AllOrNothing p l call) (AllOrNothing p l call))
            (sym (handle-resolved p h call req key db e))
            (answer-Either doc (IsSoundAt p l) (Served p l call) (side-IsSoundAt p l)
              (side-Served call) h key (hash_payload h (payload call req)) (command_of p h call key)
              (λ d s. command_of-Served call key d valid s) db sound)
    ]

    -- A request with a key that the database has not got, whose amount is finite, in a sound
    -- database: if it is answered, then with 200, and the ledger and the answer are as the
    -- specification of the request has them; if it throws, it did so or nothing.
    pub handle-Served :
        (call : Call) (req : Request) (key : Text) (db : Db)
        → IsValid p call
        → resolve_idempotency_key req (body_key call) ≡ ok key
        → find_key key db ≡ none
        → IsSoundAt p l db
        → Ends
            (handle p h call req db)
            (λ r d. (r.status ≡ 200) × Served p l call r.body d)
            (AllOrNothing p l call)
    handle-Served call req key db valid resolved missing sound =
        elim (resolve-cases req (body_key call)) [
          | inl e ↦ cc
          | inr (key', e, filled) ↦
              subst
                (λ r.
                  Ends r (λ r d. (r.status ≡ 200) × Served p l call r.body d)
                    (AllOrNothing p l call))
                (sym (handle-resolved p h call req key db resolved))
                (answer-Responds doc (IsSoundAt p l) (Served p l call) (side-IsSoundAt p l)
                  (side-Served call) h key (hash_payload h (payload call req))
                  (command_of p h call key) (λ d s. command_of-Served call key d valid s) db
                  (cc (resolved, e, filled)) missing sound)
        ]
