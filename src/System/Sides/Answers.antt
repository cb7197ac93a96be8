-- ===== src/System/Sides/Answers.antt =====
-- What a handler of WalletController (src/modules/wallet/wallet.controller.ts) makes of what its
-- command does.
use api_wallet.Prelude.{Text, ◌≡◌, refl, ◌⊎◌, inl, inr, false, Option, none, some, is_empty}
use api_wallet.Entities.{ResponseBody}
use api_wallet.Tables.{Db, Statement, effect}
use api_wallet.Platform.{Platform, IsDocumented}
use api_wallet.Wallet.{Action}
use api_wallet.Wallet.Actions.{◌>>◌, ◌>>=◌, return}
use api_wallet.Wallet.Outcomes.{Ends}
use api_wallet.Wallet.Requests.{bind_action_rule, Ends_mono}
use api_wallet.Idempotency.{Hashing, find_key, read_key, as_record, begin, finalize, get}
use api_wallet.Controller.{RequestPayload, Response, cached_response, run_command, answer}
use api_wallet.Controller.KeyStates.{read_key-cases}
use api_wallet.System.Sides.{IsSide}
use api_wallet.System.Sides.Keys.{get-Keeps, begin-Keeps, finalize-Keeps}

-- The command leads from `I` to `Q` of what it returns, or throws and leaves `I`; what is done about
-- the key keeps both.
module _ {p : Platform} (doc : IsDocumented p) (I : Db → Type 0) (Q : ResponseBody → Db → Type 0)
    (before : (s : Statement) (db : Db) → IsSide s → I db → I (effect p.stored p.uuid s db))
    (after : (body : ResponseBody) (s : Statement) (db : Db)
      → IsSide s
      → Q body db
      → Q body (effect p.stored p.uuid s db))
    (h : Hashing RequestPayload) (key hash : Text) (command : Action ResponseBody)
    (moves : (db : Db) → I db → Ends (command db) Q (λ _ d. I d)) where
  -- The command did nothing, or all that it does.
  abbrev pub Either : {A : Type 0} → A → Db → Type 0
  Either _ d = I d ⊎ ((body : ResponseBody) × Q body d)

  abbrev pub Responds : Response → Db → Type 0
  Responds response d = (response.status ≡ 200) × Q response.body d

  abbrev respond : ResponseBody → Action Response
  respond body = finalize p (some key) 200 body >> return (record { status = 200; body = body })

  respond-Responds :
      (body : ResponseBody) (db : Db) → Q body db → Ends (respond body db) Responds Either
  respond-Responds body db q =
      bind_action_rule (finalize p (some key) 200 body)
        (λ _. return {A = Response} (record { status = 200; body = body })) db (λ _ d. Q body d)
        Responds Either
        (Ends_mono (finalize p (some key) 200 body db) _ (λ _ d. Q body d) _ Either
          ((finalize-Keeps doc (Q body) (after body) (some key) 200 body).at db q) (λ _ _ k. k)
          (λ _ _ k. inr (body, k)))
        (λ _ d k. (refl, k))

  run_command-Responds :
      (db : Db) → I db → Ends (run_command p h key hash command db) Responds Either
  unfolding run_command
  run_command-Responds db i =
      bind_action_rule (begin p (some key) (some hash)) (λ _. command >>= respond) db (λ _ d. I d)
        Responds Either
        (Ends_mono (begin p (some key) (some hash) db) _ (λ _ d. I d) _ Either
          ((begin-Keeps doc I before (some key) (some hash)).at db i) (λ _ _ k. k) (λ _ _. inl))
        (λ _ d j.
          bind_action_rule command respond d Q Responds Either
            (Ends_mono (command d) _ Q _ Either (moves d j) (λ _ _ k. k) (λ _ _. inl))
            respond-Responds)

  abbrev go_on : Option Response → Action Response
  go_on (some response) = return response
  go_on none = run_command p h key hash command

  go_on-Either : (c : Option Response) (db : Db) → I db → Ends (go_on c db) Either Either
  go_on-Either (some response) db i = inl i
  go_on-Either none db i =
      Ends_mono (run_command p h key hash command db) _ Either _ Either (run_command-Responds db i)
        (λ r d (_, k). inr (r.body, k)) (λ _ _ k. k)

  -- However the handler ends, its command did all or nothing.
  pub answer-Either : (db : Db) → I db → Ends (answer p h key hash command db) Either Either
  unfolding answer
  answer-Either db i =
      bind_action_rule (get p (some key) (some hash)) (λ o. go_on (cached_response o)) db
        (λ _ d. I d) Either Either
        (Ends_mono (get p (some key) (some hash) db) _ (λ _ d. I d) _ Either
          ((get-Keeps doc I before (some key) (some hash)).at db i) (λ _ _ k. k) (λ _ _. inl))
        (λ o d j. go_on-Either (cached_response o) d j)

  get-fresh :
      (db : Db)
      → is_empty key ≡ false
      → find_key key db ≡ none
      → I db
      → Ends (get p (some key) (some hash) db) (λ o d. (o ≡ none) × I d) Either
  unfolding get as_record
  get-fresh db filled missing i = rw filled (
      bind_action_rule (read_key p key) (as_record p (some hash)) db (λ o d. (o ≡ none) × I d)
        (λ o d. (o ≡ none) × I d) Either
        (elim (read_key-cases doc key db) [ inl e ↦ rw e (missing, i) | inr (e, _) ↦ rw e (inl i) ])
        (λ o d (e, j). rw e (refl, j)))

  -- If the key is new and the handler answers, its command was carried out.
  pub answer-Responds :
      (db : Db)
      → is_empty key ≡ false
      → find_key key db ≡ none
      → I db
      → Ends (answer p h key hash command db) Responds Either
  unfolding answer cached_response
  answer-Responds db filled missing i =
      bind_action_rule (get p (some key) (some hash)) (λ o. go_on (cached_response o)) db
        (λ o d. (o ≡ none) × I d) Responds Either (get-fresh db filled missing i)
        (λ o d (e, j). rw e (run_command-Responds d j))
