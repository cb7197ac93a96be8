-- ===== src/Consumer/Once.antt =====
-- An event that comes again (src/modules/messaging/wallet-events-consumer.service.ts).
use api_wallet.Prelude.{
  Text, text_eq_refl, ◌≡◌, refl, sym, ap, ◌∙◌, subst, false, Option, none, some, inl, inr, is_empty,
  Bool-cases,
}
use api_wallet.Entities.{EventType, Payload, ConsumedEvent}
use api_wallet.Tables.{Db, Table, select, save_consumed, effect}
use api_wallet.Tables.Rows.{lookup_by, lookup_by-upsert_by}
use api_wallet.Platform.{Platform, IsDocumented}
use api_wallet.Wallet.{Result, ok, err, Error, run}
use api_wallet.Wallet.Actions.{lift}
use api_wallet.Wallet.Outcomes.{Ends}
use api_wallet.Wallet.Requests.{Recalls, bind_action_rule, bind-Recalls}
use api_wallet.Consumer.{
  find_consumed, is_already_processed, mark_processed, apply_event, unless_duplicate, process,
  handle_event,
}

-- The event is among those that were consumed.
abbrev pub IsConsumed : Text → Db → Type 0
IsConsumed id db = (c : ConsumedEvent) × (lookup_by (λ r. r.event_id) id db.consumed ≡ some c)

abbrev Anyhow : Error → Db → Type 0
Anyhow _ _ = Unit

Ends_any : {A : Type 0} (r : Result A × Db) → Ends r (λ _ _. Unit {0}) Anyhow
Ends_any (ok _, d) = tt
Ends_any (err _, d) = tt

module _ {p : Platform} (doc : IsDocumented p) (id : Text) where
  is_already_processed-Recalls :
      (db : Db) → Recalls p (is_already_processed p id db) (ok (find_consumed id db)) db
  unfolding is_already_processed run effect
  is_already_processed-Recalls db = elim (doc.executed (select Table.consumed false) db) [
    | inl e ↦ inr (rw (e, run, lift) refl, (select Table.consumed false, db, tt, e))
    | inr e ↦ inl (rw (e, run, lift) refl)
  ]

  is_already_processed-Ends :
      (db : Db)
      → Ends
          (is_already_processed p id db)
          (λ o d. lookup_by (λ r. r.event_id) id d.consumed ≡ o)
          Anyhow
  unfolding find_consumed
  is_already_processed-Ends db = elim (is_already_processed-Recalls db) [
    | inl e ↦ rw e refl
    | inr (e, _) ↦ rw e tt
  ]

  mark_processed-IsConsumed :
      (event_type : EventType) (db : Db)
      → Ends (mark_processed p id event_type db) (λ _ d. IsConsumed id d) Anyhow
  unfolding mark_processed run effect
  mark_processed-IsConsumed event_type db =
      let c : ConsumedEvent = record { event_id = id; event_type = event_type } in
      elim (doc.executed (save_consumed c) db) [
        | inl e ↦ rw (e, run, lift) tt
        | inr e ↦
            rw (e, run, lift)
              (
                c,
                lookup_by-upsert_by (λ r. r.event_id) id c db.consumed ∙ rw (text_eq_refl id) refl,
              )
      ]

  unless_duplicate-IsConsumed :
      (event_type : EventType) (payload : Payload) (o : Option ConsumedEvent) (db : Db)
      → lookup_by (λ r. r.event_id) id db.consumed ≡ o
      → Ends (unless_duplicate p id event_type payload o db) (λ _ d. IsConsumed id d) Anyhow
  unless_duplicate-IsConsumed event_type payload (some c) db e = (c, e)
  unless_duplicate-IsConsumed event_type payload none db e =
      bind_action_rule (apply_event p event_type payload) (λ _. mark_processed p id event_type) db
        (λ _ _. Unit {0}) (λ _ d. IsConsumed id d) Anyhow
        (Ends_any (apply_event p event_type payload db))
        (λ _ d _. mark_processed-IsConsumed event_type d)

  process-IsConsumed :
      (event_type : EventType) (payload : Payload) (db : Db)
      → Ends (process p id event_type payload db) (λ _ d. IsConsumed id d) Anyhow
  unfolding process
  process-IsConsumed event_type payload db =
      bind_action_rule (is_already_processed p id) (unless_duplicate p id event_type payload) db
        (λ o d. lookup_by (λ r. r.event_id) id d.consumed ≡ o) (λ _ d. IsConsumed id d) Anyhow
        (is_already_processed-Ends db) (unless_duplicate-IsConsumed event_type payload)

  process-Recalls :
      (event_type : EventType) (payload : Payload) (db : Db)
      → IsConsumed id db
      → Recalls p (process p id event_type payload db) (ok tt) db
  unfolding process find_consumed
  process-Recalls event_type payload db (c, e) =
      bind-Recalls p (is_already_processed p id) (unless_duplicate p id event_type payload) db
        (find_consumed id db) (ok tt) (is_already_processed-Recalls db) (inl (rw e refl))

-- Once an event was handled without an error, any message with its id is handled without an error
-- and changes nothing, whatever it says, as long as the consumed events stand as they were left;
-- unless the database refuses the lookup of the event.
pub handle_event-once :
    {p : Platform} (doc : IsDocumented p) (id : Text) (event_type again_type : EventType)
    (payload again : Payload) (db handled later : Db)
    → payload.event_id ≡ some id
    → again.event_id ≡ some id
    → handle_event p (some event_type) payload db ≡ (ok tt, handled)
    → later.consumed ≡ handled.consumed
    → Recalls p (handle_event p (some again_type) again later) (ok tt) later
unfolding handle_event
handle_event-once {p} doc id event_type again_type payload again db handled later e e' out same =
    elim (Bool-cases (is_empty id)) [
      | inl blank ↦ inl (rw (handle_event, e', blank) refl)
      | inr filled ↦
          let held : IsConsumed id handled =
            subst (λ o. Ends o (λ _ d. IsConsumed id d) Anyhow)
              (sym (the_process event_type payload db e filled) ∙ out)
              (process-IsConsumed doc id event_type payload db) in
          subst (λ o. Recalls p o (ok tt) later)
            (sym (the_process again_type again later e' filled))
            (process-Recalls doc id again_type again later
              (held.0, ap (lookup_by (λ r. r.event_id) id) same ∙ held.1))
    ]
  where
    the_process :
        (event_type : EventType) (payload : Payload) (db : Db)
        → payload.event_id ≡ some id
        → is_empty id ≡ false
        → handle_event p (some event_type) payload db ≡ process p id event_type payload db
    the_process event_type payload db e filled = rw (handle_event, e, filled) refl
