-- ===== src/Consumer/Rejected.antt =====
-- What a message leaves that is not acknowledged (src/modules/messaging/rmq.consumer.ts,
-- src/modules/messaging/wallet-events-consumer.service.ts).
use api_wallet.Prelude.{
  ap, ℕ, ◌+◌, ◌<◌, codes, ◌≡◌, refl, sym, ◌∙◌, subst, ◌⊎◌, inl, inr, false, Option, none, some,
  or_else,
}
use api_wallet.Entities.{
  EventType, funds_deposited, funds_withdrawn, transfer_initiated, transfer_completed,
  transfer_failed, transfer_compensated, ConsumedEvent,
}
use api_wallet.Tables.{Db, Table, select, save_consumed, effect}
use api_wallet.Platform.{Platform, IsDocumented, Denotes, max_units}
use api_wallet.Wallet.{Result, ok, err, Error, failure, run}
use api_wallet.Wallet.Actions.{lift}
use api_wallet.Wallet.Outcomes.{Ends}
use api_wallet.Wallet.Requests.{Ends_mono, bind_action_rule}
use api_wallet.Consumer.{
  nack, receipt_of, find_analytics, find_consumed, found_or_new, apply_event, apply_deposit,
  apply_withdrawal, mark_processed, is_already_processed, unless_duplicate, process, receive,
}
use api_wallet.Consumer.Saving.{
  withdrawn_row, deposited_row, Saves, apply_withdrawal-Saves, apply_deposit-Saves,
}
use api_wallet.Consumer.Tally.{Delivery, IsProper}
use api_wallet.Consumer.Delivery.{receive-process}

module _ {p : Platform} (doc : IsDocumented p) (m : Delivery) (db : Db)
    (deposited withdrawn : ℕ) where
  -- The analytics have the message, and the rest of the database is as it was.
  abbrev pub Applied : EventType → Db → Type 0
  Applied funds_deposited d =
      Saves doc m.wallet m.units deposited db (deposited_row doc m.wallet m.units deposited db) tt d
  Applied funds_withdrawn d =
      Saves doc m.wallet m.units withdrawn db (withdrawn_row doc m.wallet m.units withdrawn db) tt d
  Applied _ d = d ≡ db

  abbrev Done : Unit {0} → Db → Type 0
  Done _ _ = Unit

  abbrev Left : Error → Db → Type 0
  Left _ d = (d ≡ db) ⊎ (Applied m.pattern_type d × (find_consumed m.id d ≡ none))

  -- Applied, it is not yet consumed.
  Applied-unconsumed :
      (event_type : EventType) (d : Db)
      → Applied event_type d
      → find_consumed m.id db ≡ none
      → find_consumed m.id d ≡ none
  unfolding effect find_consumed
  Applied-unconsumed funds_deposited d (_, _, e) missing = rw e missing
  Applied-unconsumed funds_withdrawn d (_, _, e) missing = rw e missing
  Applied-unconsumed transfer_initiated d e missing = rw e missing
  Applied-unconsumed transfer_completed d e missing = rw e missing
  Applied-unconsumed transfer_failed d e missing = rw e missing
  Applied-unconsumed transfer_compensated d e missing = rw e missing

  module _ (proper : IsProper p m)
      (before : Denotes p
        (or_else (found_or_new m.wallet (find_analytics m.wallet db)).total_deposited (codes "0"))
        deposited)
      (before' : Denotes p
        (or_else (found_or_new m.wallet (find_analytics m.wallet db)).total_withdrawn (codes "0"))
        withdrawn)
      (small : deposited + m.units < max_units) (small' : withdrawn + m.units < max_units) where
    apply_event-Applied :
        (event_type : EventType)
        → Ends (apply_event p event_type m.payload db) (λ _ d. Applied event_type d) (λ _ d. d ≡ db)
    apply_event-Applied funds_deposited =
        let (t, given, amount) = proper.4 in
        Ends_mono (apply_deposit p m.payload db) _ _ _ _
          (apply_deposit-Saves doc m.wallet m.units deposited db m.payload t proper.2 proper.3 given
            amount small before)
          (λ _ _ saved. saved) (λ _ _ (same, _, _). same)
    apply_event-Applied funds_withdrawn =
        let (t, given, amount) = proper.4 in
        Ends_mono (apply_withdrawal p m.payload db) _ _ _ _
          (apply_withdrawal-Saves doc m.wallet m.units withdrawn db m.payload t proper.2 proper.3
            given amount small' before')
          (λ _ _ saved. saved) (λ _ _ (same, _, _). same)
    apply_event-Applied transfer_initiated = refl
    apply_event-Applied transfer_completed = refl
    apply_event-Applied transfer_failed = refl
    apply_event-Applied transfer_compensated = refl

    mark_processed-Left :
        (d : Db)
        → Applied m.pattern_type d
        → find_consumed m.id db ≡ none
        → Ends (mark_processed p m.id m.pattern_type d) Done Left
    unfolding mark_processed run effect
    mark_processed-Left d applied missing =
        elim (doc.executed (save_consumed (record { event_id = m.id; event_type = m.pattern_type }))
          d) [
            | inl e ↦
                rw (e, run, lift)
                  (inr (applied, Applied-unconsumed m.pattern_type d applied missing))
            | inr e ↦ rw (e, run, lift) tt
          ]

    lookup-Left :
        Ends (is_already_processed p m.id db) (λ o d. (o ≡ find_consumed m.id db) × (d ≡ db)) Left
    unfolding is_already_processed run effect
    lookup-Left = elim (doc.executed (select Table.consumed false) db) [
      | inl e ↦ rw (e, run, lift) (inl refl)
      | inr e ↦ rw (e, run, lift) (refl, refl)
    ]

    unless_duplicate-Left :
        (o : Option ConsumedEvent)
        → o ≡ find_consumed m.id db
        → Ends (unless_duplicate p m.id m.pattern_type m.payload o db) Done Left
    unless_duplicate-Left (some c) known = tt
    unless_duplicate-Left none known =
        bind_action_rule (apply_event p m.pattern_type m.payload)
          (λ _. mark_processed p m.id m.pattern_type) db (λ _ d. Applied m.pattern_type d) Done Left
          (Ends_mono (apply_event p m.pattern_type m.payload db) _ _ _ Left
            (apply_event-Applied m.pattern_type) (λ _ _ applied. applied) (λ _ _ same. inl same))
          (λ _ d applied. mark_processed-Left d applied (sym known))

    process-Left : Ends (process p m.id m.pattern_type m.payload db) Done Left
    unfolding process
    process-Left =
        bind_action_rule (is_already_processed p m.id)
          (unless_duplicate p m.id m.pattern_type m.payload) db
          (λ o d. (o ≡ find_consumed m.id db) × (d ≡ db)) Done Left lookup-Left
          (λ o d (known, same).
            subst (λ d. Ends (unless_duplicate p m.id m.pattern_type m.payload o d) Done Left)
              (sym same) (unless_duplicate-Left o known))

    nack_only :
        (r : Result (Unit {0}) × Db) (d : Db)
        → Ends r Done Left
        → receipt_of r ≡ (nack, d)
        → Left failure d
    nack_only (ok _, d') d h e = cc
    nack_only (err _, d') d h e = subst (Left failure) (ap (λ r. r.1) e) h

    -- A message with an event id, a wallet and an amount that is rejected, and not acknowledged,
    -- changed nothing, or it was counted in the analytics of its wallet, if it is a deposit or a
    -- withdrawal, and is not recorded as consumed.
    pub receive-rejected :
        (d : Db)
        → receive p m.pattern_type m.payload db ≡ (nack, d)
        → (d ≡ db) ⊎ (Applied m.pattern_type d × (find_consumed m.id d ≡ none))
    receive-rejected d e =
        nack_only (process p m.id m.pattern_type m.payload db) d process-Left
          (sym (receive-process p m db proper) ∙ e)
