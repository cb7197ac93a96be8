-- ===== src/Consumer/Stream.antt =====
-- Messages that the broker delivers one after another, in any order and any number of times
-- (src/modules/messaging/rmq.consumer.ts, src/modules/messaging/wallet-events-consumer.service.ts).
use api_wallet.Prelude.{
  ap, ◌+◌, ◌<◌, Text, text_eq, ◌≡◌, refl, sym, ◌∙◌, subst, Bool, true, false, ◌||◌, Option, none,
  some, inl, inr, if◌then◌else◌, List, [], ◌∷◌, map, All, arith,
}
use api_wallet.Entities.{EventType, ConsumedEvent}
use api_wallet.Tables.{Db, Table, select, save_consumed, effect}
use api_wallet.Tables.Rows.{lookup_by, lookup_by-upsert_by}
use api_wallet.Platform.{Platform, IsDocumented, max_units}
use api_wallet.Wallet.{Result, ok, err, run}
use api_wallet.Wallet.Actions.{lift}
use api_wallet.Wallet.Outcomes.{Ends, Refused}
use api_wallet.Wallet.Requests.{bind_action_rule}
use api_wallet.Consumer.{
  Receipt, ack, receipt_of, find_analytics, find_consumed, apply_event, mark_processed,
  is_already_processed, unless_duplicate, process, receive,
}
use api_wallet.Consumer.Tally.{
  Delivery, IsProper, is_found, has_id, add_new, all_new, all_units, Tallied, add_new_le,
}
use api_wallet.Consumer.Delivery.{receive-process}
use api_wallet.Consumer.Counting.{Never, Counted, apply_event-Counted}

-- The deliveries of a queue, one after another.
unfoldable pub receive_all : Platform → List Delivery → Db → List Receipt × Db
unfolding receive
receive_all p [] db = ([], db)
receive_all p (m ∷ ms) db =
    let (receipt, d) = receive p m.pattern_type m.payload db in
    let (receipts, d') = receive_all p ms d in (receipt ∷ receipts, d')

module _ {p : Platform} (doc : IsDocumented p) (reliable : ¬ Refused p) (m : Delivery)
    (seen : List Delivery) (db : Db) (proper : IsProper p m) (tallied : Tallied p seen db) where
  abbrev CountsIt : Unit {0} → Db → Type 0
  CountsIt = Counted doc reliable m seen db proper tallied

  consumed_when :
      (c : ConsumedEvent) (id : Text) (b : Bool)
      → is_found (if b then some c else lookup_by (λ r. r.event_id) id db.consumed)
        ≡ b || has_id id seen
  unfolding find_consumed
  consumed_when c id true = refl
  consumed_when c id false = tallied.1 id

  marked_found :
      (c : ConsumedEvent) (d : Db)
      → d.consumed ≡ db.consumed
      → (id : Text)
      → is_found (find_consumed id (effect p.stored p.uuid (save_consumed c) d))
        ≡ text_eq c.event_id id || has_id id seen
  unfolding find_consumed effect
  marked_found c d same id =
      ap is_found (lookup_by-upsert_by (λ r. r.event_id) id c d.consumed)
      ∙ (rw same (consumed_when c id (text_eq c.event_id id)))

  mark_processed-Tallied :
      (event_type : EventType) (d : Db)
      → CountsIt tt d
      → Ends (mark_processed p m.id event_type d) (λ _ d'. Tallied p (m ∷ seen) d') Never
  unfolding mark_processed run effect find_analytics
  mark_processed-Tallied event_type d (counts, same) =
      let c : ConsumedEvent = record { event_id = m.id; event_type = event_type } in
      elim (doc.executed (save_consumed c) d) [
        | inl e ↦ absurd (reliable (save_consumed c, d, tt, e))
        | inr e ↦ rw (e, run, lift) (counts, marked_found c d same)
      ]

  lookup-Ends :
      Ends (is_already_processed p m.id db) (λ o d. (o ≡ find_consumed m.id db) × (d ≡ db)) Never
  unfolding is_already_processed run effect
  lookup-Ends = elim (doc.executed (select Table.consumed false) db) [
    | inl e ↦ absurd (reliable (select Table.consumed false, db, tt, e))
    | inr e ↦ rw (e, run, lift) (refl, refl)
  ]

  unless_duplicate-Tallied :
      all_units seen + m.units < max_units
      → (o : Option ConsumedEvent) → is_found o ≡ has_id m.id seen
      → Ends
          (unless_duplicate p m.id m.pattern_type m.payload o db)
          (λ _ d. Tallied p (add_new m seen) d)
          Never
  unless_duplicate-Tallied small (some c) known = rw (sym known) tallied
  unless_duplicate-Tallied small none known = rw (sym known) (
      bind_action_rule (apply_event p m.pattern_type m.payload)
        (λ _. mark_processed p m.id m.pattern_type) db CountsIt (λ _ d. Tallied p (m ∷ seen) d)
        Never (apply_event-Counted doc reliable m seen db proper tallied small m.pattern_type refl)
        (λ _ d. mark_processed-Tallied m.pattern_type d))

  process-Tallied :
      all_units seen + m.units < max_units
      → Ends
          (process p m.id m.pattern_type m.payload db)
          (λ _ d. Tallied p (add_new m seen) d)
          Never
  unfolding process
  process-Tallied small =
      bind_action_rule (is_already_processed p m.id)
        (unless_duplicate p m.id m.pattern_type m.payload) db
        (λ o d. (o ≡ find_consumed m.id db) × (d ≡ db)) (λ _ d. Tallied p (add_new m seen) d) Never
        lookup-Ends
        (λ o d (found, same).
          subst
            (λ d.
              Ends (unless_duplicate p m.id m.pattern_type m.payload o d)
                (λ _ d. Tallied p (add_new m seen) d) Never)
            (sym same) (unless_duplicate-Tallied small o (ap is_found found ∙ tallied.1 m.id)))

  -- The delivery is acknowledged.
  receive-Tallied :
      all_units seen + m.units < max_units
      → (d : Db) × (receive p m.pattern_type m.payload db ≡ (ack, d)) × Tallied p (add_new m seen) d
  receive-Tallied small =
      let (d, done, h) =
        acknowledged (process p m.id m.pattern_type m.payload db) (process-Tallied small) in
      (d, receive-process p m db proper ∙ done, h)
    where
      acknowledged :
          (r : Result (Unit {0}) × Db)
          → Ends r (λ _ d. Tallied p (add_new m seen) d) Never
          → (d : Db) × (receipt_of r ≡ (ack, d)) × Tallied p (add_new m seen) d
      acknowledged (ok _, d) h = (d, refl, h)
      acknowledged (err _, d) h = elim h [ ]

-- A new database has no analytics and no consumed events.
start-Tallied :
    (p : Platform)
    → IsDocumented p
    → (db : Db) → db.analytics ≡ []
    → db.consumed ≡ []
    → Tallied p [] db
unfolding find_analytics find_consumed
start-Tallied p doc db a c =
    rw (a, c) (λ _. (doc.zero_text, doc.zero_text, refl, refl, refl), λ _. refl)

module _ {p : Platform} (doc : IsDocumented p) (reliable : ¬ Refused p) where
  receive_all-from :
      (ms seen : List Delivery) (db : Db)
      → All (IsProper p) ms
      → all_units seen + all_units ms < max_units
      → Tallied p seen db
      → (d : Db) × (receive_all p ms db ≡ (map (λ _. ack) ms, d)) × Tallied p (all_new ms seen) d
  unfolding receive_all
  receive_all-from [] seen db h small tallied = (db, refl, tallied)
  receive_all-from (m ∷ ms) seen db (proper, h) small tallied =
      let (d, done, now) = receive-Tallied doc reliable m seen db proper tallied (omega arith) in
      let (d', rest, then_) =
        receive_all-from ms (add_new m seen) d h (omega (arith, add_new_le m seen)) now in
      (d', rw (done, rest) refl, then_)

  -- In a database that refuses nothing acceptable and starts without analytics and consumed events,
  -- deliveries with an event id, a wallet and an amount, in any order and however often each event
  -- comes, are all acknowledged; and the analytics agree with the tallies of the events, each counted
  -- once, as it came first: the totals and the counts of each wallet, and its flag, which is set
  -- exactly if 5000 or more was withdrawn. The amounts together fit numeric(20,4).
  pub receive_all-Tallied :
      (ms : List Delivery) (db : Db)
      → All (IsProper p) ms
      → all_units ms < max_units
      → db.analytics ≡ []
      → db.consumed ≡ []
      → (d : Db) × (receive_all p ms db ≡ (map (λ _. ack) ms, d)) × Tallied p (all_new ms []) d
  receive_all-Tallied ms db h small a c =
      receive_all-from ms [] db h (omega arith) (start-Tallied p doc db a c)
