-- ===== src/OutboxPublisher/Progress.antt =====
-- A cycle of the publisher (src/modules/wallet/outbox-publisher.service.ts) with a broker that takes
-- every message and a database that refuses nothing.
use api_wallet.Prelude.{
  ◌≢◌, ◌&&◌, not, leb, length, take, ◌≤◌, zero, suc, arith, Bool, if◌then◌else◌, ℕ, Text,
  text_eq→eq, ◌≡◌, refl, sym, ◌∙◌, ap, subst, ◌⊎◌, inl, inr, true, false, Bool-cases, Option, none,
  some, List, [], ◌∷◌, map, All,
}
use api_wallet.Entities.{
  EventType, Payload, OutboxMessage, OutboxStatus, pending, published, failed,
}
use api_wallet.Tables.{
  Db, OutboxPatch, commit, select, Table, patched, rewrite_messages, save_messages, effect,
}
use api_wallet.Tables.Rows.{opt_text_eq, update_where, map-update_where}
use api_wallet.Platform.{Platform, IsDocumented}
use api_wallet.Wallet.{Result, ok, err, Error, in_transaction}
use api_wallet.Wallet.Actions.{return}
use api_wallet.Wallet.Outcomes.{Ends, Ensures, Refused, run_rule, in_transaction_rule}
use api_wallet.Wallet.Requests.{bind_action_rule, Ends_mono}
use api_wallet.OutboxPublisher.{
  Broker, is_pending, is_due, created_by, insert_by_time, is_chosen, candidates, attempted,
  find_batch, load_batch, save_batch, publish_batch, caught, publish_message, publish_all,
  publish_pending,
}
use api_wallet.OutboxPublisher.Frame.{publish_pending-Keeps}
use api_wallet.OutboxPublisher.Messages.{Settles, publish_message-Settles}

-- A message that waits to be sent: pending, its next attempt not in the future, and not locked.
abbrev is_ready : Bool → ℕ → OutboxStatus → Option ℕ → Bool
is_ready locked now pending none = not locked
is_ready locked now pending (some t) = leb t now && not locked
is_ready locked now published next = false
is_ready locked now failed next = false

abbrev pub is_waiting : Broker → Db → OutboxMessage → Bool
is_waiting broker db m = is_ready (broker.is_locked db m) db.clock m.status m.next_attempt_at

abbrev pub count_waiting : Broker → Db → List OutboxMessage → ℕ
count_waiting broker db [] = 0
count_waiting broker db (m ∷ ms) =
    let rest = count_waiting broker db ms in if is_waiting broker db m then suc rest else rest

-- The status that the answer of the broker, an error or none, calls for.
abbrev pub IsDue : Option Text → OutboxStatus → Type 0
IsDue none status = status ≡ published
IsDue (some _) status = status ≢ published

-- The rows of the message have the status that the broker's answer calls for.
abbrev pub IsSent : Option Text → OutboxMessage → List OutboxMessage → Type 0
IsSent answer m = All (λ r. IsDue answer r.status ⊎ (opt_text_eq r.id m.id ≡ false))

module _ (stored : Text → Text) (uuid : ℕ → Text) (patch : OutboxPatch) (answer : Option Text)
    (sends : IsDue answer patch.status) where
  -- What is sent stays so when another message is published.
  patch-IsSent :
      (m n : OutboxMessage) (rows : List OutboxMessage)
      → IsSent answer n rows
      → IsSent answer n (update_where (λ r. opt_text_eq r.id m.id) (patched stored uuid patch) rows)
  unfolding update_where
  patch-IsSent m n [] h = tt
  patch-IsSent m n (r ∷ rows) h = elim (Bool-cases (opt_text_eq r.id m.id)) [
    | inl e ↦ rw e (inl sends, patch-IsSent m n rows h.1)
    | inr e ↦ rw e (h.0, patch-IsSent m n rows h.1)
  ]

  sent_if :
      (m r : OutboxMessage) (matches : Bool)
      → opt_text_eq r.id m.id ≡ matches
      → IsDue answer (if matches then patched stored uuid patch r else r).status
        ⊎ (opt_text_eq (if matches then patched stored uuid patch r else r).id m.id ≡ false)
  sent_if m r true e = inl sends
  sent_if m r false e = inr e

  own-IsSent :
      (m : OutboxMessage) (rows : List OutboxMessage)
      → IsSent answer m (update_where (λ r. opt_text_eq r.id m.id) (patched stored uuid patch) rows)
  unfolding update_where
  own-IsSent m [] = tt
  own-IsSent m (r ∷ rows) = (sent_if m r (opt_text_eq r.id m.id) refl, own-IsSent m rows)

  others-IsSent :
      (m : OutboxMessage) (ms rows : List OutboxMessage)
      → All (λ n. IsSent answer n rows) ms
      → All
          (λ n.
            IsSent answer n
              (update_where (λ r. opt_text_eq r.id m.id) (patched stored uuid patch) rows))
          ms
  others-IsSent m [] rows h = tt
  others-IsSent m (n ∷ ms) rows h = (patch-IsSent m n rows h.0, others-IsSent m ms rows h.1)

same_key : (a b : Option Text) → opt_text_eq a b ≡ true → b ≡ a
same_key none b h = cc
same_key (some a) none h = cc
same_key (some a) (some b) h = ap some (sym (text_eq→eq a b h))

no_condition : (rows : List OutboxMessage) → All (λ _. Unit {0}) rows
no_condition [] = tt
no_condition (r ∷ rows) = (tt, no_condition rows)

rewrite_messages-ids :
    (stored : Text → Text) (uuid : ℕ → Text) (ms rows : List OutboxMessage)
    → map (λ r. r.id) (rewrite_messages stored uuid ms rows) ≡ map (λ r. r.id) rows
rewrite_messages-ids stored uuid [] rows = refl
rewrite_messages-ids stored uuid (m ∷ ms) rows =
    rewrite_messages-ids stored uuid ms _
    ∙ map-update_where (λ r. r.id) (λ _. Unit {0}) (λ r. opt_text_eq r.id m.id) (λ _. m) rows
        (λ r _ e. same_key r.id m.id e) (no_condition rows)

-- A cycle, however it ends, leaves the messages of the outbox with their ids, in their order: none
-- is lost and none is added.
pub publish_pending-ids :
    {p : Platform} (doc : IsDocumented p) (broker : Broker) (n : ℕ) (db : Db)
    → map (λ r. r.id) (publish_pending p broker n db).1.outbox ≡ map (λ r. r.id) db.outbox
unfolding effect
publish_pending-ids {p} doc broker n db =
    publish_pending-Keeps doc broker (λ d. map (λ r. r.id) d.outbox ≡ map (λ r. r.id) db.outbox)
      (λ m patch d s h.
        map-update_where (λ r. r.id) (λ _. Unit {0}) _ (patched p.stored p.uuid patch) d.outbox
          (λ _ _ _. refl) (no_condition d.outbox)
        ∙ h)
      (λ k d h.
        rewrite_messages-ids p.stored p.uuid (attempted (find_batch p broker k d)) d.outbox ∙ h)
      n db refl

module _ {p : Platform} (doc : IsDocumented p) (broker : Broker) (answer : Option Text)
    (answers : (db : Db) (event_type : EventType) (payload : Payload)
      → broker.emit db event_type payload ≡ answer)
    (reliable : ¬ Refused p) where
  abbrev Sent : List OutboxMessage → Db → Type 0
  Sent ms db = All (λ m. IsSent answer m db.outbox) ms

  abbrev Never : Error → Db → Type 0
  Never _ _ = ⊥

  settled_IsDue :
      (m : OutboxMessage) (patch : OutboxPatch) (db : Db) (given : Option Text)
      → broker.emit db m.event_type m.payload ≡ given
      → Settles p broker db m patch
      → IsDue given patch.status
  settled_IsDue m patch db none e (inl (sends, _, _, _)) = sends
  settled_IsDue m patch db none e (inr (inl declined, _, _, _)) = absurd (declined e)
  settled_IsDue m patch db none e (inr (inr refused, _, _, _)) = absurd (reliable refused)
  settled_IsDue m patch db (some x) e (inl (_, emitted, _, _)) = cc
  settled_IsDue m patch db (some x) e (inr (_, inl (fails, _), _, _)) = λ s. cc
  settled_IsDue m patch db (some x) e (inr (_, inr (stays, _), _, _)) = λ s. cc

  publish_message-Sent :
      (m : OutboxMessage) (ms : List OutboxMessage) (db : Db)
      → Sent ms db
      → Ends (publish_message p broker m db) (λ _ d. Sent (m ∷ ms) d) Never
  unfolding effect
  publish_message-Sent m ms db h =
      Ends_mono (publish_message p broker m db) _ _ _ Never
        (publish_message-Settles doc broker m db)
        (λ _ d (patch, e, s).
          let sends = settled_IsDue m patch db answer (answers db m.event_type m.payload) s in
          subst (Sent (m ∷ ms)) (sym e) (
            own-IsSent p.stored p.uuid patch answer sends m db.outbox,
            others-IsSent p.stored p.uuid patch answer sends m ms db.outbox h,
          ))
        (λ _ d (_, _, refused). reliable refused)

  publish_all-Sent :
      (ms done : List OutboxMessage) (db : Db)
      → Sent done db
      → Ends (publish_all p broker ms db) (λ _ d. Sent ms d × Sent done d) Never
  unfolding publish_all
  publish_all-Sent [] done db h = (tt, h)
  publish_all-Sent (m ∷ ms) done db h =
      bind_action_rule (publish_message p broker m) (λ _. publish_all p broker ms) db
        (λ _ d. Sent (m ∷ done) d) (λ _ d. Sent (m ∷ ms) d × Sent done d) Never
        (publish_message-Sent m done db h)
        (λ _ d k.
          Ends_mono (publish_all p broker ms d) _ _ Never Never (publish_all-Sent ms (m ∷ done) d k)
            (λ _ d' (rest, (first, old)). ((first, rest), old)) (λ _ _ n. n))

  publish_batch-Sent :
      (ms : List OutboxMessage) (db : Db)
      → Ends (publish_batch p broker ms db) (λ _ d. Sent ms d) Never
  unfolding publish_batch
  publish_batch-Sent ms db = go (publish_all p broker ms db) (publish_all-Sent ms [] db tt)
    where
      go :
          (r : Result (Unit {0}) × Db)
          → Ends r (λ _ d. Sent ms d × Sent [] d) Never
          → Ends (caught p broker r) (λ _ d. Sent ms d) Never
      go (ok _, d) k = k.0
      go (err _, d) k = absurd k

  save_batch-Gives :
      (ms : List OutboxMessage) (db : Db)
      → Ensures (λ _. Refused p) (save_batch p broker ms db) (λ out _. out ≡ attempted ms)
  unfolding save_batch attempted effect
  save_batch-Gives [] db = run_rule doc (λ _. Refused p) (λ r. r) commit _ db _ tt refl
  save_batch-Gives (m ∷ ms) db =
      run_rule doc (λ _. Refused p) (λ r. r) (save_messages (attempted (m ∷ ms))) _ db _ tt
        (run_rule doc (λ _. Refused p) (λ r. r) commit _ _ _ tt refl)

  load_batch-Gives :
      (n : ℕ) (db : Db)
      → Ensures
          (λ _. Refused p)
          (load_batch p broker n db)
          (λ out _. out ≡ attempted (find_batch p broker n db))
  unfolding load_batch effect
  load_batch-Gives n db =
      run_rule doc (λ _. Refused p) (λ r. r) (select Table.outbox true) _ db _ tt
        (save_batch-Gives (find_batch p broker n db) db)

  attempted-Sent : (ms : List OutboxMessage) (db : Db) → Sent (attempted ms) db → Sent ms db
  unfolding attempted
  attempted-Sent [] db h = tt
  attempted-Sent (m ∷ ms) db h = (h.0, attempted-Sent ms db h.1)

  batch-Sent :
      (n : ℕ) (db : Db)
      → Ends (publish_pending p broker n db) (λ _ d. Sent (find_batch p broker n db) d) Never
  unfolding publish_pending
  batch-Sent n db =
      bind_action_rule (in_transaction p (load_batch p broker n) (λ _. return []))
        (publish_batch p broker) db (λ out _. out ≡ attempted (find_batch p broker n db)) _ Never
        (in_transaction_rule doc (λ _. Refused p) (λ r. r) (load_batch p broker n) (λ _. return [])
          db _ Never (load_batch-Gives n db) reliable (λ _ _ refused. absurd (reliable refused)))
        (λ ms d e.
          Ends_mono (publish_batch p broker ms d) _ _ Never Never (publish_batch-Sent ms d)
            (λ _ d' h. attempted-Sent (find_batch p broker n db) d' (subst (λ l. Sent l d') e h))
            (λ _ _ k. k))

  is_chosen-waiting :
      (db : Db) (m : OutboxMessage) → is_chosen p broker db m ≡ is_waiting broker db m
  is_chosen-waiting db m = go m.status m.next_attempt_at
    where
      go :
          (status : OutboxStatus) (next : Option ℕ)
          → is_pending status && (is_due db.clock next && not (broker.is_locked db m))
            ≡ is_ready (broker.is_locked db m) db.clock status next
      go pending none = refl
      go pending (some t) = refl
      go published next = refl
      go failed next = refl

  insert_by_time-both :
      (Q : OutboxMessage → Type 0) (m : OutboxMessage) (ms : List OutboxMessage)
      → All Q (insert_by_time m ms)
      → Q m × All Q ms
  unfolding insert_by_time
  insert_by_time-both Q m [] h = h
  insert_by_time-both Q m (n ∷ ms) h = elim (Bool-cases (created_by m n)) [
    | inl e ↦ subst (λ b. All Q (if b then m ∷ n ∷ ms else n ∷ insert_by_time m ms)) e h
    | inr e ↦
        let (first, rest) =
          subst (λ b. All Q (if b then m ∷ n ∷ ms else n ∷ insert_by_time m ms)) e h in
        let (own, others) = insert_by_time-both Q m ms rest in (own, (first, others))
  ]

  -- What holds of the candidates holds of every message that the query asks for.
  candidates_complete :
      (Q : OutboxMessage → Type 0) (db : Db) (ms : List OutboxMessage)
      → All Q (candidates p broker db ms)
      → All (λ m. is_waiting broker db m ≡ true → Q m) ms
  unfolding candidates
  candidates_complete Q db [] h = tt
  candidates_complete Q db (m ∷ ms) h = elim (Bool-cases (is_chosen p broker db m)) [
    | inl e ↦
        let (own, rest) = insert_by_time-both Q m (candidates p broker db ms) (picked true e h) in
        ((λ _. own), candidates_complete Q db ms rest)
    | inr e ↦ ((λ c. cc (is_chosen-waiting db m)), candidates_complete Q db ms (picked false e h))
  ]
    where
      picked :
          (b : Bool)
          → is_chosen p broker db m ≡ b
          → All Q (candidates p broker db (m ∷ ms))
          → All Q (
              if b then insert_by_time m (candidates p broker db ms) else candidates p broker db ms)
      picked b e k =
          subst
            (λ b. All Q (
              if b
              then insert_by_time m (candidates p broker db ms)
              else candidates p broker db ms))
            e k

  length-insert_by_time :
      (m : OutboxMessage) (ms : List OutboxMessage) → length (insert_by_time m ms) ≡ suc (length ms)
  unfolding insert_by_time
  length-insert_by_time m [] = refl
  length-insert_by_time m (n ∷ ms) = elim (Bool-cases (created_by m n)) [
    | inl e ↦ rw e refl
    | inr e ↦ rw (e, length-insert_by_time m ms) refl
  ]

  length-candidates :
      (db : Db) (ms : List OutboxMessage)
      → length (candidates p broker db ms) ≡ count_waiting broker db ms
  unfolding candidates
  length-candidates db [] = refl
  length-candidates db (m ∷ ms) = elim (Bool-cases (is_waiting broker db m)) [
    | inl e ↦
        rw (is_chosen-waiting db m, e)
          (length-insert_by_time m (candidates p broker db ms) ∙ ap suc (length-candidates db ms))
    | inr e ↦ rw (is_chosen-waiting db m, e) (length-candidates db ms)
  ]

  take_all : (k : ℕ) (ms : List OutboxMessage) → length ms ≤ k → take k ms ≡ ms
  take_all zero [] h = refl
  take_all zero (m ∷ ms) h = absurd (omega (arith, h))
  take_all (suc k) [] h = refl
  take_all (suc k) (m ∷ ms) h = rw (take_all k ms (omega (arith, h))) refl

  -- If the database refuses no acceptable statement, and the broker answers every message alike, a
  -- cycle whose batch has room for every message that is pending, due and not locked ends without an
  -- error. Then each of these is published if the broker takes them, and if it refuses them, none is.
  pub publish_pending-Sent :
      (n : ℕ) (db : Db)
      → count_waiting broker db db.outbox ≤ n
      → Ends
          (publish_pending p broker n db)
          (λ _ d. All (λ m. is_waiting broker db m ≡ true → IsSent answer m d.outbox) db.outbox)
          (λ _ _. ⊥)
  unfolding find_batch
  publish_pending-Sent n db room =
      let whole : find_batch p broker n db ≡ candidates p broker db db.outbox =
        take_all n (candidates p broker db db.outbox)
          (omega (arith, length-candidates db db.outbox, room)) in
      Ends_mono (publish_pending p broker n db) _ _ _ Never (batch-Sent n db)
        (λ _ d sent.
          candidates_complete (λ m. IsSent answer m d.outbox) db db.outbox
            (subst (λ ms. Sent ms d) whole sent))
        (λ _ _ k. k)
