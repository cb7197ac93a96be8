-- ===== src/OutboxPublisher/Overlap.antt =====
-- Two cycles of the publisher (src/modules/wallet/outbox-publisher.service.ts) that overlap: the
-- second loads its batch after the first committed and before it published.
use api_wallet.Prelude.{
  ℕ, zero, suc, ◌+◌, Text, ◌≡◌, refl, sym, ◌∙◌, ap, inl, inr, Bool, true, false, ◌||◌, Bool-cases,
  List, [], ◌∷◌, map, take, All, arith, if◌then◌else◌,
}
use api_wallet.Entities.{OutboxMessage}
use api_wallet.Tables.{Db, Table, commit, select, rewrite_messages, save_messages, effect}
use api_wallet.Tables.Rows.{opt_text_eq, update_where}
use api_wallet.Platform.{Platform, IsDocumented}
use api_wallet.Wallet.{Error, Action, in_transaction}
use api_wallet.Wallet.Actions.{◌>>=◌, return}
use api_wallet.Wallet.Outcomes.{Ends, Ensures, Refused, run_rule, in_transaction_rule}
use api_wallet.Wallet.Requests.{bind_action_rule}
use api_wallet.OutboxPublisher.{
  Broker, created_by, insert_by_time, attempted, is_chosen, candidates, find_batch, load_batch,
  save_batch,
}
use api_wallet.OutboxPublisher.Messages.{IsChosen, find_batch-IsChosen}

abbrev matches : List OutboxMessage → OutboxMessage → Bool
matches [] r = false
matches (m ∷ ms) r = let rest = matches ms r in opt_text_eq r.id m.id || rest

abbrev attempt : OutboxMessage → OutboxMessage
attempt m = record m { attempts = m.attempts + 1 }

-- A row once the messages were counted as attempted.
abbrev counted : List OutboxMessage → OutboxMessage → OutboxMessage
counted ms r = if matches ms r then attempt r else r

abbrev onto : List OutboxMessage → List OutboxMessage → List OutboxMessage
onto [] done = done
onto (m ∷ ms) done = onto ms (m ∷ done)

-- The rows with the id of a message are that message.
abbrev pub IsAlone : List OutboxMessage → OutboxMessage → Type 0
IsAlone rows m =
    (opt_text_eq m.id m.id ≡ true) × All (λ r. opt_text_eq r.id m.id ≡ true → r ≡ m) rows

module _ (m : OutboxMessage) (done : List OutboxMessage) where
  counted_one :
      (r : OutboxMessage)
      → (opt_text_eq r.id m.id ≡ true → r ≡ m)
      → (if opt_text_eq (counted done r).id m.id then attempt m else counted done r)
        ≡ counted (m ∷ done) r
  counted_one r alone = go (matches done r) (opt_text_eq r.id m.id) refl
    where
      go :
          (seen same : Bool)
          → opt_text_eq r.id m.id ≡ same
          → (if opt_text_eq (if seen then attempt r else r).id m.id
              then attempt m
              else (if seen then attempt r else r))
            ≡ (if same || seen then attempt r else r)
      go true true e = rw e (ap attempt (sym (alone e)))
      go true false e = rw e refl
      go false true e = rw e (ap attempt (sym (alone e)))
      go false false e = rw e refl

  update_where-counted :
      (rows : List OutboxMessage)
      → All (λ r. opt_text_eq r.id m.id ≡ true → r ≡ m) rows
      → update_where (λ r. opt_text_eq r.id m.id) (λ _. attempt m) (map (counted done) rows)
        ≡ map (counted (m ∷ done)) rows
  unfolding update_where
  update_where-counted [] h = refl
  update_where-counted (r ∷ rows) (alone, h) = cc (counted_one r alone, update_where-counted rows h)

rewrite_messages-counted :
    (stored : Text → Text) (uuid : ℕ → Text) (rows ms done : List OutboxMessage)
    → All (IsAlone rows) ms
    → rewrite_messages stored uuid (attempted ms) (map (counted done) rows)
      ≡ map (counted (onto ms done)) rows
unfolding attempted
rewrite_messages-counted stored uuid rows [] done h = refl
rewrite_messages-counted stored uuid rows (m ∷ ms) done ((_, alone), h) =
    ap (rewrite_messages stored uuid (attempted ms)) (update_where-counted m done rows alone)
    ∙ rewrite_messages-counted stored uuid rows ms (m ∷ done) h

onto_keeps :
    (r : OutboxMessage) (ms done : List OutboxMessage)
    → matches done r ≡ true
    → matches (onto ms done) r ≡ true
onto_keeps r [] done h = h
onto_keeps r (m ∷ ms) done h = onto_keeps r ms (m ∷ done) (ground arith)

onto-matches :
    (rows ms done : List OutboxMessage)
    → All (IsAlone rows) ms
    → All (λ m. matches (onto ms done) m ≡ true) ms
onto-matches rows [] done h = tt
onto-matches rows (m ∷ ms) done ((own, _), h) =
    (onto_keeps m ms (m ∷ done) (ground arith), onto-matches rows ms (m ∷ done) h)

map-counted :
    (done ms : List OutboxMessage)
    → All (λ m. matches done m ≡ true) ms
    → map (counted done) ms ≡ attempted ms
unfolding attempted
map-counted done [] h = refl
map-counted done (m ∷ ms) (e, h) = rw (e, map-counted done ms h) refl

map-nothing : (ms : List OutboxMessage) → map (counted []) ms ≡ ms
map-nothing [] = refl
map-nothing (m ∷ ms) = ap (λ l. m ∷ l) (map-nothing ms)

take-map :
    (f : OutboxMessage → OutboxMessage) (n : ℕ) (ms : List OutboxMessage)
    → take n (map f ms) ≡ map f (take n ms)
take-map f zero ms = refl
take-map f (suc n) [] = refl
take-map f (suc n) (m ∷ ms) = rw (take-map f n ms) refl

module _ (p : Platform) (broker : Broker)
    (unlocked : (db : Db) (m : OutboxMessage) → broker.is_locked db m ≡ false)
    (done : List OutboxMessage) where
  counted-created_by :
      (m n : OutboxMessage) → created_by (counted done m) (counted done n) ≡ created_by m n
  counted-created_by m n = go (matches done m) (matches done n)
    where
      go :
          (b c : Bool)
          → created_by (if b then attempt m else m) (if c then attempt n else n) ≡ created_by m n
      go true true = refl
      go true false = refl
      go false true = refl
      go false false = refl

  insert_by_time-counted :
      (m : OutboxMessage) (ms : List OutboxMessage)
      → insert_by_time (counted done m) (map (counted done) ms)
        ≡ map (counted done) (insert_by_time m ms)
  unfolding insert_by_time
  insert_by_time-counted m [] = refl
  insert_by_time-counted m (n ∷ ms) = elim (Bool-cases (created_by m n)) [
    | inl e ↦ rw (counted-created_by m n, e) refl
    | inr e ↦
        rw (counted-created_by m n, e) (ap (λ l. counted done n ∷ l) (insert_by_time-counted m ms))
  ]

  is_chosen-counted :
      (db d : Db) (m : OutboxMessage)
      → d.clock ≡ db.clock
      → is_chosen p broker d (counted done m) ≡ is_chosen p broker db m
  is_chosen-counted db d m clock = go (matches done m)
    where
      go : (b : Bool) → is_chosen p broker d (if b then attempt m else m) ≡ is_chosen p broker db m
      go true = rw (unlocked d (attempt m), unlocked db m, clock) refl
      go false = rw (unlocked d m, unlocked db m, clock) refl

  candidates-counted :
      (db d : Db) (ms : List OutboxMessage)
      → d.clock ≡ db.clock
      → candidates p broker d (map (counted done) ms)
        ≡ map (counted done) (candidates p broker db ms)
  unfolding candidates
  candidates-counted db d [] clock = refl
  candidates-counted db d (m ∷ ms) clock = elim (Bool-cases (is_chosen p broker db m)) [
    | inl e ↦
        rw (is_chosen-counted db d m clock, e)
          (ap (insert_by_time (counted done m)) (candidates-counted db d ms clock)
            ∙ insert_by_time-counted m (candidates p broker db ms))
    | inr e ↦ rw (is_chosen-counted db d m clock, e) (candidates-counted db d ms clock)
  ]

  find_batch-counted :
      (n : ℕ) (db d : Db)
      → d.clock ≡ db.clock
      → d.outbox ≡ map (counted done) db.outbox
      → find_batch p broker n d ≡ map (counted done) (find_batch p broker n db)
  unfolding find_batch
  find_batch-counted n db d clock outbox =
      ap (λ rows. take n (candidates p broker d rows)) outbox
      ∙ (ap (take n) (candidates-counted db d db.outbox clock)
          ∙ take-map (counted done) n (candidates p broker db db.outbox))

-- Two cycles load their batches before either publishes.
unfoldable pub load_together :
    (p : Platform) → Broker → ℕ → Action (List OutboxMessage × List OutboxMessage)
unfolding load_batch
load_together p broker n = do
  first ← in_transaction p (load_batch p broker n) (λ _. return [])
  second ← in_transaction p (load_batch p broker n) (λ _. return [])
  return (first, second)

abbrev Never : Error → Db → Type 0
Never _ _ = ⊥

module _ {p : Platform} (doc : IsDocumented p) (reliable : ¬ Refused p) (broker : Broker)
    (unlocked : (db : Db) (m : OutboxMessage) → broker.is_locked db m ≡ false) (n : ℕ) where
  -- What the transaction leaves.
  abbrev Loaded : Db → List OutboxMessage → Db → Type 0
  Loaded db out d =
      (out ≡ attempted (find_batch p broker n db))
      × (d.clock ≡ db.clock)
      × (d.outbox ≡ rewrite_messages p.stored p.uuid out db.outbox)

  save_batch-Loaded :
      (ms : List OutboxMessage) (db : Db)
      → find_batch p broker n db ≡ ms
      → Ensures (λ _. Refused p) (save_batch p broker ms db) (Loaded db)
  unfolding save_batch attempted effect
  save_batch-Loaded [] db e =
      run_rule doc (λ _. Refused p) (λ r. r) commit _ db _ tt (ap attempted (sym e), refl, refl)
  save_batch-Loaded (m ∷ ms) db e =
      run_rule doc (λ _. Refused p) (λ r. r) (save_messages (attempted (m ∷ ms))) _ db _ tt
        (run_rule doc (λ _. Refused p) (λ r. r) commit _ _ _ tt (ap attempted (sym e), refl, refl))

  loads :
      (db : Db)
      → Ends (in_transaction p (load_batch p broker n) (λ _. return []) db) (Loaded db) Never
  unfolding load_batch effect
  loads db =
      in_transaction_rule doc (λ _. Refused p) (λ r. r) (load_batch p broker n) (λ _. return []) db
        (Loaded db) Never
        (run_rule doc (λ _. Refused p) (λ r. r) (select Table.outbox true) _ db _ tt
          (save_batch-Loaded (find_batch p broker n db) db refl))
        reliable (λ _ _ refused. absurd (reliable refused))

  batch-IsAlone :
      (db : Db)
      → All (IsAlone db.outbox) db.outbox
      → All (IsAlone db.outbox) (find_batch p broker n db)
  batch-IsAlone db alone =
      keep_second (find_batch p broker n db)
        (find_batch-IsChosen p broker (IsAlone db.outbox) n db alone).2
    where
      keep_second :
          (ms : List OutboxMessage)
          → All (λ m. IsChosen db m × IsAlone db.outbox m) ms
          → All (IsAlone db.outbox) ms
      keep_second [] h = tt
      keep_second (m ∷ ms) h = (h.0.1, keep_second ms h.1)

  -- The batch is due again when the first cycle has loaded it.
  batch_again :
      (db d : Db) (first : List OutboxMessage)
      → All (IsAlone db.outbox) db.outbox
      → Loaded db first d
      → find_batch p broker n d ≡ first
  batch_again db d first alone (out, clock, outbox) =
      let batch = find_batch p broker n db in
      let each = batch-IsAlone db alone in
      let rows : d.outbox ≡ map (counted (onto batch [])) db.outbox =
        outbox
        ∙ (ap (λ ms. rewrite_messages p.stored p.uuid ms db.outbox) out
            ∙ (ap (rewrite_messages p.stored p.uuid (attempted batch)) (sym (map-nothing db.outbox))
                ∙ rewrite_messages-counted p.stored p.uuid db.outbox batch [] each)) in
      find_batch-counted p broker unlocked (onto batch []) n db d clock rows
      ∙ (map-counted (onto batch []) batch (onto-matches db.outbox batch [] each) ∙ sym out)

  -- If no row stays locked, the messages of the outbox have ids, each its own, and the database
  -- refuses nothing acceptable, then two cycles that load before either publishes both load the whole
  -- batch: the first with one attempt more, the second with two.
  pub load_together-twice :
      (db : Db)
      → All (IsAlone db.outbox) db.outbox
      → Ends
          (load_together p broker n db)
          (λ (first, second) _.
            (first ≡ attempted (find_batch p broker n db)) × (second ≡ attempted first))
          Never
  unfolding load_together
  load_together-twice db alone =
      bind_action_rule load (λ first. load >>= λ second. return (first, second)) db (Loaded db) Both
        Never (loads db)
        (λ first d loaded.
          bind_action_rule load (λ second. return (first, second)) d (Loaded d) Both Never (loads d)
            (λ second _ again.
              (loaded.0, again.0 ∙ ap attempted (batch_again db d first alone loaded))))
    where
      load : Action (List OutboxMessage)
      load = in_transaction p (load_batch p broker n) (λ _. return [])

      Both : List OutboxMessage × List OutboxMessage → Db → Type 0
      Both (first, second) _ =
          (first ≡ attempted (find_batch p broker n db)) × (second ≡ attempted first)
