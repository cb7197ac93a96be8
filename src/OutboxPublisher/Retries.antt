-- ===== src/OutboxPublisher/Retries.antt =====
-- A message that the broker keeps refusing (src/modules/wallet/outbox-publisher.service.ts): cycles of
-- the publisher, each of them late enough for the next attempt.
use api_wallet.Prelude.{
  ℕ, zero, suc, ◌+◌, ◌≤◌, ◌<◌, Text, text_eq_refl, ◌≡◌, ◌≢◌, refl, sym, ◌∙◌, ap, subst, ◌⊎◌, inl,
  inr, true, false, none, some, [], ◌∷◌, take, arith,
}
use api_wallet.Entities.{EventType, Payload, OutboxMessage, pending, failed}
use api_wallet.Tables.{Db, commit, select, Table, patched, save_messages, effect}
use api_wallet.Tables.Rows.{opt_text_eq, update_where}
use api_wallet.Platform.{Platform, IsDocumented}
use api_wallet.Wallet.{Result, ok, err, Error, in_transaction}
use api_wallet.Wallet.Actions.{return}
use api_wallet.Wallet.Outcomes.{Ends, Ensures, Refused, run_rule, in_transaction_rule}
use api_wallet.Wallet.Requests.{bind_action_rule, Ends_mono}
use api_wallet.OutboxPublisher.{
  Broker, attempted, is_due, find_batch, candidates, insert_by_time, load_batch, save_batch,
  publish_batch, caught, publish_message, publish_all, publish_pending,
}
use api_wallet.OutboxPublisher.Messages.{publish_message-Settles}

take-nil : (n : ℕ) → take {A = OutboxMessage} n [] ≡ []
take-nil zero = refl
take-nil (suc n) = refl

-- The outbox with this message alone.
abbrev pub alone : OutboxMessage → Db → Db
alone m db = record db { outbox = m ∷ [] }

abbrev counted : OutboxMessage → OutboxMessage
counted m = record m { attempts = m.attempts + 1 }

-- The row after one more attempt that was refused.
abbrev Retried : OutboxMessage → ℕ → OutboxMessage → Type 0
Retried m now m' =
    (m'.id ≡ m.id)
    × (m'.attempts ≡ m.attempts + 1)
    × (((m'.status ≡ failed) × (10 ≤ m.attempts + 1))
        ⊎ ((m'.status ≡ pending) × (m.attempts + 1 < 10)))
    × ((delay : ℕ) × (delay ≤ 30000) × (m'.next_attempt_at ≡ some (now + delay)))

module _ (p : Platform) (broker : Broker) (n : ℕ) where
  -- One cycle, and half a minute.
  abbrev pub cycle : Db → Db
  cycle db = let d = (publish_pending p broker (suc n) db).1 in record d { clock = d.clock + 30000 }

  abbrev pub cycles : ℕ → Db → Db
  cycles zero db = db
  cycles (suc k) db = cycles k (cycle db)

module _ {p : Platform} (doc : IsDocumented p) (broker : Broker)
    (declines : (db : Db) (event_type : EventType) (payload : Payload)
      → broker.emit db event_type payload ≢ none)
    (unlocked : (db : Db) (m : OutboxMessage) → broker.is_locked db m ≡ false)
    (reliable : ¬ Refused p) (n : ℕ) where
  abbrev Never : Error → Db → Type 0
  Never _ _ = ⊥

  module _ (m : OutboxMessage) (key : Text) (db : Db) (id : m.id ≡ some key)
      (waits : m.status ≡ pending) (due : is_due db.clock m.next_attempt_at ≡ true) where
    find_batch-alone : find_batch p broker (suc n) (alone m db) ≡ m ∷ []
    unfolding find_batch candidates insert_by_time
    find_batch-alone = rw (unlocked (alone m db) m, waits, due, take-nil n) refl

    same_id : opt_text_eq m.id m.id ≡ true
    same_id = rw id (text_eq_refl key)

    save_batch-alone :
        Ensures
          (λ _. Refused p)
          (save_batch p broker (m ∷ []) (alone m db))
          (λ out d. (out ≡ counted m ∷ []) × (d ≡ alone (counted m) db))
    unfolding save_batch attempted effect update_where
    save_batch-alone =
        run_rule doc (λ _. Refused p) (λ r. r) (save_messages (counted m ∷ [])) _ (alone m db) _ tt
          (run_rule doc (λ _. Refused p) (λ r. r) commit _ _ _ tt (refl, rw same_id refl))

    load_batch-alone :
        Ensures
          (λ _. Refused p)
          (load_batch p broker (suc n) (alone m db))
          (λ out d. (out ≡ counted m ∷ []) × (d ≡ alone (counted m) db))
    unfolding load_batch effect
    load_batch-alone =
        run_rule doc (λ _. Refused p) (λ r. r) (select Table.outbox true) _ (alone m db) _ tt
          (subst
            (λ ms.
              Ensures (λ _. Refused p) (save_batch p broker ms (alone m db))
                (λ out d. (out ≡ counted m ∷ []) × (d ≡ alone (counted m) db)))
            (sym find_batch-alone) save_batch-alone)

    abbrev After : Db → Type 0
    After d = (m' : OutboxMessage) × (d ≡ alone m' db) × Retried m db.clock m'

    publish_message-alone :
        Ends (publish_message p broker (counted m) (alone (counted m) db)) (λ _ d. After d) Never
    unfolding effect update_where
    publish_message-alone =
        Ends_mono (publish_message p broker (counted m) (alone (counted m) db)) _ _ _ Never
          (publish_message-Settles doc broker (counted m) (alone (counted m) db))
          (λ _ d (patch, e, s). elim s [
            | inl (sends, emitted, at, none_wrong) ↦ absurd (declines _ _ _ emitted)
            | inr (why, state, error, (delay, low, high, next)) ↦ (
              patched p.stored p.uuid patch (counted m),
              e ∙ (rw same_id refl),
              (refl, refl, state, (delay, high, next)),
            )
          ])
          (λ _ d (_, _, refused). reliable refused)

    publish_batch-alone :
        Ends (publish_batch p broker (counted m ∷ []) (alone (counted m) db)) (λ _ d. After d) Never
    unfolding publish_batch publish_all
    publish_batch-alone =
        go (publish_message p broker (counted m) (alone (counted m) db)) publish_message-alone
      where
        go :
            (r : Result (Unit {0}) × Db)
            → Ends r (λ _ d. After d) Never
            → Ends
                (caught p broker (
                  let (x, d) = r in
                  elim x as (λ _. Result (Unit {0}) × Db) [
                    | ok a ↦ (ok tt, d)
                    | err e ↦ (err e, d)
                  ]))
                (λ _ d. After d)
                Never
        go (ok _, d) k = k
        go (err _, d) k = absurd k

    publish_pending-alone :
        Ends (publish_pending p broker (suc n) (alone m db)) (λ _ d. After d) Never
    unfolding publish_pending
    publish_pending-alone =
        bind_action_rule (in_transaction p (load_batch p broker (suc n)) (λ _. return []))
          (publish_batch p broker) (alone m db)
          (λ out d. (out ≡ counted m ∷ []) × (d ≡ alone (counted m) db)) _ Never
          (in_transaction_rule doc (λ _. Refused p) (λ r. r) (load_batch p broker (suc n))
            (λ _. return []) (alone m db) _ Never load_batch-alone reliable
            (λ _ _ refused. absurd (reliable refused)))
          (λ ms d (e, e').
            subst (λ d. Ends (publish_batch p broker ms d) (λ _ d. After d) Never) (sym e')
              (subst
                (λ ms.
                  Ends (publish_batch p broker ms (alone (counted m) db)) (λ _ d. After d) Never)
                (sym e) publish_batch-alone))

    cycle-alone :
        (m' : OutboxMessage) × (cycle p broker n (alone m db)
          ≡ alone m' (record db { clock = db.clock + 30000 }))
        × Retried m db.clock m'
    cycle-alone = go (publish_pending p broker (suc n) (alone m db)) publish_pending-alone
      where
        go :
            (r : Result (Unit {0}) × Db)
            → Ends r (λ _ d. After d) Never
            → (m' : OutboxMessage) × (record r.1 { clock = r.1.clock + 30000 }
                ≡ alone m' (record db { clock = db.clock + 30000 }))
              × Retried m db.clock m'
        go (ok _, d) (m', e, k) =
            let later : Db → Db = λ d. record d { clock = d.clock + 30000 } in (m', ap later e, k)
        go (err _, d) k = absurd k

  -- A message that is pending after fewer than ten attempts, alone in the outbox, due and never taken
  -- by the broker, in a database that refuses nothing acceptable and locks no row: after as many
  -- cycles as are left of ten attempts, half a minute apart, it is failed, with ten attempts.
  pub cycles-fail :
      (left : ℕ) (m : OutboxMessage) (key : Text) (db : Db)
      → m.id ≡ some key
      → m.status ≡ pending
      → is_due db.clock m.next_attempt_at ≡ true
      → m.attempts + suc left ≡ 10
      → (m' : OutboxMessage) × ((cycles p broker n (suc left) (alone m db)).outbox ≡ m' ∷ [])
        × (m'.id ≡ some key)
        × (m'.status ≡ failed)
        × (m'.attempts ≡ 10)
  cycles-fail zero m key db id waits due e =
      let (m', moved, (same, counts, state, next)) = cycle-alone m key db id waits due in
      elim state [
        | inl (fails, late) ↦ (m', ap (λ d. d.outbox) moved, same ∙ id, fails, counts ∙ e)
        | inr (waits', soon) ↦ absurd (omega arith)
      ]
  cycles-fail (suc left) m key db id waits due e =
      let (m', moved, (same, counts, state, (delay, le, next))) =
        cycle-alone m key db id waits due in
      elim state [
        | inl (fails, late) ↦ absurd (omega arith)
        | inr (waits', soon) ↦
            let later : Db = record db { clock = db.clock + 30000 } in
            let due' : is_due later.clock m'.next_attempt_at ≡ true = rw next (ground arith) in
            let (m'', stands, key', fails, ten) =
              cycles-fail left m' key later (same ∙ id) waits' due' (omega (arith, counts, e)) in
            (
              m'',
              ap (λ d. (cycles p broker n (suc left) d).outbox) moved ∙ stands,
              key',
              fails,
              ten,
            )
      ]
