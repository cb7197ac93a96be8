-- ===== src/OutboxPublisher/Frame.antt =====
-- What the statements of the publisher (src/modules/wallet/outbox-publisher.service.ts) keep, a cycle
-- keeps, however it ends.
use api_wallet.Prelude.{ℕ, sym, subst, true, List, [], ◌∷◌}
use api_wallet.Entities.{OutboxMessage}
use api_wallet.Tables.{
  Db, OutboxPatch, select, Table, commit, save_messages, update_message, effect,
}
use api_wallet.Platform.{Platform, IsDocumented}
use api_wallet.Wallet.{Result, ok, err, in_transaction}
use api_wallet.Wallet.Actions.{return}
use api_wallet.Wallet.Outcomes.{Ends, Ensures, run_rule, in_transaction_rule}
use api_wallet.Wallet.Frame.{Any}
use api_wallet.Wallet.Requests.{bind_action_rule, Ends_mono}
use api_wallet.OutboxPublisher.{
  Broker, attempted, find_batch, load_batch, save_batch, publish_batch, caught, publish_message,
  publish_all, publish_pending,
}
use api_wallet.OutboxPublisher.Messages.{Settles, publish_message-Settles}

module _ {p : Platform} (doc : IsDocumented p) (broker : Broker) (I : Db → Type 0)
    (patch_closed : (m : OutboxMessage) (patch : OutboxPatch) (db : Db)
      → Settles p broker db m patch
      → I db
      → I (effect p.stored p.uuid (update_message m.id patch) db))
    (save_closed : (n : ℕ) (db : Db)
      → I db
      → I (effect p.stored p.uuid (save_messages (attempted (find_batch p broker n db))) db)) where
  abbrev pub Stays : {A : Type 0} → A → Db → Type 0
  Stays _ db = I db

  publish_message-Stays :
      (m : OutboxMessage) (db : Db) → I db → Ends (publish_message p broker m db) Stays Stays
  publish_message-Stays m db h =
      Ends_mono (publish_message p broker m db) _ Stays _ Stays
        (publish_message-Settles doc broker m db)
        (λ _ d (patch, e, s). subst I (sym e) (patch_closed m patch db s h))
        (λ _ d (_, e, _). subst I (sym e) h)

  publish_all-Stays :
      (ms : List OutboxMessage) (db : Db) → I db → Ends (publish_all p broker ms db) Stays Stays
  unfolding publish_all
  publish_all-Stays [] db h = h
  publish_all-Stays (m ∷ ms) db h =
      bind_action_rule (publish_message p broker m) (λ _. publish_all p broker ms) db Stays Stays
        Stays (publish_message-Stays m db h) (λ _ d k. publish_all-Stays ms d k)

  save_batch-Stays :
      (ms : List OutboxMessage) (db : Db)
      → I (effect p.stored p.uuid (save_messages (attempted ms)) db)
      → I db
      → Ensures Any (save_batch p broker ms db) Stays
  unfolding save_batch effect
  save_batch-Stays [] db saved h = run_rule doc Any (λ _. tt) commit _ db Stays tt h
  save_batch-Stays (m ∷ ms) db saved h =
      run_rule doc Any (λ _. tt) (save_messages (attempted (m ∷ ms))) _ db Stays tt
        (run_rule doc Any (λ _. tt) commit _ _ Stays tt saved)

  load_batch-Stays : (n : ℕ) (db : Db) → I db → Ensures Any (load_batch p broker n db) Stays
  unfolding load_batch effect
  load_batch-Stays n db h =
      run_rule doc Any (λ _. tt) (select Table.outbox true) _ db Stays tt
        (save_batch-Stays (find_batch p broker n db) db (save_closed n db h) h)

  publish_batch-Stays :
      (ms : List OutboxMessage) (db : Db) → I db → Ends (publish_batch p broker ms db) Stays Stays
  unfolding publish_batch
  publish_batch-Stays ms db h = go (publish_all p broker ms db) (publish_all-Stays ms db h)
    where
      go : (r : Result (Unit {0}) × Db) → Ends r Stays Stays → Ends (caught p broker r) Stays Stays
      go (ok _, d) k = k
      go (err _, d) k = k

  publish_pending-Stays :
      (n : ℕ) (db : Db) → I db → Ends (publish_pending p broker n db) Stays Stays
  unfolding publish_pending
  publish_pending-Stays n db h =
      bind_action_rule (in_transaction p (load_batch p broker n) (λ _. return []))
        (publish_batch p broker) db Stays Stays Stays
        (in_transaction_rule doc Any (λ _. tt) (load_batch p broker n) (λ _. return []) db Stays
          Stays (load_batch-Stays n db h) (λ _. h) (λ _ _ _. h))
        (λ ms d k. publish_batch-Stays ms d k)

  pub publish_pending-Keeps : (n : ℕ) (db : Db) → I db → I (publish_pending p broker n db).1
  publish_pending-Keeps n db h =
      outcome (publish_pending p broker n db) (publish_pending-Stays n db h)
    where
      outcome : (r : Result (Unit {0}) × Db) → Ends r Stays Stays → I r.1
      outcome (ok _, d) k = k
      outcome (err _, d) k = k
