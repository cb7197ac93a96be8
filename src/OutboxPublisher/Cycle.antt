-- ===== src/OutboxPublisher/Cycle.antt =====
-- A whole cycle of the publisher (src/modules/wallet/outbox-publisher.service.ts).
use api_wallet.Prelude.{ℕ, Text, ◌≡◌, refl, none, some, List, [], ◌∷◌, All, inl, inr}
use api_wallet.Entities.{OutboxMessage, published, failed}
use api_wallet.Tables.{
  Db, OutboxPatch, patched, rewrite_messages, save_messages, update_message, effect,
}
use api_wallet.Tables.Rows.{update_where-All}
use api_wallet.Platform.{Platform, IsDocumented}
use api_wallet.OutboxPublisher.{Broker, attempted, find_batch, publish_pending}
use api_wallet.OutboxPublisher.Frame.{publish_pending-Keeps}
use api_wallet.OutboxPublisher.Messages.{Settles, IsChosen, find_batch-IsChosen}

-- A message says when it was published, and no error then; a failed one says why.
abbrev pub IsSettled : OutboxMessage → Type 0
IsSettled m =
    (m.status ≡ published → ((t : ℕ) × (m.published_at ≡ some t)) × (m.last_error ≡ none))
    × (m.status ≡ failed → (error : Text) × (m.last_error ≡ some error))

abbrev pub AllSettled : Db → Type 0
AllSettled db = All IsSettled db.outbox

module _ (p : Platform) where
  Settles-IsSettled :
      (broker : Broker) (db : Db) (m r : OutboxMessage) (patch : OutboxPatch)
      → Settles p broker db m patch
      → IsSettled (patched p.stored p.uuid patch r)
  Settles-IsSettled broker db m r patch (inl (s, _, at, e)) =
      (λ _. ((db.clock, rw at refl), e), λ f. cc)
  Settles-IsSettled broker db m r patch (inr (_, inl (s, _), (error, e), _)) =
      (λ f. cc, λ _. (error, e))
  Settles-IsSettled broker db m r patch (inr (_, inr (s, _), (error, e), _)) =
      (λ f. cc, λ _. (error, e))

pub rewrite_messages-All :
    (stored : Text → Text) (uuid : ℕ → Text) (P : OutboxMessage → Type 0)
    (ms rows : List OutboxMessage)
    → All P ms
    → All P rows
    → All P (rewrite_messages stored uuid ms rows)
rewrite_messages-All stored uuid P [] rows h k = k
rewrite_messages-All stored uuid P (m ∷ ms) rows h k =
    rewrite_messages-All stored uuid P ms _ h.1 (update_where-All P _ (λ _. m) rows (λ _ _. h.0) k)

attempted-IsSettled :
    (db : Db) (ms : List OutboxMessage)
    → All (λ m. IsChosen db m × IsSettled m) ms
    → All IsSettled (attempted ms)
unfolding attempted
attempted-IsSettled db [] h = tt
attempted-IsSettled db (m ∷ ms) (((s, _), _), h) = ((λ e. cc, λ e. cc), attempted-IsSettled db ms h)

module _ (p : Platform) (broker : Broker) where
  pub patch-AllSettled :
      (m : OutboxMessage) (patch : OutboxPatch) (db : Db)
      → Settles p broker db m patch
      → AllSettled db
      → AllSettled (effect p.stored p.uuid (update_message m.id patch) db)
  unfolding effect
  patch-AllSettled m patch db s h =
      update_where-All IsSettled _ (patched p.stored p.uuid patch) db.outbox
        (λ r _. Settles-IsSettled p broker db m r patch s) h

  pub save-AllSettled :
      (n : ℕ) (db : Db)
      → AllSettled db
      → AllSettled
          (effect p.stored p.uuid (save_messages (attempted (find_batch p broker n db))) db)
  unfolding effect
  save-AllSettled n db h =
      rewrite_messages-All p.stored p.uuid IsSettled (attempted (find_batch p broker n db))
        db.outbox
        (attempted-IsSettled db (find_batch p broker n db)
          (find_batch-IsChosen p broker IsSettled n db h).2)
        h

-- A cycle of the publisher, however it ends, keeps this of every message of the outbox: one that is
-- published has a time of publication and no error, and one that failed has an error.
pub publish_pending-IsSettled :
    {p : Platform} (doc : IsDocumented p) (broker : Broker) (batch_size : ℕ) (db : Db)
    → All IsSettled db.outbox
    → All IsSettled (publish_pending p broker batch_size db).1.outbox
publish_pending-IsSettled {p} doc broker batch_size db h =
    publish_pending-Keeps doc broker AllSettled (patch-AllSettled p broker)
      (save-AllSettled p broker) batch_size db h
