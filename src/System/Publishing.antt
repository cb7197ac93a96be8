-- ===== src/System/Publishing.antt =====
-- A cycle of the publisher (src/modules/wallet/outbox-publisher.service.ts) in a sound database.
use api_wallet.Prelude.{
  ℕ, Text, text_eq→eq, ◌≡◌, refl, sym, ◌∙◌, ap, subst, true, Option, some, none, List, [], ◌∷◌, map,
  All, arith,
}
use api_wallet.Entities.{OutboxMessage}
use api_wallet.Tables.{
  Db, OutboxPatch, patched, rewrite_messages, save_messages, update_message, effect,
}
use api_wallet.Tables.Rows.{opt_text_eq, update_where-All, map-update_where}
use api_wallet.Platform.{Platform, IsDocumented}
use api_wallet.OutboxPublisher.{Broker, attempted, find_batch, publish_pending}
use api_wallet.OutboxPublisher.Messages.{Settles, IsChosen, find_batch-IsChosen}
use api_wallet.OutboxPublisher.Cycle.{
  IsSettled, patch-AllSettled, save-AllSettled, rewrite_messages-All,
}
use api_wallet.OutboxPublisher.Frame.{publish_pending-Keeps}
use api_wallet.Wallet.Books.{Ledger}
use api_wallet.System.Sound.{IsNumbered, IsSoundAt, rebooked}

opt_text_eq-eq : (a : Option Text) (s t : Text) → a ≡ some s → opt_text_eq a (some t) ≡ true → s ≡ t
opt_text_eq-eq none s t e h = cc
opt_text_eq-eq (some a) s t e h = ground (arith, text_eq→eq a t h)

attempted-IsNumbered :
    (p : Platform) (issued : ℕ) (content : ℕ → Option Text) (db : Db) (ms : List OutboxMessage)
    → All (λ m. IsChosen db m × IsNumbered p issued content m) ms
    → All (IsNumbered p issued content) (attempted ms)
unfolding attempted
attempted-IsNumbered p issued content db [] h = tt
attempted-IsNumbered p issued content db (m ∷ ms) ((_, n), h) =
    (n, attempted-IsNumbered p issued content db ms h)

module _ {p : Platform} (doc : IsDocumented p) (broker : Broker) where
  -- Messages of one number announce one event.
  same_event :
      (issued : ℕ) (content : ℕ → Option Text) (r m : OutboxMessage)
      → IsNumbered p issued content r
      → IsNumbered p issued content m
      → opt_text_eq r.id m.id ≡ true
      → m.payload.event_id ≡ r.payload.event_id
  same_event issued content r m (k, id, _, e) (j, id', _, e') same =
      let t : p.uuid k ≡ p.uuid j =
        opt_text_eq-eq r.id (p.uuid k) (p.uuid j) id
          (subst (λ o. opt_text_eq r.id o ≡ true) id' same) in
      e' ∙ (ap content (sym (doc.uuid_injective k j t)) ∙ sym e)

  rewritten_events :
      (issued : ℕ) (content : ℕ → Option Text) (ms rows : List OutboxMessage)
      → All (IsNumbered p issued content) ms
      → All (IsNumbered p issued content) rows
      → map (λ m. m.payload.event_id) (rewrite_messages p.stored p.uuid ms rows)
        ≡ map (λ m. m.payload.event_id) rows
  rewritten_events issued content [] rows h k = refl
  rewritten_events issued content (m ∷ ms) rows h k =
      rewritten_events issued content ms _ h.1
        (update_where-All (IsNumbered p issued content) _ (λ _. m) rows (λ _ _. h.0) k)
      ∙ map-update_where (λ r. r.payload.event_id) (IsNumbered p issued content)
          (λ r. opt_text_eq r.id m.id) (λ _. m) rows
          (λ r n e. same_event issued content r m n h.0 e) k

  module _ (l : Ledger) where
    patch-IsSoundAt :
        (m : OutboxMessage) (patch : OutboxPatch) (db : Db)
        → Settles p broker db m patch
        → IsSoundAt p l db
        → IsSoundAt p l (effect p.stored p.uuid (update_message m.id patch) db)
    unfolding effect
    patch-IsSoundAt m patch db s ((j, b), (content, n), settled) = (
      (
        j,
        rebooked p db _ l j refl refl
            (map-update_where (λ r. r.payload.event_id) IsSettled _ (patched p.stored p.uuid patch)
              db.outbox (λ _ _ _. refl) settled)
            refl b,
      ),
      (
        content,
        update_where-All (IsNumbered p db.issued content) _ (patched p.stored p.uuid patch)
            db.outbox (λ _ k. k) n,
      ),
      patch-AllSettled p broker m patch db s settled,
    )

    save-IsSoundAt :
        (k : ℕ) (db : Db)
        → IsSoundAt p l db
        → IsSoundAt p l
            (effect p.stored p.uuid (save_messages (attempted (find_batch p broker k db))) db)
    unfolding effect
    save-IsSoundAt k db ((j, b), (content, n), settled) =
        let ms = attempted (find_batch p broker k db) in
        let numbered : All (IsNumbered p db.issued content) ms =
          attempted-IsNumbered p db.issued content db (find_batch p broker k db)
            (find_batch-IsChosen p broker (IsNumbered p db.issued content) k db n).2 in
        (
          (
            j,
            rebooked p db _ l j refl refl
                (rewritten_events db.issued content ms db.outbox numbered n) refl b,
          ),
          (
            content,
            rewrite_messages-All p.stored p.uuid (IsNumbered p db.issued content) ms db.outbox
                numbered n,
          ),
          save-AllSettled p broker k db settled,
        )

    -- A cycle moves no money.
    pub publish_pending-IsSoundAt :
        (k : ℕ) (db : Db) → IsSoundAt p l db → IsSoundAt p l (publish_pending p broker k db).1
    publish_pending-IsSoundAt =
        publish_pending-Keeps doc broker (IsSoundAt p l) patch-IsSoundAt save-IsSoundAt
