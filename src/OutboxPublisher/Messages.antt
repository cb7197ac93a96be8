-- ===== src/OutboxPublisher/Messages.antt =====
-- Which messages a cycle of the publisher (src/modules/wallet/outbox-publisher.service.ts) picks,
-- what becomes of each, and how long a refused one waits.
use api_wallet.Prelude.{
  ℕ, zero, suc, ◌+◌, ◌-◌, ◌*◌, ◌^◌, ◌≤◌, ◌<◌, ◌≡◌, ◌≢◌, Text, refl, sym, subst, ◌⊎◌, inl, inr, true,
  none, some, List, [], ◌∷◌, length, length-take-le, All, leb, arith, Bool-cases, Option-cases,
  if◌then◌else◌,
}
use api_wallet.Entities.{OutboxMessage, OutboxStatus, pending, published, failed}
use api_wallet.Tables.{Db, OutboxPatch, update_message, effect}
use api_wallet.Platform.{Platform, IsDocumented}
use api_wallet.Wallet.{Error, failure, run}
use api_wallet.Wallet.Actions.{lift}
use api_wallet.Wallet.Outcomes.{Ends, Refused}
use api_wallet.OutboxPublisher.{
  Broker, calculate_backoff, max_attempts_before_failure, is_pending, is_due, candidates,
  find_batch, is_chosen, publish_message, publish_failed, publish_accepted,
}
use api_wallet.OutboxPublisher.Sorting.{
  IsSorted, insert-All, insert-IsSorted, take-All, take-IsSorted,
}

two_pow_suc : (n : ℕ) → 2 ^ suc n ≡ 2 * 2 ^ n
two_pow_suc n = omega arith

two_pow_pos : (n : ℕ) → 1 ≤ 2 ^ n
two_pow_pos zero = omega arith
two_pow_pos (suc n) = omega (arith, two_pow_pos n, two_pow_suc n)

-- The delay before the next attempt is a second after the first, then twice the delay before it or,
-- where that is more, thirty seconds; it is never less than a second or more than thirty.
pub calculate_backoff-doubles :
    (n : ℕ)
    → (calculate_backoff 1 ≡ 1000)
      × (calculate_backoff (suc (suc n)) ≡ (
          if leb (2 * calculate_backoff (suc n)) 30000
          then 2 * calculate_backoff (suc n)
          else 30000))
      × (1000 ≤ calculate_backoff n)
      × (calculate_backoff n ≤ 30000)
unfolding calculate_backoff
calculate_backoff-doubles n = ground (arith, two_pow_pos (n - 1), two_pow_suc n)

-- What a message of the batch satisfies.
abbrev pub IsChosen : Db → OutboxMessage → Type 0
IsChosen db m = (m.status ≡ pending) × (is_due db.clock m.next_attempt_at ≡ true)

is_pending_lem : (s : OutboxStatus) → is_pending s ≡ true → s ≡ pending
is_pending_lem pending h = refl
is_pending_lem published h = cc
is_pending_lem failed h = cc

module _ (p : Platform) (broker : Broker) (Q : OutboxMessage → Type 0) (db : Db) where
  candidates-IsSorted : (ms : List OutboxMessage) → IsSorted (candidates p broker db ms)
  unfolding candidates
  candidates-IsSorted [] = tt
  candidates-IsSorted (m ∷ ms) = elim (Bool-cases (is_chosen p broker db m)) [
    | inl e ↦ rw e (insert-IsSorted m (candidates p broker db ms) (candidates-IsSorted ms))
    | inr e ↦ rw e (candidates-IsSorted ms)
  ]

  candidates-All :
      (ms : List OutboxMessage)
      → All Q ms
      → All (λ m. IsChosen db m × Q m) (candidates p broker db ms)
  unfolding candidates
  candidates-All [] h = tt
  candidates-All (m ∷ ms) h = elim (Bool-cases (is_chosen p broker db m)) [
    | inl e ↦ rw e (
        insert-All _ m (candidates p broker db ms)
          ((is_pending_lem m.status (ground arith), ground arith), h.0) (candidates-All ms h.1))
    | inr e ↦ rw e (candidates-All ms h.1)
  ]

-- The batch of a cycle holds at most its size in messages, from the oldest to the newest; each is
-- pending and its next attempt is due, and what holds of every message of the outbox holds of it.
pub find_batch-IsChosen :
    (p : Platform) (broker : Broker) (Q : OutboxMessage → Type 0) (batch_size : ℕ) (db : Db)
    → All Q db.outbox
    → (length (find_batch p broker batch_size db) ≤ batch_size)
      × IsSorted (find_batch p broker batch_size db)
      × All (λ m. IsChosen db m × Q m) (find_batch p broker batch_size db)
unfolding find_batch
find_batch-IsChosen p broker Q batch_size db h = (
  length-take-le batch_size _,
  take-IsSorted batch_size _ (candidates-IsSorted p broker Q db db.outbox),
  take-All _ batch_size _ (candidates-All p broker Q db db.outbox h),
)

-- What an attempt at a message makes of its row: it is published, and the broker accepted it; or a
-- later attempt is set, and it is failed at the tenth attempt and pending before.
abbrev pub Settles : Platform → Broker → Db → OutboxMessage → OutboxPatch → Type 0
Settles p broker db m patch =
    ((patch.status ≡ published)
      × (broker.emit db m.event_type m.payload ≡ none)
      × (patch.published_at ≡ some (some db.clock))
      × (patch.last_error ≡ none))
    ⊎ (((broker.emit db m.event_type m.payload ≢ none) ⊎ Refused p)
        × (((patch.status ≡ failed) × (10 ≤ m.attempts))
            ⊎ ((patch.status ≡ pending) × (m.attempts < 10)))
        × ((error : Text) × (patch.last_error ≡ some error))
        × ((delay : ℕ) × (1000 ≤ delay)
            × (delay ≤ 30000)
            × (patch.next_attempt_at ≡ some (db.clock + delay))))

module _ {p : Platform} (doc : IsDocumented p) (broker : Broker) (m : OutboxMessage) (db : Db) where
  abbrev Settled : Unit {0} → Db → Type 0
  Settled _ d =
      (patch : OutboxPatch) × (d ≡ effect p.stored p.uuid (update_message m.id patch) db)
      × Settles p broker db m patch

  abbrev Unsettled : Error → Db → Type 0
  Unsettled e d = (e ≡ failure) × (d ≡ db) × Refused p

  publish_failed-Ends :
      (error : Text)
      → (broker.emit db m.event_type m.payload ≢ none) ⊎ Refused p
      → Ends (publish_failed p broker m error db) Settled Unsettled
  unfolding publish_failed run effect
  publish_failed-Ends error why =
      let patch : OutboxPatch = record {
        status = if leb max_attempts_before_failure m.attempts then failed else pending;
        published_at = none;
        next_attempt_at = some (db.clock + calculate_backoff m.attempts);
        last_error = some error;
      } in
      let b = calculate_backoff-doubles m.attempts in
      elim (doc.executed (update_message m.id patch) db) [
        | inl e ↦ rw (e, lift, run) (refl, refl, (update_message m.id patch, db, tt, e))
        | inr e ↦
            rw (e, lift, run)
              (
                patch,
                refl,
                inr (
                  why,
                  elim (Bool-cases (leb max_attempts_before_failure m.attempts)) [
                    | inl late ↦ inl (rw late refl, ground arith)
                    | inr soon ↦ inr (rw soon refl, ground arith)
                  ],
                  (error, refl),
                  (calculate_backoff m.attempts, b.2, b.3, refl),
                ),
              )
      ]

  publish_accepted-Ends :
      broker.emit db m.event_type m.payload ≡ none
      → Ends (publish_accepted p broker m db) Settled Unsettled
  unfolding publish_accepted run effect
  publish_accepted-Ends accepted =
      let patch : OutboxPatch = record {
        status = published;
        published_at = some (some db.clock);
        next_attempt_at = none;
        last_error = none;
      } in
      elim (doc.executed (update_message m.id patch) db) [
        | inl e ↦
            rw (e, run, publish_accepted)
              (publish_failed-Ends broker.statement_error
                (inr (update_message m.id patch, db, tt, e)))
        | inr e ↦ rw (e, run, publish_accepted) (patch, refl, inl (refl, accepted, refl, refl))
      ]

-- An attempt at a message changes its row alone and the row becomes published only if the broker
-- accepted the message; otherwise the broker or the database refused, the next attempt is from one
-- to thirty seconds later, and the row becomes failed exactly at ten attempts or more. An attempt
-- throws only if the database refuses a statement, and then nothing changes.
pub publish_message-Settles :
    {p : Platform} (doc : IsDocumented p) (broker : Broker) (m : OutboxMessage) (db : Db)
    → Ends
        (publish_message p broker m db)
        (λ _ d.
          (patch : OutboxPatch) × (d ≡ effect p.stored p.uuid (update_message m.id patch) db)
          × Settles p broker db m patch)
        (λ e d. (e ≡ failure) × (d ≡ db) × Refused p)
unfolding publish_message
publish_message-Settles {p} doc broker m db =
    elim (Option-cases (broker.emit db m.event_type m.payload)) [
      | inr (error, declined) ↦
          subst (λ r. Ends r (Settled doc broker m db) (Unsettled doc broker m db))
            (sym (the_failed declined))
            (publish_failed-Ends doc broker m db error (inl (λ e. cc (e, declined))))
      | inl accepted ↦
          subst (λ r. Ends r (Settled doc broker m db) (Unsettled doc broker m db))
            (sym (the_accepted accepted)) (publish_accepted-Ends doc broker m db accepted)
    ]
  where
    the_failed :
        {error : Text}
        → broker.emit db m.event_type m.payload ≡ some error
        → publish_message p broker m db ≡ publish_failed p broker m error db
    the_failed declined = rw (publish_message, declined) refl

    the_accepted :
        broker.emit db m.event_type m.payload ≡ none
        → publish_message p broker m db ≡ publish_accepted p broker m db
    the_accepted accepted = rw (publish_message, accepted) refl
