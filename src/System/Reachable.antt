-- ===== src/System/Reachable.antt =====
-- The databases that the service reaches from an empty one, by any steps.
use api_wallet.Prelude.{
  inl, inr, ◌⊎◌, Text, ◌≡◌, refl, sym, subst, Option, none, some, List, [], ◌∷◌,
}
use api_wallet.Entities.{ResponseBody, TransferStatus, Metadata}
use api_wallet.Tables.{Db}
use api_wallet.Platform.{Platform, IsDocumented}
use api_wallet.Wallet.{Result, ok, err, failure}
use api_wallet.Wallet.Transfer.Compensation.{compensate_transfer}
use api_wallet.Wallet.Outcomes.{Ends, Refused}
use api_wallet.Wallet.Idle.{IsKept, compensate_transfer-Idle}
use api_wallet.Wallet.Books.{Ledger, empty-Books}
use api_wallet.Idempotency.{Hashing}
use api_wallet.Controller.{RequestPayload, Response, Call, handle}
use api_wallet.System.{
  Step, serve, publish, deliver, expire, wait, Reach, start, later, called, with_call, served,
}
use api_wallet.System.Sides.Keys.{cleanup_expired-Keeps}
use api_wallet.System.Sides.Events.{receive-Keeps}
use api_wallet.System.Sound.{IsSoundAt, IsSound, rebooked, side-IsSoundAt}
use api_wallet.System.Postings.{Posts, Posted, IsAmong, none_left, keep, leave_out}
use api_wallet.System.Publishing.{publish_pending-IsSoundAt}
use api_wallet.System.Serving.{AllOrNothing, handle-AllOrNothing}

module _ {p : Platform} (doc : IsDocumented p) (h : Hashing RequestPayload) where
  -- What the request of a step asks for, or nothing, to a ledger for which the database is sound.
  abbrev pub Follows : Option Call → Ledger → Db → Type 0
  Follows asked l d =
      (l' : Ledger) × ((l' ≡ l)
        ⊎ ((call : Call) × (body : ResponseBody) × Posts p call body l l' × (asked ≡ some call)))
      × IsSoundAt p l' d

  stays : (asked : Option Call) (l : Ledger) (d : Db) → IsSoundAt p l d → Follows asked l d
  stays asked l d s = (l, inl refl, s)

  follows :
      (l : Ledger) (call : Call) (r : Result Response × Db)
      → Ends r (AllOrNothing p l call) (AllOrNothing p l call)
      → Follows (some call) l r.1
  follows l call (ok _, d) (inl s) = stays (some call) l d s
  follows l call (ok _, d) (inr (body, (l', posts, s))) = (l', inr (call, body, posts, refl), s)
  follows l call (err _, d) (inl s) = stays (some call) l d s
  follows l call (err _, d) (inr (body, (l', posts, s))) = (l', inr (call, body, posts, refl), s)

  -- A step of the service, from a database that is sound for a ledger, leads to one that is sound
  -- for this ledger, or for one that the request of the step leads to in the specification.
  Step-Follows :
      (l : Ledger) (db d : Db) (step : Step p h db d)
      → IsSoundAt p l db
      → Follows (called p h step) l d
  Step-Follows l db d (serve call req valid e) s =
      subst (Follows (some call) l) (sym e)
        (follows l call (handle p h call req db) (handle-AllOrNothing doc h l call req db valid s))
  Step-Follows l db d (publish broker k e) s =
      stays none l d (subst (IsSoundAt p l) (sym e) (publish_pending-IsSoundAt doc broker l k db s))
  Step-Follows l db d (deliver pattern payload e) s = stays none l d (
      subst (IsSoundAt p l) (sym e)
        (receive-Keeps doc (IsSoundAt p l) (side-IsSoundAt p l) pattern payload db s))
  Step-Follows l db d (expire ttl e) s = stays none l d (
      subst (IsSoundAt p l) (sym e)
        (cleanup_expired-Keeps doc (IsSoundAt p l) (side-IsSoundAt p l) ttl db s))
  Step-Follows l db d (wait ms e) ((j, b), n, k) =
      stays none l d
        (subst (IsSoundAt p l) (sym e) ((j, rebooked p db _ l j refl refl refl refl b), n, k))

  still_among :
      (asked : Option Call) (xs ys : List Call)
      → IsAmong xs ys
      → IsAmong xs (with_call p h asked ys)
  still_among none xs ys a = a
  still_among (some call) xs ys a = leave_out call a

  -- The service refines its specification. Every database that it reaches from an empty one, by
  -- requests with finite amounts, cycles of the publisher with any broker, deliveries of any event,
  -- cleanups of the keys and the passing of time, is sound for the ledger to which some of the
  -- requests that were served lead in the specification, each of them at most once and in their
  -- order: a deposit posts its own amount, a withdrawal its own covered amount, a transfer its own
  -- covered amount between its two wallets, or nothing if it fails.
  pub Reach-Posted :
      (db : Db) (reach : Reach p h db)
      → (l : Ledger) × (calls : List Call) × IsAmong calls (served p h reach)
        × Posted p calls l
        × IsSoundAt p l db
  Reach-Posted db start = (_, [], none_left, Posted.nothing, (empty-Books p, (λ _. none, tt), tt))
  Reach-Posted db (later {db = db'} r step) =
      let (l, calls, among, posted, s) = Reach-Posted db' r in
      let (l', moved, s') = Step-Follows l db' db step s in
      elim moved [
        | inl same ↦ (
          l',
          calls,
          still_among (called p h step) calls (served p h r) among,
          subst (Posted p calls) (sym same) posted,
          s',
        )
        | inr (call, body, posts, asks) ↦ (
          l',
          call ∷ calls,
          subst (λ o. IsAmong (call ∷ calls) (with_call p h o (served p h r))) (sym asks)
              (keep call among),
          Posted.post call body posted posts,
          s',
        )
      ]

  -- In every database that the service reaches from an empty one, by requests with finite amounts,
  -- cycles of the publisher with any broker, deliveries of any event, cleanups of the keys and the
  -- passing of time, in any order: some ledger says what each wallet holds, the log of events makes
  -- the same ledger, the outbox announces the events of the log in order, no transfer is stored as
  -- debited, each message has a number under which it was issued and that tells its event, a
  -- published message has a publication date and no error, and a failed one has an error.
  pub Reach-IsSound : (db : Db) → Reach p h db → IsSound p db
  Reach-IsSound db reach =
      let (l, calls, among, posted, (b, n, s)) = Reach-Posted db reach in ((l, b), n, s)

  -- In every database that the service reaches, compensateTransfer, for any wallets and any amount,
  -- compensates nothing: it answers that the transfer failed, without events, and leaves the wallets
  -- that there are, the transfers, the log and the outbox as they were; or it throws because the
  -- database refused an acceptable statement, and changes nothing.
  pub Reach-Idle :
      (db : Db) (from to : Text) (amount : p.Decimal) (request_id : Option Text)
      (metadata : Option Metadata)
      → Reach p h db
      → Ends
          (compensate_transfer p from to amount request_id metadata db)
          (λ r d.
            (r.transfer_status ≡ TransferStatus.failed) × (r.command.events ≡ []) × IsKept db d)
          (λ e d. (d ≡ db) × (e ≡ failure) × Refused p)
  Reach-Idle db from to amount request_id metadata reach =
      let ((l, (journal, booked)), n, s) = Reach-IsSound db reach in
      compensate_transfer-Idle doc from to amount request_id metadata db booked.undebited
