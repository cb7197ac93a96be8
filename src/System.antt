-- ===== src/System.antt =====
-- The service as a whole: requests, cycles of the publisher, deliveries of the broker, cleanups of the
-- keys and the passing of time, in any order, one after another.
pub mod Sides
pub mod Sound
pub mod Publishing
pub mod Postings
pub mod Serving
pub mod Reachable
use api_wallet.Prelude.{ℕ, ◌+◌, Text, ◌≡◌, true, Option, none, some, List, [], ◌∷◌}
use api_wallet.Entities.{EventType, Payload}
use api_wallet.Tables.{Db}
use api_wallet.Platform.{Platform}
use api_wallet.Wallet.Books.{empty}
use api_wallet.Idempotency.{Hashing, cleanup_expired}
use api_wallet.Controller.{
  RequestPayload, Request, Call, deposit_call, withdraw_call, transfer_call, handle,
}
use api_wallet.OutboxPublisher.{Broker, publish_pending}
use api_wallet.Consumer.{receive}

-- The amount, if it is a number at all, is a finite one: `@IsNumberString()` admits no other.
abbrev pub IsFinite : Platform → Text → Type 0
IsFinite p amount = (d : p.Decimal) → p.of_text amount ≡ some d → p.is_finite d ≡ true

abbrev pub IsValid : Platform → Call → Type 0
IsValid p (deposit_call _ dto) = IsFinite p dto.amount
IsValid p (withdraw_call _ dto) = IsFinite p dto.amount
IsValid p (transfer_call _ dto) = IsFinite p dto.command.amount

module _ (p : Platform) (h : Hashing RequestPayload) where
  pub data Step (db d : Db) : Type 0 where
    serve :
        (call : Call) (req : Request) → IsValid p call → d ≡ (handle p h call req db).1 → Step db d
    publish :
        (broker : Broker) (batch_size : ℕ)
        → d ≡ (publish_pending p broker batch_size db).1
        → Step db d
    deliver :
        (pattern_type : EventType) (payload : Payload)
        → d ≡ (receive p pattern_type payload db).1
        → Step db d
    expire : (ttl_ms : ℕ) → d ≡ cleanup_expired p ttl_ms db → Step db d
    wait : (ms : ℕ) → d ≡ record db { clock = db.clock + ms } → Step db d

  -- The databases that the service reaches from an empty one.
  pub data Reach : Db → Type 0 where
    start : Reach empty
    later : {db d : Db} → Reach db → Step db d → Reach d

  -- The request that a step serves, if it serves one.
  abbrev pub called : {db d : Db} → Step db d → Option Call
  called (serve call req valid e) = some call
  called (publish broker n e) = none
  called (deliver pattern_type payload e) = none
  called (expire ttl_ms e) = none
  called (wait ms e) = none

  abbrev pub with_call : Option Call → List Call → List Call
  with_call none calls = calls
  with_call (some call) calls = call ∷ calls

  -- The requests that were served on the way, the last one first.
  abbrev pub served : {db : Db} → Reach db → List Call
  served start = []
  served (later r step) = let before = served r in with_call (called step) before
