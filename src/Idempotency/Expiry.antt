-- ===== src/Idempotency/Expiry.antt =====
-- The expiry of idempotency keys (src/modules/wallet/idempotency-cleanup.service.ts).
use api_wallet.Prelude.{
  ℕ, ◌-◌, ◌≤◌, Text, ◌≡◌, refl, ◌⊎◌, inl, inr, some, All, ltb, le→ltb, ltb→le, false, List, [], ◌∷◌,
}
use api_wallet.Entities.{IdempotencyKey}
use api_wallet.Tables.{Db, delete_keys, effect}
use api_wallet.Tables.Rows.{lookup_by-delete_where, delete_where-All}
use api_wallet.Platform.{Platform, IsDocumented}
use api_wallet.Wallet.{run}
use api_wallet.Wallet.Actions.{lift}
use api_wallet.Wallet.Outcomes.{Refused}
use api_wallet.Idempotency.{find_key, cleanup_expired}

All-fresh :
    (cutoff : ℕ) (keys : List IdempotencyKey)
    → All (λ r. ltb r.updated_at cutoff ≡ false) keys
    → All (λ r. cutoff ≤ r.updated_at) keys
All-fresh cutoff [] h = tt
All-fresh cutoff (k ∷ keys) h = (ltb→le k.updated_at cutoff h.0, All-fresh cutoff keys h.1)

-- A cleanup leaves only keys that were touched within the time to live, and finds every such key as
-- it was found before; or the database refuses the deletion and nothing changes.
pub cleanup_expired-fresh :
    {p : Platform} (doc : IsDocumented p) (ttl_ms : ℕ) (key : Text) (row : IdempotencyKey) (db : Db)
    → find_key key db ≡ some row
    → db.clock - ttl_ms ≤ row.updated_at
    → (All (λ k. db.clock - ttl_ms ≤ k.updated_at) (cleanup_expired p ttl_ms db).keys
        × (find_key key (cleanup_expired p ttl_ms db) ≡ some row))
      ⊎ ((cleanup_expired p ttl_ms db ≡ db) × Refused p)
unfolding cleanup_expired run effect find_key
cleanup_expired-fresh {p} doc ttl_ms key row db found fresh =
    let cutoff = db.clock - ttl_ms in
    elim (doc.executed (delete_keys cutoff) db) [
      | inl e ↦ inr (rw (cleanup_expired, lift, run, e) refl, (delete_keys cutoff, db, tt, e))
      | inr e ↦ inl (
        rw (cleanup_expired, lift, run, e) (All-fresh cutoff _ (delete_where-All _ db.keys)),
        rw (cleanup_expired, lift, run, e)
            (lookup_by-delete_where (λ k. k.id) key _ row db.keys found
              (le→ltb row.updated_at cutoff fresh)),
      )
    ]
