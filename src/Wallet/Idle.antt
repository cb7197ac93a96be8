-- ===== src/Wallet/Idle.antt =====
-- compensateTransfer of WalletService (src/modules/wallet/wallet.service.ts) where no transfer is stored
-- as debited.
use api_wallet.Prelude.{
  Text, text_eq, text_eq→eq, ◌≡◌, refl, sym, ◌∙◌, subst, inl, inr, Bool-cases, Option, none, some,
  Option-cases, [], if◌then◌else◌,
}
use api_wallet.Entities.{Wallet, Metadata, TransferStatus, TransferCommandResult}
use api_wallet.Tables.{Db, Table, commit, select, find_wallet, effect}
use api_wallet.Platform.{Platform, IsDocumented}
use api_wallet.Wallet.{
  ◌>>=◌, lock_wallet, Error, failure, raise, order_wallet_ids, supports_pessimistic_lock,
}
use api_wallet.Wallet.Books.{IsUndebited}
use api_wallet.Wallet.Outcomes.{
  Ends, Ensures, Refused, opened, opened-found, find_wallet-opened, run_rule, lock_wallet_rule,
  in_transaction_rule,
}
use api_wallet.Wallet.Transfer.Compensation.{
  compensate_locked, compensate_body, compensate_transfer,
}
use api_wallet.Wallet.TransferOutcome.{find_debited-IsUndebited}

-- The rows stay, but for wallets that were missing.
pub record IsKept (db d : Db) : Type 0 where
  pub wallets : (id : Text) (w : Wallet) → find_wallet id db ≡ some w → find_wallet id d ≡ some w
  pub transfers : d.transfers ≡ db.transfers
  pub events : d.events ≡ db.events
  pub outbox : d.outbox ≡ db.outbox

same-IsKept : (db : Db) → IsKept db db
same-IsKept db = record { wallets = λ id w e. e; transfers = refl; events = refl; outbox = refl }

module _ {p : Platform} (doc : IsDocumented p) where
  opened-IsKept : (id : Text) (db d : Db) → IsKept db d → IsKept db (opened p id d)
  unfolding effect
  opened-IsKept id db d kept = elim (Option-cases (find_wallet id d)) [
    | inr (w, e) ↦ subst (IsKept db) (sym (opened-found doc id w d e)) kept
    | inl missing ↦ record {
      wallets = λ k w e. found k w missing (kept.wallets k w e);
      transfers = rw missing kept.transfers;
      events = rw missing kept.events;
      outbox = rw missing kept.outbox;
    }
  ]
    where
      found :
          (k : Text) (w : Wallet)
          → find_wallet id d ≡ none
          → find_wallet k d ≡ some w
          → find_wallet k (opened p id d) ≡ some w
      found k w missing e = elim (Bool-cases (text_eq id k)) [
        | inl same ↦ let is_k = text_eq→eq id k same in cc
        | inr differs ↦ find_wallet-opened doc id k d missing ∙ rw differs e
      ]

  module _ (from to : Text) (amount : p.Decimal) (request_id : Option Text)
      (metadata : Option Metadata) (db : Db) (undebited : IsUndebited p db.transfers) where
    abbrev C : Error → Type 0
    C e = (e ≡ failure) × Refused p

    -- Nothing is compensated, and the answer says that the transfer failed.
    abbrev pub Idle : TransferCommandResult → Db → Type 0
    Idle r d = (r.transfer_status ≡ TransferStatus.failed) × (r.command.events ≡ []) × IsKept db d

    compensate_locked-Idle :
        (w : Wallet) (d : Db)
        → IsKept db d
        → Ensures C (compensate_locked p from to amount request_id metadata w d) Idle
    unfolding compensate_locked effect
    compensate_locked-Idle w d kept =
        run_rule doc C (λ r. (refl, r)) (select Table.transfers (supports_pessimistic_lock p)) _ d _
          tt
          (rw
            (find_debited-IsUndebited p from to (p.stored (p.to_text amount)) d.transfers
              (subst (IsUndebited p) (sym kept.transfers) undebited))
            (run_rule doc C (λ r. (refl, r)) commit _ d _ tt (refl, refl, kept)))

    lock_both-Idle :
        (first second : Text)
        → Ensures C
            ((lock_wallet p first >>= λ first_wallet. lock_wallet p second >>= λ second_wallet.
                compensate_locked p from to amount request_id metadata
                  (if text_eq first_wallet.id from then first_wallet else second_wallet))
              db)
            Idle
    lock_both-Idle first second =
        lock_wallet_rule doc C (λ r. (refl, r)) first _ db _
          λ w _.
            lock_wallet_rule doc C (λ r. (refl, r)) second _ (opened p first db) _
              λ v _. compensate_locked-Idle (if text_eq w.id from then w else v) _ (
                opened-IsKept second db (opened p first db)
                  (opened-IsKept first db db (same-IsKept db)))

    pub compensate_transfer-Idle :
        Ends
          (compensate_transfer p from to amount request_id metadata db)
          Idle
          (λ e d. (d ≡ db) × (e ≡ failure) × Refused p)
    unfolding compensate_transfer compensate_body
    compensate_transfer-Idle =
        let (first, second) = order_wallet_ids from to in
        in_transaction_rule doc C (λ r. (refl, r)) _ raise db _ _ (lock_both-Idle first second)
          (λ r. (refl, refl, r)) (λ e _ c. (refl, c.0, c.1))
