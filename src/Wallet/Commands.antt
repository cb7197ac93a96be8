-- ===== src/Wallet/Commands.antt =====
-- Deposits and withdrawals: what they do to the books, on every branch.
use api_wallet.Prelude.{
  ℕ, ◌+◌, ◌-◌, ◌≤◌, ◌<◌, Text, text_eq, ◌≡◌, refl, sym, ◌∙◌, ap, Option, List, [], ◌∷◌, ◌++◌, arith,
  text_eq→eq, true, Bool-cases, inl, inr, ltb, ltb→lt, ltb→le, subst,
}
use api_wallet.Entities.{EventType, funds_deposited, funds_withdrawn, Metadata, Wallet}
use api_wallet.Tables.{
  Db, find_wallet, commit, save_wallets, save_events, save_outbox, effect, event_row,
}
use api_wallet.Tables.Rows.{lookup_by-key}
use api_wallet.Platform.{Platform, IsDocumented, Denotes, max_units}
use api_wallet.Wallet.{
  create_event, record_command, deposit_body, withdraw_body, normalize_amount, ok, Error, failure,
  raise, bad_request, insufficient_funds, deposit, withdraw,
}
use api_wallet.Wallet.Outcomes.{
  Ensures, Ends, run_rule, checked_run_rule, lock_wallet_rule, balance_rule, throw_if_rule,
  in_transaction_rule, sum_exact, sum_large, opened, Refused, Cause, Ensures_mono,
}
use api_wallet.Wallet.Books.{
  Ledger, set, Entry, credit, debit, credits-append, debits-append, IsBooked, Books, IsReplayed,
  Holds, IsAudited-append, save_wallet-Balances, opened-IsBooked,
}

module _ {p : Platform} (doc : IsDocumented p) (request_id : Option Text)
    (metadata : Option Metadata) where
  -- The row that an event of the service leaves.
  abbrev logged_event : Db → Text → EventType → ℕ → Entry
  logged_event db id event_type n = record {
    event =
        event_row p.stored p.uuid db.clock db.issued
          (create_event p id event_type (p.money n) request_id metadata);
    units = n;
  }

  IsReplayed-set :
      (db : Db) (id : Text) (event_type : EventType) (n m : ℕ) (ledger : Ledger)
      (journal : List Entry)
      → IsReplayed p ledger journal
      → m + debit event_type n ≡ ledger id + credit event_type n
      → IsReplayed p (set ledger id m) (journal ++ logged_event db id event_type n ∷ [])
  unfolding create_event
  IsReplayed-set db id event_type n m ledger journal h balanced k =
      let entries = logged_event db id event_type n ∷ [] in
      ground (
        arith,
        h k,
        credits-append k journal entries,
        debits-append k journal entries,
        λ (e : text_eq id k ≡ true). ap ledger (text_eq→eq id k e),
      )

  module _ (C : Error → Type 0) (refused : Refused p → C failure) where
    record_command-Ensures :
        (id : Text) (event_type : EventType) (n m t : ℕ) (w : Wallet) (db : Db) (ledger : Ledger)
        (journal : List Entry)
        → IsBooked p db ledger journal
        → w.id ≡ id
        → Denotes p w.balance m
        → (m < max_units → m ≡ t)
        → (max_units ≤ m → C failure)
        → t + debit event_type n ≡ ledger id + credit event_type n
        → Ensures C
            (record_command p id (p.money n) request_id metadata w event_type db)
            (λ r db'. Books p db' (set ledger id t) × Denotes p r.balance t)
    unfolding record_command effect find_wallet
    record_command-Ensures id event_type n m t w db ledger journal h key d exact misfit balanced =
        checked_run_rule doc C refused (save_wallets (w ∷ [])) _ db _
          (λ thrown. elim (Bool-cases (ltb m max_units)) [
            | inl small ↦
                refused (save_wallets (w ∷ []), db, ((m, d, ltb→lt _ _ small), tt), thrown)
            | inr large ↦ misfit (ltb→le _ _ large)
          ])
          λ saved.
            let fits : m < max_units = (doc.balance_fits (w ∷ []) db saved).0 m d in
            let d' : Denotes p w.balance t = subst (Denotes p w.balance) (exact fits) d in
            let entry = logged_event db id event_type n in
            run_rule doc C refused (save_events _) _ _ _ tt (
              run_rule doc C refused (save_outbox _) _ _ _ tt (
                run_rule doc C refused commit _ _ _ tt (
                  (
                    journal ++ entry ∷ [],
                    record {
                      balances = λ k.
                          subst
                            (λ i.
                              Holds p
                                (find_wallet k (effect p.stored p.uuid (save_wallets (w ∷ [])) db))
                                (set ledger i t k))
                            key
                            (save_wallet-Balances doc w t db ledger h.balances d'
                              (subst (λ a. a < max_units) (exact fits) fits) k);
                      audited =
                          IsAudited-append journal h.audited (entry ∷ []) (_ ∷ [])
                            ((_, refl, doc.stored_money _ n (doc.to_fixed_money n)), tt) refl;
                      replayed =
                          IsReplayed-set db id event_type n t ledger journal h.replayed balanced;
                      undebited = h.undebited;
                    },
                  ),
                  d',
                )))

    deposit_body-Ensures :
        (id : Text) (n : ℕ) (db : Db) (ledger : Ledger)
        → (max_units ≤ ledger id + n → C failure)
        → Books p db ledger
        → Ensures C (deposit_body p id (p.money n) request_id metadata db) (λ r db'.
          Books p db' (set ledger id (ledger id + n)) × Denotes p r.balance (ledger id + n))
    unfolding deposit_body find_wallet
    deposit_body-Ensures id n db ledger misfit (journal, booked) =
        lock_wallet_rule doc C refused id _ db _ λ w found.
          let b = opened-IsBooked doc id db ledger journal booked in
          let held = subst (λ o. Holds p o (ledger id)) found (b.balances id) in
          balance_rule doc C refused w.balance (ledger id) _ _ _ held.0 (
            record_command-Ensures id funds_deposited n (p.significant (ledger id + n))
              (ledger id + n) _ (opened p id db) ledger journal b
              (lookup_by-key (λ r. r.id) id w _ found) (rw doc.plus_money (doc.to_fixed_money _))
              (sum_exact doc (ledger id) n) (λ large. misfit (sum_large doc _ _ large))
              (omega arith))

    withdraw_body-Ensures :
        (id : Text) (n : ℕ) (db : Db) (ledger : Ledger)
        → (ledger id < n → C (bad_request insufficient_funds))
        → Books p db ledger
        → Ensures C (withdraw_body p id (p.money n) request_id metadata db) (λ r db'.
          (n ≤ ledger id)
          × Books p db' (set ledger id (ledger id - n))
          × Denotes p r.balance (ledger id - n))
    unfolding withdraw_body find_wallet
    withdraw_body-Ensures id n db ledger short (journal, booked) =
        lock_wallet_rule doc C refused id _ db _ λ w found.
          let b = opened-IsBooked doc id db ledger journal booked in
          let held = subst (λ o. Holds p o (ledger id)) found (b.balances id) in
          balance_rule doc C refused w.balance (ledger id) _ _ _ held.0 (
            throw_if_rule doc C refused _ _ _ _ _
              (λ less. short (ltb→lt _ _ (sym (doc.lt_money (ledger id) n) ∙ less)))
              λ enough.
                let covered : n ≤ ledger id =
                  ltb→le _ _ (sym (doc.lt_money (ledger id) n) ∙ enough) in
                Ensures_mono C
                  (λ r db'.
                    Books p db' (set ledger id (ledger id - n))
                    × Denotes p r.balance (ledger id - n))
                  _ _
                  (record_command-Ensures id funds_withdrawn n (ledger id - n) (ledger id - n) _
                    (opened p id db) ledger journal b (lookup_by-key (λ r. r.id) id w _ found)
                    (rw (doc.minus_money (ledger id) n covered held.1) (doc.to_fixed_money _))
                    (λ _. refl) (λ large. absurd (omega (arith, held.1))) (omega arith))
                  (λ r db' h. (covered, h.0, h.1)))

-- A deposit that returns adds its amount to its wallet's balance, reports that balance and keeps
-- the books. One that throws leaves the database as it was, and either the database refused an
-- acceptable statement or the new balance is too large for its column.
pub deposit-Books :
    {p : Platform} (doc : IsDocumented p) (id amount : Text) (request_id : Option Text)
    (metadata : Option Metadata) (n : ℕ) (db : Db) (ledger : Ledger)
    → normalize_amount p amount ≡ ok (p.money n)
    → Books p db ledger
    → Ends
        (deposit p id amount request_id metadata db)
        (λ r db'. Books p db' (set ledger id (ledger id + n)) × Denotes p r.balance (ledger id + n))
        (λ e db'. (db' ≡ db) × Cause p ⊥ (max_units ≤ ledger id + n) e)
unfolding deposit
deposit-Books {p} doc id amount request_id metadata n db ledger normal books =
    let C = Cause p ⊥ (max_units ≤ ledger id + n) in
    rw normal (
      in_transaction_rule doc C inl _ raise db _ _
        (deposit_body-Ensures doc request_id metadata C inl id n db ledger inr books)
        (λ r. (refl, inl r)) (λ e _ c. (refl, c)))

-- A withdrawal that returns takes its amount from its wallet's balance, which is no less than the
-- amount, reports the new balance and keeps the books. One that throws leaves the database as it
-- was, and either the wallet held less than the amount or the database refused an acceptable
-- statement.
pub withdraw-Books :
    {p : Platform} (doc : IsDocumented p) (id amount : Text) (request_id : Option Text)
    (metadata : Option Metadata) (n : ℕ) (db : Db) (ledger : Ledger)
    → normalize_amount p amount ≡ ok (p.money n)
    → Books p db ledger
    → Ends
        (withdraw p id amount request_id metadata db)
        (λ r db'.
          (n ≤ ledger id)
          × Books p db' (set ledger id (ledger id - n))
          × Denotes p r.balance (ledger id - n))
        (λ e db'. (db' ≡ db) × Cause p (ledger id < n) ⊥ e)
unfolding withdraw
withdraw-Books {p} doc id amount request_id metadata n db ledger normal books =
    let C = Cause p (ledger id < n) ⊥ in
    rw normal (
      in_transaction_rule doc C inl _ raise db _ _
        (withdraw_body-Ensures doc request_id metadata C inl id n db ledger (λ h. h) books)
        (λ r. (refl, inl r)) (λ e _ c. (refl, c)))
