-- ===== src/Consumer/Saving.antt =====
-- The row that a withdrawal or a deposit saves in the analytics of its wallet
-- (src/modules/messaging/wallet-events-consumer.service.ts).
use api_wallet.Prelude.{
  ap, ◌*◌, ℕ, ◌+◌, ◌<◌, Text, codes, text_eq, text_eq_refl, ◌≡◌, refl, sym, ◌∙◌, subst, Bool, true,
  false, ◌||◌, leb, Option, none, some, inl, inr, is_empty, or_else, if◌then◌else◌,
}
use api_wallet.Entities.{Payload, WalletAnalytics}
use api_wallet.Tables.{Db, Table, commit, select, save_analytics, effect, stored_analytics}
use api_wallet.Tables.Rows.{lookup_by, lookup_by-upsert_by, lookup_by-key}
use api_wallet.Platform.{Platform, IsDocumented, Denotes, max_units}
use api_wallet.Wallet.{ok, Error, failure, raise, Tx, ◌>>=◌, run, in_transaction}
use api_wallet.Wallet.Actions
use api_wallet.Wallet.Actions.{lift}
use api_wallet.Wallet.Outcomes.{Ends, Ensures, Refused, run_rule, in_transaction_rule}
use api_wallet.Consumer.{
  find_analytics, found_or_new, numeric_to_decimal, withdrawal_analytics, deposit_analytics,
  apply_to, apply_withdrawal, apply_deposit,
}

pub found_or_new-id :
    (id : Text) (db : Db) → (found_or_new id (find_analytics id db)).wallet_id ≡ id
unfolding find_analytics
found_or_new-id id db =
    go (lookup_by (λ a. a.wallet_id) id db.analytics)
      (λ a e. lookup_by-key (λ a. a.wallet_id) id a db.analytics e)
  where
    go :
        (o : Option WalletAnalytics)
        → ((a : WalletAnalytics) → o ≡ some a → a.wallet_id ≡ id)
        → (found_or_new id o).wallet_id ≡ id
    go none h = refl
    go (some a) h = h a refl

module _ {p : Platform} (doc : IsDocumented p) where
  abbrev IsFailure : Error → Type 0
  IsFailure e = (e ≡ failure) × Refused p

  saved-found :
      (id : Text) (a : WalletAnalytics) (db : Db)
      → a.wallet_id ≡ id
      → find_analytics id (effect p.stored p.uuid (save_analytics a) db)
        ≡ some (stored_analytics p.stored p.uuid a)
  unfolding find_analytics effect
  saved-found id a db e =
      lookup_by-upsert_by (λ r. r.wallet_id) id (stored_analytics p.stored p.uuid a) db.analytics
      ∙ rw (subst (λ k. text_eq a.wallet_id k ≡ true) e (text_eq_refl a.wallet_id)) refl

  numeric_rule :
      {B : Type 0} (C : Error → Type 0) (t : Text) (n : ℕ) (k : p.Decimal → Tx B) (db : Db)
      (Q : B → Db → Type 0)
      → Denotes p t n
      → Ensures C (k (p.money n) db) Q
      → Ensures C ((numeric_to_decimal p (some t) >>= k) db) Q
  unfolding numeric_to_decimal
  numeric_rule C t n k db Q d h = rw (d, ◌>>=◌) h

  -- The commit ends the body.
  commit_rule :
      (db : Db) (Q : Unit {0} → Db → Type 0) → Q tt db → Ensures IsFailure (run p commit db) Q
  unfolding run effect
  commit_rule db Q h = elim (doc.executed commit db) [
    | inl e ↦ rw (run, e) (refl, (commit, db, tt, e))
    | inr e ↦ rw (run, e) h
  ]

  gte_threshold : (k n : ℕ) → p.gte (p.money n) (p.of_number k) ≡ leb (k * 10000) n
  gte_threshold k n = rw (doc.of_number_money k) (doc.gte_money n (k * 10000))

  flags_join :
      (x y : Bool) (flag : Option Bool)
      → (if y then some true else (if x then some true else flag))
        ≡ (if x || y then some true else flag)
  flags_join true true flag = refl
  flags_join true false flag = refl
  flags_join false true flag = refl
  flags_join false false flag = refl

  module _ (id : Text) (n w : ℕ) (db : Db) where
    abbrev current : WalletAnalytics
    current = found_or_new id (find_analytics id db)

    sum_text : w + n < max_units → Denotes p (p.to_fixed (p.plus (p.money w) (p.money n))) (w + n)
    sum_text small =
        rw (doc.plus_money w n, doc.significant_small (w + n) small) (doc.to_fixed_money (w + n))

    -- The row after a withdrawal of `n`, with the new total.
    abbrev pub withdrawn_row : Text → WalletAnalytics
    withdrawn_row total = record current {
      total_withdrawn = some total;
      withdrawals_count = some (or_else current.withdrawals_count 0 + 1);
      flagged_for_review =
          if leb (10000 * 10000) n || leb (5000 * 10000) (w + n)
          then some true
          else current.flagged_for_review;
    }

    -- The row after a deposit of `n`, with the new total.
    abbrev pub deposited_row : Text → WalletAnalytics
    deposited_row total = record current {
      total_deposited = some total;
      deposits_count = some (or_else current.deposits_count 0 + 1);
    }

    -- The row is saved with the new total, and nothing else changes.
    abbrev pub Saves : (Text → WalletAnalytics) → Unit {0} → Db → Type 0
    Saves row _ d =
        (total : Text) × Denotes p total (w + n)
        × (d ≡ effect p.stored p.uuid (save_analytics (row total)) db)

    withdrawal_analytics-Saves :
        Denotes p (or_else current.total_withdrawn (codes "0")) w
        → w + n < max_units
        → Ensures IsFailure (withdrawal_analytics p id (p.money n) db) (Saves withdrawn_row)
    unfolding withdrawal_analytics effect
    withdrawal_analytics-Saves e small =
        let total = p.to_fixed (p.plus (p.money w) (p.money n)) in
        let row : Option Bool → WalletAnalytics = λ flag. record current {
          total_withdrawn = some total;
          withdrawals_count = some (or_else current.withdrawals_count 0 + 1);
          flagged_for_review = flag;
        } in
        let flagged : Option Bool =
          if p.gte (p.money (w + n)) (p.of_number 5000)
          then some true
          else (if p.gte (p.money n) (p.of_number 10000)
              then some true
              else current.flagged_for_review) in
        let Q = Saves withdrawn_row in
        run_rule doc IsFailure (λ r. (refl, r)) (select Table.analytics true) _ db Q tt
          (numeric_rule IsFailure (or_else current.total_withdrawn (codes "0")) w _ db Q e (
            numeric_rule IsFailure total (w + n) _ db Q (sum_text small) (
              run_rule doc IsFailure (λ r. (refl, r)) (save_analytics (row flagged)) _ db Q tt
                (commit_rule (effect p.stored p.uuid (save_analytics (row flagged)) db) Q (
                  total,
                  sum_text small,
                  ap (λ flag. effect p.stored p.uuid (save_analytics (row flag)) db) {x = flagged}
                      {y = (withdrawn_row total).flagged_for_review}
                      (rw (gte_threshold 10000 n, gte_threshold 5000 (w + n))
                        (flags_join (leb (10000 * 10000) n) (leb (5000 * 10000) (w + n))
                          current.flagged_for_review)),
                )))))

    deposit_analytics-Saves :
        Denotes p (or_else current.total_deposited (codes "0")) w
        → w + n < max_units
        → Ensures IsFailure (deposit_analytics p id (p.money n) db) (Saves deposited_row)
    unfolding deposit_analytics effect
    deposit_analytics-Saves e small =
        let total = p.to_fixed (p.plus (p.money w) (p.money n)) in
        let row = deposited_row total in
        let Q = Saves deposited_row in
        run_rule doc IsFailure (λ r. (refl, r)) (select Table.analytics true) _ db Q tt
          (numeric_rule IsFailure (or_else current.total_deposited (codes "0")) w _ db Q e (
            run_rule doc IsFailure (λ r. (refl, r)) (save_analytics row) _ db Q tt
              (commit_rule (effect p.stored p.uuid (save_analytics row) db) Q
                (total, sum_text small, refl))))

    -- A transaction that ends as its body ensures, or throws and changes nothing.
    apply_to-Ends :
        (body : Text → p.Decimal → Tx (Unit {0})) (Q : Unit {0} → Db → Type 0) (t : Text)
        → is_empty id ≡ false
        → Denotes p t n
        → Ensures IsFailure (body id (p.money n) db) Q
        → Ends (apply_to p body id (some t) db) Q (λ e d. (d ≡ db) × (e ≡ failure) × Refused p)
    unfolding apply_to numeric_to_decimal
    apply_to-Ends body Q t filled d h =
        let amount : lift (numeric_to_decimal p (some t)) db ≡ (ok (p.money n), db) =
          rw (lift, d) refl in
        rw filled (
          subst
            (λ out.
              Ends ((Actions.◌>>=◌ (λ _. out) (λ a. in_transaction p (body id a) raise)) db) Q
                (λ e d'. (d' ≡ db) × (e ≡ failure) × Refused p))
            (sym amount)
            (in_transaction_rule doc IsFailure (λ r. (refl, r)) (body id (p.money n)) raise db Q _ h
              (λ r. (refl, refl, r)) (λ e _ (f, r). (refl, f, r))))

    -- What is known of the wallet afterwards.
    pub Saves-found :
        (row : Text → WalletAnalytics)
        → ((total : Text) → (row total).wallet_id ≡ current.wallet_id)
        → (d : Db) → Saves row tt d
        → (total : Text) × Denotes p (p.stored total) (w + n)
          × (find_analytics id d ≡ some (stored_analytics p.stored p.uuid (row total)))
    Saves-found row keeps d (total, e, saved) = (
      total,
      doc.stored_money total (w + n) e,
      subst (λ d. find_analytics id d ≡ some (stored_analytics p.stored p.uuid (row total)))
          (sym saved) (saved-found id (row total) db (keeps total ∙ found_or_new-id id db)),
    )

    abbrev Thrown : Error → Db → Type 0
    Thrown e d = (d ≡ db) × (e ≡ failure) × Refused p

    module _ (payload : Payload) (t : Text) (named : payload.wallet_id ≡ some id)
        (filled : is_empty id ≡ false) (given : payload.amount ≡ some t) (amount : Denotes p t n)
        (small : w + n < max_units) where
      pub apply_withdrawal-Saves :
          Denotes p (or_else current.total_withdrawn (codes "0")) w
          → Ends (apply_withdrawal p payload db) (Saves withdrawn_row) Thrown
      unfolding apply_withdrawal
      apply_withdrawal-Saves before =
          subst (λ r. Ends r (Saves withdrawn_row) Thrown) (sym (rw (named, given) refl))
            (apply_to-Ends (withdrawal_analytics p) _ t filled amount
              (withdrawal_analytics-Saves before small))

      pub apply_deposit-Saves :
          Denotes p (or_else current.total_deposited (codes "0")) w
          → Ends (apply_deposit p payload db) (Saves deposited_row) Thrown
      unfolding apply_deposit
      apply_deposit-Saves before =
          subst (λ r. Ends r (Saves deposited_row) Thrown) (sym (rw (named, given) refl))
            (apply_to-Ends (deposit_analytics p) _ t filled amount
              (deposit_analytics-Saves before small))
