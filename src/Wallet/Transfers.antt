-- ===== src/Wallet/Transfers.antt =====
-- Transfers: what they do to the books, on every branch.
use api_wallet.Prelude.{
  ℕ, ◌+◌, ◌-◌, ◌≤◌, ◌<◌, Text, text_eq, text_eq→eq, text_eq_iff, suc, codes, or_else, ◌≡◌, ◌≢◌,
  refl, sym, ◌∙◌, ap, subst, true, false, Bool-cases, Option, some, none, List, [], ◌∷◌, ◌++◌, inl,
  inr, arith, ltb, ltb→lt, ltb→le,
}
use api_wallet.Entities.{
  EventType, funds_deposited, funds_withdrawn, transfer_initiated, transfer_completed, Metadata,
  Value, assign, Wallet, credited, Transfer,
}
use api_wallet.Tables.{
  Db, find_wallet, commit, save_wallets, save_events, save_outbox, save_transfer, effect, event_row,
}
use api_wallet.Platform.{Platform, IsDocumented, Denotes, max_units}
use api_wallet.Wallet.{create_event, Error, failure, bad_request, insufficient_funds_for_transfer}
use api_wallet.Wallet.Transfer.{new_transfer, move_funds}
use api_wallet.Wallet.Outcomes.{
  Ensures, run_rule, checked_run_rule, balance_rule, throw_if_rule, Refused, sum_exact, sum_large,
}
use api_wallet.Wallet.Books.{
  Ledger, set, Entry, credits-append, debits-append, IsBooked, IsDenoted, IsAudited-append_three,
  save_transfer-IsUndebited, Balances, Books, IsReplayed, Holds, IsAudited-append,
  save_wallet-Balances,
}

module _ {p : Platform} (doc : IsDocumented p) (from to : Text) (n : ℕ) (request_id : Option Text)
    (metadata : Option Metadata) (C : Error → Type 0) (refused : Refused p → C failure) where
  -- A transfer of this amount is refused for a reason, or because it is zero.
  transfer_fails :
      (t : Transfer) (db : Db)
      → (n ≡ 0 → C failure)
      → Denotes p t.amount n
      → p.execute (save_transfer t) db ≡ none
      → C failure
  transfer_fails t db zero d thrown = elim (Bool-cases (ltb 0 n)) [
    | inl above ↦ refused (save_transfer t, db, (n, d, ltb→lt _ _ above), thrown)
    | inr nothing ↦ zero (omega (arith, ltb→le _ _ nothing))
  ]

  -- Only a transfer above zero is saved.
  saved_positive :
      (t : Transfer) (db : Db)
      → Denotes p t.amount n
      → p.execute (save_transfer t) db ≢ none
      → 0 < n
  saved_positive t db d saved = elim (Bool-cases (ltb 0 n)) [
    | inl above ↦ ltb→lt _ _ above
    | inr nothing ↦
        let z : n ≡ 0 = omega (arith, ltb→le _ _ nothing) in
        absurd (saved (doc.amount_positive t db (subst (Denotes p t.amount) z d)))
  ]

  -- Both balances are saved: each wallet gets its own.
  moved-Balances :
      (wf wt : Wallet) (a b : ℕ) (db : Db) (ledger : Ledger)
      → Balances p db ledger
      → wf.id ≡ from
      → wt.id ≡ to
      → Denotes p wf.balance a × (a < max_units)
      → Denotes p wt.balance b × (b < max_units)
      → Balances p
          (effect p.stored p.uuid (save_wallets (wf ∷ wt ∷ [])) db)
          (set (set ledger from a) to b)
  unfolding effect find_wallet
  moved-Balances wf wt a b db ledger h kf kt (df, ff) (dt, ft) k =
      let after = effect p.stored p.uuid (save_wallets (wf ∷ [])) db in
      let first = save_wallet-Balances doc wf a db ledger h df ff in
      subst
        (λ i.
          Holds p (find_wallet k (effect p.stored p.uuid (save_wallets (wf ∷ wt ∷ [])) db))
            (set (set ledger from a) i b k))
        kt
        (subst
          (λ i.
            Holds p (find_wallet k (effect p.stored p.uuid (save_wallets (wf ∷ wt ∷ [])) db))
              (set (set ledger i a) wt.id b k))
          kf (save_wallet-Balances doc wt b after (set ledger wf.id a) first dt ft k))

  abbrev entry_at : Db → ℕ → Text → EventType → Option Metadata → Entry
  entry_at db i id event_type details = record {
    event =
        event_row p.stored p.uuid db.clock i
          (create_event p id event_type (p.money n) request_id details);
    units = n;
  }

  abbrev first_entry : Db → Entry
  first_entry db = entry_at db (suc db.issued) from transfer_initiated metadata

  abbrev later_entries : Db → List Entry
  later_entries db =
      entry_at db (suc (suc (suc db.issued))) from funds_withdrawn metadata
      ∷ entry_at db (suc (suc (suc (suc db.issued)))) to funds_deposited metadata
      ∷ entry_at db (suc (suc (suc (suc (suc db.issued))))) from transfer_completed
          (some (assign (codes "toWalletId") (Value.text to) (or_else metadata [])))
      ∷ []

  moved-IsReplayed :
      (db : Db) (ledger : Ledger) (journal : List Entry)
      → text_eq from to ≡ false
      → n ≤ ledger from
      → IsReplayed p ledger journal
      → IsReplayed p
          (set (set ledger from (ledger from - n)) to (ledger to + n))
          (journal ++ first_entry db ∷ [] ++ later_entries db)
  unfolding create_event
  moved-IsReplayed db ledger journal other covered h k = ground (
    arith,
    h k,
    credits-append k (journal ++ first_entry db ∷ []) (later_entries db),
    credits-append k journal (first_entry db ∷ []),
    debits-append k (journal ++ first_entry db ∷ []) (later_entries db),
    debits-append k journal (first_entry db ∷ []),
    text_eq_iff from to,
    text_eq_iff from k,
    text_eq_iff to k,
    λ (e : text_eq from k ≡ true). ap ledger (text_eq→eq from k e),
    λ (e : text_eq to k ≡ true). ap ledger (text_eq→eq to k e),
  )

  pub move_funds-Ensures :
      (wf wt : Wallet) (db : Db) (ledger : Ledger) (journal : List Entry)
      → text_eq from to ≡ false
      → (ledger from < n → C (bad_request insufficient_funds_for_transfer))
      → (max_units ≤ ledger to + n → C failure)
      → (n ≡ 0 → C failure)
      → wf.id ≡ from
      → wt.id ≡ to
      → Holds p (some wf) (ledger from)
      → Holds p (some wt) (ledger to)
      → IsBooked p db ledger journal
      → Ensures C (move_funds p from to (p.money n) request_id metadata wf wt db) (λ r db'.
        (0 < n)
        × (n ≤ ledger from)
        × Books p db' (set (set ledger from (ledger from - n)) to (ledger to + n))
        × Denotes p r.command.balance (ledger from - n)
        × (r.transfer_status ≡ credited))
  unfolding move_funds effect find_wallet
  move_funds-Ensures wf wt db ledger journal other short large zero kf kt hf ht h =
      balance_rule doc C refused wf.balance (ledger from) _ _ _ hf.0 (
        throw_if_rule doc C refused _ _ _ _ _
          (λ less. short (ltb→lt _ _ (sym (doc.lt_money _ n) ∙ less)))
          λ enough.
            let covered : n ≤ ledger from = ltb→le _ _ (sym (doc.lt_money _ n) ∙ enough) in
            let df : Denotes p (p.to_fixed (p.minus (p.money (ledger from)) (p.money n)))
                (ledger from - n) =
              rw (doc.minus_money _ n covered hf.1) (doc.to_fixed_money _) in
            let ff : ledger from - n < max_units = omega (arith, hf.1) in
            let dt : Denotes p (p.to_fixed (p.plus (p.money (ledger to)) (p.money n)))
                (p.significant (ledger to + n)) =
              rw doc.plus_money (doc.to_fixed_money _) in
            checked_run_rule doc C refused (save_transfer _) _ _ _
              (transfer_fails _ _ zero (doc.to_text_money n))
              λ saved. run_rule doc C refused (save_events _) _ _ _ tt (
                run_rule doc C refused (save_outbox _) _ _ _ tt (
                  balance_rule doc C refused wt.balance (ledger to) _ _ _ ht.0 (
                    checked_run_rule doc C refused (save_wallets _) _ _ _
                      (λ thrown. elim (Bool-cases (ltb (p.significant (ledger to + n)) max_units)) [
                        | inl small ↦ refused (
                          _,
                          _,
                          (
                            (ledger from - n, df, ff),
                            ((p.significant (ledger to + n), dt, ltb→lt _ _ small), tt),
                          ),
                          thrown,
                        )
                        | inr big ↦ large (sum_large doc _ _ (ltb→le _ _ big))
                      ])
                      λ saved2.
                        checked_run_rule doc C refused (save_transfer _) _ _ _
                          (transfer_fails _ _ zero (doc.to_text_money n))
                          λ saved3. run_rule doc C refused (save_events _) _ _ _ tt (
                            run_rule doc C refused (save_outbox _) _ _ _ tt (
                              run_rule doc C refused (save_outbox _) _ _ _ tt (
                                run_rule doc C refused (save_outbox _) _ _ _ tt (
                                  run_rule doc C refused commit _ _ _ tt (
                                    let ft : p.significant (ledger to + n) < max_units =
                                      (doc.balance_fits (_ ∷ _ ∷ []) _ saved2).1.0 _ dt in
                                    let den : IsDenoted p (first_entry db) =
                                      (_, refl, doc.stored_money _ n (doc.to_fixed_money n)) in
                                    (
                                      saved_positive _ _ (doc.to_text_money n) saved,
                                      covered,
                                      (
                                        journal ++ first_entry db ∷ [] ++ later_entries db,
                                        record {
                                          balances =
                                              moved-Balances
                                                (record wf {
                                                  balance =
                                                      p.to_fixed (
                                                        p.minus (p.money (ledger from))
                                                          (p.money n));
                                                })
                                                (record wt {
                                                  balance =
                                                      p.to_fixed
                                                        (p.plus (p.money (ledger to)) (p.money n));
                                                })
                                                (ledger from - n) (ledger to + n) db ledger
                                                h.balances kf kt (df, ff)
                                                (subst
                                                  (λ m.
                                                    Denotes p
                                                      (p.to_fixed
                                                        (p.plus (p.money (ledger to)) (p.money n)))
                                                      m
                                                    × (m < max_units))
                                                  (sum_exact doc _ _ ft) (dt, ft));
                                          audited =
                                              IsAudited-append_three
                                                (journal ++ first_entry db ∷ [])
                                                (IsAudited-append journal h.audited
                                                  (first_entry db ∷ []) (_ ∷ []) (den, tt) refl)
                                                (later_entries db) _ _ _ (den, (den, (den, tt)))
                                                refl;
                                          replayed =
                                              moved-IsReplayed db ledger journal other covered
                                                h.replayed;
                                          undebited =
                                              let t =
                                                new_transfer p from to (p.money n) request_id
                                                  metadata in
                                              save_transfer-IsUndebited p
                                                (record t {
                                                  id = some (p.uuid db.issued);
                                                  status = credited;
                                                })
                                                (effect p.stored p.uuid (save_transfer t) db)
                                                (save_transfer-IsUndebited p t db h.undebited refl)
                                                refl;
                                        },
                                      ),
                                      df,
                                      refl,
                                    ))))))))))
