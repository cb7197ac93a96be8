-- ===== src/Consumer/Counting.antt =====
-- The analytics of the wallets when one more event is applied
-- (src/modules/messaging/wallet-events-consumer.service.ts).
use api_wallet.Prelude.{
  ap, ◌*◌, ℕ, ◌+◌, ◌<◌, Text, text_eq, text_eq_refl, text_eq→eq, ◌≡◌, refl, sym, subst, Bool, true,
  false, ◌||◌, leb, Option, none, some, or_else, if◌then◌else◌, List, ◌∷◌, arith,
}
use api_wallet.Entities.{
  EventType, funds_deposited, funds_withdrawn, transfer_initiated, transfer_completed,
  transfer_failed, transfer_compensated, WalletAnalytics,
}
use api_wallet.Tables.{Db, save_analytics, effect, stored_analytics}
use api_wallet.Tables.Rows.{lookup_by, lookup_by-upsert_by}
use api_wallet.Platform.{Platform, IsDocumented, Denotes, max_units}
use api_wallet.Wallet.{Error}
use api_wallet.Wallet.Outcomes.{Ends, Refused}
use api_wallet.Wallet.Requests.{Ends_mono}
use api_wallet.Consumer.{find_analytics, found_or_new, apply_deposit, apply_withdrawal, apply_event}
use api_wallet.Consumer.Saving.{
  found_or_new-id, withdrawn_row, deposited_row, apply_withdrawal-Saves, apply_deposit-Saves,
}
use api_wallet.Consumer.Tally.{
  Delivery, IsProper, is_deposit, is_withdrawal, concerns, sum_of, all_units, Agrees, Tallied,
  sum_of_le,
}

abbrev pub Never : Error → Db → Type 0
Never _ _ = ⊥

module _ (p : Platform) (m : Delivery) (seen : List Delivery) where
  -- A delivery that does not concern a wallet leaves its tallies.
  other-Agrees :
      (wallet : Text) (a : WalletAnalytics)
      → concerns is_deposit wallet m ≡ false
      → concerns is_withdrawal wallet m ≡ false
      → Agrees p seen wallet a
      → Agrees p (m ∷ seen) wallet a
  other-Agrees wallet a d w h = rw (d, w) h

  not_concerned :
      (is_kind : EventType → Bool) (wallet : Text)
      → text_eq m.wallet wallet ≡ false
      → concerns is_kind wallet m ≡ false
  not_concerned is_kind wallet e = ground arith

  deposit-Agrees :
      (a : WalletAnalytics) (total : Text)
      → m.pattern_type ≡ funds_deposited
      → Denotes p total (sum_of is_deposit m.wallet seen + m.units)
      → Agrees p seen m.wallet a
      → Agrees p (m ∷ seen) m.wallet (record a {
        total_deposited = some total;
        deposits_count = some (or_else a.deposits_count 0 + 1);
      })
  deposit-Agrees a total e new (d, w, nd, nw, flag) =
      rw (e, text_eq_refl m.wallet) (new, w, ap (λ n. n + 1) nd, nw, flag)

  flag_rises :
      (flag : Option Bool) (w n : ℕ)
      → or_else flag false ≡ leb (5000 * 10000) w
      → or_else
          (if leb (10000 * 10000) n || leb (5000 * 10000) (w + n) then some true else flag)
          false
        ≡ leb (5000 * 10000) (w + n)
  flag_rises none w n h = ground arith
  flag_rises (some b) w n h = ground arith

  withdrawal-Agrees :
      (a : WalletAnalytics) (total : Text)
      → m.pattern_type ≡ funds_withdrawn
      → Denotes p total (sum_of is_withdrawal m.wallet seen + m.units)
      → Agrees p seen m.wallet a
      → Agrees p (m ∷ seen) m.wallet (record a {
        total_withdrawn = some total;
        withdrawals_count = some (or_else a.withdrawals_count 0 + 1);
        flagged_for_review =
            if leb (10000 * 10000) m.units
              || leb (5000 * 10000) (sum_of is_withdrawal m.wallet seen + m.units)
            then some true
            else a.flagged_for_review;
      })
  withdrawal-Agrees a total e new (d, w, nd, nw, flag) =
      rw (e, text_eq_refl m.wallet)
        (
          d,
          new,
          nd,
          ap (λ n. n + 1) nw,
          flag_rises a.flagged_for_review (sum_of is_withdrawal m.wallet seen) m.units flag,
        )

-- A row that agrees still does as its columns keep it.
stored-Agrees :
    {p : Platform} (doc : IsDocumented p) (m : Delivery) (seen : List Delivery)
    (a : WalletAnalytics)
    → Agrees p (m ∷ seen) m.wallet a
    → Agrees p (m ∷ seen) m.wallet (stored_analytics p.stored p.uuid a)
stored-Agrees doc m seen a (d, w, nd, nw, flag) =
    (doc.stored_money _ _ d, doc.stored_money _ _ w, nd, nw, flag)

module _ {p : Platform} (doc : IsDocumented p) (reliable : ¬ Refused p) (m : Delivery)
    (seen : List Delivery) (db : Db) (proper : IsProper p m) (tallied : Tallied p seen db) where
  -- The analytics count the delivery, and no event is consumed yet.
  abbrev pub Counted : Unit {0} → Db → Type 0
  Counted _ d =
      ((wallet : Text) → Agrees p (m ∷ seen) wallet (found_or_new wallet (find_analytics wallet d)))
      × (d.consumed ≡ db.consumed)

  -- A row of the delivery's wallet is saved.
  saves-Counted :
      (row : WalletAnalytics) (d : Db)
      → row.wallet_id ≡ m.wallet
      → Agrees p (m ∷ seen) m.wallet row
      → d ≡ effect p.stored p.uuid (save_analytics row) db
      → Counted tt d
  unfolding effect find_analytics
  saves-Counted row d named agrees saved = rw saved (counts, refl)
    where
      known :
          (wallet : Text) (same : Bool)
          → text_eq m.wallet wallet ≡ same
          → Agrees p (m ∷ seen) wallet (
              found_or_new wallet (
                if same
                then some (stored_analytics p.stored p.uuid row)
                else lookup_by (λ a. a.wallet_id) wallet db.analytics))
      known wallet true e =
          subst (λ w. Agrees p (m ∷ seen) w (stored_analytics p.stored p.uuid row))
            (text_eq→eq m.wallet wallet e) (stored-Agrees doc m seen row agrees)
      known wallet false e =
          other-Agrees p m seen wallet
            (found_or_new wallet (lookup_by (λ a. a.wallet_id) wallet db.analytics))
            (not_concerned p m seen is_deposit wallet e)
            (not_concerned p m seen is_withdrawal wallet e) (tallied.0 wallet)

      counts :
          (wallet : Text)
          → Agrees p (m ∷ seen) wallet (
              found_or_new wallet
                (find_analytics wallet (effect p.stored p.uuid (save_analytics row) db)))
      counts wallet =
          subst (λ o. Agrees p (m ∷ seen) wallet (found_or_new wallet o))
            (sym (
              lookup_by-upsert_by (λ a. a.wallet_id) wallet (stored_analytics p.stored p.uuid row)
                db.analytics))
            (known wallet (text_eq row.wallet_id wallet) (ap (λ w. text_eq w wallet) (sym named)))

  -- An event of another type leaves the analytics.
  ignored-Counted :
      is_deposit m.pattern_type ≡ false → is_withdrawal m.pattern_type ≡ false → Counted tt db
  ignored-Counted d w = (
    λ wallet.
        other-Agrees p m seen wallet (found_or_new wallet (find_analytics wallet db)) (rw d refl)
          (rw w refl) (tallied.0 wallet),
    refl,
  )

  pub apply_event-Counted :
      all_units seen + m.units < max_units
      → (event_type : EventType) → m.pattern_type ≡ event_type
      → Ends (apply_event p event_type m.payload db) Counted Never
  apply_event-Counted small funds_deposited e =
      let (t, given, amount) = proper.4 in
      let w = sum_of is_deposit m.wallet seen in
      Ends_mono (apply_deposit p m.payload db) _ Counted _ Never
        (apply_deposit-Saves doc m.wallet m.units w db m.payload t proper.2 proper.3 given amount
          (omega (arith, sum_of_le is_deposit m.wallet seen)) (tallied.0 m.wallet).0)
        (λ _ d (total, denotes, saved).
          saves-Counted (deposited_row doc m.wallet m.units w db total) d
            (found_or_new-id m.wallet db)
            (deposit-Agrees p m seen (found_or_new m.wallet (find_analytics m.wallet db)) total e
              denotes (tallied.0 m.wallet))
            saved)
        (λ _ _ (_, _, refused). reliable refused)
  apply_event-Counted small funds_withdrawn e =
      let (t, given, amount) = proper.4 in
      let w = sum_of is_withdrawal m.wallet seen in
      Ends_mono (apply_withdrawal p m.payload db) _ Counted _ Never
        (apply_withdrawal-Saves doc m.wallet m.units w db m.payload t proper.2 proper.3 given amount
          (omega (arith, sum_of_le is_withdrawal m.wallet seen)) (tallied.0 m.wallet).1)
        (λ _ d (total, denotes, saved).
          saves-Counted (withdrawn_row doc m.wallet m.units w db total) d
            (found_or_new-id m.wallet db)
            (withdrawal-Agrees p m seen (found_or_new m.wallet (find_analytics m.wallet db)) total e
              denotes (tallied.0 m.wallet))
            saved)
        (λ _ _ (_, _, refused). reliable refused)
  apply_event-Counted small transfer_initiated e = ignored-Counted (rw e refl) (rw e refl)
  apply_event-Counted small transfer_completed e = ignored-Counted (rw e refl) (rw e refl)
  apply_event-Counted small transfer_failed e = ignored-Counted (rw e refl) (rw e refl)
  apply_event-Counted small transfer_compensated e = ignored-Counted (rw e refl) (rw e refl)
