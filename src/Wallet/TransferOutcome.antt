-- ===== src/Wallet/TransferOutcome.antt =====
-- A whole transfer request: it credits the receiver, or its handler leaves every balance as it was.
use api_wallet.Prelude.{
  text_eq_sym, ℕ, ◌+◌, ◌-◌, ◌≤◌, ◌<◌, Text, text_eq, text_le, text_eq_refl, ◌≡◌, refl, subst, true,
  false, Bool-cases, Option, some, none, if◌then◌else◌, List, [], ◌∷◌, ◌⊎◌, inl, inr, arith,
}
use api_wallet.Entities.{
  Metadata, Wallet, Transfer, TransferStatus, TransferCommandResult, credited,
}
use api_wallet.Tables.{Db, Table, find_wallet, select, commit, effect}
use api_wallet.Tables.Rows.{lookup_by-key}
use api_wallet.Platform.{Platform, IsDocumented, Denotes, max_units}
use api_wallet.Wallet.{
  order_wallet_ids, lock_wallet, ◌>>=◌, Tx, normalize_amount, ok, Error, failure, bad_request,
  conflict, insufficient_funds, insufficient_funds_for_transfer, raise, supports_pessimistic_lock,
}
use api_wallet.Wallet.Transfer.{move_funds, transfer_body, transfer}
use api_wallet.Wallet.Transfer.Compensation.{
  find_debited, compensate_locked, compensate_body, compensate_transfer,
}
use api_wallet.Wallet.Outcomes.{
  Ensures, Ends, Ensures_mono, run_rule, lock_wallet_rule, in_transaction_rule, opened, Refused,
  Cause,
}
use api_wallet.Wallet.Books.{
  Ledger, Entry, set, IsBooked, Books, IsUndebited, Holds, opened-IsBooked,
}
use api_wallet.Wallet.Transfers.{move_funds-Ensures}

pub find_debited-IsUndebited :
    (p : Platform) (from to amount : Text) (rows : List Transfer)
    → IsUndebited p rows
    → find_debited from to amount rows ≡ none
unfolding find_debited
find_debited-IsUndebited p from to amount [] h = refl
find_debited-IsUndebited p from to amount (t ∷ rows) h =
    ground (arith, find_debited-IsUndebited p from to amount rows h.1)

-- Both wallets are locked in the order of their ids, and then told apart.
module _ {p : Platform} (doc : IsDocumented p) (C : Error → Type 0)
    (refused : Refused p → C failure) (from to : Text) (other : text_eq from to ≡ false)
    {B : Type 0} (k : Wallet → Wallet → Tx B) (ledger : Ledger) (journal : List Entry)
    (Q : B → Db → Type 0) where
  abbrev Locked : Wallet → Wallet → Db → Type 0
  Locked from_wallet to_wallet db =
      (from_wallet.id ≡ from)
      × (to_wallet.id ≡ to)
      × Holds p (some from_wallet) (ledger from)
      × Holds p (some to_wallet) (ledger to)
      × IsBooked p db ledger journal

  lock_both_rule :
      (db : Db)
      → IsBooked p db ledger journal
      → ((w v : Wallet) (db' : Db) → Locked w v db' → Ensures C (k w v db') Q)
      → let (first_id, second_id) = order_wallet_ids from to in
        Ensures C
          ((lock_wallet p first_id >>= λ first. lock_wallet p second_id >>= λ second.
              k
                (if text_eq first.id from then first else second)
                (if text_eq first.id from then second else first))
            db)
          Q
  unfolding order_wallet_ids find_wallet
  lock_both_rule db h use_them = elim (Bool-cases (text_le from to)) [
    | inl e ↦ rw e (
        lock_wallet_rule doc C refused from _ db Q λ w found.
          lock_wallet_rule doc C refused to _ (opened p from db) Q λ v found'.
            let b = opened-IsBooked doc from db ledger journal h in
            let b' = opened-IsBooked doc to (opened p from db) ledger journal b in
            let key = lookup_by-key (λ r. r.id) from w _ found in
            let t : text_eq w.id from ≡ true = rw key (text_eq_refl from) in
            rw t (
              use_them w v _ (
                key,
                lookup_by-key (λ r. r.id) to v _ found',
                subst (λ o. Holds p o (ledger from)) found (b.balances from),
                subst (λ o. Holds p o (ledger to)) found' (b'.balances to),
                b',
              )))
    | inr e ↦ rw e (
        lock_wallet_rule doc C refused to _ db Q λ v found.
          lock_wallet_rule doc C refused from _ (opened p to db) Q λ w found'.
            let b = opened-IsBooked doc to db ledger journal h in
            let b' = opened-IsBooked doc from (opened p to db) ledger journal b in
            let key = lookup_by-key (λ r. r.id) to v _ found in
            let f : text_eq v.id from ≡ false = rw key (text_eq_sym from to other) in
            rw f (
              use_them w v _ (
                lookup_by-key (λ r. r.id) from w _ found',
                key,
                subst (λ o. Holds p o (ledger from)) found' (b'.balances from),
                subst (λ o. Holds p o (ledger to)) found (b.balances to),
                b',
              )))
  ]

-- How a transfer between two wallets returns.
module _ (p : Platform) (from to : Text) (n : ℕ) (ledger : Ledger) where
  abbrev pub Credited : TransferCommandResult → Db → Type 0
  Credited r db' =
      (0 < n)
      × (n ≤ ledger from)
      × Books p db' (set (set ledger from (ledger from - n)) to (ledger to + n))
      × Denotes p r.command.balance (ledger from - n)
      × (r.transfer_status ≡ credited)

  abbrev pub Unmoved : TransferCommandResult → Db → Type 0
  Unmoved r db' =
      Books p db' ledger
      × Denotes p r.command.balance (ledger from)
      × (r.transfer_status ≡ TransferStatus.failed)
      × (r.command.events ≡ [])

  -- Why a transfer is not carried out.
  abbrev pub Hindered : Type 0
  Hindered = (ledger from < n) ⊎ (max_units ≤ ledger to + n) ⊎ (n ≡ 0) ⊎ Refused p

  abbrev FailureCause : Error → Type 0
  FailureCause = Cause p (ledger from < n) ((max_units ≤ ledger to + n) ⊎ (n ≡ 0))

  FailureCause→Hindered : (e : Error) → FailureCause e → Hindered
  FailureCause→Hindered failure (inl r) = inr (inr (inr r))
  FailureCause→Hindered failure (inr (inl l)) = inr (inl l)
  FailureCause→Hindered failure (inr (inr z)) = inr (inr (inl z))
  FailureCause→Hindered (bad_request insufficient_funds) c = inl c
  FailureCause→Hindered (bad_request insufficient_funds_for_transfer) c = inl c
  FailureCause→Hindered (bad_request _) c = absurd c
  FailureCause→Hindered (conflict _) c = absurd c

module _ {p : Platform} (doc : IsDocumented p) (from to : Text) (n : ℕ) (request_id : Option Text)
    (metadata : Option Metadata) (ledger : Ledger) where
  module _ (other : text_eq from to ≡ false) (C : Error → Type 0)
      (refused : Refused p → C failure) where
    transfer_body-Ensures :
        (db : Db)
        → (ledger from < n → C (bad_request insufficient_funds_for_transfer))
        → (max_units ≤ ledger to + n → C failure)
        → (n ≡ 0 → C failure)
        → Books p db ledger
        → Ensures C
            (transfer_body p from to (p.money n) request_id metadata db)
            (Credited p from to n ledger)
    unfolding transfer_body
    transfer_body-Ensures db short large zero (journal, booked) =
        lock_both_rule doc C refused from to other
          (move_funds p from to (p.money n) request_id metadata) ledger journal
          (Credited p from to n ledger) db booked
          λ w v db' (kw, kv, hw, hv, b).
            move_funds-Ensures doc from to n request_id metadata C refused w v db' ledger journal
              other short large zero kw kv hw hv b

    compensate_locked-Ensures :
        (w : Wallet) (db : Db) (journal : List Entry)
        → IsBooked p db ledger journal
        → Holds p (some w) (ledger from)
        → Ensures C
            (compensate_locked p from to (p.money n) request_id metadata w db)
            (Unmoved p from to n ledger)
    unfolding compensate_locked effect
    compensate_locked-Ensures w db journal b held =
        run_rule doc C refused (select Table.transfers (supports_pessimistic_lock p)) _ db _ tt (
          rw
            (find_debited-IsUndebited p from to (p.stored (p.to_text (p.money n))) db.transfers
              b.undebited)
            (run_rule doc C refused commit _ db _ tt ((journal, b), held.0, refl, refl)))

    compensate_body-Ensures :
        (db : Db)
        → Books p db ledger
        → Ensures C
            (compensate_body p from to (p.money n) request_id metadata db)
            (Unmoved p from to n ledger)
    unfolding compensate_body
    compensate_body-Ensures db (journal, booked) =
        lock_both_rule doc C refused from to other
          (λ w _. compensate_locked p from to (p.money n) request_id metadata w) ledger journal
          (Unmoved p from to n ledger) db booked
          λ w v db' (_, _, held, _, b). compensate_locked-Ensures w db' journal b held

compensate_transfer-Ends :
    {p : Platform} (doc : IsDocumented p) (from to : Text) (n : ℕ) (request_id : Option Text)
    (metadata : Option Metadata) (ledger : Ledger) (other : text_eq from to ≡ false) (db : Db)
    → Books p db ledger
    → Hindered p from to n ledger
    → Ends
        (compensate_transfer p from to (p.money n) request_id metadata db)
        (λ r db'.
          Credited p from to n ledger r db'
          ⊎ (Unmoved p from to n ledger r db' × Hindered p from to n ledger))
        (λ e db'. (db' ≡ db) × (e ≡ failure) × Refused p)
unfolding compensate_transfer
compensate_transfer-Ends {p} doc from to n request_id metadata ledger other db books why =
    let C : Error → Type 0 = λ e. (e ≡ failure) × Refused p in
    in_transaction_rule doc C (λ r. (refl, r)) _ raise db _ _
      (Ensures_mono C (Unmoved p from to n ledger) _ _
        (compensate_body-Ensures doc from to n request_id metadata ledger other C (λ r. (refl, r))
          db books)
        (λ r db' h. inr (h, why)))
      (λ r. (refl, refl, r)) (λ e _ c. (refl, c.0, c.1))

-- A transfer between two wallets keeps the books, however it ends. It returns `credited` after moving
-- a positive amount that the sender held, and reports the sender's new balance. Or it returns `failed`
-- with no events after leaving every balance as it was, because the sender held less, the receiver's
-- balance would not fit, the amount was zero or the database refused an acceptable statement. Or it
-- throws, leaves the database as it was, and the database refused an acceptable statement.
pub transfer-Books :
    {p : Platform} (doc : IsDocumented p) (from to amount : Text) (request_id : Option Text)
    (metadata : Option Metadata) (n : ℕ) (db : Db) (ledger : Ledger)
    → text_eq from to ≡ false
    → normalize_amount p amount ≡ ok (p.money n)
    → Books p db ledger
    → Ends
        (transfer p from to amount request_id metadata db)
        (λ r db'.
          Credited p from to n ledger r db'
          ⊎ (Unmoved p from to n ledger r db' × Hindered p from to n ledger))
        (λ e db'. (db' ≡ db) × (e ≡ failure) × Refused p)
unfolding transfer
transfer-Books {p} doc from to amount request_id metadata n db ledger other normal books =
    rw (other, normal)
      (in_transaction_rule doc (FailureCause p from to n ledger) inl _ _ db _ _
        (Ensures_mono (FailureCause p from to n ledger) (Credited p from to n ledger) _ _
          (transfer_body-Ensures doc from to n request_id metadata ledger other
            (FailureCause p from to n ledger) inl db (λ h. h) (λ h. inr (inl h)) (λ h. inr (inr h))
            books)
          (λ r db' h. inl h))
        (λ r. (refl, refl, r))
        (λ e _ c.
          compensate_transfer-Ends doc from to n request_id metadata ledger other db books
            (FailureCause→Hindered p from to n ledger e c)))
