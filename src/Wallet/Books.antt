-- ===== src/Wallet/Books.antt =====
-- The books of the service: what the balances, the event log and the outbox say together.
use api_wallet.Prelude.{
  ℕ, ◌+◌, ◌<◌, Text, text_eq, ◌≡◌, refl, false, map-append, map-map, append_assoc, All-append,
  Option, none, some, List, [], ◌∷◌, ◌++◌, map, arith, if◌then◌else◌, All, Option-cases, inl, inr,
  Bool-cases, text_eq→eq, subst,
}
use api_wallet.Entities.{
  EventType, funds_deposited, funds_withdrawn, Wallet, WalletEvent, Transfer, OutboxMessage,
}
use api_wallet.Tables.{
  Db, find_wallet, save_wallets, save_transfer, effect, stored_wallet, write_transfer,
}
use api_wallet.Tables.Rows.{lookup_by-upsert_by, update_where-All}
use api_wallet.Platform.{Platform, IsDocumented, Denotes, max_units, max_units_pos}
use api_wallet.Wallet.Outcomes.{opened, opened-found, find_wallet-opened}
use api_wallet.Wallet.Transfer.Compensation.{is_debited}

-- The abstract view of the wallets: the ten-thousandths that each holds.
abbrev pub Ledger : Type 0
Ledger = Text → ℕ

abbrev pub set : Ledger → Text → ℕ → Ledger
set ledger id n k = if text_eq id k then n else ledger k

-- A row of the event log with the number of ten-thousandths that its amount stands for.
pub record Entry : Type 0 where
  pub event : WalletEvent
  pub units : ℕ

abbrev pub credit : EventType → ℕ → ℕ
credit funds_deposited n = n
credit _ n = 0

abbrev pub debit : EventType → ℕ → ℕ
debit funds_withdrawn n = n
debit _ n = 0

abbrev pub credits : Text → List Entry → ℕ
credits id [] = 0
credits id (x ∷ xs) =
    (if text_eq x.event.wallet_id id then credit x.event.event_type x.units else 0) + credits id xs

abbrev pub debits : Text → List Entry → ℕ
debits id [] = 0
debits id (x ∷ xs) =
    (if text_eq x.event.wallet_id id then debit x.event.event_type x.units else 0) + debits id xs

pub credits-append :
    (id : Text) (xs ys : List Entry) → credits id (xs ++ ys) ≡ credits id xs + credits id ys
credits-append id [] ys = omega arith
credits-append id (x ∷ xs) ys = omega (arith, credits-append id xs ys)

pub debits-append :
    (id : Text) (xs ys : List Entry) → debits id (xs ++ ys) ≡ debits id xs + debits id ys
debits-append id [] ys = omega arith
debits-append id (x ∷ xs) ys = omega (arith, debits-append id xs ys)

module _ (p : Platform) where
  abbrev pub Holds : Option Wallet → ℕ → Type 0
  Holds none n = n ≡ 0
  Holds (some w) n = Denotes p w.balance n × (n < max_units)

  abbrev pub Balances : Db → Ledger → Type 0
  Balances db ledger = (id : Text) → Holds (find_wallet id db) (ledger id)

  abbrev pub IsDenoted : Entry → Type 0
  IsDenoted x = (t : Text) × (x.event.amount ≡ some t) × Denotes p t x.units

  -- The log and the outbox go together, and every amount is a number of ten-thousandths.
  pub record IsAudited (events : List WalletEvent) (outbox : List OutboxMessage)
      (journal : List Entry) : Type 0 where
    pub logged : map (λ x. x.event) journal ≡ events
    pub denoted : All IsDenoted journal
    pub mirrored : map (λ m. m.payload.event_id) outbox ≡ map (λ e. e.id) events

  abbrev pub IsReplayed : Ledger → List Entry → Type 0
  IsReplayed ledger journal = (id : Text) → ledger id + debits id journal ≡ credits id journal

  abbrev pub IsUndebited : List Transfer → Type 0
  IsUndebited = All (λ t. is_debited t.status ≡ false)

  -- Every wallet holds what the ledger says, which is what the log's deposits less its withdrawals
  -- make; the log and the outbox go together; and no stored transfer is `debited`.
  pub record IsBooked (db : Db) (ledger : Ledger) (journal : List Entry) : Type 0 where
    pub balances : Balances db ledger
    pub audited : IsAudited db.events db.outbox journal
    pub replayed : IsReplayed ledger journal
    pub undebited : IsUndebited db.transfers

  -- The books agree for some journal.
  abbrev pub Books : Db → Ledger → Type 0
  Books db ledger = (journal : List Entry) × IsBooked db ledger journal

module _ {p : Platform} {events : List WalletEvent} {outbox : List OutboxMessage}
    (journal : List Entry) (audited : IsAudited p events outbox journal) where
  -- New events and messages keep the log and the outbox together, if they do so themselves.
  pub IsAudited-append :
      (entries : List Entry) (messages : List OutboxMessage)
      → All (IsDenoted p) entries
      → map (λ m. m.payload.event_id) messages ≡ map (λ x. x.event.id) entries
      → IsAudited p (events ++ map (λ x. x.event) entries) (outbox ++ messages) (journal ++ entries)
  IsAudited-append entries messages denoted same = record {
    logged = rw map-append (rw audited.logged);
    denoted = All-append (IsDenoted p) journal entries audited.denoted denoted;
    mirrored = rw (map-append, map-append, audited.mirrored, same, map-map) refl;
  }

  -- The same, where three messages are enqueued one by one.
  pub IsAudited-append_three :
      (entries : List Entry) (a b c : OutboxMessage)
      → All (IsDenoted p) entries
      → map (λ m. m.payload.event_id) (a ∷ b ∷ c ∷ []) ≡ map (λ x. x.event.id) entries
      → IsAudited p
          (events ++ map (λ x. x.event) entries)
          (((outbox ++ a ∷ []) ++ b ∷ []) ++ c ∷ [])
          (journal ++ entries)
  IsAudited-append_three entries a b c denoted same =
      subst (λ ms. IsAudited p (events ++ map (λ x. x.event) entries) ms (journal ++ entries))
        (simp append_assoc) (IsAudited-append entries (a ∷ b ∷ c ∷ []) denoted same)

module _ (p : Platform) where
  write_transfer-IsUndebited :
      (id : Option Text) (t : Transfer) (db : Db)
      → IsUndebited p db.transfers
      → is_debited t.status ≡ false
      → IsUndebited p (write_transfer p.stored p.uuid id t db).transfers
  write_transfer-IsUndebited none t db h e =
      All-append (λ r. is_debited r.status ≡ false) db.transfers (_ ∷ []) h (e, tt)
  write_transfer-IsUndebited (some id) t db h e =
      update_where-All (λ r. is_debited r.status ≡ false) _ _ db.transfers (λ _ _. e) h

  -- A transfer that is saved in another status than `debited` leaves no `debited` one.
  pub save_transfer-IsUndebited :
      (t : Transfer) (db : Db)
      → IsUndebited p db.transfers
      → is_debited t.status ≡ false
      → IsUndebited p (effect p.stored p.uuid (save_transfer t) db).transfers
  unfolding effect
  save_transfer-IsUndebited t db h e = write_transfer-IsUndebited t.id t db h e

module _ {p : Platform} (doc : IsDocumented p) where
  -- A balance that is saved is the wallet's, and the other wallets keep theirs.
  pub save_wallet-Balances :
      (w : Wallet) (n : ℕ) (db : Db) (ledger : Ledger)
      → Balances p db ledger
      → Denotes p w.balance n
      → n < max_units
      → Balances p (effect p.stored p.uuid (save_wallets (w ∷ [])) db) (set ledger w.id n)
  unfolding effect find_wallet
  save_wallet-Balances w n db ledger h d fits k =
      rw (lookup_by-upsert_by (λ r. r.id) k (stored_wallet p.stored p.uuid w) db.wallets)
        (ground (arith, h k, doc.stored_money w.balance n d))

  opened-Balances :
      (id : Text) (db : Db) (ledger : Ledger)
      → find_wallet id db ≡ none
      → Balances p db ledger
      → Balances p (opened p id db) ledger
  opened-Balances id db ledger missing h k =
      rw (find_wallet-opened doc id k db missing) (elim (Bool-cases (text_eq id k)) [
        | inl same ↦
            let e : id ≡ k = text_eq→eq id k same in
            let z : ledger k ≡ 0 =
              subst (λ j. ledger j ≡ 0) e (subst (λ o. Holds p o (ledger id)) missing (h id)) in
            rw (same, z) (doc.stored_zero, max_units_pos)
        | inr other ↦ rw other (h k)
      ])

  -- Opening a wallet leaves the books as they are: it holds nothing.
  pub opened-IsBooked :
      (id : Text) (db : Db) (ledger : Ledger) (journal : List Entry)
      → IsBooked p db ledger journal
      → IsBooked p (opened p id db) ledger journal
  unfolding effect
  opened-IsBooked id db ledger journal h = elim (Option-cases (find_wallet id db)) [
    | inl missing ↦
        let b = opened-Balances id db ledger missing h.balances in
        record {
          balances = b;
          audited = rw missing (record {
            logged = h.audited.logged;
            denoted = h.audited.denoted;
            mirrored = h.audited.mirrored;
          });
          replayed = h.replayed;
          undebited = rw missing h.undebited;
        }
    | inr (w, e) ↦ rw (opened-found doc id w db e) h
  ]

-- An empty database: no wallet, and nothing logged.
abbrev pub empty : Db
empty = record {
  wallets = [];
  events = [];
  transfers = [];
  outbox = [];
  keys = [];
  consumed = [];
  analytics = [];
  issued = 0;
  clock = 0;
}

pub empty-Books : (p : Platform) → Books p empty (λ _. 0)
unfolding find_wallet
empty-Books p = (
  [],
  record {
    balances = λ id. refl;
    audited = record { logged = refl; denoted = tt; mirrored = refl };
    replayed = λ id. refl;
    undebited = tt;
  },
)
