-- ===== src/Queries/Balance.antt =====
-- What `getBalance` (src/modules/wallet/wallet.service.ts) answers, with the cache before it.
use api_wallet.Prelude.{
  codes, text_eq, false, ℕ, ◌+◌, ◌≤◌, ◌<◌, Text, ◌≡◌, refl, sym, ◌∙◌, ap, subst, ◌⊎◌, inl, inr,
  Option, none, some, Option-cases, Bool-cases, or_else, ltb, ltb→lt, ltb→le, if◌then◌else◌,
}
use api_wallet.Entities.{Wallet}
use api_wallet.Tables.{Db, Table, select, effect, find_wallet}
use api_wallet.Platform.{Platform, IsDocumented, Denotes}
use api_wallet.Wallet.Effects.{ok, err, failure, run}
use api_wallet.Wallet.Actions.{lift}
use api_wallet.Wallet.Books.{Ledger, Books, Holds}
use api_wallet.Cache.{
  CacheManager, IsStore, CacheConfig, Session, ◌>>=◌, querying, return, write, build_key, get, set,
  keep,
}
use api_wallet.Cache.Entries.{text_eq-append, build_key-distinct, get-Gets}
use api_wallet.Cache.Wrapped.{Outcome, bind-ok, bind-err, wrap-hit, wrap-miss, wrap-threw}
use api_wallet.Queries.{
  BalanceView, balance_key, balance_of, balance_view, find_balance, get_balance,
}

module _ {T : Type 0} (c : CacheManager T) (config : CacheConfig) (key : Text) (v : T)
    (store : c.Store) (db : Db) where
  -- A value that was made is stored, or the store throws.
  keep-cases :
      (keep c config key none (some v) (store, db) ≡ (err failure, (store, db)))
      ⊎ ((store' : c.Store) × (c.set (build_key config.prefix key) v config.ttl db.clock store
            ≡ some store')
          × (keep c config key none (some v) (store, db) ≡ (ok (some v), (store', db))))
  unfolding set
  keep-cases =
      elim (Option-cases (c.set (build_key config.prefix key) v config.ttl db.clock store)) [
        | inl e ↦ inl (
            bind-err (set c config key v none) (λ _. return (some v)) (store, db) (store, db)
              failure
              (subst (λ o. write c config o (store, db) ≡ (err failure, (store, db))) (sym e) refl))
        | inr (store', e) ↦ inr (
          store',
          e,
          bind-ok (set c config key v none) (λ _. return (some v)) (store, db) (store', db) tt
              (subst (λ o. write c config o (store, db) ≡ (ok tt, (store', db))) (sym e) refl),
        )
      ]

module _ {p : Platform} (doc : IsDocumented p) {c : CacheManager BalanceView} (good : IsStore c)
    (config : CacheConfig) (id : Text) where
  abbrev at : Text
  at = build_key config.prefix (balance_key id)

  find_balance-cases :
      (store : c.Store) (db : Db)
      → (querying (find_balance p id) (store, db) ≡ (err failure, (store, db)))
        ⊎ (querying (find_balance p id) (store, db)
            ≡ (ok (some (balance_view p id db)), (store, db)))
  unfolding find_balance run effect
  find_balance-cases store db = elim (doc.executed (select Table.wallets false) db) [
    | inl e ↦ inl (rw (e, run, find_balance, lift) refl)
    | inr e ↦ inr (rw (e, run, find_balance, lift) refl)
  ]

  -- The three ways in which a balance is read.
  abbrev Threw : c.Store → Db → Type 0
  Threw store db = get_balance p c config id (store, db) ≡ (err failure, (store, db))

  abbrev Hit : c.Store → Db → Type 0
  Hit store db =
      (v : BalanceView) × (c.held at db.clock store ≡ some v)
      × (get_balance p c config id (store, db) ≡ (ok (some v), (store, db)))

  abbrev Made : c.Store → Db → Type 0
  Made store db =
      (store' : c.Store) × (c.held at db.clock store ≡ none)
      × (c.set at (balance_view p id db) config.ttl db.clock store ≡ some store')
      × (get_balance p c config id (store, db) ≡ (ok (some (balance_view p id db)), (store', db)))

  get_balance-cases : (store : c.Store) (db : Db) → Threw store db ⊎ Hit store db ⊎ Made store db
  unfolding get_balance
  get_balance-cases store db = elim (get-Gets c config good (balance_key id) store db) [
    | inr threw ↦ inl (wrap-threw c config (balance_key id) find none (store, db) failure threw)
    | inl read ↦ elim (Option-cases (c.held at db.clock store)) [
      | inr (v, h) ↦ inr (
          inl (
            v,
            h,
            wrap-hit c config (balance_key id) find none (store, db) v
                (subst (λ o. get c config (balance_key id) (store, db) ≡ (ok o, (store, db))) h
                  read),
          ))
      | inl h ↦ elim (find_balance-cases store db) [
        | inl e ↦ inl (missed h read ∙ bind-err find kept (store, db) (store, db) failure e)
        | inr e ↦ elim (keep-cases c config (balance_key id) (balance_view p id db) store db) [
          | inl t ↦ inl (missed h read ∙ (bind-ok find kept (store, db) (store, db) _ e ∙ t))
          | inr (store', did, k) ↦ inr (
              inr (
                store',
                h,
                did,
                missed h read ∙ (bind-ok find kept (store, db) (store, db) _ e ∙ k),
              ))
        ]
      ]
    ]
  ]
    where
      find : Session c.Store (Option BalanceView)
      find = querying (find_balance p id)

      kept : Option BalanceView → Session c.Store (Option BalanceView)
      kept = keep c config (balance_key id) none

      missed :
          c.held at db.clock store ≡ none
          → get c config (balance_key id) (store, db) ≡ (ok (c.held at db.clock store), (store, db))
          → get_balance p c config id (store, db) ≡ (find >>= kept) (store, db)
      missed h read =
          wrap-miss c config (balance_key id) find none (store, db)
            (subst (λ o. get c config (balance_key id) (store, db) ≡ (ok o, (store, db))) h read)

  -- What a read answers: what the cache holds, else the balance of the row; or it throws.
  answered :
      (store : c.Store) (db : Db)
      → ((get_balance p c config id (store, db)).0 ≡ err failure)
        ⊎ ((get_balance p c config id (store, db)).0
            ≡ ok (some (or_else (c.held at db.clock store) (balance_view p id db))))
  answered store db = elim (get_balance-cases store db) [
    | inl e ↦ inl (ap (λ r. r.0) e)
    | inr (inl (v, held, e)) ↦ inr (rw held (ap (λ r. r.0) e))
    | inr (inr (store', held, did, e)) ↦ inr (rw held (ap (λ r. r.0) e))
  ]

  -- After a balance was read from the database and stored, a read at that moment or later, in
  -- whatever state the database is by then, answers the balance that was stored until the time to
  -- live, which is not zero, is over, and the balance of the row at the time of the read from then
  -- on; or it throws.
  pub get_balance-again :
      (store store' : c.Store) (db db' : Db)
      → c.held at db.clock store ≡ none
      → get_balance p c config id (store, db) ≡ (ok (some (balance_view p id db)), (store', db))
      → 0 < config.ttl
      → db.clock ≤ db'.clock
      → ((get_balance p c config id (store', db')).0 ≡ err failure)
        ⊎ ((get_balance p c config id (store', db')).0
            ≡ ok (
                some (
                  if ltb db'.clock (db.clock + config.ttl)
                  then balance_view p id db
                  else balance_view p id db')))
  get_balance-again store store' db db' miss first positive le =
      let did = made (get_balance-cases store db) in
      elim (Bool-cases (ltb db'.clock (db.clock + config.ttl))) [
        | inl before ↦ rw before (
            subst (Reads (balance_view p id db'))
              (good.set_kept at _ config.ttl db.clock db'.clock store store' did le
                (ltb→lt _ _ before))
              (answered store' db'))
        | inr after ↦ rw after (
            subst (Reads (balance_view p id db'))
              (good.set_expired at _ config.ttl db.clock db'.clock store store' did positive
                (ltb→le _ _ after))
              (answered store' db'))
      ]
    where
      Reads : BalanceView → Option BalanceView → Type 0
      Reads row held =
          ((get_balance p c config id (store', db')).0 ≡ err failure)
          ⊎ ((get_balance p c config id (store', db')).0 ≡ ok (some (or_else held row)))

      made :
          Threw store db ⊎ Hit store db ⊎ Made store db
          → c.set at (balance_view p id db) config.ttl db.clock store ≡ some store'
      made (inl e) = cc
      made (inr (inl (v, held, e))) = cc
      made (inr (inr (s, held, did, e))) = did ∙ ap some (ap (λ r. r.1.0) (sym e ∙ first))

balance_key-apart :
    (a b : Text) → text_eq a b ≡ false → text_eq (balance_key a) (balance_key b) ≡ false
balance_key-apart a b e = text_eq-append (codes "wallet:balance:") a b ∙ e

module _ {p : Platform} (doc : IsDocumented p) {c : CacheManager BalanceView} (good : IsStore c)
    (config : CacheConfig) (id other : Text) (apart : text_eq other id ≡ false) where
  -- A read of one wallet leaves what the cache holds of another.
  others-held :
      (store : c.Store) (db : Db) (now : ℕ)
      → c.held (at doc good config id) now (get_balance p c config other (store, db)).1.0
        ≡ c.held (at doc good config id) now store
  others-held store db now = elim (get_balance-cases doc good config other store db) [
    | inl e ↦ rw e refl
    | inr (inl (v, held, e)) ↦ rw e refl
    | inr (inr (store', held, did, e)) ↦ rw e (
        good.set_other (at doc good config other) (at doc good config id) _ config.ttl db.clock now
          store store' did
          (build_key-distinct config.prefix (balance_key other) (balance_key id)
            ∙ balance_key-apart other id apart))
  ]

  -- After a balance of another wallet was read, with whatever outcome, a read answers what the cache
  -- held of its own wallet before, if it held anything by then, and else the balance of its own row;
  -- or it throws. The database may have changed in between.
  pub get_balance-apart :
      (store : c.Store) (db db' : Db)
      → let store' = (get_balance p c config other (store, db)).1.0 in
        ((get_balance p c config id (store', db')).0 ≡ err failure)
        ⊎ ((get_balance p c config id (store', db')).0
            ≡ ok (
                some (
                  or_else
                    (c.held (build_key config.prefix (balance_key id)) db'.clock store)
                    (balance_view p id db'))))
  get_balance-apart store db db' =
      subst
        (λ held.
          ((get_balance p c config id ((get_balance p c config other (store, db)).1.0, db')).0
            ≡ err failure)
          ⊎ ((get_balance p c config id ((get_balance p c config other (store, db)).1.0, db')).0
              ≡ ok (some (or_else held (balance_view p id db')))))
        (others-held store db db'.clock)
        (answered doc good config id (get_balance p c config other (store, db)).1.0 db')

balance_of-Denotes :
    {p : Platform} (doc : IsDocumented p) (o : Option Wallet) (n : ℕ)
    → Holds p o n
    → Denotes p (balance_of o) n
balance_of-Denotes {p} doc none n h = subst (Denotes p (balance_of none)) (sym h) doc.default_zero
balance_of-Denotes doc (some w) n h = h.0

-- When the books agree and the cache holds no balance of the wallet, a balance that is read stands
-- for the amount that the ledger has for the wallet.
pub get_balance-Denotes :
    {p : Platform} (doc : IsDocumented p) {c : CacheManager BalanceView} (good : IsStore c)
    (config : CacheConfig) (id : Text) (store : c.Store) (db : Db) (ledger : Ledger)
    → Books p db ledger
    → c.held (build_key config.prefix (balance_key id)) db.clock store ≡ none
    → Outcome
        (get_balance p c config id (store, db))
        (λ r w. (view : BalanceView) × (r ≡ some view) × Denotes p view.balance (ledger id))
        (λ e w. w ≡ (store, db))
get_balance-Denotes {p} doc good config id store db ledger (_, booked) miss =
    elim (get_balance-cases doc good config id store db) [
      | inl e ↦ rw e refl
      | inr (inl (v, held, e)) ↦ cc
      | inr (inr (store', held, did, e)) ↦ rw e (
        balance_view p id db,
        refl,
        balance_of-Denotes doc (find_wallet id db) (ledger id) (booked.balances id),
      )
    ]
