-- ===== src/Queries/History.antt =====
-- What `getHistory` (src/modules/wallet/wallet.service.ts) answers.
use api_wallet.Prelude.{
  Bool, ℕ, zero, suc, ◌≤◌, Text, text_eq, text_eq→eq, ◌≡◌, refl, subst, ◌⊎◌, inl, inr, true, false,
  List, [], ◌∷◌, All, take, drop, length, length-take-le, leb, Bool-cases, Option, none, some,
  or_else, sym, if◌then◌else◌, arith,
}
use mathlib.Core.List.Permᴰ.{Permᴰ, nil, cons, swap, trans}
use api_wallet.Entities.{WalletEvent}
use api_wallet.Tables.{Db, Table, select, effect}
use api_wallet.Platform.{Platform, IsDocumented}
use api_wallet.Wallet.Effects.{ok, err, failure, run}
use api_wallet.Wallet.Actions.{lift}
use api_wallet.Wallet.Outcomes.{Ends, Refused}
use api_wallet.Wallet.Requests.{Ends_mono}
use api_wallet.Queries.{
  HistoryOptions, offset_of, limit_of, no_earlier, by_created_at_desc, IsSortedBy, IsOrder,
  HistoryQueryDto, is_valid_query, events_of, IsNewestFirst, Paging, IsPaging, get_history, history,
}

module _ (Q : WalletEvent → Type 0) where
  take-All : (n : ℕ) (es : List WalletEvent) → All Q es → All Q (take n es)
  take-All zero es h = tt
  take-All (suc n) [] h = tt
  take-All (suc n) (e ∷ es) h = (h.0, take-All n es h.1)

  drop-All : (n : ℕ) (es : List WalletEvent) → All Q es → All Q (drop n es)
  drop-All zero es h = h
  drop-All (suc n) [] h = tt
  drop-All (suc n) (e ∷ es) h = drop-All n es h.1

  perm-All : {xs ys : List WalletEvent} → Permᴰ xs ys → All Q xs → All Q ys
  perm-All nil h = tt
  perm-All (cons e d) h = (subst Q e h.0, perm-All d h.1)
  perm-All (swap e f) h = (subst Q f h.1.0, (subst Q e h.0, h.1.1))
  perm-All (trans d f) h = perm-All f (perm-All d h)

  events_of-All :
      (id : Text) (es : List WalletEvent)
      → All Q es
      → All (λ e. (e.wallet_id ≡ id) × Q e) (events_of id es)
  unfolding events_of
  events_of-All id [] h = tt
  events_of-All id (e ∷ es) h = elim (Bool-cases (text_eq e.wallet_id id)) [
    | inl same ↦ rw same ((text_eq→eq e.wallet_id id same, h.0), events_of-All id es h.1)
    | inr other ↦ rw other (events_of-All id es h.1)
  ]

take-IsSortedBy :
    (order : WalletEvent → WalletEvent → Bool) (n : ℕ) (es : List WalletEvent)
    → IsSortedBy order es
    → IsSortedBy order (take n es)
take-IsSortedBy order zero es h = tt
take-IsSortedBy order (suc n) [] h = tt
take-IsSortedBy order (suc n) (e ∷ es) h = (take-All _ n es h.0, take-IsSortedBy order n es h.1)

drop-IsSortedBy :
    (order : WalletEvent → WalletEvent → Bool) (n : ℕ) (es : List WalletEvent)
    → IsSortedBy order es
    → IsSortedBy order (drop n es)
drop-IsSortedBy order zero es h = h
drop-IsSortedBy order (suc n) [] h = tt
drop-IsSortedBy order (suc n) (e ∷ es) h = drop-IsSortedBy order n es h.1

no_earlier_total : (a b : Option ℕ) → no_earlier a b ≡ false → no_earlier b a ≡ true
no_earlier_total none b h = cc
no_earlier_total (some s) none h = refl
no_earlier_total (some s) (some t) h = ground arith

no_earlier_trans :
    (a b c : Option ℕ) → no_earlier a b ≡ true → no_earlier b c ≡ true → no_earlier a c ≡ true
no_earlier_trans none b c h k = refl
no_earlier_trans (some s) none c h k = cc
no_earlier_trans (some s) (some t) none h k = cc
no_earlier_trans (some s) (some t) (some u) h k = ground arith

by_created_at_desc-IsOrder : IsOrder by_created_at_desc
by_created_at_desc-IsOrder = record {
  total = λ e f h. no_earlier_total e.created_at f.created_at h;
  transitive = λ e f g h k. no_earlier_trans e.created_at f.created_at g.created_at h k;
}

sorted-IsNewestFirst : (es : List WalletEvent) → IsSortedBy by_created_at_desc es → IsNewestFirst es
sorted-IsNewestFirst [] h = tt
sorted-IsNewestFirst (e ∷ es) h = (h.0, sorted-IsNewestFirst es h.1)

module _ {p : Platform} (doc : IsDocumented p) {paged : Paging} (cutting : IsPaging paged) where
  -- A request for a history answers the page, or it is refused.
  get_history-cases :
      (id : Text) (options : Option HistoryOptions) (db : Db)
      → ((get_history p paged id options db ≡ (err failure, db)) × Refused p)
        ⊎ (get_history p paged id options db ≡ (
          ok (
              paged by_created_at_desc
                (offset_of options)
                (limit_of options)
                (events_of id db.events)),
          db,
        ))
  unfolding get_history run effect
  get_history-cases id options db = elim (doc.executed (select Table.events false) db) [
    | inl e ↦ inl (rw (e, run, lift) refl, (_, db, tt, e))
    | inr e ↦ inr (rw (e, run, lift) refl)
  ]

  -- A page is cut out of the wallet's events, sorted as the query asks.
  abbrev pub Page : Text → (offset limit : ℕ) → Db → List WalletEvent → Type 0
  Page id offset limit db es =
      (ordered : List WalletEvent) × Permᴰ (events_of id db.events) ordered
      × IsSortedBy by_created_at_desc ordered
      × (es ≡ take limit (drop offset ordered))

  get_history-pages :
      (id : Text) (options : Option HistoryOptions) (k : ℕ) (db : Db)
      → limit_of options ≡ suc k
      → Ends
          (get_history p paged id options db)
          (λ es d. (d ≡ db) × Page id (offset_of options) (suc k) db es)
          (λ e d. (d ≡ db) × (e ≡ failure) × Refused p)
  get_history-pages id options k db l = elim (get_history-cases id options db) [
    | inl (e, refused) ↦ rw e (refl, refl, refused)
    | inr e ↦
        let (ordered, perm, sorted, cut) =
          cutting.cut by_created_at_desc by_created_at_desc-IsOrder (offset_of options) k
            (events_of id db.events) in
        rw (e, l) (refl, (ordered, perm, sorted, cut))
  ]

  pub history-pages :
      (id : Text) (query : HistoryQueryDto) (db : Db)
      → is_valid_query query ≡ true
      → Ends
          (history p paged id query db)
          (λ es d. (d ≡ db) × Page id query.offset query.limit db es)
          (λ e d. (d ≡ db) × (e ≡ failure) × Refused p)
  unfolding is_valid_query history
  history-pages id query db valid =
      let (k, l, l') = page_of query.limit (ground arith) (ground arith) in
      subst
        (λ limit.
          Ends (history p paged id query db) (λ es d. (d ≡ db) × Page id query.offset limit db es)
            (λ e d. (d ≡ db) × (e ≡ failure) × Refused p))
        (sym l)
        (get_history-pages id
          (some (record { offset = some query.offset; limit = some query.limit })) k db l')
    where
      page_of :
          (limit : ℕ)
          → leb 1 limit ≡ true
          → leb limit 200 ≡ true
          → (k : ℕ) × (limit ≡ suc k) × ((if leb limit 200 then limit else 200) ≡ suc k)
      page_of zero h k = cc
      page_of (suc n) h k = (n, refl, rw k refl)

  asked_of :
      (options : HistoryOptions) (asked : ℕ)
      → or_else options.limit 50 ≡ suc asked
      → (k : ℕ) × (limit_of (some options) ≡ suc k) × (suc k ≤ suc asked) × (suc k ≤ 200)
  asked_of options asked e = elim (Bool-cases (leb (suc asked) 200)) [
    | inl few ↦ (asked, rw (e, few) refl, omega arith, ground (arith, few))
    | inr many ↦ (199, rw (e, many) refl, ground (arith, many), omega arith)
  ]

  -- The history of a wallet with any options that ask for a limit above zero, or for none, which is
  -- fifty, holds at most as many events as the limit, and two hundred whatever it asks for, from the
  -- newest to the oldest; each is an event of the wallet, and what holds of every event of the log
  -- holds of it; or the lookup is refused. The database does not change.
  pub get_history-Page :
      (id : Text) (options : HistoryOptions) (asked : ℕ) (db : Db) (Q : WalletEvent → Type 0)
      → or_else options.limit 50 ≡ suc asked
      → All Q db.events
      → Ends
          (get_history p paged id (some options) db)
          (λ es d.
            (d ≡ db)
            × (length es ≤ suc asked)
            × (length es ≤ 200)
            × IsNewestFirst es
            × All (λ e. (e.wallet_id ≡ id) × Q e) es)
          (λ e d. (d ≡ db) × (e ≡ failure) × Refused p)
  get_history-Page id options asked db Q asks h =
      let (k, l, below, bounded) = asked_of options asked asks in
      Ends_mono (get_history p paged id (some options) db) _ _ _ _
        (get_history-pages id (some options) k db l)
        (λ es d (same, (ordered, perm, sorted, cut)).
          let short : length es ≤ suc k = rw cut (length-take-le (suc k) _) in
          (
            same,
            omega (arith, short, below),
            omega (arith, short, bounded),
            rw cut (
                sorted-IsNewestFirst _ (
                  take-IsSortedBy by_created_at_desc (suc k) _
                    (drop-IsSortedBy by_created_at_desc (offset_of (some options)) _ sorted))),
            rw cut (
                take-All _ (suc k) _ (
                  drop-All _ (offset_of (some options)) _
                    (perm-All _ perm (events_of-All Q id db.events h)))),
          ))
        (λ e d r. r)
