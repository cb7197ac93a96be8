-- ===== src/Queries/Totals.antt =====
-- The amounts in the history of a wallet (src/modules/wallet/wallet.service.ts) and its balance.
use api_wallet.Prelude.{
  ℕ, zero, suc, ◌+◌, ◌≤◌, Text, text_eq, ◌≡◌, refl, sym, ap, ◌∙◌, subst, inl, inr, true, some, List,
  [], ◌∷◌, map, All, take, drop, length, Bool-cases, arith,
}
use mathlib.Core.List.Permᴰ.{Permᴰ, nil, cons, swap, trans}
use api_wallet.Entities.{WalletEvent}
use api_wallet.Tables.{Db}
use api_wallet.Platform.{Platform, IsDocumented, Denotes}
use api_wallet.Wallet.Effects.{failure}
use api_wallet.Wallet.Outcomes.{Ends, Refused}
use api_wallet.Wallet.Requests.{Ends_mono}
use api_wallet.Wallet.Books.{Ledger, Books, Entry, IsDenoted, credit, debit, credits, debits}
use api_wallet.Queries.{HistoryQueryDto, is_valid_query, events_of, Paging, IsPaging, history}
use api_wallet.Queries.History.{history-pages}

module _ (p : Platform) where
  abbrev pub IsWorth : WalletEvent → ℕ → Type 0
  IsWorth e n = (t : Text) × (e.amount ≡ some t) × Denotes p t n

  -- The amounts of the events that credit a wallet make `c`, and of those that debit it `d`.
  abbrev pub Adds : List WalletEvent → ℕ → ℕ → Type 0
  Adds [] c d = (c ≡ 0) × (d ≡ 0)
  Adds (e ∷ es) c d =
      (n : ℕ) × (c' : ℕ) × (d' : ℕ) × IsWorth e n
      × Adds es c' d'
      × (c ≡ credit e.event_type n + c')
      × (d ≡ debit e.event_type n + d')

  -- They do not depend on the order of the events.
  Adds-perm : {xs ys : List WalletEvent} (c d : ℕ) → Permᴰ xs ys → Adds xs c d → Adds ys c d
  Adds-perm c d nil h = h
  Adds-perm c d (cons {b = b} e q) (n, c', d', w, h, ec, ed) = (
    n,
    c',
    d',
    subst (λ e. IsWorth e n) e w,
    Adds-perm c' d' q h,
    subst (λ e. c ≡ credit e.event_type n + c') e ec,
    subst (λ e. d ≡ debit e.event_type n + d') e ed,
  )
  Adds-perm c d (swap {a = a} {b = b} {a' = a'} {b' = b'} e f)
        (n, c', d', w, (m, c'', d'', v, h, ec', ed'), ec, ed) =
      (
        m,
        credit b'.event_type n + c'',
        debit b'.event_type n + d'',
        subst (λ e. IsWorth e m) f v,
        (n, c'', d'', subst (λ e. IsWorth e n) e w, h, refl, refl),
        omega (arith, ap (λ x. credit x.event_type n) e, ap (λ x. credit x.event_type m) f),
        omega (arith, ap (λ x. debit x.event_type n) e, ap (λ x. debit x.event_type m) f),
      )
  Adds-perm c d (trans q r) h = Adds-perm c d r (Adds-perm c d q h)

  Adds-eq : (es : List WalletEvent) (c c' d d' : ℕ) → c ≡ c' → d ≡ d' → Adds es c d → Adds es c' d'
  Adds-eq es c c' d d' ec ed h = subst (λ n. Adds es n d') ec (subst (Adds es c) ed h)

  Adds-journal :
      (id : Text) (journal : List Entry)
      → All (IsDenoted p) journal
      → Adds (events_of id (map (λ x. x.event) journal)) (credits id journal) (debits id journal)
  unfolding events_of
  Adds-journal id [] h = (refl, refl)
  Adds-journal id (x ∷ xs) h = elim (Bool-cases (text_eq x.event.wallet_id id)) [
    | inl e ↦ rw e (x.units, credits id xs, debits id xs, h.0, Adds-journal id xs h.1, refl, refl)
    | inr e ↦ rw e (Adds-eq _ _ _ _ _ (omega arith) (omega arith) (Adds-journal id xs h.1))
  ]

length-perm : {xs ys : List WalletEvent} → Permᴰ xs ys → length xs ≡ length ys
length-perm nil = refl
length-perm (cons e q) = omega (arith, length-perm q)
length-perm (swap e f) = refl
length-perm (trans q r) = length-perm q ∙ length-perm r

take-all : (n : ℕ) (es : List WalletEvent) → length es ≤ n → take n es ≡ es
take-all zero [] h = refl
take-all zero (e ∷ es) h = absurd (omega arith)
take-all (suc n) [] h = refl
take-all (suc n) (e ∷ es) h = rw (take-all n es (omega arith)) refl

-- When the books agree and a valid query from the start allows as many events as the wallet has, the
-- history that is answered adds up: the amounts of its credits are what the ledger has for the
-- wallet and the amounts of its debits together. Or the lookup is refused.
pub history-Adds :
    {p : Platform} (doc : IsDocumented p) {paged : Paging} (cutting : IsPaging paged) (id : Text)
    (query : HistoryQueryDto) (db : Db) (ledger : Ledger)
    → is_valid_query query ≡ true
    → query.offset ≡ 0
    → length (events_of id db.events) ≤ query.limit
    → Books p db ledger
    → Ends
        (history p paged id query db)
        (λ es _. (c : ℕ) × (d : ℕ) × Adds p es c d × (ledger id + d ≡ c))
        (λ e d. (d ≡ db) × (e ≡ failure) × Refused p)
history-Adds {p} doc cutting id query db ledger valid from_start long (journal, booked) =
    Ends_mono (history p _ id query db) _ _ _ _ (history-pages doc cutting id query db valid)
      (λ es d (same, (ordered, perm, sorted, cut)).
        let whole : es ≡ ordered =
          cut
          ∙ (subst (λ o. take query.limit (drop o ordered) ≡ ordered) (sym from_start)
              (take-all query.limit ordered (omega (arith, length-perm perm)))) in
        (
          credits id journal,
          debits id journal,
          subst (λ l. Adds p l (credits id journal) (debits id journal)) (sym whole)
              (Adds-perm p _ _ perm (
                subst (λ l. Adds p (events_of id l) (credits id journal) (debits id journal))
                  booked.audited.logged (Adds-journal p id journal booked.audited.denoted))),
          booked.replayed id,
        ))
      (λ e d r. r)
