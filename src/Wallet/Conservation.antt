-- ===== src/Wallet/Conservation.antt =====
-- What the transfers of WalletService (src/modules/wallet/wallet.service.ts) do to a sum of balances.
use api_wallet.Prelude.{
  ℕ, ◌+◌, ◌-◌, ◌≤◌, Text, text_eq, text_eq→eq, ◌≡◌, refl, sym, ap, subst, inl, inr, Bool, true,
  false, Bool-cases, Option, List, [], ◌∷◌, All, arith, if◌then◌else◌,
}
use api_wallet.Entities.{Metadata}
use api_wallet.Tables.{Db}
use api_wallet.Platform.{Platform, IsDocumented}
use api_wallet.Wallet.{ok, normalize_amount}
use api_wallet.Wallet.Transfer.{transfer}
use api_wallet.Wallet.Outcomes.{Ends}
use api_wallet.Wallet.Requests.{Ends_mono}
use api_wallet.Wallet.Books.{Ledger, Books, set}
use api_wallet.Wallet.TransferOutcome.{transfer-Books}

-- What a list of wallets holds together.
abbrev pub total : Ledger → List Text → ℕ
total ledger [] = 0
total ledger (id ∷ ids) = ledger id + total ledger ids

abbrev pub AreDistinct : List Text → Type 0
AreDistinct [] = Unit
AreDistinct (id ∷ ids) = All (λ j. text_eq id j ≡ false) ids × AreDistinct ids

abbrev pub is_listed : Text → List Text → Bool
is_listed id [] = false
is_listed id (j ∷ ids) = let rest = is_listed id ids in if text_eq id j then true else rest

total-set_absent :
    (ledger : Ledger) (id : Text) (n : ℕ) (ids : List Text)
    → All (λ j. text_eq id j ≡ false) ids
    → total (set ledger id n) ids ≡ total ledger ids
total-set_absent ledger id n [] h = refl
total-set_absent ledger id n (j ∷ ids) (other, h) =
    ground (arith, total-set_absent ledger id n ids h)

total-set :
    (ledger : Ledger) (id : Text) (n : ℕ) (ids : List Text)
    → AreDistinct ids
    → is_listed id ids ≡ true
    → total (set ledger id n) ids + ledger id ≡ total ledger ids + n
total-set ledger id n [] distinct h = cc
total-set ledger id n (j ∷ ids) (apart, distinct) h = elim (Bool-cases (text_eq id j)) [
  | inl same ↦
      let e : id ≡ j = text_eq→eq id j same in
      let absent : All (λ k. text_eq id k ≡ false) ids =
        subst (λ i. All (λ k. text_eq i k ≡ false) ids) (sym e) apart in
      rw same (omega (arith, total-set_absent ledger id n ids absent, ap ledger e))
  | inr other ↦ rw other (
      omega (
        arith,
        total-set ledger id n ids distinct
            (subst (λ b. (if b then true else is_listed id ids) ≡ true) other h),
      ))
]

moved_total :
    (ledger : Ledger) (from to : Text) (n : ℕ) (ids : List Text)
    → text_eq from to ≡ false
    → AreDistinct ids
    → is_listed from ids ≡ true
    → is_listed to ids ≡ true
    → n ≤ ledger from
    → total (set (set ledger from (ledger from - n)) to (ledger to + n)) ids ≡ total ledger ids
moved_total ledger from to n ids other distinct has_from has_to enough =
    let paid = set ledger from (ledger from - n) in
    let kept : paid to ≡ ledger to = rw other refl in
    omega (
      arith,
      kept,
      total-set ledger from (ledger from - n) ids distinct has_from,
      total-set paid to (ledger to + n) ids distinct has_to,
    )

-- When the books agree, a transfer between two different wallets, however it ends, leaves books that
-- agree and in which any list of distinct wallets that has both holds as much together as before.
pub transfer-total :
    {p : Platform} (doc : IsDocumented p) (from to amount : Text) (request_id : Option Text)
    (metadata : Option Metadata) (n : ℕ) (db : Db) (ledger : Ledger) (ids : List Text)
    → text_eq from to ≡ false
    → normalize_amount p amount ≡ ok (p.money n)
    → Books p db ledger
    → AreDistinct ids
    → is_listed from ids ≡ true
    → is_listed to ids ≡ true
    → Ends
        (transfer p from to amount request_id metadata db)
        (λ _ d. (after : Ledger) × Books p d after × (total after ids ≡ total ledger ids))
        (λ _ d. d ≡ db)
transfer-total {p} doc from to amount request_id metadata n db ledger ids other normal books
      distinct has_from has_to =
    Ends_mono (transfer p from to amount request_id metadata db) _ _ _ _
      (transfer-Books doc from to amount request_id metadata n db ledger other normal books)
      (λ r d q. elim q [
        | inl (paid, enough, b, rest, state) ↦
            (_, b, moved_total ledger from to n ids other distinct has_from has_to enough)
        | inr ((b, balance, state, none_sent), hindered) ↦ (ledger, b, refl)
      ])
      (λ _ d e. e.0)
