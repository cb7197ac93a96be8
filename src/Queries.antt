-- ===== src/Queries.antt =====
-- The reads: `getBalance` and `getHistory` of WalletService (src/modules/wallet/wallet.service.ts),
-- their routes (src/modules/wallet/wallet.controller.ts) and the query of a history
-- (src/modules/wallet/dto/history.query.ts). The page that the database cuts out of the rows
-- that match is a parameter: PostgreSQL orders rows of one timestamp as it likes.
pub mod Balance
pub mod History
pub mod Totals
use api_wallet.Prelude.{
  ℕ, suc, Text, codes, text_eq, ◌≡◌, Bool, true, ◌&&◌, Option, none, some, List, [], ◌∷◌, ◌++◌, All,
  take, drop, leb, or_else, if◌then◌else◌,
}
use mathlib.Core.List.Permᴰ.{Permᴰ}
use api_wallet.Entities.{Wallet, WalletEvent}
use api_wallet.Tables.{Db, Table, select, find_wallet}
use api_wallet.Platform.{Platform}
use api_wallet.Wallet.Effects.{Action, run, gets}
use api_wallet.Wallet.Effects
use api_wallet.Wallet.Actions.{lift}
use api_wallet.Cache.{CacheManager, CacheConfig, Session, querying, wrap}

pub record BalanceView : Type 0 where
  pub wallet_id : Text
  pub balance : Text

abbrev pub balance_key : Text → Text
balance_key wallet_id = codes "wallet:balance:" ++ wallet_id

-- `wallet?.balance ?? '0.0000'`
abbrev pub balance_of : Option Wallet → Text
balance_of none = codes "0.0000"
balance_of (some w) = w.balance

-- The options of `getHistory`.
pub record HistoryOptions : Type 0 where
  pub offset : Option ℕ
  pub limit : Option ℕ

-- `options?.offset ?? 0` and `Math.min(options?.limit ?? 50, 200)`
abbrev pub offset_of : Option HistoryOptions → ℕ
offset_of none = 0
offset_of (some o) = or_else o.offset 0

abbrev pub at_most_200 : ℕ → ℕ
at_most_200 n = if leb n 200 then n else 200

abbrev pub limit_of : Option HistoryOptions → ℕ
limit_of none = at_most_200 50
limit_of (some o) = at_most_200 (or_else o.limit 50)

-- The query of a history, with its defaults in place.
pub record HistoryQueryDto : Type 0 where
  pub offset : ℕ
  pub limit : ℕ

abbrev pub default_query : HistoryQueryDto
default_query = record { offset = 0; limit = 50 }

-- `@Min(0)` on the offset, which is a natural number here, `@Min(1)` and `@Max(200)` on the limit.
unfoldable pub is_valid_query : HistoryQueryDto → Bool
is_valid_query query = leb 0 query.offset && (leb 1 query.limit && leb query.limit 200)

unfoldable pub events_of : Text → List WalletEvent → List WalletEvent
events_of wallet_id [] = []
events_of wallet_id (e ∷ es) =
    if text_eq e.wallet_id wallet_id then e ∷ events_of wallet_id es else events_of wallet_id es

abbrev pub no_earlier : Option ℕ → Option ℕ → Bool
no_earlier none _ = true
no_earlier (some s) (some t) = leb t s
no_earlier (some s) none = Bool.false

-- The order of `createdAt DESC`, where NULL is first.
abbrev pub IsNewestFirst : List WalletEvent → Type 0
IsNewestFirst [] = Unit
IsNewestFirst (e ∷ es) =
    All (λ f. no_earlier e.created_at f.created_at ≡ true) es × IsNewestFirst es

-- `orderBy('evt.createdAt', 'DESC')`
abbrev pub by_created_at_desc : WalletEvent → WalletEvent → Bool
by_created_at_desc e f = no_earlier e.created_at f.created_at

-- The rows of a query in an order, from an offset on, and as many as the limit allows.
abbrev pub Paging : Type 0
Paging =
    (order : WalletEvent → WalletEvent → Bool)
    → (offset limit : ℕ) → List WalletEvent
    → List WalletEvent

abbrev pub IsSortedBy : (WalletEvent → WalletEvent → Bool) → List WalletEvent → Type 0
IsSortedBy order [] = Unit
IsSortedBy order (e ∷ es) = All (λ f. order e f ≡ true) es × IsSortedBy order es

-- An order in which any two rows compare; rows that are equal in it may come in either order.
pub record IsOrder (order : WalletEvent → WalletEvent → Bool) : Type 0 where
  pub total : (e f : WalletEvent) → order e f ≡ Bool.false → order f e ≡ true
  pub transitive : (e f g : WalletEvent) → order e f ≡ true → order f g ≡ true → order e g ≡ true

-- A query with a limit above zero answers a part of all rows, sorted as it asks.
pub record IsPaging (paged : Paging) : Type 0 where
  pub cut :
      (order : WalletEvent → WalletEvent → Bool)
      → IsOrder order
      → (offset limit : ℕ) (rows : List WalletEvent)
      → (ordered : List WalletEvent) × Permᴰ rows ordered
        × IsSortedBy order ordered
        × (paged order offset (suc limit) rows ≡ take (suc limit) (drop offset ordered))

module _ (p : Platform) where
  abbrev pub balance_view : Text → Db → BalanceView
  balance_view wallet_id db = record {
    wallet_id = wallet_id;
    balance = balance_of (find_wallet wallet_id db);
  }

  -- What `getBalance` gives to `wrap`.
  unfoldable pub find_balance : Text → Action (Option BalanceView)
  find_balance wallet_id = lift (
      Effects.◌>>=◌ (run p (select Table.wallets Bool.false))
        λ _. gets (λ db. some (balance_view wallet_id db)))

  module _ (c : CacheManager BalanceView) (config : CacheConfig) where
    unfoldable pub get_balance : Text → Session c.Store (Option BalanceView)
    unfolding wrap find_balance
    get_balance wallet_id =
        wrap c config (balance_key wallet_id) (querying (find_balance wallet_id)) none

    -- The route `GET :id`.
    unfoldable pub balance : Text → Session c.Store (Option BalanceView)
    unfolding get_balance
    balance wallet_id = get_balance wallet_id

  module _ (paged : Paging) where
    unfoldable pub get_history : Text → Option HistoryOptions → Action (List WalletEvent)
    unfolding events_of
    get_history wallet_id options = lift (
        Effects.◌>>=◌ (run p (select Table.events Bool.false)) λ _. gets (λ db.
          paged by_created_at_desc (offset_of options) (limit_of options)
            (events_of wallet_id db.events)))

    -- The route `GET :id/history`.
    unfoldable pub history : Text → HistoryQueryDto → Action (List WalletEvent)
    unfolding get_history
    history wallet_id query =
        get_history wallet_id
          (some (record { offset = some query.offset; limit = some query.limit }))
