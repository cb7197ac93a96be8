-- ===== src/Tests/Reading.antt =====
-- Reads on the sample platform, with the sample store before the balances.
use api_wallet.Prelude.{
  arith, codes, Text, ◌≡◌, refl, none, some, List, [], ◌≤◌, ◌⊎◌, All, length, ◌+◌, text_eq, ℕ,
}
use api_wallet.Tables.{Db}
use api_wallet.Platform.{Denotes}
use api_wallet.Sample.{platform, execute, platform-IsDocumented}
use api_wallet.Sample.Store.{store, store-IsStore, Entry}
use api_wallet.Sample.Paging.{paging, paging-IsPaging}
use api_wallet.Wallet.{deposit, in_transaction, ok, err, failure}
use api_wallet.Wallet.Outcomes.{Ends, Refused}
use api_wallet.Wallet.Books.{empty}
use api_wallet.Cache.{CacheConfig, build_key, get, del, wrap}
use api_wallet.Cache
use api_wallet.Cache.Entries.{Gets, set-get, del-get}
use api_wallet.Cache.Wrapped.{Outcome}
use api_wallet.Queries.{
  BalanceView, balance_key, balance_view, get_balance, default_query, events_of, IsNewestFirst,
  is_valid_query, get_history, history,
}
use api_wallet.Queries.Balance.{get_balance-apart, get_balance-again, get_balance-Denotes}
use api_wallet.Queries.History.{get_history-Page}
use api_wallet.Queries.Totals.{Adds, history-Adds}
use api_wallet.Tests.{alice, bob, ten, twenty_five, funded, funded_ledger, funded-Books}

abbrev config : CacheConfig
config = record { ttl = 600; prefix = codes "wallet" }

abbrev Entries : Type 0
Entries = List (Entry BalanceView)

abbrev alice_key : Text
alice_key = build_key config.prefix (balance_key alice)

-- The first read stores the balance; a deposit then changes the row alone.
abbrev filled : Entries
filled = (get_balance platform (store BalanceView) config alice ([], funded)).1.0

abbrev deposited_later : Db
deposited_later = record (deposit platform alice ten none none funded).1 { clock = 100 }

stale_run :
    (get_balance platform (store BalanceView) config alice (filled, deposited_later)).0
    ≡ ok (some (record { wallet_id = alice; balance = twenty_five }))
unfolding deposit in_transaction execute get_balance build_key text_eq
stale_run = refl

-- The balance of alice is cached, and bob's is read.
get_balance-apart_example :
    ((get_balance platform (store BalanceView) config bob (filled, deposited_later)).0
      ≡ err failure)
    ⊎ ((get_balance platform (store BalanceView) config bob (filled, deposited_later)).0
        ≡ ok (some (balance_view platform bob deposited_later)))
unfolding deposit in_transaction execute get_balance text_eq
get_balance-apart_example =
    get_balance-apart platform-IsDocumented (store-IsStore BalanceView) config bob alice refl []
      funded deposited_later

get_balance-again_example :
    ((get_balance platform (store BalanceView) config alice (filled, deposited_later)).0
      ≡ err failure)
    ⊎ ((get_balance platform (store BalanceView) config alice (filled, deposited_later)).0
        ≡ ok (some (balance_view platform alice funded)))
unfolding deposit in_transaction execute get_balance
get_balance-again_example =
    get_balance-again platform-IsDocumented (store-IsStore BalanceView) config alice [] filled
      funded deposited_later refl refl (omega arith) (omega arith)

get_balance-Denotes_example :
    Outcome
      (get_balance platform (store BalanceView) config alice ([], funded))
      (λ r w.
        (view : BalanceView) × (r ≡ some view)
        × Denotes platform view.balance (funded_ledger alice))
      (λ e w. w ≡ ([], funded))
get_balance-Denotes_example =
    get_balance-Denotes platform-IsDocumented (store-IsStore BalanceView) config alice [] funded
      funded_ledger funded-Books refl

-- One entry, and what is found after it is written and after it is deleted.
abbrev written : List (Entry Text)
written = (Cache.set (store Text) config (codes "a") ten (some 5) ([], empty)).1.0

set-get_example :
    Gets (store Text) config (codes "a") (some ten) (written, record empty { clock = 4 })
unfolding Cache.set text_eq
set-get_example =
    set-get (store Text) config (store-IsStore Text) (codes "a") (codes "a") ten (some 5) [] written
      empty (record empty { clock = 4 }) refl (omega arith) (omega arith)

abbrev deleted : List (Entry Text)
deleted = (del (store Text) config (codes "a") (written, empty)).1.0

del-get_example : Gets (store Text) config (codes "a") none (deleted, record empty { clock = 4 })
unfolding Cache.set del text_eq
del-get_example =
    del-get (store Text) config (store-IsStore Text) (codes "a") (codes "a") written deleted empty
      (record empty { clock = 4 }) refl

-- The event of the deposit, with no options set.
get_history-Page_example :
    Ends
      (get_history platform paging alice (some (record { offset = none; limit = none })) funded)
      (λ es d.
        (d ≡ funded)
        × (length es ≤ 50)
        × (length es ≤ 200)
        × IsNewestFirst es
        × All (λ e. (e.wallet_id ≡ alice) × (e.created_at ≡ some 0)) es)
      (λ e d. (d ≡ funded) × (e ≡ failure) × Refused platform)
unfolding deposit in_transaction execute
get_history-Page_example =
    get_history-Page platform-IsDocumented paging-IsPaging alice
      (record { offset = none; limit = none }) 49 funded (λ e. e.created_at ≡ some 0) refl
      (refl, tt)

history-Adds_example :
    Ends
      (history platform paging alice default_query funded)
      (λ es _. (c : ℕ) × (d : ℕ) × Adds platform es c d × (funded_ledger alice + d ≡ c))
      (λ e d. (d ≡ funded) × (e ≡ failure) × Refused platform)
unfolding deposit in_transaction execute events_of is_valid_query
history-Adds_example =
    history-Adds platform-IsDocumented paging-IsPaging alice default_query funded funded_ledger refl
      refl (omega arith) funded-Books
