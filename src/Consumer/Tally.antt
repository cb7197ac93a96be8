-- ===== src/Consumer/Tally.antt =====
-- The tallies of the events that the consumer was given, each counted once
-- (src/modules/messaging/wallet-events-consumer.service.ts): what its analytics are to agree with.
use api_wallet.Prelude.{
  ℕ, ◌+◌, ◌*◌, ◌≤◌, Text, codes, text_eq, ◌≡◌, Bool, true, false, ◌&&◌, ◌||◌, Option, none, some,
  List, [], ◌∷◌, if◌then◌else◌, is_empty, or_else, leb, arith,
}
use api_wallet.Entities.{EventType, funds_deposited, funds_withdrawn, Payload, WalletAnalytics}
use api_wallet.Tables.{Db}
use api_wallet.Platform.{Platform, Denotes}
use api_wallet.Consumer.{find_analytics, find_consumed, found_or_new}

-- A message with what it says: the id of its event, its wallet, and its amount in ten-thousandths.
pub record Delivery : Type 0 where
  pub pattern_type : EventType
  pub payload : Payload
  pub id : Text
  pub wallet : Text
  pub units : ℕ

-- The payload says so.
abbrev pub IsProper : Platform → Delivery → Type 0
IsProper p m =
    (m.payload.event_id ≡ some m.id)
    × (is_empty m.id ≡ false)
    × (m.payload.wallet_id ≡ some m.wallet)
    × (is_empty m.wallet ≡ false)
    × ((t : Text) × (m.payload.amount ≡ some t) × Denotes p t m.units)

abbrev pub is_found : {A : Type 0} → Option A → Bool
is_found none = false
is_found (some _) = true

abbrev pub has_id : Text → List Delivery → Bool
has_id id [] = false
has_id id (m ∷ ms) = let rest = has_id id ms in text_eq m.id id || rest

-- The deliveries without those whose event came before, the last one first.
abbrev pub add_new : Delivery → List Delivery → List Delivery
add_new m seen = if has_id m.id seen then seen else m ∷ seen

abbrev pub all_new : List Delivery → List Delivery → List Delivery
all_new [] seen = seen
all_new (m ∷ ms) seen = all_new ms (add_new m seen)

abbrev pub is_deposit : EventType → Bool
is_deposit funds_deposited = true
is_deposit _ = false

abbrev pub is_withdrawal : EventType → Bool
is_withdrawal funds_withdrawn = true
is_withdrawal _ = false

-- The deliveries of a kind for a wallet: what they amount to, and how many there are.
module _ (is_kind : EventType → Bool) (wallet : Text) where
  abbrev pub concerns : Delivery → Bool
  concerns m = is_kind m.pattern_type && text_eq m.wallet wallet

  abbrev pub sum_of : List Delivery → ℕ
  sum_of [] = 0
  sum_of (m ∷ ms) = let rest = sum_of ms in if concerns m then rest + m.units else rest

  abbrev pub count_of : List Delivery → ℕ
  count_of [] = 0
  count_of (m ∷ ms) = let rest = count_of ms in if concerns m then rest + 1 else rest

abbrev pub all_units : List Delivery → ℕ
all_units [] = 0
all_units (m ∷ ms) = m.units + all_units ms

module _ (p : Platform) where
  -- The row of a wallet agrees with the tallies: the totals, the counts, and the flag, which is set
  -- exactly if 5000 or more was withdrawn.
  abbrev pub Agrees : List Delivery → Text → WalletAnalytics → Type 0
  Agrees ms wallet a =
      Denotes p (or_else a.total_deposited (codes "0")) (sum_of is_deposit wallet ms)
      × Denotes p (or_else a.total_withdrawn (codes "0")) (sum_of is_withdrawal wallet ms)
      × (or_else a.deposits_count 0 ≡ count_of is_deposit wallet ms)
      × (or_else a.withdrawals_count 0 ≡ count_of is_withdrawal wallet ms)
      × (or_else a.flagged_for_review false ≡ leb (5000 * 10000) (sum_of is_withdrawal wallet ms))

  -- The analytics of every wallet agree with the tallies, a wallet without a row counting as new; and
  -- the events of these deliveries, and no others, are consumed.
  abbrev pub Tallied : List Delivery → Db → Type 0
  Tallied ms db =
      ((wallet : Text) → Agrees ms wallet (found_or_new wallet (find_analytics wallet db)))
      × ((id : Text) → is_found (find_consumed id db) ≡ has_id id ms)

pub sum_of_le :
    (is_kind : EventType → Bool) (wallet : Text) (ms : List Delivery)
    → sum_of is_kind wallet ms ≤ all_units ms
sum_of_le is_kind wallet [] = omega arith
sum_of_le is_kind wallet (m ∷ ms) = ground (arith, sum_of_le is_kind wallet ms)

pub add_new_le :
    (m : Delivery) (seen : List Delivery) → all_units (add_new m seen) ≤ m.units + all_units seen
add_new_le m seen = ground arith
