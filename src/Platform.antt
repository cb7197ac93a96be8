-- ===== src/Platform.antt =====
-- What the services use of code that is not theirs: decimal.js, TypeORM with PostgreSQL, and the
-- generated keys. `Platform` holds the operations, `IsDocumented` what their documentation says.
use api_wallet.Prelude.{
  ℕ, ◌+◌, ◌-◌, ◌*◌, ◌≤◌, ◌<◌, Text, codes, ◌≡◌, ◌≢◌, ◌⊎◌, Bool, true, false, Option, none, some,
  List, [], ltb, leb, All, arith,
}
use api_wallet.Entities.{Wallet, Transfer}
use api_wallet.Tables.{Db, Statement, save_wallets, save_transfer, effect}

-- The least number of ten-thousandths that numeric(20,4) cannot hold, 10 ^ 20. It is also where
-- decimal.js, at its 20 significant digits, begins to round a sum.
unfoldable pub max_units : ℕ
max_units = 100000000000000000000

pub max_units_pos : 0 < max_units
unfolding max_units
max_units_pos = omega arith

pub record Platform : Type 1 where
  -- decimal.js; `of_text` is the constructor, and `none` means that it throws
  pub Decimal : Type 0
  pub of_text : Text → Option Decimal
  pub of_number : ℕ → Decimal
  pub plus : Decimal → Decimal → Decimal
  pub minus : Decimal → Decimal → Decimal
  pub lt : Decimal → Decimal → Bool
  pub lte : Decimal → Decimal → Bool
  pub gte : Decimal → Decimal → Bool
  pub is_finite : Decimal → Bool
  -- `toDecimalPlaces(4, ROUND_HALF_UP)`, `toFixed(4)`, `toString()`
  pub to_places : Decimal → Decimal
  pub to_fixed : Decimal → Text
  pub to_text : Decimal → Text
  -- the decimal of a number of ten-thousandths, and a number rounded to 20 significant digits
  pub money : ℕ → Decimal
  pub significant : ℕ → ℕ
  -- the database: `none` means that the statement throws
  pub execute : Statement → Db → Option Db
  pub stored : Text → Text
  pub uuid : ℕ → Text
  -- `dataSource.options.type`
  pub database_type : Text

-- The units that a text stands for, if it stands for a non-negative number of ten-thousandths.
abbrev pub Denotes : (p : Platform) → Text → ℕ → Type 0
Denotes p t n = p.of_text t ≡ some (p.money n)

pub record IsDocumented (p : Platform) : Type 0 where
  pub of_number_money : (k : ℕ) → p.of_number k ≡ p.money (k * 10000)
  pub plus_money : (a b : ℕ) → p.plus (p.money a) (p.money b) ≡ p.money (p.significant (a + b))
  pub significant_small : (n : ℕ) → n < max_units → p.significant n ≡ n
  pub significant_large : (n : ℕ) → max_units ≤ n → max_units ≤ p.significant n
  pub minus_money :
      (a b : ℕ) → b ≤ a → a < max_units → p.minus (p.money a) (p.money b) ≡ p.money (a - b)
  pub lt_money : (a b : ℕ) → p.lt (p.money a) (p.money b) ≡ ltb a b
  pub gte_money : (a b : ℕ) → p.gte (p.money a) (p.money b) ≡ leb b a
  -- A finite number above zero rounds to a number of ten-thousandths, which may be zero.
  pub to_places_money :
      (d : p.Decimal)
      → p.is_finite d ≡ true
      → p.lte d (p.of_number 0) ≡ false
      → (n : ℕ) × (p.to_places d ≡ p.money n)
  pub to_fixed_money : (n : ℕ) → Denotes p (p.to_fixed (p.money n)) n
  pub to_text_money : (n : ℕ) → Denotes p (p.to_text (p.money n)) n
  pub of_text_empty : p.of_text [] ≡ none
  pub money_injective : (a b : ℕ) → p.money a ≡ p.money b → a ≡ b
  -- The column gives back the number that was written, at four places.
  pub stored_money : (t : Text) (n : ℕ) → Denotes p t n → Denotes p (p.stored t) n
  pub stored_zero : Denotes p (p.stored (codes "0")) 0
  pub zero_text : Denotes p (codes "0") 0
  pub default_zero : Denotes p (codes "0.0000") 0
  -- A statement throws, or it does what it says.
  pub executed :
      (s : Statement) (db : Db)
      → (p.execute s db ≡ none) ⊎ (p.execute s db ≡ some (effect p.stored p.uuid s db))
  -- numeric(20,4) refuses what does not fit, on each wallet that is saved.
  pub balance_fits :
      (ws : List Wallet) (db : Db)
      → p.execute (save_wallets ws) db ≢ none
      → All (λ w. (n : ℕ) → Denotes p w.balance n → n < max_units) ws
  -- the check `"amount" > 0` of the transfers
  pub amount_positive :
      (t : Transfer) (db : Db) → Denotes p t.amount 0 → p.execute (save_transfer t) db ≡ none
  pub uuid_injective : (m n : ℕ) → p.uuid m ≡ p.uuid n → m ≡ n
  pub uuid_nonempty : (n : ℕ) → p.uuid n ≢ []
