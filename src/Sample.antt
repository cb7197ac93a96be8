-- ===== src/Sample.antt =====
-- A platform that behaves as documented, to run the model on: numbers of hundred-thousandths with a
-- sign, written as a sign and one code unit, and a database that refuses what its schema excludes.
pub mod Store
pub mod Paging
use api_wallet.Prelude.{
  ℕ, zero, suc, ◌+◌, ◌-◌, ◌*◌, ◌/◌, ◌<◌, Text, codes, text_eq, ◌≡◌, refl, ◌≢◌, inl, inr, Bool, true,
  false, ◌||◌, Option, none, some, List, [], ◌∷◌, arith, ltb, leb, ◌==◌, if◌then◌else◌, All, ap,
  Bool-cases, subst, text_eq→eq,
}
use api_wallet.Entities.{Wallet, Transfer}
use api_wallet.Tables.{Db, Statement, save_wallets, save_transfer, effect}
use api_wallet.Wallet.Outcomes.{IsAcceptable, Refused}
use api_wallet.Platform.{Platform, IsDocumented, Denotes, max_units}

pub data Number : Type 0 where
  nan : Number
  pos : ℕ → Number
  neg : ℕ → Number

abbrev money : ℕ → Number
money n = pos (10 * n)

abbrev read : ℕ → ℕ → Option Number
read sign n = if sign == b'+' then some (pos n) else if sign == b'-' then some (neg n) else none

abbrev of_text : Text → Option Number
of_text (sign ∷ n ∷ []) = read sign n
of_text t =
    if text_eq t (codes "0") || text_eq t (codes "0.0000")
    then some (pos 0)
    else if text_eq t (codes "NaN")
    then some nan
    else none

abbrev to_fixed : Number → Text
to_fixed nan = codes "NaN"
to_fixed (pos n) = b'+' ∷ n ∷ []
to_fixed (neg n) = b'-' ∷ n ∷ []

abbrev plus : Number → Number → Number
plus (pos a) (pos b) = pos (a + b)
plus (pos a) (neg b) = if leb b a then pos (a - b) else neg (b - a)
plus (neg a) (pos b) = if leb a b then pos (b - a) else neg (a - b)
plus (neg a) (neg b) = neg (a + b)
plus _ _ = nan

abbrev opposite : Number → Number
opposite nan = nan
opposite (pos n) = neg n
opposite (neg n) = pos n

abbrev lt : Number → Number → Bool
lt (pos a) (pos b) = ltb a b
lt (neg a) (pos b) = true
lt (neg a) (neg b) = ltb b a
lt _ _ = false

abbrev lte : Number → Number → Bool
lte (pos a) (pos b) = leb a b
lte (neg a) (pos b) = true
lte (neg a) (neg b) = leb b a
lte _ _ = false

abbrev to_places : Number → Number
to_places nan = nan
to_places (pos n) = pos (10 * ((n + 5) / 10))
to_places (neg n) = neg (10 * ((n + 5) / 10))

abbrev is_finite : Number → Bool
is_finite nan = false
is_finite _ = true

abbrev stored : Text → Text
stored t = if text_eq t (codes "0") then codes "0.0000" else t

abbrev uuid : ℕ → Text
uuid n = (n + 1) ∷ []

abbrev is_large : Option Number → Bool
is_large (some (pos n)) = leb (10 * max_units) n
is_large _ = false

abbrev is_zero : Option Number → Bool
is_zero (some (pos zero)) = true
is_zero _ = false

abbrev any_large : List Wallet → Bool
any_large [] = false
any_large (w ∷ ws) = is_large (of_text w.balance) || any_large ws

abbrev violates : Statement → Bool
violates (save_wallets ws) = any_large ws
violates (save_transfer t) = is_zero (of_text t.amount)
violates _ = false

unfoldable pub execute : Statement → Db → Option Db
unfolding max_units text_eq effect
execute s db = if violates s then none else some (effect stored uuid s db)

abbrev pub platform : Platform
platform = record {
  Decimal = Number;
  of_text = of_text;
  of_number = λ k. pos (100000 * k);
  plus = plus;
  minus = λ a b. plus a (opposite b);
  lt = lt;
  lte = lte;
  gte = λ a b. lte b a;
  is_finite = is_finite;
  to_places = to_places;
  to_fixed = to_fixed;
  to_text = to_fixed;
  money = money;
  significant = λ n. n;
  execute = execute;
  stored = stored;
  uuid = uuid;
  database_type = codes "postgres";
}

fits :
    (ws : List Wallet)
    → any_large ws ≡ false
    → All (λ w. (n : ℕ) → Denotes platform w.balance n → n < max_units) ws
fits [] h = tt
fits (w ∷ ws) h = (
  λ n d.
      let l : is_large (of_text w.balance) ≡ false = ground arith in
      let l' : is_large (some (money n)) ≡ false = subst (λ o. is_large o ≡ false) d l in
      ground arith,
  fits ws (ground arith),
)

to_places_money :
    (d : Number) → is_finite d ≡ true → lte d (pos 0) ≡ false → (n : ℕ) × (to_places d ≡ money n)
to_places_money nan f h = cc
to_places_money (pos n) f h = ((n + 5) / 10, refl)
to_places_money (neg n) f h = cc

stored_money : (t : Text) (n : ℕ) → Denotes platform t n → Denotes platform (stored t) n
unfolding text_eq
stored_money t n h = elim (Bool-cases (text_eq t (codes "0"))) [
  | inl e ↦ rw e (subst (λ s. Denotes platform s n) (text_eq→eq t (codes "0") e) h)
  | inr e ↦ rw e h
]

execute_fits :
    (ws : List Wallet) (db : Db) → execute (save_wallets ws) db ≢ none → any_large ws ≡ false
unfolding execute
execute_fits ws db h = elim (Bool-cases (any_large ws)) [ inl e ↦ absurd (h (rw e)) | inr e ↦ e ]

execute_zero :
    (t : Transfer) (db : Db) → Denotes platform t.amount 0 → execute (save_transfer t) db ≡ none
unfolding execute
execute_zero t db h = rw h

pub platform-IsDocumented : IsDocumented platform
unfolding execute
platform-IsDocumented = record {
  of_number_money = λ k. ap pos (omega arith);
  plus_money = λ a b. ap pos (omega arith);
  significant_small = λ n _. refl;
  significant_large = λ n h. h;
  minus_money = λ a b h _. ground arith;
  lt_money = λ a b. ground arith;
  gte_money = λ a b. ground arith;
  to_places_money = to_places_money;
  to_fixed_money = λ n. refl;
  to_text_money = λ n. refl;
  of_text_empty = refl;
  money_injective = λ a b e. ground arith;
  stored_money = stored_money;
  stored_zero = refl;
  zero_text = refl;
  default_zero = refl;
  executed = λ s db. ground arith;
  balance_fits = λ ws db h. fits ws (execute_fits ws db h);
  amount_positive = execute_zero;
  uuid_injective = λ m n e. ground arith;
  uuid_nonempty = λ n e. cc;
}

-- The sample database refuses nothing that is acceptable.
not_large :
    (ws : List Wallet)
    → All (λ w. (n : ℕ) × Denotes platform w.balance n × (n < max_units)) ws
    → any_large ws ≡ false
unfolding max_units
not_large [] h = refl
not_large (w ∷ ws) ((n, d, lt), h) = rw (d, not_large ws h) (ground arith)

nonzero : (k : ℕ) → 0 < k → is_zero (some (pos k)) ≡ false
nonzero zero h = absurd (omega arith)
nonzero (suc k) h = refl

not_violated : (s : Statement) → IsAcceptable platform s → violates s ≡ false
not_violated (save_wallets ws) h = not_large ws h
not_violated (save_transfer t) (n, d, positive) = rw d (nonzero (10 * n) (omega arith))
not_violated s h = refl

pub platform-reliable : ¬ Refused platform
unfolding execute
platform-reliable (s, db, fine, e) = cc (e, not_violated s fine)
