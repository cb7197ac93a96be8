-- ===== src/Cache.antt =====
-- RedisCacheService (src/modules/cache/redis-cache.service.ts). The store behind it, which
-- cache-manager gives, is a parameter; what a request may change is this store and the database.
pub mod Entries
pub mod Wrapped
use api_wallet.Prelude.{
  ℕ, ◌+◌, ◌≤◌, ◌<◌, Text, codes, text_eq, ◌≡◌, ◌⊎◌, false, Option, none, some, ◌++◌, or_else,
}
use api_wallet.Tables.{Db}
use api_wallet.Wallet.Effects.{Result, ok, err, failure, Action}

-- cache-manager: `none` means that the call throws. `held` is what the store has under a key at a
-- time.
pub record CacheManager (T : Type 0) : Type 1 where
  pub Store : Type 0
  pub get : Text → (now : ℕ) → Store → Option (Option T)
  pub set : Text → T → (ttl : ℕ) → (now : ℕ) → Store → Option Store
  pub del : Text → Store → Option Store
  pub held : Text → (now : ℕ) → Store → Option T

-- An entry stays for its time to live and then is gone; the other entries stay as they were.
pub record IsStore {T : Type 0} (c : CacheManager T) : Type 0 where
  pub got :
      (k : Text) (now : ℕ) (s : c.Store)
      → (c.get k now s ≡ none) ⊎ (c.get k now s ≡ some (c.held k now s))
  pub set_kept :
      (k : Text) (v : T) (ttl now now' : ℕ) (s s' : c.Store)
      → c.set k v ttl now s ≡ some s'
      → now ≤ now'
      → now' < now + ttl
      → c.held k now' s' ≡ some v
  pub set_expired :
      (k : Text) (v : T) (ttl now now' : ℕ) (s s' : c.Store)
      → c.set k v ttl now s ≡ some s'
      → 0 < ttl
      → now + ttl ≤ now'
      → c.held k now' s' ≡ none
  pub set_other :
      (k k' : Text) (v : T) (ttl now now' : ℕ) (s s' : c.Store)
      → c.set k v ttl now s ≡ some s'
      → text_eq k k' ≡ false
      → c.held k' now' s' ≡ c.held k' now' s
  pub del_gone :
      (k : Text) (now : ℕ) (s s' : c.Store) → c.del k s ≡ some s' → c.held k now s' ≡ none
  pub del_other :
      (k k' : Text) (now : ℕ) (s s' : c.Store)
      → c.del k s ≡ some s'
      → text_eq k k' ≡ false
      → c.held k' now s' ≡ c.held k' now s

-- The two fields that the constructor reads from the environment, for a time to live that is a natural
-- number; `Config/Connections` has how it is read.
pub record CacheConfig : Type 0 where
  pub ttl : ℕ
  pub prefix : Text

-- A request that uses the store and the database.
abbrev pub Session : Type 0 → Type 0 → Type 0
Session S A = S × Db → Result A × (S × Db)

infixl 5 ◌>>=◌ ◌>>◌
abbrev pub ◌>>=◌ : {S A B : Type 0} → Session S A → (A → Session S B) → Session S B
◌>>=◌ m f w = let (r, w') = m w in elim r [ ok a ↦ f a w' | err e ↦ (err e, w') ]

abbrev pub ◌>>◌ : {S B : Type 0} → Session S (Unit {0}) → Session S B → Session S B
m >> k = m >>= λ _. k

abbrev pub return : {S A : Type 0} → A → Session S A
return a w = (ok a, w)

-- A request against the database alone.
abbrev pub querying : {S A : Type 0} → Action A → Session S A
querying m (store, db) = let (r, db') = m db in (r, (store, db'))

unfoldable pub build_key : Text → Text → Text
build_key prefix key = prefix ++ (codes ":" ++ key)

module _ {T : Type 0} (c : CacheManager T) (config : CacheConfig) where
  abbrev pub read : Option (Option T) → Session c.Store (Option T)
  read none w = (err failure, w)
  read (some value) w = (ok value, w)

  abbrev pub write : Option c.Store → Session c.Store (Unit {0})
  write none w = (err failure, w)
  write (some store) (_, db) = (ok tt, (store, db))

  unfoldable pub get : Text → Session c.Store (Option T)
  get key (store, db) = read (c.get (build_key config.prefix key) db.clock store) (store, db)

  unfoldable pub set : Text → T → Option ℕ → Session c.Store (Unit {0})
  set key value ttl (store, db) =
      write (c.set (build_key config.prefix key) value (or_else ttl config.ttl) db.clock store)
        (store, db)

  unfoldable pub del : Text → Session c.Store (Unit {0})
  del key (store, db) = write (c.del (build_key config.prefix key) store) (store, db)

  -- The end of `wrap`: an empty result is not stored.
  abbrev pub keep : Text → Option ℕ → Option T → Session c.Store (Option T)
  keep key ttl none = return none
  keep key ttl (some value) = do set key value ttl; return (some value)

  abbrev pub or_make : Option T → Session c.Store (Option T) → Session c.Store (Option T)
  or_make (some value) _ = return (some value)
  or_make none make = make

  unfoldable pub wrap : Text → Session c.Store (Option T) → Option ℕ → Session c.Store (Option T)
  unfolding get set
  wrap key factory ttl = do
    cached ← get key
    or_make cached do result ← factory; keep key ttl result
