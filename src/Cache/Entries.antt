-- ===== src/Cache/Entries.antt =====
-- What RedisCacheService (src/modules/cache/redis-cache.service.ts) reads after a write or a delete.
use api_wallet.Prelude.{
  ℕ, ◌+◌, ◌≤◌, ◌<◌, Text, codes, text_eq, text_eq→eq, ◌≡◌, refl, ◌∙◌, ap, subst, ◌⊎◌, inl, inr,
  Option, none, some, Bool-cases, [], ◌∷◌, ◌++◌, or_else, ltb, ltb→lt, ltb→le, if◌then◌else◌, arith,
}
use api_wallet.Tables.{Db}
use api_wallet.Wallet.Effects.{ok, err, failure}
use api_wallet.Cache.{CacheManager, IsStore, CacheConfig, build_key, write, get, set, del}

pub text_eq-append : (a s t : Text) → text_eq (a ++ s) (a ++ t) ≡ text_eq s t
unfolding text_eq
text_eq-append [] s t = refl
text_eq-append (x ∷ a) s t = ground (arith, text_eq-append a s t)

-- Distinct keys have distinct places in the store.
pub build_key-distinct :
    (prefix k k' : Text) → text_eq (build_key prefix k) (build_key prefix k') ≡ text_eq k k'
unfolding build_key
build_key-distinct prefix k k' =
    text_eq-append prefix (codes ":" ++ k) (codes ":" ++ k') ∙ text_eq-append (codes ":") k k'

module _ {T : Type 0} (c : CacheManager T) (config : CacheConfig) where
  -- A read answers this, or the store throws; it changes nothing.
  abbrev pub Gets : Text → Option T → c.Store × Db → Type 0
  Gets key o w = (get c config key w ≡ (ok o, w)) ⊎ (get c config key w ≡ (err failure, w))

  module _ (good : IsStore c) where
    pub get-Gets :
        (key : Text) (store : c.Store) (db : Db)
        → Gets key (c.held (build_key config.prefix key) db.clock store) (store, db)
    unfolding get
    get-Gets key store db = elim (good.got (build_key config.prefix key) db.clock store) [
      | inl e ↦ inr (rw e refl)
      | inr e ↦ inl (rw e refl)
    ]

    written :
        (o : Option c.Store) (store store' : c.Store) (db : Db)
        → write c config o (store, db) ≡ (ok tt, (store', db))
        → o ≡ some store'
    written none store store' db e = cc
    written (some s) store store' db e = ap some (ap (λ r. r.1.0) e)

    -- After an entry is written with a time to live that is not zero, a read at that moment or later
    -- finds it under its key until the time is over and nothing from then on, and finds under every
    -- other key what was there before; or the store throws.
    pub set-get :
        (key key' : Text) (value : T) (ttl : Option ℕ) (store store' : c.Store) (db db' : Db)
        → set c config key value ttl (store, db) ≡ (ok tt, (store', db))
        → 0 < or_else ttl config.ttl
        → db.clock ≤ db'.clock
        → Gets key'
            (if text_eq key key'
              then (if ltb db'.clock (db.clock + or_else ttl config.ttl) then some value else none)
              else c.held (build_key config.prefix key') db'.clock store)
            (store', db')
    unfolding set
    set-get key key' value ttl store store' db db' e positive le =
        subst (λ o. Gets key' o (store', db')) found (get-Gets key' store' db')
      where
        at : Text → Text
        at k = build_key config.prefix k

        did : c.set (at key) value (or_else ttl config.ttl) db.clock store ≡ some store'
        did = written _ store store' db e

        found : c.held (at key') db'.clock store' ≡ (
            if text_eq key key'
            then (if ltb db'.clock (db.clock + or_else ttl config.ttl) then some value else none)
            else c.held (at key') db'.clock store)
        found = elim (Bool-cases (text_eq key key')) [
          | inl same ↦ elim (Bool-cases (ltb db'.clock (db.clock + or_else ttl config.ttl))) [
            | inl before ↦
                rw (same, before)
                  (subst (λ k. c.held (at k) db'.clock store' ≡ some value)
                    (text_eq→eq key key' same)
                    (good.set_kept (at key) value _ db.clock db'.clock store store' did le
                      (ltb→lt _ _ before)))
            | inr after ↦
                rw (same, after)
                  (subst (λ k. c.held (at k) db'.clock store' ≡ none) (text_eq→eq key key' same)
                    (good.set_expired (at key) value _ db.clock db'.clock store store' did positive
                      (ltb→le _ _ after)))
          ]
          | inr other ↦ rw other (
              good.set_other (at key) (at key') value _ db.clock db'.clock store store' did
                (build_key-distinct config.prefix key key' ∙ other))
        ]

    -- After an entry is deleted, a read finds nothing under its key, and under every other key what
    -- was there before; or the store throws.
    pub del-get :
        (key key' : Text) (store store' : c.Store) (db db' : Db)
        → del c config key (store, db) ≡ (ok tt, (store', db))
        → Gets key'
            (if text_eq key key'
              then none
              else c.held (build_key config.prefix key') db'.clock store)
            (store', db')
    unfolding del
    del-get key key' store store' db db' e =
        subst (λ o. Gets key' o (store', db')) found (get-Gets key' store' db')
      where
        at : Text → Text
        at k = build_key config.prefix k

        did : c.del (at key) store ≡ some store'
        did = written _ store store' db e

        found :
            c.held (at key') db'.clock store'
            ≡ (if text_eq key key' then none else c.held (at key') db'.clock store)
        found = elim (Bool-cases (text_eq key key')) [
          | inl same ↦ rw same (
              subst (λ k. c.held (at k) db'.clock store' ≡ none) (text_eq→eq key key' same)
                (good.del_gone (at key) db'.clock store store' did))
          | inr other ↦ rw other (
              good.del_other (at key) (at key') db'.clock store store' did
                (build_key-distinct config.prefix key key' ∙ other))
        ]
