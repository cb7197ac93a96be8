-- ===== src/Cache/Wrapped.antt =====
-- How `wrap` of RedisCacheService (src/modules/cache/redis-cache.service.ts) goes on after its read.
use api_wallet.Prelude.{Text, ◌≡◌, refl, sym, subst, Option, none, some, ℕ}
use api_wallet.Tables.{Db}
use api_wallet.Wallet.Effects.{Result, ok, err, Error}
use api_wallet.Cache.{CacheManager, CacheConfig, Session, ◌>>=◌, get, keep, or_make, wrap}

-- How a session ends.
abbrev pub Outcome :
    {S A : Type 0} → Result A × S → (A → S → Type 0) → (Error → S → Type 0) → Type 0
Outcome (ok a, w) Q R = Q a w
Outcome (err e, w) Q R = R e w

module _ {S A B : Type 0} (m : Session S A) (f : A → Session S B) (w w' : S × Db) where
  pub bind-ok : (a : A) → m w ≡ (ok a, w') → (m >>= f) w ≡ f a w'
  bind-ok a e = subst (λ out. ((λ _. out) >>= f) w ≡ f a w') (sym e) refl

  pub bind-err : (x : Error) → m w ≡ (err x, w') → (m >>= f) w ≡ (err x, w')
  bind-err x e = subst (λ out. ((λ _. out) >>= f) w ≡ (err x, w')) (sym e) refl

module _ {T : Type 0} (c : CacheManager T) (config : CacheConfig) (key : Text)
    (factory : Session c.Store (Option T)) (ttl : Option ℕ) (w : c.Store × Db) where
  abbrev rest : Option T → Session c.Store (Option T)
  rest cached = or_make c config cached (factory >>= keep c config key ttl)

  pub wrap-hit :
      (v : T)
      → get c config key w ≡ (ok (some v), w)
      → wrap c config key factory ttl w ≡ (ok (some v), w)
  unfolding wrap
  wrap-hit v e = bind-ok (get c config key) rest w w (some v) e

  pub wrap-miss :
      get c config key w ≡ (ok none, w)
      → wrap c config key factory ttl w ≡ (factory >>= keep c config key ttl) w
  unfolding wrap
  wrap-miss e = bind-ok (get c config key) rest w w none e

  pub wrap-threw :
      (x : Error) → get c config key w ≡ (err x, w) → wrap c config key factory ttl w ≡ (err x, w)
  unfolding wrap
  wrap-threw x e = bind-err (get c config key) rest w w x e
