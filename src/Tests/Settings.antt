-- ===== src/Tests/Settings.antt =====
-- The settings of a sample environment.
use api_wallet.Prelude.{
  ℕ, suc, ◌*◌, ◌<◌, codes, text_eq, ◌≡◌, refl, Bool, true, Option, none, some, List, [], ◌∷◌, ◌++◌,
  All, ltb, if◌then◌else◌, arith,
}
use api_wallet.Config.{
  Script, IsScript, Environment, build_base_options, build_throttler_config, cleanup_ttl_ms,
}
use api_wallet.Config.Connections.{new_redis_cache, build_cache_config}
use api_wallet.Config.App.{AppCall, use_basic_auth, setup_docs, listen, literal, bootstrap}
use api_wallet.Health.{healthy, check_error, threw, check}
use api_wallet.Idempotency.Timer
use api_wallet.Idempotency.Timer.{new_cleaner, on_module_init-intervals}
use api_wallet.OutboxPublisher.Timer.{on_module_init, on_module_destroy}
use api_wallet.Runtime.{Runtime, cleanup_cycle}
use api_wallet.Config.Bounds.{IsPositive, IsPositiveIfSet, settings-IsPositive}

-- Numbers are one code unit; any other text is no number.
abbrev script : Script
script = record {
  Number = Option ℕ;
  number =
      λ value. elim value [ none ↦ none | some t ↦ elim t [ [] ↦ some 0 | n ∷ more ↦ some n ] ];
  parse_int = λ t. elim t [ [] ↦ none | n ∷ more ↦ some n ];
  is_finite = λ n. elim n [ none ↦ Bool.false | some k ↦ true ];
  is_positive = λ n. elim n [ none ↦ Bool.false | some k ↦ ltb 0 k ];
  times = λ a b. elim a [ none ↦ none | some k ↦ elim b [ none ↦ none | some l ↦ some (k * l) ] ];
  of_nat = λ n. some n;
  to_lower_case = λ t. t;
}

times_positive :
    (a : Option ℕ) (n : ℕ)
    → script.is_positive a ≡ true
    → script.is_positive (script.times a (some (suc n))) ≡ true
times_positive none n h = cc
times_positive (some k) n h = ground (arith, mul_positive k n)
  where
    mul_positive : (k n : ℕ) → 0 < k → 0 < k * suc n
    mul_positive k n h = omega arith

script-IsScript : IsScript script
script-IsScript = record { literal_positive = λ n. ground arith; times_positive = times_positive }

-- A prefetch of nothing and a time to live of three hours.
abbrev environment : Environment
environment name =
    if text_eq name (codes "RABBITMQ_PREFETCH")
    then some []
    else if text_eq name (codes "IDEMPOTENCY_TTL_HOURS")
    then some (3 ∷ [])
    else none

settings_run :
    ((build_base_options script environment).prefetch_count ≡ some 20)
    × (cleanup_ttl_ms script environment ≡ some 10800000)
unfolding build_base_options cleanup_ttl_ms text_eq
settings_run = (refl, refl)

settings-IsPositive_example :
    IsPositive script (build_base_options script environment).prefetch_count
    × All
        (λ t.
          IsPositive script t.ttl
          × IsPositive script t.limit
          × IsPositiveIfSet script t.block_duration)
        (build_throttler_config script environment)
    × IsPositive script (cleanup_ttl_ms script environment)
settings-IsPositive_example = settings-IsPositive script script-IsScript environment

-- One interval runs already.
abbrev runtime : Runtime
runtime = record {
  issued = 1;
  intervals = record { handle = 0; task = cleanup_cycle; period_ms = 10 } ∷ [];
}

on_module_init-intervals_example :
    ((Timer.on_module_init (new_cleaner, runtime)).1.intervals
      ≡ runtime.intervals ++ record { handle = 1; task = cleanup_cycle; period_ms = 3600000 } ∷ [])
    × ((Timer.on_module_destroy (Timer.on_module_init (new_cleaner, runtime))).1.intervals
        ≡ runtime.intervals)
on_module_init-intervals_example = on_module_init-intervals runtime (omega arith, tt)

-- The health check's connection and the cache's, in an environment that names a user.
abbrev named : Environment
named name = if text_eq name (codes "REDIS_USER") then some (codes "app") else none

same_server_run :
    (new_redis_cache script (λ options. options) named).redis_health_client
    ≡ (build_cache_config script (λ options. options) named).store
unfolding text_eq new_redis_cache build_cache_config
same_server_run = refl

abbrev past_four : List AppCall → List AppCall
past_four (_ ∷ _ ∷ _ ∷ _ ∷ calls) = calls
past_four _ = []

-- The documentation is protected before it is set up, and the server listens last.
bootstrap_run :
    past_four (bootstrap (λ _. none))
    ≡ use_basic_auth
        (codes "/docs" ∷ codes "/docs-json" ∷ [])
        (codes "admin")
        (codes "admin")
        (codes "Unauthorized")
        true
      ∷ setup_docs
          (codes "docs")
          (codes "Wallet API")
          (codes "Event-driven wallet service API documentation")
          (codes "1.0.0")
      ∷ listen (literal 3000) (codes "0.0.0.0")
      ∷ []
unfolding bootstrap
bootstrap_run = refl

-- Redis is down without a message, and the database is up.
check_run :
    check
      (λ results. results)
      (λ key. healthy (record { key = key; is_up = true; message = none }))
      (threw none)
    ≡ healthy (record { key = codes "database"; is_up = true; message = none })
      ∷ check_error (codes "redis check failed") (record {
        key = codes "redis";
        is_up = Bool.false;
        message = some (codes "unknown error");
      })
      ∷ []
unfolding check
check_run = refl
