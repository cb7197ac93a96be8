-- ===== src/Health.antt =====
-- The health check (src/modules/health/health.controller.ts, src/modules/health/redis-health.indicator.ts)
-- and the ping of RedisCacheService (src/modules/cache/redis-cache.service.ts). What Redis answers, the
-- check of the database and the health check service are parameters.
use api_wallet.Prelude.{
  Text, codes, Bool, true, false, Option, none, some, List, [], ◌∷◌, ◌++◌, or_else,
}

-- The answer to a ping, or the message of the error that it throws, if that is an Error.
pub data Reply : Type 0 where
  text : Text → Reply
  texts : List Text → Reply
  threw : (message : Option Text) → Reply

-- A call that returns a value, or throws an error with such a message.
pub data Outcome (A : Type 0) : Type 0 where
  returned : A → Outcome A
  raised : (message : Option Text) → Outcome A

-- `array.join(';')`
unfoldable pub join : List Text → Text
join [] = []
join (t ∷ []) = t
join (t ∷ u ∷ ts) = t ++ (codes ";" ++ join (u ∷ ts))

unfoldable pub ping : Reply → Outcome Text
unfolding join
ping (text t) = returned t
ping (texts ts) = returned (join ts)
ping (threw message) = raised message

-- `getStatus`
pub record IndicatorResult : Type 0 where
  pub key : Text
  pub is_up : Bool
  pub message : Option Text

-- The status that is returned, or the error that is thrown, with its status.
pub data Indicated : Type 0 where
  healthy : IndicatorResult → Indicated
  check_error : (message : Text) → IndicatorResult → Indicated

abbrev pub indicated : Text → Outcome Text → Indicated
indicated key (returned _) = healthy (record { key = key; is_up = true; message = none })
indicated key (raised message) =
    check_error (key ++ codes " check failed") (record {
      key = key;
      is_up = false;
      message = some (or_else message (codes "unknown error"));
    })

unfoldable pub is_healthy : Reply → Text → Indicated
unfolding ping
is_healthy reply key = indicated key (ping reply)

-- `check` of the controller; `service` is `healthCheckService.check`, `ping_check` that of the database.
unfoldable pub check :
    {R : Type 0} → (service : List Indicated → R) → (ping_check : Text → Indicated) → Reply → R
unfolding is_healthy
check service ping_check reply =
    service (ping_check (codes "database") ∷ is_healthy reply (codes "redis") ∷ [])
