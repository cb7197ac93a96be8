-- ===== src/Config/Connections.antt =====
-- Where the database and Redis are: src/config/database.config.ts, src/config/cache.config.ts, and the
-- constructor of RedisCacheService (src/modules/cache/redis-cache.service.ts), which opens a second
-- connection to Redis for the health check.
use api_wallet.Prelude.{
  Text, codes, text_eq, ◌≡◌, ◌≢◌, refl, Bool, true, false, Option, none, some, List, [], ◌∷◌, ◌++◌,
  if◌then◌else◌, is_empty, or_else,
}
use api_wallet.Config.{Script, Environment}

module _ (s : Script) where
  open s use {Number, parse_int, to_lower_case}

  pub record TypeOrmOptions : Type 0 where
    pub type : Text
    pub host : Option Text
    pub port : Number
    pub username : Option Text
    pub password : Option Text
    pub database : Option Text
    pub synchronize : Bool
    pub logging : Bool
    pub auto_load_entities : Bool
    pub entities : List Text
    pub migrations : List Text

  -- `value?.toLowerCase() === 'true'`
  abbrev pub is_enabled : Option Text → Bool
  is_enabled none = false
  is_enabled (some value) = text_eq (to_lower_case value) (codes "true")

  -- `dirname` is `__dirname`.
  unfoldable pub build_typeorm_config : (dirname : Text) → Environment → TypeOrmOptions
  build_typeorm_config dirname get = record {
    type = codes "postgres";
    host = get (codes "DATABASE_HOST");
    port = parse_int (or_else (get (codes "DATABASE_PORT")) (codes "5432"));
    username = get (codes "DATABASE_USER");
    password = get (codes "DATABASE_PASSWORD");
    database = get (codes "DATABASE_NAME");
    synchronize = is_enabled (get (codes "DATABASE_SYNC"));
    logging = is_enabled (get (codes "DATABASE_LOGGING"));
    auto_load_entities = true;
    entities = (dirname ++ codes "/../modules/**/*.entity{.ts,.js}") ∷ [];
    migrations = (dirname ++ codes "/../migrations/**/*{.ts,.js}") ∷ [];
  }

  -- The options of a connection to Redis.
  pub record RedisOptions : Type 0 where
    pub host : Text
    pub port : Number
    pub db : Number
    pub username : Option Text
    pub password : Option Text

  -- `redisStore`, which opens a connection, is a parameter.
  pub record CacheOptions (Store : Type 0) : Type 0 where
    pub is_global : Bool
    pub store : Store
    pub ttl : Number

  unfoldable pub build_cache_config :
      {Store : Type 0} → (redis_store : RedisOptions → Store) → Environment → CacheOptions Store
  build_cache_config redis_store get = record {
    is_global = true;
    store = redis_store (record {
      host = or_else (get (codes "REDIS_HOST")) (codes "127.0.0.1");
      port = parse_int (or_else (get (codes "REDIS_PORT")) (codes "6379"));
      db = parse_int (or_else (get (codes "REDIS_DB")) (codes "0"));
      username = get (codes "REDIS_USER");
      password = get (codes "REDIS_PASSWORD");
    });
    ttl = parse_int (or_else (get (codes "REDIS_TTL")) (codes "600"));
  }

  -- `value || undefined`
  abbrev pub truthy : Option Text → Option Text
  truthy none = none
  truthy (some value) = if is_empty value then none else some value

  -- The fields of RedisCacheService; `redis` is `new Redis`.
  pub record RedisCache (Client : Type 0) : Type 0 where
    pub ttl : Number
    pub prefix : Text
    pub redis_health_client : Client

  unfoldable pub new_redis_cache :
      {Client : Type 0} → (redis : RedisOptions → Client) → Environment → RedisCache Client
  new_redis_cache redis get = record {
    ttl = parse_int (or_else (get (codes "REDIS_TTL")) (codes "600"));
    prefix = or_else (get (codes "CACHE_PREFIX")) (codes "cache");
    redis_health_client = redis (record {
      host = or_else (get (codes "REDIS_HOST")) (codes "127.0.0.1");
      port = parse_int (or_else (get (codes "REDIS_PORT")) (codes "6379"));
      db = parse_int (or_else (get (codes "REDIS_DB")) (codes "0"));
      username = truthy (get (codes "REDIS_USER"));
      password = truthy (get (codes "REDIS_PASSWORD"));
    });
  }

truthy_lem : (s : Script) (value : Option Text) → value ≢ some [] → truthy s value ≡ value
truthy_lem s none h = refl
truthy_lem s (some []) h = absurd (h refl)
truthy_lem s (some (c ∷ t)) h = refl

-- Unless the user or the password of Redis is set to the empty string, the connection of the health
-- check and the store of the cache are opened with the same options, so a ping asks the server that
-- the cache uses; and an entry that is written without a time to live gets the one that the cache
-- gives.
new_redis_cache-agrees :
    (s : Script) {Connection : Type 0} (connect : RedisOptions s → Connection) (get : Environment)
    → get (codes "REDIS_USER") ≢ some []
    → get (codes "REDIS_PASSWORD") ≢ some []
    → ((new_redis_cache s connect get).redis_health_client
        ≡ (build_cache_config s connect get).store)
      × ((new_redis_cache s connect get).ttl ≡ (build_cache_config s connect get).ttl)
unfolding new_redis_cache build_cache_config
new_redis_cache-agrees s connect get user password = (
  rw
      (
        truthy_lem s (get (codes "REDIS_USER")) user,
        truthy_lem s (get (codes "REDIS_PASSWORD")) password,
      )
      refl,
  refl,
)
