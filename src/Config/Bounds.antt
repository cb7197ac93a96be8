-- ===== src/Config/Bounds.antt =====
-- The numbers that the services take from the environment (src/config/rabbitmq.config.ts,
-- src/config/throttler.config.ts, src/modules/wallet/idempotency-cleanup.service.ts).
use api_wallet.Prelude.{
  Text, codes, ◌≡◌, inl, inr, true, ◌&&◌, Bool-cases, Option, none, some, All, if◌then◌else◌, arith,
}
use api_wallet.Config.{
  Script, IsScript, Environment, to_int, to_number, build_base_options, build_throttler_config,
  cleanup_ttl_ms, default_ttl_hours, in_ms, hours,
}

module _ (s : Script) where
  abbrev pub IsPositive : s.Number → Type 0
  IsPositive n = s.is_positive n ≡ true

  abbrev pub IsPositiveIfSet : Option s.Number → Type 0
  IsPositiveIfSet none = Unit
  IsPositiveIfSet (some n) = IsPositive n

  to_int-IsPositive :
      (value : Option Text) (fallback : s.Number)
      → IsPositive fallback
      → IsPositive (to_int s value fallback)
  unfolding to_int
  to_int-IsPositive value fallback h = ground arith

  to_number-IsPositive :
      (value : Option Text) (fallback : s.Number)
      → IsPositive fallback
      → IsPositive (to_number s value fallback)
  unfolding to_number
  to_number-IsPositive value fallback h = ground arith

  block-IsPositiveIfSet :
      (n : s.Number) → IsPositiveIfSet (if s.is_positive n then some n else none)
  block-IsPositiveIfSet n = elim (Bool-cases (s.is_positive n)) [ inl e ↦ rw e e | inr e ↦ rw e tt ]

module _ (s : Script) (good : IsScript s) where
  in_ms-IsPositive : (n : s.Number) → IsPositive s n → IsPositive s (in_ms s n)
  in_ms-IsPositive n h =
      good.times_positive _ 999 (good.times_positive _ 59 (good.times_positive n 59 h))

  cleanup_ttl_ms-IsPositive : (get : Environment) → IsPositive s (cleanup_ttl_ms s get)
  unfolding cleanup_ttl_ms
  cleanup_ttl_ms-IsPositive get =
      let ttl = hours s (get (codes "IDEMPOTENCY_TTL_HOURS")) in
      elim (Bool-cases (s.is_finite ttl && s.is_positive ttl)) [
        | inl e ↦ rw e (in_ms-IsPositive ttl (ground arith))
        | inr e ↦ rw e (in_ms-IsPositive (default_ttl_hours s) (good.literal_positive 47))
      ]

  -- Whatever the environment says, the number of messages that a consumer takes at once, the window
  -- and the limit of the throttler, its time of blocking if it has one, and the time to live of an
  -- idempotency key are above zero.
  pub settings-IsPositive :
      (get : Environment)
      → IsPositive s (build_base_options s get).prefetch_count
        × All
            (λ t. IsPositive s t.ttl × IsPositive s t.limit × IsPositiveIfSet s t.block_duration)
            (build_throttler_config s get)
        × IsPositive s (cleanup_ttl_ms s get)
  unfolding build_base_options build_throttler_config
  settings-IsPositive get = (
    to_int-IsPositive s _ (s.of_nat 20) (good.literal_positive 19),
    (
      (
        to_number-IsPositive s _ (s.of_nat 60) (good.literal_positive 59),
        to_number-IsPositive s _ (s.of_nat 50) (good.literal_positive 49),
        block-IsPositiveIfSet s _,
      ),
      tt,
    ),
    cleanup_ttl_ms-IsPositive get,
  )
