-- ===== src/Idempotency/Timer.antt =====
-- When IdempotencyCleanupService (src/modules/wallet/idempotency-cleanup.service.ts) deletes keys.
use api_wallet.Prelude.{ℕ, ◌*◌, ◌≡◌, refl, Option, none, some, [], ◌∷◌, ◌++◌}
use api_wallet.Runtime.{
  cleanup_cycle, Runtime, set_interval, clear_interval, IsIssued, without-added,
}

abbrev pub cleanup_interval_ms : ℕ
cleanup_interval_ms = 60 * 60 * 1000

-- The field of the service that changes.
pub record Cleaner : Type 0 where
  pub timer : Option ℕ

abbrev pub new_cleaner : Cleaner
new_cleaner = record { timer = none }

unfoldable pub on_module_init : Cleaner × Runtime → Cleaner × Runtime
on_module_init (service, runtime) =
    (record { timer = some runtime.issued }, set_interval cleanup_cycle cleanup_interval_ms runtime)

unfoldable pub on_module_destroy : Cleaner × Runtime → Cleaner × Runtime
on_module_destroy (service, runtime) = elim service.timer [
  | none ↦ (service, runtime)
  | some handle ↦ (service, clear_interval handle runtime)
]

-- A new cleanup service that is started has exactly one interval, of an hour, and stopping it after
-- that leaves the intervals that ran before.
pub on_module_init-intervals :
    (runtime : Runtime)
    → IsIssued runtime
    → ((on_module_init (new_cleaner, runtime)).1.intervals
        ≡ runtime.intervals
          ++ record { handle = runtime.issued; task = cleanup_cycle; period_ms = 3600000 } ∷ [])
      × ((on_module_destroy (on_module_init (new_cleaner, runtime))).1.intervals
          ≡ runtime.intervals)
unfolding on_module_init on_module_destroy
on_module_init-intervals runtime issued =
    (refl, without-added runtime.issued cleanup_cycle 3600000 runtime.intervals issued)
