-- ===== src/OutboxPublisher/Timer.antt =====
-- When OutboxPublisherService (src/modules/wallet/outbox-publisher.service.ts) runs its cycles.
use api_wallet.Prelude.{ℕ, Bool, true, Option, none, some, if◌then◌else◌}
use api_wallet.Config.{Script, Environment, is_outbox_enabled}
use api_wallet.Runtime.{publish_cycle, Runtime, set_interval, clear_interval}
use api_wallet.Tables.{Db}
use api_wallet.Platform.{Platform}
use api_wallet.OutboxPublisher.{Broker, default_batch_size, publish_pending}

abbrev pub default_interval_ms : ℕ
default_interval_ms = 1000

-- The two fields of the service that change.
pub record Publisher : Type 0 where
  pub timer : Option ℕ
  pub enabled : Bool

abbrev pub new_publisher : Publisher
new_publisher = record { timer = none; enabled = true }

unfoldable pub on_module_init : Script → Environment → Publisher × Runtime → Publisher × Runtime
on_module_init s env (service, runtime) =
    let enabled = is_outbox_enabled s env in
    if enabled
    then (
      record { timer = some runtime.issued; enabled = enabled },
      set_interval publish_cycle default_interval_ms runtime,
    )
    else (record service { enabled = enabled }, runtime)

unfoldable pub on_module_destroy : Publisher × Runtime → Publisher × Runtime
on_module_destroy (service, runtime) = elim service.timer [
  | none ↦ (service, runtime)
  | some handle ↦ (service, clear_interval handle runtime)
]

-- `safePublishCycle`: an error is logged, and what was written before it stays.
unfoldable pub safe_publish_cycle : Platform → Broker → Db → Db
safe_publish_cycle p broker db = (publish_pending p broker default_batch_size db).1
