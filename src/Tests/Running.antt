-- ===== src/Tests/Running.antt =====
-- A run of the whole service on the sample platform.
use api_wallet.Prelude.{codes, List, [], arith, ◌≡◌, refl, none}
use api_wallet.Entities.{TransferStatus}
use api_wallet.Tables.{Db}
use api_wallet.Sample.{platform, execute, platform-IsDocumented}
use api_wallet.Wallet.{deposit, in_transaction, failure}
use api_wallet.Wallet.Outcomes.{Ends, Refused}
use api_wallet.Wallet.Books.{Ledger, empty, empty-Books}
use api_wallet.Wallet.Transfer.Compensation.{compensate_transfer}
use api_wallet.Wallet.Idle.{IsKept}
use api_wallet.Controller.{resolve_idempotency_key, Call, deposit_call, handle}
use api_wallet.OutboxPublisher.{publish_pending}
use api_wallet.System.{IsFinite, serve, publish, wait, Reach, start, later, served}
use api_wallet.System.Sound.{IsSoundAt, IsSound}
use api_wallet.System.Postings.{Posted, IsAmong}
use api_wallet.System.Serving.{Served, AllOrNothing, handle-Served}
use api_wallet.Idempotency.{find_key}
use api_wallet.System.Reachable.{Reach-Posted, Reach-IsSound, Reach-Idle}
use api_wallet.Tests.{alice, bob, ten}
use api_wallet.Tests.Requests.{hashing, request, dto, answered}
use api_wallet.Tests.Publishing.{willing}

ten-IsFinite : IsFinite platform ten
ten-IsFinite d e = ground arith

-- A deposit, a second that passes, and a cycle of the publisher.
abbrev announced : Db
announced = (publish_pending platform willing 50 (record answered.1 { clock = 1000 })).1

announced-reached : Reach platform hashing announced
unfolding handle deposit in_transaction execute publish_pending
announced-reached =
    later
      (later (later start (serve (deposit_call alice dto) request ten-IsFinite refl))
        (wait 1000 refl))
      (publish willing 50 refl)

Reach-IsSound_example : IsSound platform announced
unfolding handle deposit in_transaction execute publish_pending
Reach-IsSound_example = Reach-IsSound platform-IsDocumented hashing announced announced-reached

Reach-Idle_example :
    Ends
      (compensate_transfer platform alice bob (platform.money 100000) none none announced)
      (λ r d.
        (r.transfer_status ≡ TransferStatus.failed) × (r.command.events ≡ []) × IsKept announced d)
      (λ e d. (d ≡ announced) × (e ≡ failure) × Refused platform)
unfolding handle deposit in_transaction execute publish_pending
Reach-Idle_example =
    Reach-Idle platform-IsDocumented hashing announced alice bob (platform.money 100000) none none
      announced-reached

Reach-Posted_example :
    (l : Ledger) × (calls : List Call) × IsAmong calls (served platform hashing announced-reached)
    × Posted platform calls l
    × IsSoundAt platform l announced
unfolding handle deposit in_transaction execute publish_pending
Reach-Posted_example = Reach-Posted platform-IsDocumented hashing announced announced-reached

-- The first deposit, in the empty database.
handle-Served_example :
    Ends
      (handle platform hashing (deposit_call alice dto) request empty)
      (λ r d. (r.status ≡ 200) × Served platform (λ _. 0) (deposit_call alice dto) r.body d)
      (AllOrNothing platform (λ _. 0) (deposit_call alice dto))
unfolding find_key resolve_idempotency_key
handle-Served_example =
    handle-Served platform-IsDocumented hashing (λ _. 0) (deposit_call alice dto) request
      (codes "k1") empty ten-IsFinite refl refl (empty-Books platform, (λ _. none, tt), tt)
