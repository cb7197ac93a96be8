-- ===== src/Runtime.antt =====
-- The intervals of Node.js, for the two services that run in the background
-- (src/modules/wallet/outbox-publisher.service.ts,
-- src/modules/wallet/idempotency-cleanup.service.ts).
use api_wallet.Prelude.{ℕ, suc, ◌<◌, ◌≡◌, List, [], ◌∷◌, ◌++◌, All, ◌==◌, arith, if◌then◌else◌}

pub data Task : Type 0 where
  publish_cycle cleanup_cycle : Task

pub record Interval : Type 0 where
  pub handle : ℕ
  pub task : Task
  pub period_ms : ℕ

-- The intervals that run, and the next handle.
pub record Runtime : Type 0 where
  pub issued : ℕ
  pub intervals : List Interval

abbrev pub set_interval : Task → ℕ → Runtime → Runtime
set_interval task period_ms runtime = record {
  issued = suc runtime.issued;
  intervals =
      runtime.intervals
      ++ record { handle = runtime.issued; task = task; period_ms = period_ms } ∷ [];
}

abbrev pub without : ℕ → List Interval → List Interval
without handle [] = []
without handle (i ∷ is) = if i.handle == handle then without handle is else i ∷ without handle is

abbrev pub clear_interval : ℕ → Runtime → Runtime
clear_interval handle runtime = record runtime { intervals = without handle runtime.intervals }

-- Every handle was issued.
abbrev pub IsIssued : Runtime → Type 0
IsIssued runtime = All (λ i. i.handle < runtime.issued) runtime.intervals

-- An interval that is cleared leaves the others.
pub without-added :
    (handle : ℕ) (task : Task) (period_ms : ℕ) (is : List Interval)
    → All (λ i. i.handle < handle) is
    → without handle (is ++ record { handle = handle; task = task; period_ms = period_ms } ∷ [])
      ≡ is
without-added handle task period_ms [] h = ground arith
without-added handle task period_ms (i ∷ is) (lt, h) =
    ground (arith, without-added handle task period_ms is h)
