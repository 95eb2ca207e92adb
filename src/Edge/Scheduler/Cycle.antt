-- ===== src/Edge/Scheduler/Cycle.antt =====
-- The modes of the ticks of daemon/authorizer/plugins/edge/plugin.go.
use eamerald.Base.{ℕ, zero, suc, ◌%◌, ◌≤◌, ◌≡◌, refl, arith, if◌then◌else◌, ◌==◌}
use eamerald.Edge.Task.{sync_mode_diff, sync_mode_watermark, cycles}
use eamerald.Edge.Scheduler.{next_cycle}

-- The cycle before the tick with number `k`, from 0.
unfoldable cycle_before : ℕ → ℕ
unfolding next_cycle
cycle_before zero = cycles
cycle_before (suc k) = (next_cycle (cycle_before k)).1

cycle_before_mod : (k : ℕ) → (cycle_before k % 4 ≡ k % 4) × (cycle_before k ≤ 4)
unfolding cycle_before next_cycle
cycle_before_mod zero = (refl, omega arith)
cycle_before_mod (suc k) = ground (arith, cycle_before_mod k)

-- The interval ticks of the scheduler ask for a diff at the first of each four, and for a watermark
-- sync at the others.
next_cycle-fourth :
    (k : ℕ)
    → (next_cycle (cycle_before k)).0 ≡ (if k % 4 == 0 then sync_mode_diff else sync_mode_watermark)
unfolding next_cycle
next_cycle-fourth k = ground (arith, cycle_before_mod k)
