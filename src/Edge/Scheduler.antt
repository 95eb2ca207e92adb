-- ===== src/Edge/Scheduler.antt =====
-- The scheduler of daemon/authorizer/plugins/edge/plugin.go: its loop and the goroutines that run tasks,
-- interleaved in any order. The loop stands at its select, or between it and the test of `running`.
-- A done context, which ends the loop, is left out.
pub mod Cycle
pub mod Stall
use eamerald.Base.{
  ℕ, suc, ◌+◌, ◌%◌, ◌≡◌, ◌≢◌, Bool, true, false, List, [], ◌∷◌, ◌++◌, if◌then◌else◌, ◌==◌,
}
use eamerald.Edge.Task.{
  SyncMode, sync_mode_unknown, sync_mode_diff, sync_mode_watermark, fold_modes, cycles,
}

-- A goroutine before it sets `running`, at its task, at its send of the modes that were asked for
-- meanwhile, and before the deferred reset of `running`.
pub data Worker : Type 0 where
  starting working sending : SyncMode → Worker
  leaving : Worker

pub record Scheduler : Type 0 where
  pub cycle : ℕ
  pub interval_mode : SyncMode
  pub on_demand_mode : SyncMode
  pub ticking : Bool
  pub running : Bool
  pub at_select : Bool
  pub workers : List Worker

abbrev pub init : Scheduler
init = record {
  cycle = cycles;
  interval_mode = sync_mode_unknown;
  on_demand_mode = sync_mode_unknown;
  ticking = true;
  running = false;
  at_select = true;
  workers = [];
}

-- What a tick does to the cycle, and the mode that it asks for.
unfoldable pub next_cycle : ℕ → SyncMode × ℕ
next_cycle cycle =
    if cycle % cycles == 0 then (sync_mode_diff, 0 + 1) else (sync_mode_watermark, cycle + 1)

unfoldable pub tick : Scheduler → Scheduler
unfolding next_cycle
tick s = record s {
  cycle = (next_cycle s.cycle).1;
  interval_mode = (next_cycle s.cycle).0;
  ticking = false;
  at_select = false;
}

-- `mode := <-p.syncNow`
unfoldable pub receive_mode : SyncMode → Scheduler → Scheduler
unfolding fold_modes
receive_mode mode s = record s {
  on_demand_mode = fold_modes s.on_demand_mode mode;
  ticking = false;
  at_select = false;
}

-- From the test of `running` back to the select.
unfoldable pub dispatch : Scheduler → Scheduler
dispatch s =
    if s.running
    then record s { at_select = true }
    else if s.on_demand_mode == sync_mode_unknown
    then record s { at_select = true; workers = starting s.interval_mode ∷ s.workers }
    else record s {
      on_demand_mode = sync_mode_unknown;
      at_select = true;
      workers = starting s.on_demand_mode ∷ s.workers;
    }

-- The end of a task: the ticker again, or the modes that were asked for meanwhile.
unfoldable pub after_task : List Worker → Scheduler → Scheduler
after_task others s =
    if s.on_demand_mode == sync_mode_unknown
    then record s { ticking = true; workers = leaving ∷ others }
    else record s { workers = sending s.on_demand_mode ∷ others }

-- A step of the loop or of a goroutine, which stands first in the list or behind others.
pub data Step (s : Scheduler) : Scheduler → Type 0 where
  ticks : s.at_select ≡ true → s.ticking ≡ true → Step s (tick s)
  dispatches : s.at_select ≡ false → Step s (dispatch s)
  starts :
      (ws others : List Worker) (m : SyncMode)
      → s.workers ≡ ws ++ starting m ∷ others
      → Step s (record s { running = true; workers = ws ++ working m ∷ others })
  ends :
      (ws others : List Worker) (m : SyncMode)
      → s.workers ≡ ws ++ working m ∷ others
      → Step s (after_task (ws ++ others) s)
  sends :
      (ws others : List Worker) (m : SyncMode)
      → s.at_select ≡ true
      → s.workers ≡ ws ++ sending m ∷ others
      → Step s (receive_mode m (record s { workers = ws ++ leaving ∷ others }))
  leaves :
      (ws others : List Worker)
      → s.workers ≡ ws ++ leaving ∷ others
      → Step s (record s { running = false; workers = ws ++ others })

-- A step of the scheduler, or a call of SyncNow from elsewhere.
pub data Reach : Scheduler → Type 0 where
  begin : Reach init
  step : {s t : Scheduler} → Reach s → Step s t → Reach t
  request : {s : Scheduler} (m : SyncMode) → Reach s → s.at_select ≡ true → Reach (receive_mode m s)
