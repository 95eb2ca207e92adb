-- ===== src/Edge/Scheduler/Stall.antt =====
-- A request that comes while a task runs may leave the scheduler of
-- daemon/authorizer/plugins/edge/plugin.go with nothing to do.
use eamerald.Base.{◌≡◌, ◌≢◌, refl, sym, ◌∙◌, true, false, List, [], ◌∷◌, ◌++◌, ◌==◌}
use eamerald.Edge.Task.{SyncMode, sync_mode_unknown, sync_mode_diff, fold_modes}
use eamerald.Edge.Scheduler.{
  Worker, starting, working, sending, leaving, Scheduler, tick, next_cycle, receive_mode, dispatch,
  after_task, Step, ticks, dispatches, starts, ends, sends, leaves, Reach, begin, step, request,
}

no_worker : (ws others : List Worker) (w : Worker) → [] ≢ ws ++ w ∷ others
no_worker [] others w h = cc h
no_worker (v ∷ ws) others w h = cc h

-- Without a worker and with the ticker stopped, the loop waits for a call from elsewhere.
abbrev pub IsStalled : Scheduler → Type 0
IsStalled s = (s.at_select ≡ true) × (s.ticking ≡ false) × (s.workers ≡ [])

stalled_is_stuck : (s t : Scheduler) → IsStalled s → Step s t → ⊥
stalled_is_stuck s _ (a, b, c) (ticks at ticking) = cc (b, ticking)
stalled_is_stuck s _ (a, b, c) (dispatches at) = cc (a, at)
stalled_is_stuck s _ (a, b, c) (starts ws others m w) = no_worker ws others (starting m) (sym c ∙ w)
stalled_is_stuck s _ (a, b, c) (ends ws others m w) = no_worker ws others (working m) (sym c ∙ w)
stalled_is_stuck s _ (a, b, c) (sends ws others m at w) =
    no_worker ws others (sending m) (sym c ∙ w)
stalled_is_stuck s _ (a, b, c) (leaves ws others w) = no_worker ws others leaving (sym c ∙ w)

-- The first task runs.
abbrev at_task : Scheduler
at_task = record {
  cycle = 1;
  interval_mode = sync_mode_diff;
  on_demand_mode = sync_mode_unknown;
  ticking = false;
  running = true;
  at_select = true;
  workers = working sync_mode_diff ∷ [];
}

at_task-Reach : Reach at_task
unfolding tick dispatch next_cycle
at_task-Reach =
    step (step (step begin (ticks refl refl)) (dispatches refl)) (starts [] [] sync_mode_diff refl)

-- It ends after a request, and sends on what was asked for.
asked-Reach :
    (m : SyncMode)
    → (fold_modes 0 m == 0) ≡ false
    → Reach (record at_task {
      on_demand_mode = fold_modes 0 m;
      workers = sending (fold_modes 0 m) ∷ [];
    })
unfolding receive_mode dispatch after_task
asked-Reach m asked =
    let noticed : Reach (record at_task { on_demand_mode = fold_modes 0 m }) =
      step (request m at_task-Reach refl) (dispatches refl) in
    rw asked at (step noticed (ends [] [] sync_mode_diff refl))

-- For any request with some mode, the scheduler can reach a state in which the modes of the request
-- are still waiting, while the ticker is stopped, the loop is at its select and no goroutine is
-- left.
pub request-stalls :
    (m : SyncMode)
    → (fold_modes 0 m == 0) ≡ false
    → (s : Scheduler) × Reach s
      × (s.on_demand_mode ≡ fold_modes (fold_modes 0 m) (fold_modes 0 m))
      × IsStalled s
unfolding receive_mode dispatch
request-stalls m asked =
    let sent = step (asked-Reach m asked) (sends [] [] (fold_modes 0 m) refl refl) in
    let kept = step sent (dispatches refl) in
    (_, step kept (leaves [] [] refl), refl, (refl, refl, refl))
