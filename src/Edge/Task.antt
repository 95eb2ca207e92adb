-- ===== src/Edge/Task.antt =====
-- daemon/authorizer/plugins/edge/plugin.go: the syncs that a task makes of its mode, and the wait until
-- the next task.
pub mod Modes
use eamerald.Base.{
  ℕ, ◌+◌, ◌-◌, ◌*◌, ◌/◌, ◌%◌, ◌^◌, Bool, true, false, not, ◌&&◌, Option, none, some, List, [], ◌∷◌,
  ◌++◌, if◌then◌else◌, ◌==◌, ltb, bit_and, bit_or,
}
use eamerald.Base.Int.{ℤ, pos, negsuc, ltb_ℤ}
use eamerald.Sync.Run.{Mode, manifest_mode, full_mode, diff_mode, watermark_mode}

-- An int32 whose bits are the flags, which are not those of a sync.
abbrev pub SyncMode : Type 0
SyncMode = ℕ

abbrev pub sync_mode_unknown : SyncMode
sync_mode_unknown = 0

abbrev pub sync_mode_full : SyncMode
sync_mode_full = 1

abbrev pub sync_mode_diff : SyncMode
sync_mode_diff = 2

abbrev pub sync_mode_watermark : SyncMode
sync_mode_watermark = 4

abbrev pub sync_mode_manifest : SyncMode
sync_mode_manifest = 8

unfoldable pub has : SyncMode → SyncMode → Bool
has mode instance_mode = not (bit_and mode instance_mode == 0)

-- fold, of two modes.
unfoldable pub fold_modes : SyncMode → SyncMode → SyncMode
fold_modes a b = bit_or (bit_or sync_mode_unknown a) b

-- What is left of the task behind the sync of the watermark mode.
unfoldable pub rest_of_task : SyncMode → List (List Mode)
unfolding has
rest_of_task mode =
    if has mode sync_mode_diff
    then (manifest_mode ∷ diff_mode ∷ []) ∷ []
    else if has mode sync_mode_full
    then (manifest_mode ∷ full_mode ∷ []) ∷ []
    else if has mode sync_mode_manifest && not (has mode sync_mode_watermark)
    then (manifest_mode ∷ []) ∷ []
    else []

-- The calls of exec, by the modes of their options.
unfoldable pub syncs : SyncMode → List (List Mode)
unfolding has rest_of_task
syncs mode =
    if mode == sync_mode_unknown
    then (manifest_mode ∷ full_mode ∷ []) ∷ []
    else if has mode sync_mode_watermark
    then (manifest_mode ∷ watermark_mode ∷ []) ∷ rest_of_task mode
    else rest_of_task mode

-- Without a connection or a directory there is no sync.
unfoldable pub task : Bool → Bool → SyncMode → List (List Mode)
unfolding syncs
task connected has_directory mode = if connected && has_directory then syncs mode else []

-- A number of int64, from its bits.
abbrev pub int64 : ℕ → ℤ
int64 n = if ltb (n % 2 ^ 64) (2 ^ 63) then pos (n % 2 ^ 64) else negsuc (2 ^ 64 - 1 - n % 2 ^ 64)

abbrev pub secs_in_min : ℕ
secs_in_min = 60

abbrev pub cycles : ℕ
cycles = 4

abbrev pub nanos_in_sec : ℕ
nanos_in_sec = 1000000000

-- Go's division goes towards zero.
abbrev pub quotient : ℤ → ℕ → ℤ
quotient (pos n) d = pos (n / d)
quotient (negsuc n) d = if (n + 1) / d == 0 then pos 0 else negsuc ((n + 1) / d - 1)

-- A product of an int64 with a positive constant, which wraps around.
abbrev pub times : ℤ → ℕ → ℤ
times (pos n) c = int64 (n * c)
times (negsuc n) c = int64 ((2 ^ 64 - 1 - n % 2 ^ 64) * c)

-- calcInterval, in nanoseconds, of the configured minutes.
unfoldable pub calc_interval : ℤ → ℤ
calc_interval sync_interval = times (quotient (times sync_interval secs_in_min) cycles) nanos_in_sec

-- Ticker.Reset panics, which is none, unless its duration is positive.
unfoldable pub reset_ticker : ℤ → Option ℤ
reset_ticker d = if ltb_ℤ (pos 0) d then some d else none
