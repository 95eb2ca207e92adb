-- ===== src/Edge/Task/Modes.antt =====
-- What a task of daemon/authorizer/plugins/edge/plugin.go asks of the sync, and when its wait is sound.
use eamerald.Base.{
  ℕ, ◌*◌, ◌/◌, ◌^◌, ◌<◌, ◌≡◌, refl, Bool, true, false, ◌&&◌, none, some, List, [], ◌∷◌, Bool-cases,
  inl, inr, arith, All, ltb, ◌==◌, not, if◌then◌else◌,
}
use eamerald.Base.Int.{pos}
use eamerald.Sync.Run.{Mode, has, with_modes, manifest_mode, full_mode, diff_mode, watermark_mode}
use eamerald.Edge.Task
use eamerald.Edge.Task.{
  SyncMode, int64, sync_mode_unknown, rest_of_task, syncs, task, calc_interval, reset_ticker,
  sync_mode_full, sync_mode_diff, sync_mode_watermark, sync_mode_manifest,
}

-- The mode of a sync has the manifest, and not both the diff and the watermark.
abbrev pub IsSound : List Mode → Type 0
IsSound flags =
    (has (with_modes flags 0) manifest_mode ≡ true)
    × (has (with_modes flags 0) diff_mode && has (with_modes flags 0) watermark_mode ≡ false)

with_full : IsSound (manifest_mode ∷ full_mode ∷ [])
unfolding has with_modes
with_full = (refl, refl)

with_diff : IsSound (manifest_mode ∷ diff_mode ∷ [])
unfolding has with_modes
with_diff = (refl, refl)

with_watermark : IsSound (manifest_mode ∷ watermark_mode ∷ [])
unfolding has with_modes
with_watermark = (refl, refl)

manifest_only : IsSound (manifest_mode ∷ [])
unfolding has with_modes
manifest_only = (refl, refl)

rest-IsSound : (mode : SyncMode) → All IsSound (rest_of_task mode)
unfolding rest_of_task
rest-IsSound mode = elim (Bool-cases (Task.has mode sync_mode_diff)) [
  | inl d ↦ rw d (with_diff, tt)
  | inr d ↦ elim (Bool-cases (Task.has mode sync_mode_full)) [
    | inl f ↦ rw (d, f) (with_full, tt)
    | inr f ↦
        elim (Bool-cases
          (Task.has mode sync_mode_manifest && not (Task.has mode sync_mode_watermark))) [
            | inl m ↦ rw (d, f, m) (manifest_only, tt)
            | inr m ↦ rw (d, f, m) tt
          ]
  ]
]

All-if :
    (b : Bool) (xs ys : List (List Mode))
    → All IsSound xs
    → All IsSound ys
    → All IsSound (if b then xs else ys)
All-if true xs ys h k = h
All-if false xs ys h k = k

-- Each sync that a task of the edge plugin starts, whatever its mode, has the manifest in its mode,
-- and never both the diff and the watermark.
pub task-IsSound :
    (connected has_directory : Bool) (mode : SyncMode)
    → All IsSound (task connected has_directory mode)
unfolding task syncs
task-IsSound connected has_directory mode = elim (Bool-cases (connected && has_directory)) [
  | inr off ↦ rw off tt
  | inl on ↦ elim (Bool-cases (mode == sync_mode_unknown)) [
    | inl u ↦ rw (on, u) (with_full, tt)
    | inr u ↦
        rw (on, u)
          (All-if (Task.has mode sync_mode_watermark)
            ((manifest_mode ∷ watermark_mode ∷ []) ∷ rest_of_task mode) (rest_of_task mode)
            (with_watermark, rest-IsSound mode) (rest-IsSound mode))
  ]
]

int64-small : (m : ℕ) → m < 2 ^ 63 → int64 m ≡ pos m
int64-small m h = ground arith

-- For a sync interval of n minutes, where 15n seconds fit an int64 of nanoseconds, the ticker is
-- reset to 15n seconds, and panics just when n is 0.
pub calc_interval-bounds :
    (n : ℕ)
    → 15 * n * 1000000000 < 2 ^ 63
    → reset_ticker (calc_interval (pos n))
      ≡ (if ltb 0 n then some (pos (15 * n * 1000000000)) else none)
unfolding calc_interval reset_ticker
calc_interval-bounds n h =
    let seconds : (n * 60) / 4 ≡ 15 * n = omega arith in
    rw (int64-small (n * 60) (omega arith), seconds, int64-small (15 * n * 1000000000) h)
      (ground arith)
