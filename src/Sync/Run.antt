-- ===== src/Sync/Run.antt =====
-- internal/eds/pkg/datasync/datasync.go and directory.go: the modes of a sync, and a sync as a whole.
pub mod Mirror
pub mod Export
use eamerald.Base.{
  ℕ, ◌+◌, Bool, true, false, not, Option, none, some, List, [], ◌∷◌, ◌++◌, if◌then◌else◌, ◌==◌,
  bit_and, bit_or,
}
use eamerald.Base.Exec.{
  Error, Result, ok, err, Exec, transact, ◌>>=◌, pure, raise, filter_not_initialized,
}
use eamerald.Data.{Timestamp}
use eamerald.Store.Tx.{Tx}
use eamerald.Service.Context.{Context}
use eamerald.Sync.Filter.{Cuckoo}
use eamerald.Sync.Directory.{
  ExportMsg, Received, nothing_received, note_exports, receive_all, sent_messages, diff_objects,
  diff_relations,
}
use eamerald.Sync.Watermark.{Watermark, get_watermark, get_filter_size, set_watermark, no_timestamp}

-- An int32 whose bits are the flags.
abbrev pub Mode : Type 0
Mode = ℕ

abbrev pub unknown_mode : Mode
unknown_mode = 0

abbrev pub manifest_mode : Mode
manifest_mode = 2

abbrev pub full_mode : Mode
full_mode = 4

abbrev pub diff_mode : Mode
diff_mode = 8

abbrev pub watermark_mode : Mode
watermark_mode = 16

unfoldable pub set_flag : Mode → Mode → Mode
set_flag b flag = bit_or b flag

unfoldable pub has : Mode → Mode → Bool
has b flag = not (bit_and b flag == 0)

-- The options of a call of Sync, each of which sets a flag.
unfoldable pub with_modes : List Mode → Mode → Mode
unfolding set_flag
with_modes [] mode = mode
with_modes (flag ∷ flags) mode = with_modes flags (set_flag mode flag)

-- What the remote exporter streams, for the time that it is asked to start from, and how the stream
-- ends. The first result is that of the call of Export.
pub record Remote : Type 0 where
  pub export : Option Timestamp → Result (List ExportMsg × Result (Unit {0}))

-- The store and the file of the watermark.
pub record Local (S : Type 0) : Type 0 where
  pub store : S
  pub file : Option Watermark

-- A sync ends, or panics on a nil timestamp.
pub data Ended : Type 0 where
  returned : Result (Unit {0}) → Ended
  panicked : Ended

module _ (tx : Tx) (ctx : Context) (cuckoo : Cuckoo) where
  -- The time that the producer asks for, and the filter that it makes.
  unfoldable pub start_from : Mode → Option Watermark → Option Timestamp
  unfolding has get_watermark
  start_from mode file =
      if has mode watermark_mode then (get_watermark file).timestamp else some no_timestamp

  unfoldable pub start_filter : Mode → Option Watermark → Option cuckoo.Filter
  unfolding has get_watermark get_filter_size
  start_filter mode file =
      if has mode diff_mode
      then some (cuckoo.new_filter (get_filter_size (get_watermark file)))
      else none

  unfoldable pub filled : List ExportMsg → Option cuckoo.Filter → Option cuckoo.Filter
  unfolding note_exports
  filled msgs none = none
  filled msgs (some f) = some (note_exports cuckoo true msgs f)

  -- One batch for both scans, with the errors of the deletes.
  unfoldable pub diff_both : cuckoo.Filter → Exec tx.State (List Error)
  unfolding diff_objects diff_relations
  diff_both f = do
    objects ← diff_objects tx ctx cuckoo f
    relations ← diff_relations tx ctx cuckoo f
    pure (objects ++ relations)

  unfoldable pub diff : Option cuckoo.Filter → Exec tx.State (List Error)
  unfolding diff_both
  diff none = raise filter_not_initialized
  diff (some f) = transact (diff_both f)

  unfoldable pub diff_if : Bool → Option cuckoo.Filter → Exec tx.State (List Error)
  unfolding diff
  diff_if false filter = pure []
  diff_if true filter = diff filter

  -- From the end of both goroutines on: `keys` are the numbers of keys in the buckets of objects
  -- and relations.
  module _ (keys : tx.State → ℕ × ℕ) where
    unfoldable pub mark : Option Timestamp → Local tx.State → Ended × Local tx.State
    unfolding set_watermark
    mark ts local = elim (set_watermark local.file (keys local.store).0 (keys local.store).1 ts) [
      | none ↦ (panicked, local)
      | some wm ↦ (returned (ok tt), record local { file = some wm })
    ]

    unfoldable pub after_diff :
        Option Timestamp
        → Option Watermark
        → Result (List Error) × tx.State
        → Ended × Local tx.State
    unfolding mark
    after_diff ts file (err e, s) = (returned (err e), record { store = s; file = file })
    after_diff ts file (ok errors, s) = mark ts (record { store = s; file = file })

    unfoldable pub after_stream :
        Mode
        → List ExportMsg
        → Option Watermark
        → Result (Unit {0})
        → Received × tx.State
        → Ended × Local tx.State
    unfolding has diff_if filled start_filter after_diff
    after_stream mode msgs file (err e) (got, s) =
        (returned (err e), record { store = s; file = file })
    after_stream mode msgs file (ok u) (got, s) =
        after_diff got.ts file
          (diff_if (has mode diff_mode) (filled msgs (start_filter mode file)) s)

    -- A stream that cannot be opened is an empty one that ends with the error.
    unfoldable pub sync_stream :
        Mode → Result (List ExportMsg × Result (Unit {0})) → Local tx.State → Ended × Local tx.State
    unfolding after_stream receive_all sent_messages
    sync_stream mode (err e) local =
        after_stream mode [] local.file (err e) (receive_all tx ctx [] nothing_received local.store)
    sync_stream mode (ok (msgs, end)) local =
        after_stream mode msgs local.file end
          (receive_all tx ctx (sent_messages msgs) nothing_received local.store)

    unfoldable pub sync_directory : Mode → Remote → Local tx.State → Ended × Local tx.State
    unfolding sync_stream start_from
    sync_directory mode remote local =
        sync_stream mode (remote.export (start_from mode local.file)) local

    -- The directory stage runs if the manifest stage, `sync_manifest`, succeeds or is not asked for.
    unfoldable pub after_manifest :
        Mode → Remote → Result (Unit {0}) × Local tx.State → Ended × Local tx.State
    unfolding has set_flag sync_directory
    after_manifest mode remote (err e, local) = (returned (err e), local)
    after_manifest mode remote (ok u, local) =
        if has mode (set_flag (set_flag full_mode diff_mode) watermark_mode)
        then sync_directory mode remote local
        else (returned (ok tt), local)

    unfoldable pub run :
        Exec (Local tx.State) (Unit {0}) → Mode → Remote → Local tx.State → Ended × Local tx.State
    unfolding has after_manifest
    run sync_manifest mode remote local =
        let synced = sync_manifest local in
        after_manifest mode remote (if has mode manifest_mode then synced else (ok tt, local))
