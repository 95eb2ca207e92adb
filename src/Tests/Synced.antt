-- ===== src/Tests/Synced.antt =====
-- Runs of the theorems on internal/eds/pkg/datasync and on the edge plugin.
use eamerald.Base.{
  ℕ, ◌+◌, ◌*◌, ◌%◌, ◌^◌, ◌<◌, ◌≤◌, ◌≡◌, ◌⊎◌, refl, Bool, true, false, Option, none, some, List, [],
  ◌∷◌, ◌++◌, length, arith, All, if◌then◌else◌, ltb, ◌==◌, Bool-cases, inl, inr,
}
use mathlib.Core.Path.{subst}
use eamerald.Base.Bytes.{Bytes, codes, eqb, eqb_refl}
use eamerald.Base.Exec.{Error, ok, err}
use eamerald.Base.Int.{pos}
use eamerald.Data.{Object, Timestamp, no_object}
use eamerald.Bdb.Implements.{bdb_tx-TxLaws, bdb_tx-ObjectFrame}
use eamerald.Sync.Filter.{Cuckoo, CuckooLaws, get_object_key}
use eamerald.Sync.Directory.{
  ExportMsg, object_export, relation_export, other_export, Received, nothing_received, note_exports,
  receive_all, sent_messages, diff_objects,
}
use eamerald.Sync.Diff.{diff_objects-unseen}
use eamerald.Sync.Pipeline.{
  Pipe, start, Step, send, close, take_next, finish, channel_size, Run, here, and_then,
}
use eamerald.Sync.Pipeline.Confluent.{steps_left, Run-steps_left, Run-receive_all, Run-progress}
use eamerald.Sync.Run.{Local, diff_mode, sync_stream}
use eamerald.Sync.Run.Mirror.{sync_stream-exported}
use eamerald.Sync.Watermark.{
  Watermark, new_watermark, get_watermark, set_watermark, get_filter_size, is_later,
}
use eamerald.Sync.Watermark.Bounds.{get_filter_size-bounds, set_watermark-upper}
use eamerald.Edge.Task.{
  task, calc_interval, reset_ticker, sync_mode_diff, sync_mode_watermark, fold_modes,
}
use eamerald.Edge.Task.Modes.{IsSound, task-IsSound, calc_interval-bounds}
use eamerald.Edge.Scheduler.{Scheduler, Reach}
use eamerald.Edge.Scheduler.Stall.{IsStalled, request-stalls}
use eamerald.Tests.Memory
use eamerald.Tests.Frames
use eamerald.Tests.Memory.{Store, no_entries}
use eamerald.Tests.Frames.{backend, backend_laws}
use eamerald.Tests.Served.{tx, accepting, stored_bob, with_bob}

-- A filter that takes every key and finds these keys only.
unfoldable pub listed : Bytes → List Bytes → Bool
listed k [] = false
listed k (j ∷ js) = if eqb j k then true else listed k js

abbrev pub exact : Cuckoo
exact = record {
  Filter = List Bytes;
  new_filter = λ n. [];
  insert_key = λ k f. (true, k ∷ f);
  lookup_key = listed;
}

listed_kept : (j k : Bytes) (f : List Bytes) → listed j f ≡ true → listed j (k ∷ f) ≡ true
unfolding listed
listed_kept j k f h = elim (Bool-cases (eqb k j)) [ inl b ↦ rw b | inr b ↦ rw b h ]

pub exact-CuckooLaws : CuckooLaws exact
unfolding listed
exact-CuckooLaws = record {
  lookup_key-insert_key =
      λ k f f' h. subst (λ (g : Bool × List Bytes). listed k g.1 ≡ true) h (rw eqb_refl);
  lookup_key-kept = λ j k f f' h found.
      subst (λ (g : Bool × List Bytes). listed j g.1 ≡ true) h (listed_kept j k f found);
}

get_filter_size-bounds_example :
    let wm : Watermark = record new_watermark { total_count = 50001 } in
    (wm.total_count * 2 ≤ get_filter_size wm)
    × (100000 ≤ get_filter_size wm)
    × (get_filter_size wm % 1000 ≡ 0)
    × ((get_filter_size wm ≡ 100000) ⊎ (get_filter_size wm ≤ wm.total_count * 2 + 1000))
get_filter_size-bounds_example =
    get_filter_size-bounds (record new_watermark { total_count = 50001 }) (omega arith)

abbrev noon : Timestamp
noon = record { seconds = pos 43200; nanos = pos 0 }

set_watermark-upper_example :
    (wm : Watermark) × (set_watermark none 3 4 (some noon) ≡ some wm)
    × (is_later (get_watermark none).timestamp wm.timestamp ≡ false)
    × (is_later (some noon) wm.timestamp ≡ false)
    × (wm.total_count ≡ (3 + 4) % 2 ^ 64)
set_watermark-upper_example = set_watermark-upper none 3 4 noon

-- The remote directory has alice only.
abbrev alice : Object
alice = record no_object { type = codes "user"; id = codes "alice"; updated_at = some noon }

abbrev exported : List ExportMsg
exported = other_export ∷ object_export (some alice) ∷ []

abbrev local_bob : Local Store
local_bob = record { store = with_bob; file = none }

sync_stream-exported_example :
    tx.get_object
      (codes "user")
      (codes "alice")
      (sync_stream tx accepting exact
        (λ s. (1, 0))
        diff_mode
        (ok (exported, ok tt))
        local_bob).1.store
    ≡ tx.get_object
        (codes "user")
        (codes "alice")
        (receive_all tx accepting (sent_messages exported) nothing_received with_bob).1
unfolding eamerald.Sync.Run.has
sync_stream-exported_example =
    sync_stream-exported (bdb_tx-ObjectFrame backend_laws) accepting exact-CuckooLaws (λ s. (1, 0))
      diff_mode (other_export ∷ []) [] alice local_bob refl (refl, (refl, tt))

-- The diff deletes bob.
abbrev without_bob : Store
without_bob = (diff_objects tx accepting exact (get_object_key alice ∷ []) with_bob).1

diff_objects-unseen_example :
    (e : Error) × (tx.get_object (codes "user") (codes "bob") without_bob ≡ err e)
unfolding eamerald.Bdb.Objects.scan_objects eamerald.Bdb.Scan.next
    eamerald.Service.Writer.set_object_tx eamerald.Bdb.Objects.get_object eamerald.Bolt.find eqb
    eamerald.Bdb.Objects.set_object Frames.marshal_object Memory.put eamerald.Bolt.path_eq
    Memory.insert eamerald.Base.Bytes.has_prefix Frames.unmarshal_object diff_objects listed
    eamerald.Bdb.Objects.delete_object Memory.remove
diff_objects-unseen_example =
    diff_objects-unseen (bdb_tx-TxLaws backend_laws) (bdb_tx-ObjectFrame backend_laws) accepting
      exact (get_object_key alice ∷ []) with_bob without_bob ((stored_bob, codes "user:bob") ∷ [])
      [] [] stored_bob scanned refl refl ran
  where
    scanned : tx.scan_objects [] [] with_bob ≡ ok ((stored_bob, codes "user:bob") ∷ [])
    scanned = refl

    ran :
        diff_objects tx accepting exact (get_object_key alice ∷ []) with_bob ≡ (ok [], without_bob)
    ran = refl

-- A run of the goroutines on the one message.
abbrev begun : Pipe tx accepting exact true
begun = start tx accepting exact true (object_export (some alice) ∷ []) [] no_entries

abbrev after_send : Pipe tx accepting exact true
after_send = record begun {
  unread = [];
  filter = get_object_key alice ∷ [];
  channel = object_export (some alice) ∷ [];
}

sent-Run : Run tx accepting exact true begun 1 after_send
unfolding eamerald.Sync.Directory.note_export
sent-Run = and_then here (send (object_export (some alice)) [] refl refl refl (omega arith))

Run-steps_left_example :
    1 + steps_left tx accepting exact true after_send ≤ steps_left tx accepting exact true begun
Run-steps_left_example = Run-steps_left tx accepting exact true begun 1 after_send sent-Run

Run-progress_example :
    ((r : Pipe tx accepting exact true) × Step tx accepting exact true after_send r)
    ⊎ ((after_send.finished ≡ true) × (after_send.closed ≡ true))
    ⊎ ((after_send.failed ≡ true) × (channel_size ≤ length after_send.channel))
Run-progress_example =
    Run-progress tx accepting exact true (object_export (some alice) ∷ []) [] no_entries 1
      after_send sent-Run

-- The batch does not begin.
abbrev refused : Pipe tx accepting exact true
refused = record after_send { finished = true; failed = true }

abbrev taken : Received × Store
taken = receive_all tx accepting (object_export (some alice) ∷ []) nothing_received no_entries

abbrev over : Pipe tx accepting exact true
over = record after_send {
  channel = [];
  closed = true;
  got = taken.0;
  store = taken.1;
  finished = true;
  begun = true;
}

whole-Run : Run tx accepting exact true begun 4 over
unfolding eamerald.Sync.Directory.receive receive_all
whole-Run =
    and_then
      (and_then (and_then sent-Run (take_next (object_export (some alice)) [] refl refl))
        (close refl refl))
      (finish refl refl refl)

Run-receive_all_example :
    (over.filter ≡ get_object_key alice ∷ [])
    × (◌≡◌ {A = Received × Store} (over.got, over.store) taken)
unfolding note_exports sent_messages
Run-receive_all_example =
    Run-receive_all tx accepting exact true (object_export (some alice) ∷ []) [] no_entries 4 over
      whole-Run refl refl

task-IsSound_example : All IsSound (task true true (fold_modes sync_mode_diff sync_mode_watermark))
task-IsSound_example = task-IsSound true true (fold_modes sync_mode_diff sync_mode_watermark)

calc_interval-bounds_example :
    reset_ticker (calc_interval (pos 0))
    ≡ (if ltb 0 0 then some (pos (15 * 0 * 1000000000)) else none)
calc_interval-bounds_example = calc_interval-bounds 0 (omega arith)

request-stalls_example :
    (s : Scheduler) × Reach s
    × (s.on_demand_mode ≡ fold_modes (fold_modes 0 sync_mode_diff) (fold_modes 0 sync_mode_diff))
    × IsStalled s
unfolding fold_modes
request-stalls_example = request-stalls sync_mode_diff refl
