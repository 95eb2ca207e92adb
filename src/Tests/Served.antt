-- ===== src/Tests/Served.antt =====
-- Runs of the theorems on the services of internal/eds/pkg/directory/v3 and on the authorizer.
use eamerald.Base.{◌≡◌, ◌⊎◌, false, refl, true, none, some, List, [], ◌∷◌}
use eamerald.Base.Bytes.{codes, eqb}
use eamerald.Base.Exec.{Result, ok, err, invalid_relation, key_not_found}
use eamerald.Base.Int.{pos}
use eamerald.Data.{Object, no_object}
use eamerald.Store.Tx.{Tx}
use eamerald.Service.Context.{Context}
use eamerald.Service.Writer.{set_object_tx, deletes_object, perform}
use eamerald.Service.Writer.Laws.{IsWritten, set_object-hash}
use eamerald.Service.Writer.Matched.{perform-matched}
use eamerald.Service.Writer.Repeat.{set_object-repeated}
use eamerald.Service.Importer.{
  op_set, op_delete, object_msg, relation_msg, Counters, Response, status_response, object_counter,
  relation_counter, summary, Stream, eof, message, import_stream, object_set_handler,
}
use eamerald.Service.Importer.Counts.{AreCounted, import_stream-AreCounted}
use eamerald.Service.Importer.Agrees.{Agree, object_set_handler-set_object}
use eamerald.Bdb.Implements.{bdb_tx, bdb_tx-TxLaws}
use eamerald.Tests.Memory
use eamerald.Tests.Memory.{no_entries, Store}
use eamerald.Tests.Frames
use eamerald.Tests.Frames.{backend, backend_laws}

-- Requests that every validator accepts, and that bring no If-Match header.
abbrev pub accepting : Context
accepting = record {
  set_object_request = λ o. ok tt;
  delete_object_request = λ t i. ok tt;
  set_relation_request = λ r. ok tt;
  delete_relation_request = λ i. ok tt;
  valid_object = λ o. ok tt;
  valid_relation = λ r. ok tt;
  model_object = λ o. ok tt;
  model_object_identifier = λ t i. ok tt;
  model_relation = λ i. ok tt;
  object_hash = λ o. b'#' ∷ o.id;
  relation_hash = λ i. b'#' ∷ i.relation;
  if_match = [];
  now = record { seconds = pos 7; nanos = pos 0 };
}

-- A client that holds the stored etag.
abbrev holding : Context
holding = record accepting { if_match = codes "#bob" }

abbrev pub tx : Tx
tx = bdb_tx backend

abbrev pub bob : Object
bob = record no_object { type = codes "user"; id = codes "bob" }

abbrev pub stored_bob : Object
stored_bob = record bob {
  created_at = some (record { seconds = pos 7; nanos = pos 0 });
  updated_at = some (record { seconds = pos 7; nanos = pos 0 });
  etag = codes "#bob";
}

abbrev pub with_bob : Store
with_bob = (set_object_tx tx accepting bob no_entries).1

pub set_bob_ok : set_object_tx tx accepting bob no_entries ≡ (ok stored_bob, with_bob)
unfolding set_object_tx eamerald.Bdb.Objects.get_object eamerald.Bolt.find eqb
    eamerald.Bdb.Objects.set_object Frames.marshal_object Memory.put
set_bob_ok = refl

abbrev after_delete : Store
after_delete = (perform tx holding (deletes_object (codes "user") (codes "bob") false) with_bob).1

perform-matched_example : holding.if_match ≡ stored_bob.etag
unfolding eamerald.Bdb.Objects.get_object eamerald.Bolt.find set_object_tx eqb
    eamerald.Bdb.Objects.set_object Frames.marshal_object Memory.put eamerald.Bolt.path_eq
    Memory.insert Frames.unmarshal_object perform eamerald.Service.Writer.delete_object
    eamerald.Bdb.Objects.delete_object Memory.remove
perform-matched_example =
    perform-matched tx holding (deletes_object (codes "user") (codes "bob") false) with_bob
      after_delete (codes "#bob") (λ e. cc) (stored_bob, there, refl) (λ e. cc) ran
  where
    there : tx.get_object (codes "user") (codes "bob") with_bob ≡ ok stored_bob
    there = refl

    ran :
        perform tx holding (deletes_object (codes "user") (codes "bob") false) with_bob
        ≡ (ok tt, after_delete)
    ran = refl

set_object-hash_example :
    (cur : Object) × (tx.get_object bob.type bob.id with_bob ≡ ok cur)
    × (cur.etag ≡ codes "#bob")
    × (stored_bob.etag ≡ codes "#bob")
    × (IsWritten accepting.now bob cur ⊎ (with_bob ≡ no_entries))
unfolding eamerald.Bdb.Objects.get_object eamerald.Bolt.find
set_object-hash_example =
    set_object-hash tx accepting (bdb_tx-TxLaws backend_laws) bob stored_bob no_entries with_bob
      (λ e. cc) (λ cur there. absurd (missing cur there)) set_bob_ok
  where
    missing : (cur : Object) → ◌≡◌ {A = Result Object} (err key_not_found) (ok cur) → ⊥
    missing cur there = cc

object_set_handler-set_object_example :
    Agree
      (object_set_handler tx accepting (some bob) no_entries)
      (set_object_tx tx accepting bob no_entries)
object_set_handler-set_object_example =
    object_set_handler-set_object tx accepting bob no_entries refl refl refl

-- A stream of one set that succeeds and one relation that is nil.
abbrev stream : Stream
stream =
    message (record { op_code = op_set; msg = object_msg (some bob) })
      (message (record { op_code = op_delete; msg = relation_msg none }) (eof true (ok tt)))

abbrev counted : Counters
counted = record {
  object = record { recv = 1; set = 1; delete = 0; error = 0 };
  relation = record { recv = 1; set = 0; delete = 0; error = 1 };
}

abbrev responses : List Response
responses =
    status_response invalid_relation (record { op_code = op_delete; msg = relation_msg none })
    ∷ object_counter counted.object
    ∷ relation_counter counted.relation
    ∷ summary counted.object counted.relation
    ∷ []

import_stream-AreCounted_example : AreCounted counted 1 1
unfolding import_stream eamerald.Bdb.Objects.get_object set_object_tx eamerald.Bolt.find eqb
    eamerald.Bdb.Objects.set_object Frames.marshal_object Memory.put
import_stream-AreCounted_example =
    import_stream-AreCounted tx accepting (λ e. true) stream responses counted no_entries with_bob
      done
  where
    done :
        import_stream tx accepting (λ e. true) stream no_entries
        ≡ (ok (responses, counted), with_bob)
    done = refl

set_object-repeated_example :
    (again : Object) × (set_object_tx tx accepting bob with_bob ≡ (ok again, with_bob))
    × (again.etag ≡ codes "#bob")
unfolding eamerald.Bdb.Objects.get_object eamerald.Bolt.find
set_object-repeated_example =
    set_object-repeated tx accepting (bdb_tx-TxLaws backend_laws) bob stored_bob no_entries with_bob
      refl (λ e. cc) (λ cur there. absurd (missing cur there)) set_bob_ok
  where
    missing : (cur : Object) → ◌≡◌ {A = Result Object} (err key_not_found) (ok cur) → ⊥
    missing cur there = cc
