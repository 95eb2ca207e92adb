-- ===== src/Service/Importer.antt =====
-- internal/eds/pkg/directory/v3/importer.go: the import stream. It runs in one batch transaction, in
-- which a message that fails is counted and reported, and the stream goes on.
pub mod Counts
pub mod Agrees
use eamerald.Base.{
  ℕ, zero, suc, ◌+◌, ◌%◌, ◌^◌, Bool, true, false, Option, none, some, List, [], ◌∷◌, ◌++◌,
  if◌then◌else◌,
}
use eamerald.Base.Bytes.{Bytes, eqb}
use eamerald.Base.Exec.{
  Error, Result, ok, err, Exec, lift, reads, raise, pure, transact, with_error, ◌>>=◌, ◌>>◌,
  invalid_object, invalid_relation, unknown_op_code, invalid_op_code, unknown,
}
use eamerald.Data.{Object, Relation, by_object, by_subject}
use eamerald.Store.Tx.{Tx}
use eamerald.Ds.Metadata.{update_metadata_object, update_metadata_relation}
use eamerald.Service.Context.{Context}
use eamerald.Service.Relations.{delete_relations_with_prefix}

-- The opcodes of the protocol, and any other number that a client may send.
pub data Opcode : Type 0 where
  op_set op_delete op_delete_with_relations : Opcode
  op_other : ℕ → Opcode

-- The payload of a message, a pointer that may be nil, or no payload that is known.
pub data Payload : Type 0 where
  object_msg : Option Object → Payload
  relation_msg : Option Relation → Payload
  no_msg : Payload

pub record ImportRequest : Type 0 where
  pub op_code : Opcode
  pub msg : Payload

-- dsi.ImportCounter, whose fields are uint64
pub record ImportCounter : Type 0 where
  pub recv : ℕ
  pub set : ℕ
  pub delete : ℕ
  pub error : ℕ

pub record Counters : Type 0 where
  pub object : ImportCounter
  pub relation : ImportCounter

abbrev pub new_counter : ImportCounter
new_counter = record { recv = 0; set = 0; delete = 0; error = 0 }

abbrev pub new_counters : Counters
new_counters = record { object = new_counter; relation = new_counter }

-- c++ on a uint64
abbrev pub increment : ℕ → ℕ
increment n = (n + 1) % 2 ^ 64

unfoldable pub update_counter : {A : Type 0} → ImportCounter → Opcode → Result A → ImportCounter
update_counter c op (err e) = record c { recv = increment c.recv; error = increment c.error }
update_counter c op_set (ok a) = record c { recv = increment c.recv; set = increment c.set }
update_counter c op_delete (ok a) = record c {
  recv = increment c.recv;
  delete = increment c.delete;
}
update_counter c op_delete_with_relations (ok a) = record c {
  recv = increment c.recv;
  delete = increment c.delete;
}
update_counter c (op_other n) (ok a) = record c { recv = increment c.recv }

module _ (tx : Tx) (ctx : Context) where
  -- The tail of objectSetHandler, with the etag of the request and the metadata in place.
  unfoldable pub put_imported_object : Bytes → Object → Exec tx.State (Unit {0})
  put_imported_object etag upd_req = if eqb etag upd_req.etag then pure tt else (do
    _ ← with_error (tx.set_object (record upd_req { etag = etag })) invalid_object
    pure tt)

  unfoldable pub object_set_handler : Option Object → Exec tx.State (Unit {0})
  unfolding put_imported_object update_metadata_object
  object_set_handler none = raise invalid_object
  object_set_handler (some req) = do
    lift (ctx.valid_object req)
    lift (ctx.model_object req)
    upd_req ← reads (update_metadata_object tx ctx.now req)
    put_imported_object (ctx.object_hash req) upd_req

  unfoldable pub object_delete_handler : Option Object → Exec tx.State (Unit {0})
  object_delete_handler none = raise invalid_object
  object_delete_handler (some req) = do
    lift (ctx.valid_object req)
    lift (ctx.model_object req)
    with_error (tx.delete_object req.type req.id) invalid_object

  unfoldable pub object_delete_with_relations_handler : Option Object → Exec tx.State (Unit {0})
  unfolding delete_relations_with_prefix
  object_delete_with_relations_handler none = raise invalid_object
  object_delete_with_relations_handler (some req) = do
    lift (ctx.valid_object req)
    lift (ctx.model_object req)
    with_error (tx.delete_object req.type req.id) invalid_object
    delete_relations_with_prefix tx by_subject req.type req.id
    delete_relations_with_prefix tx by_object req.type req.id

  unfoldable pub put_imported_relation : Bytes → Relation → Exec tx.State (Unit {0})
  put_imported_relation etag upd_req = if eqb etag upd_req.etag then pure tt else (do
    _ ← with_error (tx.set_relation (record upd_req { etag = etag })) invalid_relation
    pure tt)

  unfoldable pub relation_set_handler : Option Relation → Exec tx.State (Unit {0})
  unfolding put_imported_relation update_metadata_relation
  relation_set_handler none = raise invalid_relation
  relation_set_handler (some req) = do
    lift (ctx.valid_relation req)
    lift (ctx.model_relation req.ident)
    upd_req ← reads (update_metadata_relation tx ctx.now req)
    put_imported_relation (ctx.relation_hash req.ident) upd_req

  unfoldable pub relation_delete_handler : Option Relation → Exec tx.State (Unit {0})
  relation_delete_handler none = raise invalid_relation
  relation_delete_handler (some req) = do
    lift (ctx.valid_relation req)
    lift (ctx.model_relation req.ident)
    with_error (tx.delete_relation req.ident) invalid_relation

  -- A message yields its error, if any, the counters and the store.
  unfoldable pub count_object :
      Opcode → Counters → Result (Unit {0}) × tx.State → Result (Unit {0}) × Counters × tx.State
  unfolding update_counter
  count_object op ctr (r, s) = (r, record ctr { object = update_counter ctr.object op r }, s)

  unfoldable pub count_relation :
      Opcode → Counters → Result (Unit {0}) × tx.State → Result (Unit {0}) × Counters × tx.State
  unfolding update_counter
  count_relation op ctr (r, s) = (r, record ctr { relation = update_counter ctr.relation op r }, s)

  unfoldable pub handle_object :
      Opcode → Option Object → Counters → tx.State → Result (Unit {0}) × Counters × tx.State
  unfolding object_set_handler object_delete_handler object_delete_with_relations_handler
      count_object
  handle_object op_set m ctr s = count_object op_set ctr (object_set_handler m s)
  handle_object op_delete m ctr s = count_object op_delete ctr (object_delete_handler m s)
  handle_object op_delete_with_relations m ctr s =
      count_object op_delete_with_relations ctr (object_delete_with_relations_handler m s)
  handle_object (op_other n) m ctr s = (err unknown_op_code, ctr, s)

  unfoldable pub handle_relation :
      Opcode → Option Relation → Counters → tx.State → Result (Unit {0}) × Counters × tx.State
  unfolding relation_set_handler relation_delete_handler count_relation
  handle_relation op_set m ctr s = count_relation op_set ctr (relation_set_handler m s)
  handle_relation op_delete m ctr s = count_relation op_delete ctr (relation_delete_handler m s)
  handle_relation op_delete_with_relations m ctr s = (err invalid_op_code, ctr, s)
  handle_relation (op_other n) m ctr s = (err unknown_op_code, ctr, s)

  unfoldable pub handle_payload :
      Opcode → Payload → Counters → tx.State → Result (Unit {0}) × Counters × tx.State
  unfolding handle_object handle_relation
  handle_payload op (object_msg m) ctr s = handle_object op m ctr s
  handle_payload op (relation_msg m) ctr s = handle_relation op m ctr s
  handle_payload op no_msg ctr s = (err unknown, ctr, s)

  unfoldable pub handle_import_request :
      ImportRequest → Counters → tx.State → Result (Unit {0}) × Counters × tx.State
  unfolding handle_payload
  handle_import_request req ctr s = handle_payload req.op_code req.msg ctr s

-- What the stream yields, loop by loop: the context is done, the client has closed the stream, a
-- call of Recv fails, or a message is received. With the end of the stream come the order in which
-- the map of the counters is walked (objects first or not) and the result of the last call of Send.
pub data Stream : Type 0 where
  cancelled : Stream
  eof : Bool → Result (Unit {0}) → Stream
  recv_error : Stream → Stream
  message : ImportRequest → Stream → Stream

pub data Response : Type 0 where
  status_response : Error → ImportRequest → Response
  object_counter relation_counter : ImportCounter → Response
  summary : ImportCounter → ImportCounter → Response

abbrev pub Sent : Type 0
Sent = List Response × Counters

unfoldable pub send_counters : Bool → Counters → List Response
send_counters true ctr = object_counter ctr.object ∷ relation_counter ctr.relation ∷ []
send_counters false ctr = relation_counter ctr.relation ∷ object_counter ctr.object ∷ []

-- Only an error with a gRPC status is reported.
unfoldable pub report :
    (Error → Bool) → ImportRequest → Result (Unit {0}) → List Response → List Response
report has_status req (ok u) sent = sent
report has_status req (err e) sent =
    if has_status e then sent ++ status_response e req ∷ [] else sent

-- A set that got as far as the metadata has written it, and the new etag, into the request's message.
abbrev pub written_object :
    Bytes → Object → Result (Unit {0}) → Result (Unit {0}) → Result Object → Object
written_object etag o (ok u) (ok w) (ok upd) = record upd { etag = etag }
written_object etag o _ _ _ = o

abbrev pub written_relation :
    Bytes → Relation → Result (Unit {0}) → Result (Unit {0}) → Result Relation → Relation
written_relation etag r (ok u) (ok w) (ok upd) = record upd { etag = etag }
written_relation etag r _ _ _ = r

module _ (tx : Tx) (ctx : Context) (has_status : Error → Bool) where
  -- The message as a failed set leaves it. An etag that was equal is no failure.
  unfoldable pub written_payload : Opcode → Payload → tx.State → Payload
  unfolding update_metadata_object update_metadata_relation
  written_payload op_set (object_msg (some o)) s = object_msg (
      some (
        written_object (ctx.object_hash o) o (ctx.valid_object o) (ctx.model_object o)
          (update_metadata_object tx ctx.now o s)))
  written_payload op_set (relation_msg (some r)) s = relation_msg (
      some (
        written_relation (ctx.relation_hash r.ident) r (ctx.valid_relation r)
          (ctx.model_relation r.ident) (update_metadata_relation tx ctx.now r s)))
  written_payload op m s = m

  -- The request that a status response carries.
  unfoldable pub written_request : ImportRequest → tx.State → ImportRequest
  unfolding written_payload
  written_request req s = record req { msg = written_payload req.op_code req.msg s }

  -- The loop, with the responses and the counters so far: the result of the batch, what was sent,
  -- the counters, and the store.
  unfoldable pub import_loop : Stream → List Response → Counters → tx.State → Result Sent × tx.State
  unfolding handle_import_request send_counters report written_request
  import_loop cancelled sent ctr s = (ok (sent, ctr), s)
  import_loop (eof objects_first (ok u)) sent ctr s = (
    ok ((sent ++ send_counters objects_first ctr) ++ summary ctr.object ctr.relation ∷ [], ctr),
    s,
  )
  import_loop (eof objects_first (err e)) sent ctr s = (err e, s)
  import_loop (recv_error rest) sent ctr s = import_loop rest sent ctr s
  import_loop (message req rest) sent ctr s =
      let (r, ctr', s') = handle_import_request tx ctx req ctr s in
      import_loop rest (report has_status (written_request req s) r sent) ctr' s'

  unfoldable pub import_stream : Stream → Exec tx.State Sent
  unfolding import_loop
  import_stream stream = transact (import_loop stream [] new_counters)
