-- ===== src/Service/Reader/Check.antt =====
-- internal/eds/pkg/directory/v3/reader.go: Check, Checks and GetGraph.
use eamerald.Base.{Option, none, some, List}
use eamerald.Base.Exec.{Error, Result, ok, err, bind_result}
use eamerald.Store.Tx.{Tx}
use eamerald.Ds.Check.{
  CheckRequest, CheckResponse, refused, reason, GetGraphRequest, ObjectIdentifier, exec_check,
  exec_checks, exec_graph,
}
use eamerald.Service.Reader.{ReaderContext}

module _ (tx : Tx) (ctx : ReaderContext) where
  abbrev pub unwrapped : Error → Option Error → Error
  unwrapped e none = e
  unwrapped e (some inner) = inner

  unfoldable pub with_reason : CheckResponse × Option Error → CheckResponse
  with_reason (resp, none) = resp
  with_reason (resp, some e) = record resp { context = reason e }

  unfoldable pub check_valid : CheckRequest → tx.State → Result (Unit {0}) → CheckResponse
  unfolding exec_check with_reason
  check_valid i s (err e) = refused (unwrapped e (ctx.unwrap e))
  check_valid i s (ok u) = with_reason (exec_check tx ctx.graph i s)

  unfoldable pub check_requested : CheckRequest → tx.State → Result (Unit {0}) → CheckResponse
  unfolding check_valid
  check_requested i s (err e) = refused e
  check_requested i s (ok u) = check_valid i s (ctx.graph.validate i)

  -- Check never fails: an error is a refusal with a reason.
  unfoldable pub check : CheckRequest → tx.State → CheckResponse
  unfolding check_requested
  check i s = check_requested i s (ctx.check_request i)

  unfoldable pub checks : CheckRequest → List CheckRequest → tx.State → Result (List CheckResponse)
  unfolding exec_checks
  checks default requests s = exec_checks tx ctx.graph default requests s

  unfoldable pub get_graph : GetGraphRequest → tx.State → Result (List ObjectIdentifier)
  unfolding exec_graph
  get_graph req s =
      bind_result (ctx.get_graph_request req)
        λ _. bind_result (ctx.model_graph req) λ _. exec_graph tx ctx.graph req s
