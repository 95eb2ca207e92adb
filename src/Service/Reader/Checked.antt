-- ===== src/Service/Reader/Checked.antt =====
-- What Check and Checks of internal/eds/pkg/directory/v3/reader.go grant, and when the two agree.
use eamerald.Base.{◌≡◌, ◌↔◌, refl, true, Option, none, some, Bool-cases, inl, inr}
use eamerald.Base.Exec.{Error, ok, Result-cases}
use eamerald.Data.{by_object, by_subject}
use eamerald.Store.Tx.{Tx}
use eamerald.Ds.Check.{
  CheckRequest, CheckResponse, relation_identifier_exist, relation_identifiers_exist, get_relations,
  exec_check, exec_found, consume, consume_valid, or_refused,
}
use eamerald.Service.Reader.{ReaderContext}
use eamerald.Service.Reader.Check.{check, check_requested, check_valid, with_reason}

module _ (tx : Tx) (ctx : ReaderContext) (i : CheckRequest) (s : tx.State) where
  -- What stands behind a permission.
  abbrev pub PermittedBy : Type 0
  PermittedBy =
      (ctx.graph.validate i ≡ ok tt)
      × (relation_identifier_exist tx ctx.graph by_subject i.subject_type i.subject_id s ≡ true)
      × (relation_identifier_exist tx ctx.graph by_object i.object_type i.object_id s ≡ true)
      × ((ctx.graph.search_graph i (get_relations tx ctx.graph s)).0.check ≡ true)

  exec_check-permitted :
      (exec_check tx ctx.graph i s).0.check ≡ true
      → (relation_identifier_exist tx ctx.graph by_subject i.subject_type i.subject_id s ≡ true)
        × (relation_identifier_exist tx ctx.graph by_object i.object_type i.object_id s ≡ true)
        × ((ctx.graph.search_graph i (get_relations tx ctx.graph s)).0.check ≡ true)
  unfolding exec_check exec_found relation_identifiers_exist
  exec_check-permitted h =
      elim (Bool-cases
        (relation_identifier_exist tx ctx.graph by_subject i.subject_type i.subject_id s)) [
          | inl subject ↦
              elim (Bool-cases
                (relation_identifier_exist tx ctx.graph by_object i.object_type i.object_id s)) [
                  | inl object ↦ (subject, object, rw (subject, object) at h)
                  | inr missing ↦ absurd (cc (rw (subject, missing) at h))
                ]
          | inr missing ↦ absurd (cc (rw missing at h))
        ]

  with_reason-check : (p : CheckResponse × Option Error) → (with_reason tx ctx p).check ≡ p.0.check
  unfolding with_reason
  with_reason-check (resp, none) = refl
  with_reason-check (resp, some e) = refl

  exec_check-search :
      relation_identifier_exist tx ctx.graph by_subject i.subject_type i.subject_id s ≡ true
      → relation_identifier_exist tx ctx.graph by_object i.object_type i.object_id s ≡ true
      → exec_check tx ctx.graph i s ≡ ctx.graph.search_graph i (get_relations tx ctx.graph s)
  unfolding exec_check exec_found relation_identifiers_exist
  exec_check-search subject object = rw (subject, object)

  -- A check grants just when the request and the model are valid, the subject is the subject of
  -- some relation, the object is the object of some relation, and the search of the graph grants.
  pub check-PermittedBy :
      (check tx ctx i s).check ≡ true ↔ ((ctx.check_request i ≡ ok tt) × PermittedBy)
  unfolding check check_requested check_valid
  check-PermittedBy = (
    granted,
    λ (asked, (valid, subject, object, found)).
        rw
          (
            asked,
            valid,
            with_reason-check (exec_check tx ctx.graph i s),
            exec_check-search subject object,
          )
          found,
  )
    where
      granted : (check tx ctx i s).check ≡ true → (ctx.check_request i ≡ ok tt) × PermittedBy
      granted h = elim (Result-cases (ctx.check_request i)) [
        | inl (u, asked) ↦ elim (Result-cases (ctx.graph.validate i)) [
          | inl (w, valid) ↦
              let (subject, object, found) =
                exec_check-permitted
                  (rw (asked, valid, with_reason-check (exec_check tx ctx.graph i s)) at h) in
              (asked, (valid, subject, object, found))
          | inr (e, bad) ↦ absurd (cc (rw (asked, bad) at h))
        ]
        | inr (e, bad) ↦ absurd (cc (rw bad at h))
      ]

  or_refused-none :
      (p : CheckResponse × Option Error) → p.1 ≡ none → or_refused tx ctx.graph p ≡ p.0
  unfolding or_refused
  or_refused-none (resp, none) h = refl
  or_refused-none (resp, some e) h = absurd (cc h)

  -- For a request that the validator accepts and a search of the graph that reports no error,
  -- Checks and Check decide alike.
  pub consume-check :
      ctx.check_request i ≡ ok tt
      → (ctx.graph.search_graph i (get_relations tx ctx.graph s)).1 ≡ none
      → (consume tx ctx.graph s i).check ≡ (check tx ctx i s).check
  unfolding consume consume_valid check check_requested check_valid
  consume-check asked quiet = elim (Result-cases (ctx.graph.validate i)) [
    | inl (u, valid) ↦ rw (asked, valid, with_reason-check (exec_check tx ctx.graph i s)) executed
    | inr (e, bad) ↦ rw (asked, bad)
  ]
    where
      executed :
          (or_refused tx ctx.graph (exec_check tx ctx.graph i s)).check
          ≡ (exec_check tx ctx.graph i s).0.check
      executed = elim (Result-cases (relation_identifiers_exist tx ctx.graph i s)) [
        | inl (u, there) ↦ rw (
          exec_check,
          there,
          exec_found,
          or_refused-none (ctx.graph.search_graph i (get_relations tx ctx.graph s)) quiet,
        )
        | inr (e, missing) ↦ rw (exec_check, missing, exec_found, or_refused)
      ]
