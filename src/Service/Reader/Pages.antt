-- ===== src/Service/Reader/Pages.antt =====
-- The pages of GetRelations in internal/eds/pkg/directory/v3/reader.go, which pass over rows.
use eamerald.Base.{
  ◌∙◌, ℕ, zero, suc, ◌+◌, ◌≡◌, refl, ap, Bool, false, List, [], ◌∷◌, ◌++◌, arith, if◌then◌else◌,
  some, length, length-append, take, drop, Bool-cases, inl, inr, keep, ◌<◌,
}
use mathlib.Core.List.{append_assoc, append-nil}
use eamerald.Base.Bytes.{Bytes}
use eamerald.Base.Exec.{Result, ok, bind_result, Result-map, Result-cases}
use eamerald.Base.Int.{ℤ, pos, eqb_ℤ}
use eamerald.Bolt.{Backend, BackendLaws}
use eamerald.Store.Page.{next_token, values}
use eamerald.Bdb.Scan.{scan_rows}
use eamerald.Bdb.Scan.Paging.{Paging}
use eamerald.Bdb.Scan.Resume.{scan_pages, scan_pages-accepted}
use eamerald.Bdb.Implements.{bdb_tx}
use eamerald.Bdb.Relations.{scan_relations}
use eamerald.Bdb.Keys.{direction_path, direction_filter}
use eamerald.Store.Tx.{Tx}
use eamerald.Bdb.Scan.Resume.{more_pages}
use eamerald.Data.{Relation, RelationIdentifier, RelationFilter, Direction, no_relation}
use eamerald.Ds.Relation.{SafeRelation, filter}
use eamerald.Service.Reader.{filtered_page, ReaderContext, get_relations, scan_page, relations_page}

module _ {A : Type 0} (accepts : A → Bool) where
  -- The values of the rows that the filter lets pass.
  abbrev pub accepted : List (A × Bytes) → List A
  accepted rows = keep accepts (values rows)

  -- How many rows a page with room for `n` more than one reads behind the first.
  unfoldable taken : ℕ → List (A × Bytes) → ℕ
  taken n [] = 0
  taken zero ((v, token) ∷ rows) = let more = taken zero rows in if accepts v then 0 else suc more
  taken (suc n) ((v, token) ∷ rows) =
      let fewer = taken n rows in
      let more = taken (suc n) rows in if accepts v then suc fewer else suc more

  filtered_page-from :
      (size : ℕ) (results : List A) (rows : List (A × Bytes)) (n : ℕ)
      → size ≡ length results + suc n
      → filtered_page accepts (pos size) results rows ≡ (
        results ++ accepted (take (suc (taken n rows)) rows),
        next_token (drop (suc (taken n rows)) rows),
      )
  unfolding filtered_page taken next_token
  filtered_page-from size results [] n e = ground (arith, append-nil results)
  filtered_page-from size results ((v, token) ∷ rows) zero e = elim (Bool-cases (accepts v)) [
    | inl hit ↦ ground (arith, length-append results (v ∷ []))
    | inr miss ↦ rw miss (filtered_page-from size results rows zero e)
  ]
  filtered_page-from size results ((v, token) ∷ rows) (suc n) e = elim (Bool-cases (accepts v)) [
    | inl hit ↦
        let grown : size ≡ length (results ++ v ∷ []) + suc n =
          omega (arith, length-append results (v ∷ [])) in
        let more : eqb_ℤ (pos size) (pos (length (results ++ v ∷ []))) ≡ false = ground arith in
        rw (hit, more)
          (filtered_page-from size (results ++ v ∷ []) rows n grown
            ∙ ap (λ vs. (vs, next_token (drop (suc (taken n rows)) rows)))
                (append_assoc results (v ∷ []) (accepted (take (suc (taken n rows)) rows))))
    | inr miss ↦ rw miss (filtered_page-from size results rows (suc n) e)
  ]

  accepted-take-drop :
      (n : ℕ) (rows : List (A × Bytes))
      → accepted (take n rows) ++ accepted (drop n rows) ≡ accepted rows
  accepted-take-drop zero rows = refl
  accepted-take-drop (suc n) [] = refl
  accepted-take-drop (suc n) ((v, token) ∷ rows) = elim (Bool-cases (accepts v)) [
    | inl hit ↦ rw hit (ap (λ vs. v ∷ vs) (accepted-take-drop n rows))
    | inr miss ↦ rw miss (accepted-take-drop n rows)
  ]

  unfoldable filtered_paging : ℕ → Paging A
  filtered_paging n = record {
    pg = filtered_page accepts (pos (suc n)) [];
    accepted = accepted;
    consumed = taken n;
    accepted-nil = refl;
    accepted-take-drop = accepted-take-drop;
    cut = λ rows. filtered_page-from (suc n) [] rows n (omega arith);
  }

more_pages-ext :
    {A : Type 0} (f g : Bytes → Result (List A))
    → ((token : Bytes) → f token ≡ g token)
    → (items : List A) (token : Bytes) → more_pages f items token ≡ more_pages g items token
unfolding more_pages
more_pages-ext f g e items [] = refl
more_pages-ext f g e items (c ∷ token) = rw (e (c ∷ token))

-- A client that asks GetRelations for page after page until a page has no token.
unfoldable pub all_relations :
    (tx : Tx)
    → ReaderContext
    → SafeRelation
    → ℤ
    → Bool
    → tx.State
    → ℕ
    → Bytes
    → Result (List Relation)
unfolding get_relations more_pages
all_relations tx ctx i size with_objects s zero token = ok []
all_relations tx ctx i size with_objects s (suc fuel) token =
    bind_result
      (get_relations tx ctx i (some (record { size = size; token = token })) with_objects s)
      λ resp.
        more_pages (all_relations tx ctx i size with_objects s fuel) resp.results resp.next_token

module _ (b : Backend) (ctx : ReaderContext) (i : SafeRelation) (with_objects : Bool) (n : ℕ)
    (valid : (token : Bytes)
      → ctx.get_relations_request i (some (record { size = pos (suc n); token = token })) ≡ ok tt)
    (in_model : ctx.model_relation i ≡ ok tt) where
  abbrev target : Direction × RelationFilter × (RelationIdentifier → Bool)
  target = filter ctx.graph.is_complete i

  abbrev passes : Relation → Bool
  passes r = target.2 r.ident

  abbrev pages_of : (s : b.bolt.Tx) → ℕ → Bytes → Result (List Relation)
  pages_of s fuel token =
      scan_pages b.bolt b.relations no_relation fuel s (direction_path target.0)
        (direction_filter target.0 target.1) (filtered_page passes (pos (suc n)) []) token

  get_relations-scan_rows :
      (s : b.bolt.Tx) (token : Bytes)
      → get_relations
          (bdb_tx b)
          ctx
          i
          (some (record { size = pos (suc n); token = token }))
          with_objects
          s
        ≡ Result-map
            (λ rows.
              relations_page
                (bdb_tx b)
                ctx
                with_objects
                s
                (filtered_page passes (pos (suc n)) [] rows))
            (scan_rows b.bolt b.relations no_relation s
              (direction_path target.0)
              token
              (direction_filter target.0 target.1))
  unfolding get_relations scan_page scan_relations
  get_relations-scan_rows s token =
      rw (valid token, in_model)
        (elim (Result-cases (
          scan_rows b.bolt b.relations no_relation s (direction_path target.0) token
            (direction_filter target.0 target.1))) [ inl (rows, e) ↦ rw e | inr (x, e) ↦ rw e ])

  all_relations-scan_pages :
      (s : b.bolt.Tx) (fuel : ℕ) (token : Bytes)
      → all_relations (bdb_tx b) ctx i (pos (suc n)) with_objects s fuel token
        ≡ pages_of s fuel token
  unfolding all_relations scan_pages relations_page
  all_relations-scan_pages s zero token = refl
  all_relations-scan_pages s (suc fuel) token =
      rw (get_relations-scan_rows s token)
        (elim (Result-cases (
          scan_rows b.bolt b.relations no_relation s (direction_path target.0) token
            (direction_filter target.0 target.1))) [
              | inl (rows, e) ↦ rw e (
                  more_pages-ext (all_relations (bdb_tx b) ctx i (pos (suc n)) with_objects s fuel)
                    (pages_of s fuel) (all_relations-scan_pages s fuel)
                    (filtered_page passes (pos (suc n)) [] rows).0
                    (filtered_page passes (pos (suc n)) [] rows).1)
              | inr (x, e) ↦ rw e
            ])

-- Asking GetRelations for pages of any positive size until a page has no token gives the relations
-- of one scan of the BoltDB store that pass the filter of the request, in their order, none lost
-- and none twice, provided that the validators accept the requests for pages of that size, whatever
-- their token, and the model accepts the relation. One request more than the index has entries is
-- enough.
pub all_relations-accepted :
    {b : Backend} (laws : BackendLaws b) (ctx : ReaderContext) (i : SafeRelation)
    (with_objects : Bool) (n : ℕ) (s : b.bolt.Tx) (fuel : ℕ)
    → ((token : Bytes)
        → ctx.get_relations_request i (some (record { size = pos (suc n); token = token })) ≡ ok tt)
    → ctx.model_relation i ≡ ok tt
    → length (b.bolt.first s (direction_path (filter ctx.graph.is_complete i).0)) < fuel
    → all_relations (bdb_tx b) ctx i (pos (suc n)) with_objects s fuel []
      ≡ Result-map
          (λ rows.
            keep (λ (r : Relation). (filter ctx.graph.is_complete i).2 r.ident) (values rows))
          (scan_relations b
            (filter ctx.graph.is_complete i).0
            (filter ctx.graph.is_complete i).1
            []
            s)
unfolding scan_relations filter filtered_page filtered_paging
all_relations-accepted {b} laws ctx i with_objects n s fuel valid in_model enough =
    all_relations-scan_pages b ctx i with_objects n valid in_model s fuel []
    ∙ scan_pages-accepted laws.bolt b.relations no_relation
        (filtered_paging (passes b ctx i with_objects n valid in_model) n) s
        (direction_path (filter ctx.graph.is_complete i).0)
        (direction_filter (filter ctx.graph.is_complete i).0 (filter ctx.graph.is_complete i).1)
        fuel enough
