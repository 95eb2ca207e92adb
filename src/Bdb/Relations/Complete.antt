-- ===== src/Bdb/Relations/Complete.antt =====
-- The prefix scan of internal/eds/pkg/bdb/relation_store.go finds the rows that a scan of the whole
-- index would find.
use eamerald.Base.{
  ◌≡◌, refl, sym, ap, ◌∙◌, Bool, true, false, some, List, [], ◌∷◌, inl, inr, Bool-cases, keep, All,
}
use eamerald.Base.Bytes.{Bytes, eqb, eqb-eq, eqb_refl, has_prefix}
use eamerald.Base.Order.{before, before_irrefl}
use eamerald.Base.Exec.{Error, path_not_found, Result, ok, err, Result-map, Result-cases}
use eamerald.Data.{RelationIdentifier, Direction, by_object, by_subject, no_filter}
use eamerald.Bolt.{BucketPath, Entry, Backend, BackendLaws, IsAbove, IsOrdered, find, drop_before}
use eamerald.Ds.Relation.{SafeRelation, value_filter, as_filter}
use eamerald.Bdb.Bucket.{set_bucket, set_bucket-ok}
use eamerald.Bdb.Keys.{is_set, direction_filter, direction_path}
use eamerald.Bdb.Scan.{filter_from, keep_if, prefix_run, scan_with_filter}
use eamerald.Bdb.Scan.Rows.{in_filter, run-keep, drop_before_empty}
use eamerald.Bdb.Relations.{scan_relations_filtered}
use eamerald.Bdb.Relations.Index.{IsIndexed}
use eamerald.Bdb.Relations.Prefix.{has_prefix_nil, direction_filter-key}

other_find :
    (j k v w : Bytes) (es : List Entry)
    → before j k ≡ true
    → find k es ≡ some w
    → find k ((j, v) ∷ es) ≡ some w
unfolding find
other_find j k v w es b h = elim (Bool-cases (eqb j k)) [
  | inl same ↦ let e : before k k ≡ true = rw (eqb-eq j k same) at b in cc (before_irrefl k)
  | inr distinct ↦ rw distinct h
]

-- Each entry of an ordered list is what a lookup of its key finds.
find_above :
    (j v : Bytes) (xs es : List Entry)
    → IsAbove j xs
    → All (λ (e : Entry). find e.0 es ≡ some e.1) xs
    → All (λ (e : Entry). find e.0 ((j, v) ∷ es) ≡ some e.1) xs
unfolding find
find_above j v [] es a h = tt
find_above j v ((k, w) ∷ xs) es a h = (other_find j k v w es a.0 h.0, find_above j v xs es a.1 h.1)

find_entries : (es : List Entry) → IsOrdered es → All (λ (e : Entry). find e.0 es ≡ some e.1) es
find_entries [] o = tt
find_entries ((j, v) ∷ es) o =
    (unfold find in rw (eqb_refl j), find_above j v es es o.1 (find_entries es o.2))

-- A row that is rejected leaves the result as it was.
keep_if-reject :
    (b : Backend) (accepts : RelationIdentifier → Bool) (m : RelationIdentifier)
    (r : Result (List RelationIdentifier))
    → accepts m ≡ false
    → Result-map (keep_if b.bolt b.unmarshal_identifier accepts m) r ≡ r
keep_if-reject b accepts m (ok ms) h = rw h
keep_if-reject b accepts m (err e) h = refl

-- The loop of the scan, with what the entries decode to at hand.
module _ (b : Backend) (f : Bytes) (accepts : RelationIdentifier → Bool) where
  abbrev Decodes : Entry → Type 0
  Decodes e =
      (m : RelationIdentifier) × (b.unmarshal_identifier e.1 ≡ ok m)
      × (accepts m ≡ true → has_prefix e.0 f ≡ true)

  -- The loop stops by itself where the run of the prefix stops.
  filter-run :
      (es : List Entry)
      → filter_from b.bolt b.unmarshal_identifier accepts f (prefix_run f es)
        ≡ filter_from b.bolt b.unmarshal_identifier accepts f es
  unfolding filter_from prefix_run
  filter-run [] = refl
  filter-run ((k, v) ∷ es) = elim (Bool-cases (has_prefix k f)) [
    | inl hit ↦ rw (hit, hit, filter-run es)
    | inr miss ↦ rw miss
  ]

  -- Dropping the entries without the prefix drops none that is accepted.
  filter-keep :
      (es : List Entry)
      → All Decodes es
      → filter_from b.bolt b.unmarshal_identifier accepts f (keep (in_filter f) es)
        ≡ filter_from b.bolt b.unmarshal_identifier accepts [] es
  unfolding filter_from
  filter-keep [] h = refl
  filter-keep ((k, v) ∷ es) ((m, decoded, implied), h) = elim (Bool-cases (has_prefix k f)) [
    | inl hit ↦ rw (hit, hit, has_prefix_nil k, filter-keep es h)
    | inr miss ↦ elim (Bool-cases (accepts m)) [
      | inl yes_ ↦ cc (implied yes_)
      | inr rejected ↦
          rw (miss, has_prefix_nil k, decoded)
            (filter-keep es h
              ∙ sym (
                  keep_if-reject b accepts m
                    (filter_from b.bolt b.unmarshal_identifier accepts [] es) rejected))
    ]
  ]

no_filter-empty : (d : Direction) → direction_filter d no_filter ≡ []
unfolding direction_filter is_set
no_filter-empty by_object = refl
no_filter-empty by_subject = refl

module _ (b : Backend) (tx : b.bolt.Tx) where
  scan_with_filter-ok :
      (path p : BucketPath) (f : Bytes) (accepts : RelationIdentifier → Bool)
      → set_bucket b.bolt tx path ≡ ok p
      → scan_with_filter b.bolt b.unmarshal_identifier accepts tx path f
        ≡ filter_from b.bolt b.unmarshal_identifier accepts f (b.bolt.seek tx path f)
  unfolding scan_with_filter filter_from
  scan_with_filter-ok path p f accepts e =
      rw (e, scan_with_filter) (rw (set_bucket-ok b.bolt tx path p e))

  scan_with_filter-err :
      (path : BucketPath) (e : Error) (f : Bytes) (accepts : RelationIdentifier → Bool)
      → set_bucket b.bolt tx path ≡ err e
      → scan_with_filter b.bolt b.unmarshal_identifier accepts tx path f ≡ err path_not_found
  unfolding scan_with_filter
  scan_with_filter-err path e f accepts h = rw (h, scan_with_filter)

module _ {b : Backend} (laws : BackendLaws b) where
  module _ (d : Direction) (i : SafeRelation) (tx : b.bolt.Tx) (indexed : IsIndexed b tx) where
    abbrev query_prefix : Bytes
    query_prefix = direction_filter d (as_filter i)

    entry-Decodes :
        (k v : Bytes)
        → b.bolt.get tx (direction_path d) k ≡ some v
        → Decodes b query_prefix (value_filter i) (k, v)
    entry-Decodes k v stored =
        let x = indexed.at d k v stored in
        (
          x.relation.ident,
          laws.identifier-marshal x.relation v x.encoded,
          λ h. rw x.keyed (direction_filter-key d i x.relation.ident h),
        )

    entries-Decode :
        (xs : List Entry)
        → All (λ (e : Entry). b.bolt.get tx (direction_path d) e.0 ≡ some e.1) xs
        → All (Decodes b query_prefix (value_filter i)) xs
    entries-Decode [] h = tt
    entries-Decode ((k, v) ∷ xs) h = (entry-Decodes k v h.0, entries-Decode xs h.1)

    stored_entries :
        All
          (λ (e : Entry). b.bolt.get tx (direction_path d) e.0 ≡ some e.1)
          (b.bolt.first tx (direction_path d))
    stored_entries =
        finds (b.bolt.first tx (direction_path d))
          (find_entries _ (laws.bolt.first_ordered tx (direction_path d)))
      where
        finds :
            (xs : List Entry)
            → All (λ (e : Entry). find e.0 (b.bolt.first tx (direction_path d)) ≡ some e.1) xs
            → All (λ (e : Entry). b.bolt.get tx (direction_path d) e.0 ≡ some e.1) xs
        finds [] h = tt
        finds ((k, v) ∷ xs) h = (laws.bolt.get-first tx (direction_path d) k ∙ h.0, finds xs h.1)

    -- The scan loop over the whole bucket and over the run of a prefix.
    from_seek :
        filter_from b.bolt b.unmarshal_identifier
          (value_filter i)
          query_prefix
          (b.bolt.seek tx (direction_path d) query_prefix)
        ≡ filter_from b.bolt b.unmarshal_identifier
            (value_filter i)
            []
            (b.bolt.seek tx (direction_path d) [])
    from_seek =
        let es = b.bolt.first tx (direction_path d) in
        rw
          (
            laws.bolt.seek-first tx (direction_path d) query_prefix,
            laws.bolt.seek-first tx (direction_path d) [],
            drop_before_empty es,
          )
          (sym (filter-run b query_prefix (value_filter i) (drop_before query_prefix es))
            ∙ ap (filter_from b.bolt b.unmarshal_identifier (value_filter i) query_prefix)
                (run-keep query_prefix es (laws.bolt.first_ordered tx (direction_path d)))
            ∙ filter-keep b query_prefix (value_filter i) es (entries-Decode es stored_entries))

    -- In a store whose indexes hold the same relations, all of them with separable identifiers (no
    -- `:` in a type, no `|` in an id or a relation name), the prefix scan of a query, with the
    -- value filter of the query, gives what a scan of the whole index with that filter gives, in
    -- the same order, whatever the query and the direction.
    pub scan_relations_filtered-full :
        scan_relations_filtered b d (as_filter i) (value_filter i) tx
        ≡ scan_relations_filtered b d no_filter (value_filter i) tx
    unfolding scan_relations_filtered
    scan_relations_filtered-full = elim (Result-cases (set_bucket b.bolt tx (direction_path d))) [
      | inl (p, e) ↦
          scan_with_filter-ok b tx (direction_path d) p query_prefix (value_filter i) e
          ∙ from_seek
          ∙ sym (scan_with_filter-ok b tx (direction_path d) p [] (value_filter i) e)
          ∙ ap
              (scan_with_filter b.bolt b.unmarshal_identifier (value_filter i) tx
                (direction_path d))
              (sym (no_filter-empty d))
      | inr (e, h) ↦
          scan_with_filter-err b tx (direction_path d) e query_prefix (value_filter i) h
          ∙ sym (
              scan_with_filter-err b tx (direction_path d) e (direction_filter d no_filter)
                (value_filter i) h)
    ]
