-- ===== src/Bdb/Scan.antt =====
-- internal/eds/pkg/bdb/scanner.go: prefix scans of a bucket, and the scan iterator.
pub mod Rows
pub mod Token
pub mod Paging
pub mod Resume
use eamerald.Base.{
  ℕ, zero, suc, ◌≡◌, Bool, true, false, ◌&&◌, Option, none, some, List, [], ◌∷◌, if◌then◌else◌,
  length,
}
use eamerald.Base.Bytes.{Bytes, has_prefix}
use eamerald.Base.Exec.{Result, ok, err, path_not_found, bind_result, Result-map, or_error, is_ok}
use eamerald.Bolt.{BucketPath, Entry, Bolt, Codec}
use eamerald.Bdb.Bucket.{set_bucket}

-- What an iterator yields for one element: the decoded value and the key, which is the resume point
-- for the element.
abbrev pub Row : Type 0 → Type 0
Row A = A × Bytes

-- The fields of ScanIterator. `cursor` holds the entries behind the one under the cursor.
pub record ScanIterator : Type 0 where
  pub start_token : Option Bytes
  pub key_filter : Bytes
  pub bucket : BucketPath
  pub init : Bool
  pub key : Option Bytes
  pub value : Bytes
  pub cursor : List Entry

-- A nil or empty start token gives way to a key filter that is not empty.
unfoldable pub start_token_of : Bytes → Bytes → Option Bytes
start_token_of (c ∷ token) key_filter = some (c ∷ token)
start_token_of [] [] = none
start_token_of [] (k ∷ key_filter) = some (k ∷ key_filter)

-- Cursor.Next and its siblings return a nil key past the end.
abbrev pub at_cursor : ScanIterator → List Entry → ScanIterator
at_cursor it [] = record it { init = true; key = none; value = []; cursor = [] }
at_cursor it ((k, v) ∷ es) = record it { init = true; key = some k; value = v; cursor = es }

abbrev pub key_in_filter : Option Bytes → Bytes → Bool
key_in_filter none key_filter = false
key_in_filter (some k) key_filter = has_prefix k key_filter

-- The loop `for k, v := c.Seek(keyFilter); k != nil && bytes.HasPrefix(k, keyFilter); k, v = c.Next()`.
unfoldable pub prefix_run : Bytes → List Entry → List Entry
prefix_run p [] = []
prefix_run p ((k, v) ∷ es) = if has_prefix k p then (k, v) ∷ prefix_run p es else []

abbrev pub initial : Bytes → Bytes → BucketPath → ScanIterator
initial page_token key_filter b = record {
  start_token = start_token_of page_token key_filter;
  key_filter = key_filter;
  bucket = b;
  init = false;
  key = none;
  value = [];
  cursor = [];
}

module _ (bolt : Bolt) where
  open bolt use {Tx, first, seek}

  unfoldable pub new_scan_iterator : Tx → BucketPath → Bytes → Bytes → Result ScanIterator
  new_scan_iterator tx path page_token key_filter =
      or_error (Result-map (initial page_token key_filter) (set_bucket bolt tx path)) path_not_found

  -- Where the first call of Next puts the cursor.
  unfoldable pub start_cursor : Tx → ScanIterator → List Entry
  start_cursor tx it = elim it.start_token [
    | none ↦ first tx it.bucket
    | some token ↦ seek tx it.bucket token
  ]

  unfoldable pub next : Tx → ScanIterator → Bool × ScanIterator
  unfolding start_cursor
  next tx it =
      let it' = at_cursor it (if it.init then it.cursor else start_cursor tx it) in
      (key_in_filter it'.key it'.key_filter, it')

  unfoldable pub key_prefix_exists : Tx → BucketPath → Bytes → Result Bool
  unfolding set_bucket
  key_prefix_exists tx path key_filter = elim (set_bucket bolt tx path) [
    | err e ↦ err path_not_found
    | ok b ↦ elim (seek tx b key_filter) [ [] ↦ ok false | e ∷ es ↦ ok (has_prefix e.0 key_filter) ]
  ]

  module _ {A : Type 0} (codec : Codec A) (zero_value : A) where
    open codec use {unmarshal}

    -- ScanIterator.Value: a message that cannot be decoded is the nil message.
    unfoldable pub value_of : Bytes → A
    value_of v = elim (unmarshal v) [ ok a ↦ a | err e ↦ zero_value ]

    -- One round of `for iter.Next() { … iter.Value() … }`, with the rows of the later rounds.
    abbrev pub emit : Bool → ScanIterator → List (Row A) → List (Row A)
    emit false it rest = []
    emit true it rest = (value_of it.value, elim it.key [ none ↦ [] | some k ↦ k ]) ∷ rest

    -- The loop, with fuel for the calls of Next.
    unfoldable pub drain : ℕ → Tx → ScanIterator → List (Row A)
    unfolding value_of
    drain zero tx it = []
    drain (suc fuel) tx it = emit (next tx it).0 (next tx it).1 (drain fuel tx (next tx it).1)

    unfoldable pub rows_of : List Entry → List (Row A)
    unfolding value_of
    rows_of [] = []
    rows_of ((k, v) ∷ es) = (value_of v, k) ∷ rows_of es

    -- A scan to its end: an entry of the bucket is visited once at most, which bounds the fuel.
    unfoldable pub scan_rows : Tx → BucketPath → Bytes → Bytes → Result (List (Row A))
    unfolding new_scan_iterator start_token_of drain set_bucket
    scan_rows tx path page_token key_filter =
        Result-map (λ it. drain (suc (length (start_cursor tx it))) tx it)
          (new_scan_iterator tx path page_token key_filter)

    scan_from : Bytes → List Entry → Result (List A)
    scan_from key_filter [] = ok []
    scan_from key_filter ((k, v) ∷ es) =
        if has_prefix k key_filter
        then bind_result (unmarshal v) (λ m. Result-map (λ ms. m ∷ ms) (scan_from key_filter es))
        else ok []

    unfoldable pub scan : Tx → BucketPath → Bytes → Result (List A)
    unfolding set_bucket scan_from
    scan tx path key_filter = elim (set_bucket bolt tx path) [
      | err e ↦ err path_not_found
      | ok b ↦ scan_from key_filter (seek tx b key_filter)
    ]

  module _ {A : Type 0} (decode : Bytes → Result A) (value_filter : A → Bool) where
    abbrev pub keep_if : A → List A → List A
    keep_if m ms = if value_filter m then m ∷ ms else ms

    -- The loop of ScanWithFilter, which decodes each candidate before it filters.
    unfoldable pub filter_from : Bytes → List Entry → Result (List A)
    filter_from key_filter [] = ok []
    filter_from key_filter ((k, v) ∷ es) =
        if has_prefix k key_filter
        then bind_result (decode v) (λ m. Result-map (keep_if m) (filter_from key_filter es))
        else ok []

    unfoldable pub scan_with_filter : Tx → BucketPath → Bytes → Result (List A)
    unfolding set_bucket filter_from
    scan_with_filter tx path key_filter = elim (set_bucket bolt tx path) [
      | err e ↦ err path_not_found
      | ok b ↦ filter_from key_filter (seek tx b key_filter)
    ]
