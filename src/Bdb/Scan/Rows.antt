-- ===== src/Bdb/Scan/Rows.antt =====
-- What a scan of internal/eds/pkg/bdb/scanner.go visits.
use eamerald.Base.{
  ℕ, zero, suc, ◌≡◌, refl, ap, sym, Bool, false, List, [], ◌∷◌, arith, if◌then◌else◌, length, keep,
  Bool-cases, inl, inr, ◌<◌,
}
use eamerald.Base.Bytes.{Bytes, has_prefix}
use eamerald.Base.Order.{before, before_trans, before-prefix, prefix_convex}
use eamerald.Base.Exec.{ok, err, Result-map, Error, Result-cases, path_not_found}
use eamerald.Bdb.Bucket.{set_bucket, set_bucket-error}
use eamerald.Bolt.{BoltLaws, BucketPath, Entry, Bolt, Codec, IsAbove, IsOrdered, drop_before}
use eamerald.Bdb.Scan.{
  ScanIterator, at_cursor, prefix_run, start_cursor, start_token_of, scan_rows, initial,
  new_scan_iterator, key_in_filter, next, drain, rows_of, value_of,
}

abbrev pub in_filter : Bytes → Entry → Bool
in_filter p e = has_prefix e.0 p

-- Past the prefix no later key has it.
keep_above :
    (p j : Bytes) (es : List Entry)
    → before j p ≡ false
    → has_prefix j p ≡ false
    → IsAbove j es
    → keep (in_filter p) es ≡ []
keep_above p j [] a b h = refl
keep_above p j (e ∷ es) a b h =
    ground (arith, prefix_convex p j e.0 a b h.0, keep_above p j es a b h.1)

-- Behind a key that does not sort before the prefix, the run of the prefix holds all its keys.
run_above :
    (p j : Bytes) (es : List Entry)
    → before j p ≡ false
    → IsAbove j es
    → IsOrdered es
    → prefix_run p es ≡ keep (in_filter p) es
unfolding prefix_run
run_above p j [] a h o = refl
run_above p j (e ∷ es) a h o = elim (Bool-cases (before e.0 p)) [
  | inl b ↦ cc (before_trans j e.0 p h.0 b)
  | inr b ↦ elim (Bool-cases (has_prefix e.0 p)) [
    | inl hit ↦ rw (hit, run_above p e.0 es b o.1 o.2)
    | inr miss ↦ rw (miss, keep_above p e.0 es b miss o.1)
  ]
]

-- A scan from the prefix to the first key without it visits the entries whose key has the prefix,
-- all of them, in their order.
pub run-keep :
    (p : Bytes) (es : List Entry)
    → IsOrdered es
    → prefix_run p (drop_before p es) ≡ keep (in_filter p) es
unfolding prefix_run drop_before
run-keep p [] h = refl
run-keep p ((j, v) ∷ es) h = elim (Bool-cases (before j p)) [
  | inl b ↦ elim (Bool-cases (has_prefix j p)) [
    | inl hit ↦ cc (before-prefix j p hit)
    | inr miss ↦ rw (b, miss, run-keep p es h.2)
  ]
  | inr b ↦ elim (Bool-cases (has_prefix j p)) [
    | inl hit ↦ rw (b, hit, run_above p j es b h.1 h.2)
    | inr miss ↦ rw (b, miss, keep_above p j es b miss h.1)
  ]
]

module _ (bolt : Bolt) {A : Type 0} (codec : Codec A) (zero_value : A) where
  next-at_cursor :
      (tx : bolt.Tx) (it : ScanIterator) (es : List Entry)
      → (if it.init then it.cursor else start_cursor bolt tx it) ≡ es
      → next bolt tx it
        ≡ (key_in_filter (at_cursor it es).key (at_cursor it es).key_filter, at_cursor it es)
  unfolding next
  next-at_cursor tx it es e =
      ap {B = Bool × ScanIterator}
        (λ c. (key_in_filter (at_cursor it c).key (at_cursor it c).key_filter, at_cursor it c)) e

  -- Draining an iterator whose next call of Next moves to the head of `es`.
  pub drain-next :
      (fuel : ℕ) (tx : bolt.Tx) (it : ScanIterator) (es : List Entry)
      → (if it.init then it.cursor else start_cursor bolt tx it) ≡ es
      → length es < fuel
      → drain bolt codec zero_value fuel tx it
        ≡ rows_of bolt codec zero_value (prefix_run it.key_filter es)
  unfolding drain rows_of prefix_run
  drain-next zero tx it es e h = elim h [ ]
  drain-next (suc fuel) tx it [] e h = rw (next-at_cursor tx it [] e)
  drain-next (suc fuel) tx it ((k, v) ∷ es) e h =
      rw (next-at_cursor tx it ((k, v) ∷ es) e, drain)
        (elim (Bool-cases (has_prefix k it.key_filter)) [
          | inl hit ↦ rw hit (
              ap (λ rows. (value_of bolt codec zero_value v, k) ∷ rows)
                (drain-next fuel tx (at_cursor it ((k, v) ∷ es)) es refl (omega arith)))
          | inr miss ↦ rw miss
        ])

-- The key that a scan starts at: the page token, or else the filter.
abbrev pub scan_start : Bytes → Bytes → Bytes
scan_start [] key_filter = key_filter
scan_start (c ∷ token) key_filter = c ∷ token

-- No key sorts before the empty one.
pub drop_before_empty : (es : List Entry) → drop_before [] es ≡ es
unfolding drop_before before
drop_before_empty [] = refl
drop_before_empty ((k, v) ∷ es) = elim (Bool-cases (before k [])) [
  | inl b ↦ cc (not-before_empty k)
  | inr b ↦ rw b
]
  where
    not-before_empty : (k : Bytes) → before k [] ≡ false
    not-before_empty [] = refl
    not-before_empty (a ∷ as') = refl

module _ {bolt : Bolt} (laws : BoltLaws bolt) {A : Type 0} (codec : Codec A) (zero_value : A) where
  start_cursor-drop :
      (tx : bolt.Tx) (it : ScanIterator) (token key_filter : Bytes)
      → it.start_token ≡ start_token_of token key_filter
      → start_cursor bolt tx it
        ≡ drop_before (scan_start token key_filter) (bolt.first tx it.bucket)
  unfolding start_cursor start_token_of
  start_cursor-drop tx it [] [] e = rw (e, drop_before_empty)
  start_cursor-drop tx it [] (k ∷ ks) e = rw e (laws.seek-first tx it.bucket (k ∷ ks))
  start_cursor-drop tx it (c ∷ cs) ks e = rw e (laws.seek-first tx it.bucket (c ∷ cs))

  scan_rows-ok :
      (tx : bolt.Tx) (path : BucketPath) (token key_filter : Bytes) (b : BucketPath)
      → set_bucket bolt tx path ≡ ok b
      → scan_rows bolt codec zero_value tx path token key_filter
        ≡ ok (
            drain bolt codec zero_value
              (suc (length (start_cursor bolt tx (initial token key_filter b))))
              tx
              (initial token key_filter b))
  unfolding scan_rows
  scan_rows-ok tx path token key_filter b e = rw (e, new_scan_iterator)

  scan_rows-err :
      (tx : bolt.Tx) (path : BucketPath) (token key_filter : Bytes) (e : Error)
      → set_bucket bolt tx path ≡ err e
      → scan_rows bolt codec zero_value tx path token key_filter ≡ err path_not_found
  unfolding scan_rows
  scan_rows-err tx path token key_filter e h = rw (h, new_scan_iterator)

  -- Driving the iterator to its end visits the run of the filter behind the start key.
  pub scan_rows-run :
      (tx : bolt.Tx) (path : BucketPath) (token key_filter : Bytes)
      → scan_rows bolt codec zero_value tx path token key_filter
        ≡ Result-map
            (λ b.
              rows_of bolt codec zero_value (
                prefix_run key_filter
                  (drop_before (scan_start token key_filter) (bolt.first tx b))))
            (set_bucket bolt tx path)
  scan_rows-run tx path token key_filter = elim (Result-cases (set_bucket bolt tx path)) [
    | inl (b, e) ↦
        rw (scan_rows-ok tx path token key_filter b e, e)
          (ap ok (
            drain-next bolt codec zero_value
              (suc (length (start_cursor bolt tx (initial token key_filter b)))) tx
              (initial token key_filter b) _ (start_cursor-drop tx _ token key_filter refl)
              (rw (start_cursor-drop tx (initial token key_filter b) token key_filter refl)
                (omega arith))))
    | inr (e, h) ↦
        rw (scan_rows-err tx path token key_filter e h, h)
          (ap err (sym (set_bucket-error bolt tx path e h)))
  ]

  -- A scan with no page token visits the entries of the bucket whose key has the prefix of the
  -- scan, all of them, in the order of the bucket, and fails if the bucket is not there.
  scan_rows-keep :
      (tx : bolt.Tx) (path : BucketPath) (key_filter : Bytes)
      → scan_rows bolt codec zero_value tx path [] key_filter
        ≡ Result-map
            (λ b. rows_of bolt codec zero_value (keep (in_filter key_filter) (bolt.first tx b)))
            (set_bucket bolt tx path)
  scan_rows-keep tx path key_filter = elim (Result-cases (set_bucket bolt tx path)) [
    | inl (b, e) ↦
        rw (scan_rows-run tx path [] key_filter, e)
          (ap (λ es. ok (rows_of bolt codec zero_value es))
            (run-keep key_filter _ (laws.first_ordered tx b)))
    | inr (e, h) ↦ rw (scan_rows-run tx path [] key_filter, h)
  ]
