-- ===== src/Bdb/Scan/Resume.antt =====
-- Paging over a scan: internal/eds/pkg/store/iterator.go on internal/eds/pkg/bdb/scanner.go. The
-- token of a page is a key, and the next scan seeks it.
use eamerald.Base.{
  ℕ, zero, suc, ◌≤◌, ◌<◌, ◌≡◌, refl, sym, ap, ◌∙◌, true, List, [], ◌∷◌, ◌++◌, arith, length, take,
  drop, List-cases, length-drop-le, inl, inr,
}
use mathlib.Core.List.{append-nil}
use eamerald.Base.Bytes.{Bytes}
use eamerald.Base.Order.{before}
use eamerald.Base.Exec.{Result, ok, bind_result, Result-map, Result-cases}
use eamerald.Base.Int.{pos}
use eamerald.Bolt.{BucketPath, Entry, Bolt, BoltLaws, Codec, drop_before}
use eamerald.Store.Page.{page, values, next_token}
use eamerald.Bdb.Bucket.{set_bucket, set_bucket-ok}
use eamerald.Bdb.Scan.{prefix_run, rows_of, scan_rows}
use eamerald.Bdb.Scan.Rows.{scan_rows-run, scan_start}
use eamerald.Bdb.Scan.Token.{resume}
use eamerald.Bdb.Scan.Paging.{Paging, sized_paging}

-- A client that asks for page after page until a page has no token.
unfoldable pub more_pages {ℓ} :
    {A : Type ℓ} → (Bytes → Result (List A)) → List A → Bytes → Result (List A)
more_pages rest items [] = ok items
more_pages rest items (c ∷ token) = Result-map (λ more. items ++ more) (rest (c ∷ token))

-- The client's pages come from `pg`, which cuts the rows of a scan.
unfoldable pub scan_pages :
    (bolt : Bolt) {A : Type 0} (codec : Codec A) (zero_value : A)
    → ℕ
    → bolt.Tx
    → BucketPath
    → Bytes
    → (List (A × Bytes) → List A × Bytes)
    → Bytes
    → Result (List A)
unfolding more_pages
scan_pages bolt codec zero_value zero tx path key_filter pg token = ok []
scan_pages bolt codec zero_value (suc fuel) tx path key_filter pg token =
    bind_result (scan_rows bolt codec zero_value tx path token key_filter) λ rows.
      more_pages (scan_pages bolt codec zero_value fuel tx path key_filter pg) (pg rows).0
        (pg rows).1

module _ {bolt : Bolt} (laws : BoltLaws bolt) {A : Type 0} (codec : Codec A) (zero_value : A)
    (paging : Paging A) where
  drop-rows_of :
      (n : ℕ) (es : List Entry)
      → drop n (rows_of bolt codec zero_value es) ≡ rows_of bolt codec zero_value (drop n es)
  unfolding rows_of
  drop-rows_of zero es = refl
  drop-rows_of (suc n) [] = refl
  drop-rows_of (suc n) ((k, v) ∷ es) = drop-rows_of n es

  accepted-page :
      (n : ℕ) (xs ys : List Entry)
      → drop n xs ≡ ys
      → paging.accepted (take n (rows_of bolt codec zero_value xs))
          ++ paging.accepted (rows_of bolt codec zero_value ys)
        ≡ paging.accepted (rows_of bolt codec zero_value xs)
  accepted-page n xs ys d =
      rw (← d, ← drop-rows_of n xs) (paging.accepted-take-drop n (rows_of bolt codec zero_value xs))

  abbrev consumes : List Entry → ℕ
  consumes xs = suc (paging.consumed (rows_of bolt codec zero_value xs))

  module _ (tx : bolt.Tx) (path b : BucketPath) (f : Bytes)
      (there : set_bucket bolt tx path ≡ ok b) where
    rows-run :
        (token : Bytes) (xs : List Entry)
        → prefix_run f (drop_before (scan_start token f) (bolt.first tx b)) ≡ xs
        → scan_rows bolt codec zero_value tx path token f ≡ ok (rows_of bolt codec zero_value xs)
    rows-run token xs e = rw (scan_rows-run laws codec zero_value tx path token f, there, e)

    scan_pages-step :
        (fuel : ℕ) (token : Bytes) (xs : List Entry)
        → prefix_run f (drop_before (scan_start token f) (bolt.first tx b)) ≡ xs
        → scan_pages bolt codec zero_value (suc fuel) tx path f paging.pg token
          ≡ more_pages
              (scan_pages bolt codec zero_value fuel tx path f paging.pg)
              (paging.accepted (take (consumes xs) (rows_of bolt codec zero_value xs)))
              (next_token (rows_of bolt codec zero_value (drop (consumes xs) xs)))
    unfolding scan_pages
    scan_pages-step fuel token xs e = rw (
      rows-run token xs e,
      paging.cut (rows_of bolt codec zero_value xs),
      drop-rows_of (consumes xs) xs,
    )

    abbrev IsPaged : ℕ → Bytes → List Entry → Type 0
    IsPaged fuel token xs =
        scan_pages bolt codec zero_value fuel tx path f paging.pg token
        ≡ ok (paging.accepted (rows_of bolt codec zero_value xs))

    last_page :
        (fuel : ℕ) (token : Bytes) (xs : List Entry)
        → prefix_run f (drop_before (scan_start token f) (bolt.first tx b)) ≡ xs
        → drop (consumes xs) xs ≡ []
        → IsPaged (suc fuel) token xs
    unfolding more_pages next_token rows_of
    last_page fuel token xs e d =
        rw (scan_pages-step fuel token xs e, d)
          (ap ok (
            sym
              (append-nil (paging.accepted (take (consumes xs) (rows_of bolt codec zero_value xs))))
            ∙ ap
                (λ none_left.
                  paging.accepted (take (consumes xs) (rows_of bolt codec zero_value xs))
                  ++ none_left)
                (sym paging.accepted-nil)
            ∙ unfold rows_of in accepted-page (consumes xs) xs [] d))

    inner_page :
        (fuel : ℕ) (token : Bytes) (xs : List Entry) (c : ℕ) (cs v : Bytes) (tail : List Entry)
        → prefix_run f (drop_before (scan_start token f) (bolt.first tx b)) ≡ xs
        → drop (consumes xs) xs ≡ (c ∷ cs, v) ∷ tail
        → IsPaged fuel (c ∷ cs) ((c ∷ cs, v) ∷ tail)
        → IsPaged (suc fuel) token xs
    unfolding more_pages next_token rows_of
    inner_page fuel token xs c cs v tail e d ih =
        rw (scan_pages-step fuel token xs e, d, ih)
          (ap ok (unfold rows_of in accepted-page (consumes xs) xs ((c ∷ cs, v) ∷ tail) d))

    -- The token of an inner page is a key, so it is not empty, and it is where the scan starts.
    inner_token :
        (fuel : ℕ) (token : Bytes) (xs : List Entry) (k v : Bytes) (tail : List Entry)
        → prefix_run f (drop_before (scan_start token f) (bolt.first tx b)) ≡ xs
        → drop (consumes xs) xs ≡ (k, v) ∷ tail
        → before [] k ≡ true
        → (scan_start k f ≡ k → IsPaged fuel k ((k, v) ∷ tail))
        → IsPaged (suc fuel) token xs
    unfolding before
    inner_token fuel token xs [] v tail e d above ih = cc
    inner_token fuel token xs (c ∷ cs) v tail e d above ih =
        inner_page fuel token xs c cs v tail e d (ih refl)

    scan_pages-run :
        (fuel : ℕ) (token : Bytes) (xs : List Entry)
        → prefix_run f (drop_before (scan_start token f) (bolt.first tx b)) ≡ xs
        → length xs < fuel
        → IsPaged fuel token xs
    scan_pages-run zero token xs e h = elim h [ ]
    scan_pages-run (suc fuel) token xs e h = elim (List-cases (drop (consumes xs) xs)) [
      | inl d ↦ last_page fuel token xs e d
      | inr ((k, v), tail, d) ↦
          let n : ℕ = paging.consumed (rows_of bolt codec zero_value xs) in
          let (above, run) =
            resume f token (bolt.first tx b) (suc n) k v tail (laws.first_ordered tx b) (rw e d) in
          inner_token fuel token xs k v tail e d above (λ start.
            scan_pages-run fuel k ((k, v) ∷ tail) (rw start run)
              (omega (arith, length-drop-le n xs, ap (length {A = Entry}) d)))
    ]

length-run-le : (f : Bytes) (es : List Entry) → length (prefix_run f es) ≤ length es
unfolding prefix_run
length-run-le f [] = omega arith
length-run-le f ((k, v) ∷ es) = ground (arith, length-run-le f es)

length-drop_before-le : (k : Bytes) (es : List Entry) → length (drop_before k es) ≤ length es
unfolding drop_before
length-drop_before-le k [] = omega arith
length-drop_before-le k ((j, v) ∷ es) = ground (arith, length-drop_before-le k es)

module _ {bolt : Bolt} (laws : BoltLaws bolt) {A : Type 0} (codec : Codec A) (zero_value : A) where
  -- The pages of any way to cut them hold what a scan with no token finds.
  pub scan_pages-accepted :
      (paging : Paging A) (tx : bolt.Tx) (path : BucketPath) (f : Bytes) (fuel : ℕ)
      → length (bolt.first tx path) < fuel
      → scan_pages bolt codec zero_value fuel tx path f paging.pg []
        ≡ Result-map paging.accepted (scan_rows bolt codec zero_value tx path [] f)
  unfolding scan_pages
  scan_pages-accepted paging tx path f zero h = elim h [ ]
  scan_pages-accepted paging tx path f (suc fuel) h =
      elim (Result-cases (set_bucket bolt tx path)) [
        | inl (b, e) ↦
            let there : set_bucket bolt tx path ≡ ok path =
              rw (set_bucket-ok bolt tx path b e) at e in
            let run : List Entry = prefix_run f (drop_before f (bolt.first tx path)) in
            scan_pages-run laws codec zero_value paging tx path path f there (suc fuel) [] run refl
              (omega (
                arith,
                length-run-le f (drop_before f (bolt.first tx path)),
                length-drop_before-le f (bolt.first tx path),
              ))
            ∙ ap (Result-map paging.accepted)
                (sym (rows-run laws codec zero_value paging tx path path f there [] run refl))
        | inr (e, h) ↦ rw (scan_rows-run laws codec zero_value tx path [] f, h)
      ]

-- Asking for pages of any positive size until a page has no token gives the rows of one scan with
-- no token, in the same order: none is lost, none comes twice. One request more than the bucket has
-- entries is enough.
pub scan_pages-all :
    {bolt : Bolt} (laws : BoltLaws bolt) {A : Type 0} (codec : Codec A) (zero_value : A)
    (tx : bolt.Tx) (path : BucketPath) (f : Bytes) (n fuel : ℕ)
    → length (bolt.first tx path) < fuel
    → scan_pages bolt codec zero_value fuel tx path f (λ rows. page rows (pos (suc n))) []
      ≡ Result-map values (scan_rows bolt codec zero_value tx path [] f)
scan_pages-all laws codec zero_value tx path f n fuel h =
    scan_pages-accepted laws codec zero_value (sized_paging n) tx path f fuel h
