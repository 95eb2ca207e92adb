-- ===== src/Bdb/Scan/Token.antt =====
-- The token of a page is a key of internal/eds/pkg/bdb/scanner.go, and seeking it finds the rows from
-- it on.
use eamerald.Base.{
  ℕ, zero, suc, ◌≡◌, true, List, [], ◌∷◌, arith, drop, drop-nil, Bool-cases, inl, inr,
}
use eamerald.Base.Bytes.{Bytes, has_prefix}
use eamerald.Base.Order.{before, before_irrefl}
use eamerald.Bolt.{Entry, IsAbove, IsOrdered, drop_before}
use eamerald.Bdb.Scan.{prefix_run}
use eamerald.Bdb.Scan.Rows.{scan_start}

-- A key that stands in entries above `j` is above `j`.
before-drop :
    (j : Bytes) (n : ℕ) (es : List Entry) (k v : Bytes) (rest : List Entry)
    → IsAbove j es
    → drop n es ≡ (k, v) ∷ rest
    → before j k ≡ true
before-drop j n [] k v rest a h = ground (arith, drop-nil {A = Entry} n)
before-drop j zero ((i, w) ∷ es) k v rest a h = ground arith
before-drop j (suc n) (e ∷ es) k v rest a h = before-drop j n es k v rest a.1 h

before-drop_before :
    (j s : Bytes) (es : List Entry) (n : ℕ) (k v : Bytes) (rest : List Entry)
    → IsAbove j es
    → drop n (drop_before s es) ≡ (k, v) ∷ rest
    → before j k ≡ true
unfolding drop_before
before-drop_before j s [] n k v rest a h = ground (arith, drop-nil {A = Entry} n)
before-drop_before j s ((i, w) ∷ es) n k v rest a h = elim (Bool-cases (before i s)) [
  | inl b ↦ before-drop_before j s es n k v rest a.1 (rw b at h)
  | inr b ↦ before-drop j n ((i, w) ∷ es) k v rest a (rw b at h)
]

-- Seeking a key that stands in the bucket finds the entries from it on.
seek-present :
    (n : ℕ) (es : List Entry) (k v : Bytes) (rest : List Entry)
    → IsOrdered es
    → drop n es ≡ (k, v) ∷ rest
    → drop_before k es ≡ (k, v) ∷ rest
unfolding drop_before
seek-present n [] k v rest o h = ground (arith, drop-nil {A = Entry} n)
seek-present zero ((j, w) ∷ es) k v rest o h = ground (arith, before_irrefl k)
seek-present (suc n) ((j, w) ∷ es) k v rest o h =
    rw (before-drop j n es k v rest o.1 h) (seek-present n es k v rest o.2 h)

-- So it is where an earlier scan stood when it met the key.
seek-after_seek :
    (s : Bytes) (es : List Entry) (n : ℕ) (k v : Bytes) (rest : List Entry)
    → IsOrdered es
    → drop n (drop_before s es) ≡ (k, v) ∷ rest
    → drop_before k es ≡ (k, v) ∷ rest
unfolding drop_before
seek-after_seek s [] n k v rest o h = ground (arith, drop-nil {A = Entry} n)
seek-after_seek s ((j, w) ∷ es) n k v rest o h = elim (Bool-cases (before j s)) [
  | inl b ↦
      let h' : drop n (drop_before s es) ≡ (k, v) ∷ rest = rw b at h in
      rw (before-drop_before j s es n k v rest o.1 h') (seek-after_seek s es n k v rest o.2 h')
  | inr b ↦ seek-present n ((j, w) ∷ es) k v rest o (rw b at h)
]

-- What is left of a run behind its first entries is the run of what is left.
run-drop :
    (p : Bytes) (n : ℕ) (es : List Entry) (k v : Bytes) (tail : List Entry)
    → drop n (prefix_run p es) ≡ (k, v) ∷ tail
    → (rest : List Entry) × (drop n es ≡ (k, v) ∷ rest)
      × (prefix_run p ((k, v) ∷ rest) ≡ (k, v) ∷ tail)
unfolding prefix_run
run-drop p n [] k v tail h = ground (arith, drop-nil {A = Entry} n)
run-drop p zero ((j, w) ∷ es) k v tail h = elim (Bool-cases (has_prefix j p)) [
  | inl hit ↦ (es, ground arith, ground arith)
  | inr miss ↦ ground arith
]
run-drop p (suc n) ((j, w) ∷ es) k v tail h = elim (Bool-cases (has_prefix j p)) [
  | inl hit ↦ run-drop p n es k v tail (rw hit at h)
  | inr miss ↦ ground arith
]

IsOrdered-IsAbove : (es : List Entry) → IsOrdered es → IsAbove [] es
IsOrdered-IsAbove [] o = tt
IsOrdered-IsAbove (e ∷ es) o = (o.0, IsOrdered-IsAbove es o.2)

-- The next scan, from the key that a page gave as its token, takes up where the page stopped.
pub resume :
    (f token : Bytes) (es : List Entry) (n : ℕ) (k v : Bytes) (tail : List Entry)
    → IsOrdered es
    → drop n (prefix_run f (drop_before (scan_start token f) es)) ≡ (k, v) ∷ tail
    → (before [] k ≡ true) × (prefix_run f (drop_before k es) ≡ (k, v) ∷ tail)
resume f token es n k v tail o h =
    let (rest, e, r) = run-drop f n (drop_before (scan_start token f) es) k v tail h in
    (
      before-drop_before [] (scan_start token f) es n k v rest (IsOrdered-IsAbove es o) e,
      rw (seek-after_seek (scan_start token f) es n k v rest o e) r,
    )
