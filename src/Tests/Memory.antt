-- ===== src/Tests/Memory.antt =====
-- A store in memory that behaves as bbolt documents: every bucket is there, and is a list in the
-- order of its keys.
use eamerald.Base.{
  ℕ, ◌≡◌, refl, Bool, true, false, ◌&&◌, ◌||◌, Option, none, some, List, [], ◌∷◌, arith, inl, inr,
  Bool-cases, if◌then◌else◌,
}
use eamerald.Base.Bytes.{Bytes, eqb, eqb-eq, eqb_iff}
use eamerald.Base.Order.{before, before_trans}
use eamerald.Base.Exec.{Result, ok, err, key_not_found}
use eamerald.Bolt.{
  BucketPath, path_eq, Entry, Bolt, IsAbove, IsOrdered, find, drop_before, BoltLaws,
}

before_total : (a b : Bytes) → (before a b || (eqb a b || before b a)) ≡ true
unfolding before eqb
before_total [] [] = refl
before_total [] (b ∷ bs) = refl
before_total (a ∷ as') [] = refl
before_total (a ∷ as') (b ∷ bs) = ground (arith, before_total as' bs)

unfoldable pub insert : Bytes → Bytes → List Entry → List Entry
insert k v [] = (k, v) ∷ []
insert k v ((j, w) ∷ es) =
    let rest = insert k v es in
    if before k j then (k, v) ∷ (j, w) ∷ es else if eqb j k then (k, v) ∷ es else (j, w) ∷ rest

unfoldable pub erase : Bytes → List Entry → List Entry
erase k [] = []
erase k ((j, w) ∷ es) = let rest = erase k es in if eqb j k then rest else (j, w) ∷ rest

find-insert :
    (k v j : Bytes) (es : List Entry)
    → find j (insert k v es) ≡ (if eqb k j then some v else find j es)
unfolding insert find
find-insert k v j [] = refl
find-insert k v j ((i, w) ∷ es) =
    ground (arith, find-insert k v j es, eqb_iff i k, eqb_iff k j, eqb_iff i j)

find-erase :
    (k j : Bytes) (es : List Entry) → find j (erase k es) ≡ (if eqb k j then none else find j es)
unfolding erase find
find-erase k j [] = ground arith
find-erase k j ((i, w) ∷ es) =
    ground (arith, find-erase k j es, eqb_iff i k, eqb_iff k j, eqb_iff i j)

IsAbove-trans : (j k : Bytes) (es : List Entry) → before j k ≡ true → IsAbove k es → IsAbove j es
IsAbove-trans j k [] h a = tt
IsAbove-trans j k (e ∷ es) h (b, a) = (before_trans j k e.0 h b, IsAbove-trans j k es h a)

choose :
    {A : Type 0} (P : A → Type 0) (b : Bool) (x y : A)
    → (b ≡ true → P x)
    → (b ≡ false → P y)
    → P (if b then x else y)
choose P true x y f g = f refl
choose P false x y f g = g refl

insert-IsAbove :
    (m k v : Bytes) (es : List Entry) → before m k ≡ true → IsAbove m es → IsAbove m (insert k v es)
unfolding insert
insert-IsAbove m k v [] h a = (h, tt)
insert-IsAbove m k v ((j, w) ∷ es) h (b, a) =
    choose (IsAbove m) (before k j) _ _ (λ _. (h, (b, a)))
      λ _. choose (IsAbove m) (eqb j k) _ _ (λ _. (h, a)) λ _. (b, insert-IsAbove m k v es h a)

erase-IsAbove : (m k : Bytes) (es : List Entry) → IsAbove m es → IsAbove m (erase k es)
unfolding erase
erase-IsAbove m k [] a = tt
erase-IsAbove m k ((j, w) ∷ es) (b, a) =
    choose (IsAbove m) (eqb j k) _ _ (λ _. erase-IsAbove m k es a) λ _. (b, erase-IsAbove m k es a)

transport-IsAbove : (j k : Bytes) (es : List Entry) → j ≡ k → IsAbove j es → IsAbove k es
transport-IsAbove j k es e a = rw e at a

pub insert-IsOrdered :
    (k v : Bytes) (es : List Entry) → before [] k ≡ true → IsOrdered es → IsOrdered (insert k v es)
unfolding insert
insert-IsOrdered k v [] h o = (h, tt, tt)
insert-IsOrdered k v ((j, w) ∷ es) h (b, a, o) =
    choose IsOrdered (before k j) _ _
      (λ below. (h, (below, IsAbove-trans k j es below a), (b, a, o)))
      λ above.
        choose IsOrdered (eqb j k) _ _
          (λ same. (h, transport-IsAbove j k es (eqb-eq j k same) a, o))
          λ distinct. (
            b,
            insert-IsAbove j k v es (ground (arith, before_total k j, eqb_iff k j, eqb_iff j k)) a,
            insert-IsOrdered k v es h o,
          )

pub erase-IsOrdered : (k : Bytes) (es : List Entry) → IsOrdered es → IsOrdered (erase k es)
unfolding erase
erase-IsOrdered k [] o = tt
erase-IsOrdered k ((j, w) ∷ es) (b, a, o) =
    choose IsOrdered (eqb j k) _ _ (λ _. erase-IsOrdered k es o)
      λ _. (b, erase-IsAbove j k es a, erase-IsOrdered k es o)

-- A bucket with its order.
abbrev pub Bucket : Type 0
Bucket = (es : List Entry) × IsOrdered es

abbrev pub Store : Type 0
Store = BucketPath → Bucket

pub nonempty : (a : ℕ) (k : Bytes) → before [] (a ∷ k) ≡ true
unfolding before
nonempty a k = refl

abbrev pub write : Store → BucketPath → Bucket → Store
write t p bucket q = if path_eq p q then bucket else t q

unfoldable pub put : Store → BucketPath → Bytes → Bytes → Result Store
put t p [] v = err key_not_found
put t p (a ∷ k) v = ok (
    write t p (insert (a ∷ k) v (t p).0, insert-IsOrdered (a ∷ k) v (t p).0 (nonempty a k) (t p).1))

unfoldable pub remove : Store → BucketPath → Bytes → Result Store
remove t p k = ok (write t p (erase k (t p).0, erase-IsOrdered k (t p).0 (t p).1))

abbrev pub memory : Bolt
memory = record {
  Tx = Store;
  has_bucket = λ t p. true;
  create_bucket_if_not_exists = λ t p. ok t;
  delete_bucket = λ t p. ok (write t p ([], tt));
  get = λ t p k. find k (t p).0;
  put = put;
  remove = remove;
  first = λ t p. (t p).0;
  seek = λ t p k. drop_before k (t p).0;
}

abbrev pub no_entries : Store
no_entries p = ([], tt)

path_eq-eq : (p q : BucketPath) → path_eq p q ≡ true → p ≡ q
unfolding path_eq
path_eq-eq [] [] h = refl
path_eq-eq [] (b ∷ bs) h = cc
path_eq-eq (a ∷ as') [] h = cc
path_eq-eq (a ∷ as') (b ∷ bs) h = ground (arith, path_eq-eq as' bs, eqb_iff a b)

written : (t u : Store) → ok t ≡ ok u → t ≡ u
written t u h = cc

read_write :
    (t : Store) (p q : BucketPath) (j : Bytes) (bucket : Bucket) (hit : Bool) (w : Option Bytes)
    → find j bucket.0 ≡ (if hit then w else find j (t p).0)
    → find j (write t p bucket q).0 ≡ (if path_eq p q && hit then w else find j (t q).0)
read_write t p q j bucket hit w h = elim (Bool-cases (path_eq p q)) [
  | inl same ↦ rw (same, ← path_eq-eq p q same) h
  | inr other ↦ rw (other) refl
]

get-put_lem :
    (t : Store) (p : BucketPath) (k v : Bytes) (u : Store) (q : BucketPath) (j : Bytes)
    → put t p k v ≡ ok u
    → find j (u q).0 ≡ (if path_eq p q && eqb k j then some v else find j (t q).0)
unfolding put
get-put_lem t p [] v u q j h = absurd (ground arith)
get-put_lem t p (a ∷ k) v u q j h =
    rw (← written _ u h) (read_write t p q j _ _ _ (find-insert (a ∷ k) v j (t p).0))

get-remove_lem :
    (t : Store) (p : BucketPath) (k : Bytes) (u : Store) (q : BucketPath) (j : Bytes)
    → remove t p k ≡ ok u
    → find j (u q).0 ≡ (if path_eq p q && eqb k j then none else find j (t q).0)
unfolding remove
get-remove_lem t p k u q j h =
    rw (← written _ u h) (read_write t p q j _ _ _ (find-erase k j (t p).0))

pub memory_laws : BoltLaws memory
memory_laws = record {
  get-put = get-put_lem;
  get-remove = get-remove_lem;
  has_bucket-put = λ t p k v u q h. refl;
  has_bucket-remove = λ t p k u q h. refl;
  first_ordered = λ t p. (t p).1;
  get-first = λ t p k. refl;
  seek-first = λ t p k. refl;
}
