-- ===== src/Authorizer/Policy/Selection.antt =====
-- Which policies a request can reach: the roots of internal/runtime/bundles.go and the selection of
-- daemon/authorizer/impl/access.go.
use eamerald.Base.{
  ◌≡◌, ◌≢◌, refl, sym, ap, Bool, true, false, not, ◌&&◌, ◌||◌, Option, List, [], ◌∷◌, ◌++◌, map,
  keep, arith, ◌⊎◌, inl, inr, Bool-cases, if◌then◌else◌,
}
use eamerald.Base.Bytes.{Bytes, eqb, eqb-eq, eqb_iff}
use eamerald.Base.Exec.{Result, ok, err, or_error, bad_runtime, policy_root_not_loaded}
use eamerald.Data.{Struct}
use eamerald.Authorizer.Request.{string_property}
use eamerald.Authorizer.Policy.{
  contains, cut, roots_from, policy_roots, select_policy_root, only_root, path_in,
  doelbinding_prefix, doelbinding_key, default_policy_roots, doelbinding_policy, policy_path,
}

contains-append :
    (xs ys : List Bytes) (x : Bytes) → contains (xs ++ ys) x ≡ (contains xs x || contains ys x)
unfolding contains
contains-append [] ys x = refl
contains-append (z ∷ xs) ys x = ground (arith, contains-append xs ys x)

-- No element stands twice.
abbrev pub IsDistinct : List Bytes → Type 0
IsDistinct [] = Unit
IsDistinct (x ∷ xs) = (contains xs x ≡ false) × IsDistinct xs

IsDistinct-snoc :
    (xs : List Bytes) (x : Bytes)
    → IsDistinct xs
    → contains xs x ≡ false
    → IsDistinct (xs ++ x ∷ [])
unfolding contains
IsDistinct-snoc [] x d h = (refl, tt)
IsDistinct-snoc (y ∷ xs) x (fresh, d) h = (
  ground (arith, contains-append xs (x ∷ []) y, eqb_iff x y, eqb_iff y x),
  IsDistinct-snoc xs x d (ground arith),
)

roots_step :
    (roots : List Bytes) (root r : Bytes)
    → contains
        (if not (eqb root []) && not (contains roots root) then roots ++ root ∷ [] else roots)
        r
      ≡ (contains roots r || (not (eqb r []) && eqb root r))
unfolding contains
roots_step roots root r = ground (arith, contains-append roots (root ∷ []) r, eqb_iff root r)

roots_from-contains :
    (roots packages : List Bytes) (r : Bytes)
    → contains (roots_from roots packages) r
      ≡ (contains roots r || (not (eqb r []) && contains (map cut packages) r))
unfolding roots_from contains
roots_from-contains roots [] r = ground arith
roots_from-contains roots (pkg ∷ packages) r =
    let roots' =
      if not (eqb (cut pkg) []) && not (contains roots (cut pkg))
      then roots ++ cut pkg ∷ []
      else roots in
    ground (arith, roots_from-contains roots' packages r, roots_step roots (cut pkg) r)

roots_from-IsDistinct :
    (roots packages : List Bytes) → IsDistinct roots → IsDistinct (roots_from roots packages)
unfolding roots_from
roots_from-IsDistinct roots [] d = d
roots_from-IsDistinct roots (pkg ∷ packages) d =
    roots_from-IsDistinct
      (if not (eqb (cut pkg) []) && not (contains roots (cut pkg))
        then roots ++ cut pkg ∷ []
        else roots)
      packages (grown (Bool-cases (not (eqb (cut pkg) []) && not (contains roots (cut pkg)))))
  where
    test : Bool
    test = not (eqb (cut pkg) []) && not (contains roots (cut pkg))

    grown :
        (test ≡ true) ⊎ (test ≡ false) → IsDistinct (if test then roots ++ cut pkg ∷ [] else roots)
    grown (inl fresh) = rw fresh (IsDistinct-snoc roots (cut pkg) d (ground arith))
    grown (inr known) = rw known d

-- The roots of the packages are the parts before their first dots, without the empty one, each
-- once.
policy_roots-cut :
    (packages : List Bytes) (r : Bytes)
    → IsDistinct (policy_roots packages)
      × (contains (policy_roots packages) r ≡ (not (eqb r []) && contains (map cut packages) r))
unfolding policy_roots contains
policy_roots-cut packages r =
    (roots_from-IsDistinct [] packages tt, roots_from-contains [] packages r)

contains-keep :
    (p : Bytes → Bool) (xs : List Bytes) (x : Bytes)
    → contains (keep p xs) x ≡ (contains xs x && p x)
unfolding contains
contains-keep p [] x = refl
contains-keep p (y ∷ xs) x = elim (Bool-cases (eqb y x)) [
  | inl same ↦ let e : p y ≡ p x = ap p (eqb-eq y x same) in ground (arith, contains-keep p xs x)
  | inr other ↦ ground (arith, contains-keep p xs x)
]

only_root-contains :
    (root r : Bytes) (roots : List Bytes)
    → only_root root roots ≡ ok r
    → contains (root ∷ roots) r ≡ true
unfolding only_root contains
only_root-contains root r [] h = ground (arith, eqb_iff root r)
only_root-contains root r (other ∷ roots) h = absurd (ground arith)

configured_root :
    (configured r : Bytes) (roots : List Bytes)
    → (if contains roots configured then ok configured else err policy_root_not_loaded) ≡ ok r
    → (contains roots r ≡ true) × ((configured ≡ []) ⊎ (configured ≡ r))
configured_root configured r roots h = elim (Bool-cases (contains roots configured)) [
  | inl loaded ↦ let same : configured ≡ r = ground arith in (rw same at loaded, inr same)
  | inr missing ↦ absurd (ground arith)
]

select_policy_root-contains :
    (configured r : Bytes) (roots : List Bytes)
    → select_policy_root configured roots ≡ ok r
    → (contains roots r ≡ true) × ((configured ≡ []) ⊎ (configured ≡ r))
unfolding select_policy_root contains
select_policy_root-contains configured r [] h = absurd (ground arith)
select_policy_root-contains configured r (root ∷ roots) h = elim (Bool-cases (eqb configured [])) [
  | inl unset ↦ (only_root-contains root r roots (rw unset at h), inl (eqb-eq configured [] unset))
  | inr set ↦ configured_root configured r (root ∷ roots) (rw set at h)
]

by_name :
    (selected path : Bytes) (packages : List Bytes)
    → doelbinding_policy packages selected ≡ ok path
    → (path ≡ doelbinding_prefix ++ b'.' ∷ selected) × (contains packages path ≡ true)
unfolding doelbinding_policy
by_name selected path packages h =
    elim (Bool-cases (contains packages (doelbinding_prefix ++ b'.' ∷ selected))) [
      | inl loaded ↦
          let same : doelbinding_prefix ++ b'.' ∷ selected ≡ path = ground arith in
          (sym same, rw same at loaded)
      | inr missing ↦ absurd (ground arith)
    ]

by_default :
    (configured path : Bytes) (packages : List Bytes)
    → or_error (select_policy_root configured (default_policy_roots packages)) bad_runtime ≡ ok path
    → (contains (policy_roots packages) path ≡ true)
      × (path ≢ doelbinding_prefix)
      × ((configured ≡ []) ⊎ (configured ≡ path))
unfolding default_policy_roots
by_default configured path packages h =
    let selected : select_policy_root configured (default_policy_roots packages) ≡ ok path =
      ground arith in
    let (found, root) = select_policy_root-contains configured path _ selected in
    let split =
      contains-keep (λ root. not (eqb root doelbinding_prefix)) (policy_roots packages) path in
    (ground arith, ground (arith, eqb_iff path doelbinding_prefix), root)

path_in-contained :
    (configured selected path : Bytes) (packages : List Bytes)
    → path_in configured selected packages ≡ ok path
    → ((selected ≢ [])
        × (path ≡ doelbinding_prefix ++ b'.' ∷ selected)
        × (contains packages path ≡ true))
      ⊎ ((selected ≡ [])
          × (contains (policy_roots packages) path ≡ true)
          × (path ≢ doelbinding_prefix)
          × ((configured ≡ []) ⊎ (configured ≡ path)))
unfolding path_in
path_in-contained configured selected path packages h = elim (Bool-cases (eqb selected [])) [
  | inl none_named ↦
      let (root, apart, chosen) = by_default configured path packages (rw none_named at h) in
      inr (eqb-eq selected [] none_named, root, apart, chosen)
  | inr named ↦
      let (prefixed, loaded) = by_name selected path packages (rw named at h) in
      inl (ground (arith, eqb_iff selected []), prefixed, loaded)
]

-- The policy path that a request gets is the package `doelbinding.<selection>` if its context names
-- a selection, and that package is loaded. Otherwise it is a root of the loaded packages other than
-- `doelbinding`, and it is the configured root if one is configured.
pub policy_path-contained :
    (configured : Bytes) (loaded : Result (List Bytes)) (ctx : Option Struct) (path : Bytes)
    → policy_path configured loaded ctx ≡ ok path
    → (packages : List Bytes) × (loaded ≡ ok packages)
      × (((string_property ctx doelbinding_key ≢ [])
            × (path ≡ doelbinding_prefix ++ b'.' ∷ string_property ctx doelbinding_key)
            × (contains packages path ≡ true))
          ⊎ ((string_property ctx doelbinding_key ≡ [])
              × (contains (policy_roots packages) path ≡ true)
              × (path ≢ doelbinding_prefix)
              × ((configured ≡ []) ⊎ (configured ≡ path))))
unfolding policy_path
policy_path-contained configured (err e) ctx path h = absurd (ground arith)
policy_path-contained configured (ok packages) ctx path h = (
  packages,
  refl,
  path_in-contained configured (string_property ctx doelbinding_key) path packages h,
)
