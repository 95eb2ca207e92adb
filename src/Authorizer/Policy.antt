-- ===== src/Authorizer/Policy.antt =====
-- Which policy serves a request: policyPath, defaultPolicyRoots and doelbindingPolicy of
-- daemon/authorizer/impl/access.go, with PolicyRoots and SelectPolicyRoot of
-- internal/runtime/bundles.go.
pub mod Selection
use eamerald.Base.{
  ℕ, ◌≡◌, Bool, true, false, not, ◌&&◌, List, [], ◌∷◌, ◌++◌, ◌==◌, keep, if◌then◌else◌, Option,
}
use eamerald.Base.Bytes.{Bytes, eqb, codes}
use eamerald.Base.Exec.{
  Result, ok, err, bind_result, or_error, bad_runtime, invalid_argument, no_policy_loaded,
  policy_root_not_loaded, several_policies,
}
use eamerald.Data.{Struct}
use eamerald.Authorizer.Request.{string_property}

-- slices.Contains
unfoldable pub contains : List Bytes → Bytes → Bool
contains [] x = false
contains (y ∷ ys) x = if eqb y x then true else contains ys x

-- The part before the first dot, as strings.Cut finds it.
unfoldable pub cut : Bytes → Bytes
cut [] = []
cut (c ∷ cs) = if c == b'.' then [] else c ∷ cut cs

unfoldable pub roots_from : List Bytes → List Bytes → List Bytes
unfolding contains cut
roots_from roots [] = roots
roots_from roots (pkg ∷ packages) =
    let root = cut pkg in
    roots_from
      (if not (eqb root []) && not (contains roots root) then roots ++ root ∷ [] else roots)
      packages

unfoldable pub policy_roots : List Bytes → List Bytes
unfolding roots_from
policy_roots packages = roots_from [] packages

unfoldable pub only_root : Bytes → List Bytes → Result Bytes
only_root root [] = ok root
only_root root (other ∷ roots) = err several_policies

-- The root is picked under the configured one, which may be empty.
unfoldable pub select_policy_root : Bytes → List Bytes → Result Bytes
unfolding contains only_root
select_policy_root configured [] = err no_policy_loaded
select_policy_root configured (root ∷ roots) =
    if not (eqb configured [])
    then if contains (root ∷ roots) configured then ok configured else err policy_root_not_loaded
    else only_root root roots

abbrev pub doelbinding_prefix : Bytes
doelbinding_prefix = codes "doelbinding"

abbrev pub doelbinding_key : Bytes
doelbinding_key = codes "doelbinding"

unfoldable pub default_policy_roots : List Bytes → List Bytes
unfolding policy_roots
default_policy_roots packages =
    keep (λ root. not (eqb root doelbinding_prefix)) (policy_roots packages)

unfoldable pub doelbinding_policy : List Bytes → Bytes → Result Bytes
unfolding contains
doelbinding_policy packages selected =
    let path = doelbinding_prefix ++ b'.' ∷ selected in
    if contains packages path then ok path else err invalid_argument

unfoldable pub path_in : Bytes → Bytes → List Bytes → Result Bytes
unfolding select_policy_root default_policy_roots doelbinding_policy
path_in configured selected packages =
    if eqb selected []
    then or_error (select_policy_root configured (default_policy_roots packages)) bad_runtime
    else doelbinding_policy packages selected

-- The policy path for the packages that are loaded, or the failure to list them.
unfoldable pub policy_path : Bytes → Result (List Bytes) → Option Struct → Result Bytes
unfolding string_property path_in
policy_path configured (err e) req_context = err bad_runtime
policy_path configured (ok packages) req_context =
    path_in configured (string_property req_context doelbinding_key) packages
