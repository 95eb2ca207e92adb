-- ===== src/Authorizer/QueryCache.antt =====
-- daemon/authorizer/impl/prepared_query_cache.go: prepared queries and the loaded packages, kept
-- until the compiler is replaced. The calls come one after the other: what two calls at a time do is
-- not modelled.
pub mod Transparent
use eamerald.Base.{ℕ, Bool, Option, none, some, List, [], ◌∷◌, ◌++◌, if◌then◌else◌}
use eamerald.Base.Bytes.{Bytes, eqb}
use eamerald.Base.Exec.{Result, ok, err}

abbrev pub unit_separator : ℕ
unit_separator = 0x1f

abbrev pub record_separator : ℕ
record_separator = 0x1e

unfoldable pub join : List Bytes → Bytes
join [] = []
join (d ∷ []) = d
join (d ∷ e ∷ decisions) = d ++ record_separator ∷ join (e ∷ decisions)

unfoldable pub cache_key : Bytes → List Bytes → Bytes
unfolding join
cache_key path decisions = path ++ unit_separator ∷ join decisions

module _ (Query : Type 0) where
  -- What the active compiler makes of a policy path with decision names, and the packages of the
  -- loaded bundle.
  pub record Compiler : Type 0 where
    pub prepare : Bytes → List Bytes → Result Query
    pub get_policy_packages : Result (List Bytes)

  pub record PreparedQueryCache : Type 0 where
    pub entries : List (Bytes × Query)
    pub packages : Option (List Bytes)

  abbrev pub new_cache : PreparedQueryCache
  new_cache = record { entries = []; packages = none }

  unfoldable pub load : Bytes → List (Bytes × Query) → Option Query
  load key [] = none
  load key ((k, q) ∷ entries) = if eqb k key then some q else load key entries

  unfoldable pub store_prepared :
      Bytes → PreparedQueryCache → Result Query → Result Query × PreparedQueryCache
  store_prepared key cache (ok q) = (ok q, record cache { entries = (key, q) ∷ cache.entries })
  store_prepared key cache (err e) = (err e, cache)

  unfoldable pub after_load :
      Bytes → Result Query → PreparedQueryCache → Option Query → Result Query × PreparedQueryCache
  unfolding store_prepared
  after_load key prepared cache (some q) = (ok q, cache)
  after_load key prepared cache none = store_prepared key cache prepared

  unfoldable pub get_or_prepare :
      Bytes → Result Query → PreparedQueryCache → Result Query × PreparedQueryCache
  unfolding load after_load
  get_or_prepare key prepared cache = after_load key prepared cache (load key cache.entries)

  unfoldable pub decision_query :
      Compiler → Bytes → List Bytes → PreparedQueryCache → Result Query × PreparedQueryCache
  unfolding get_or_prepare cache_key
  decision_query compiler path decisions cache =
      get_or_prepare (cache_key path decisions) (compiler.prepare path decisions) cache

  unfoldable pub store_packages :
      PreparedQueryCache → Result (List Bytes) → Result (List Bytes) × PreparedQueryCache
  store_packages cache (ok packages) = (ok packages, record cache { packages = some packages })
  store_packages cache (err e) = (err e, cache)

  unfoldable pub packages_from :
      Compiler → PreparedQueryCache → Option (List Bytes) → Result (List Bytes) × PreparedQueryCache
  unfolding store_packages
  packages_from compiler cache (some packages) = (ok packages, cache)
  packages_from compiler cache none = store_packages cache compiler.get_policy_packages

  unfoldable pub policy_packages :
      Compiler → PreparedQueryCache → Result (List Bytes) × PreparedQueryCache
  unfolding packages_from
  policy_packages compiler cache = packages_from compiler cache cache.packages

  -- What happens to the cache: a call, or a new compiler, which discards everything.
  pub data Event : Type 0 where
    asks_query : Bytes → List Bytes → Event
    asks_packages : Event
    rotates : Compiler → Event

  pub data Answer : Type 0 where
    query_answer : Result Query → Answer
    packages_answer : Result (List Bytes) → Answer

  unfoldable pub serve : List Event → Compiler → PreparedQueryCache → List Answer
  unfolding decision_query policy_packages
  serve [] compiler cache = []
  serve (asks_query path decisions ∷ events) compiler cache =
      let (r, cache') = decision_query compiler path decisions cache in
      query_answer r ∷ serve events compiler cache'
  serve (asks_packages ∷ events) compiler cache =
      let (r, cache') = policy_packages compiler cache in
      packages_answer r ∷ serve events compiler cache'
  serve (rotates compiler' ∷ events) compiler cache = serve events compiler' new_cache
