-- ===== src/Authorizer/QueryCache/Transparent.antt =====
-- The cache of daemon/authorizer/impl/prepared_query_cache.go answers as its compiler does.
use eamerald.Base.{
  ◌≡◌, ◌≢◌, refl, sym, ◌∙◌, ap, Bool, true, false, Option, none, some, List, [], ◌∷◌, ◌++◌, arith,
  inl, inr, Bool-cases, All, ℕ,
}
use eamerald.Base.Bytes.{Bytes, eqb, eqb-eq}
use eamerald.Base.Exec.{Result, ok, err}
use eamerald.Bdb.Keys.Injective.{lacks, split_head, split_tail}
use eamerald.Authorizer.QueryCache.{
  unit_separator, record_separator, join, cache_key, Compiler, PreparedQueryCache, new_cache, load,
  store_prepared, after_load, packages_from, decision_query, store_packages, policy_packages, Event,
  asks_query, asks_packages, rotates, Answer, query_answer, packages_answer, serve,
}

-- A path without the unit separator, and decisions without the record separator, one at least.
pub record IsKeyable (path : Bytes) (decisions : List Bytes) : Type 0 where
  pub path_lacks : lacks unit_separator path ≡ true
  pub decisions_lack : All (λ d. lacks record_separator d ≡ true) decisions
  pub some_decision : decisions ≢ []

lacks-append : (c : ℕ) (a x : Bytes) → lacks c (a ++ c ∷ x) ≡ false
lacks-append c [] x = ground arith
lacks-append c (b ∷ a) x = ground (arith, lacks-append c a x)

join_injective :
    (a b : Bytes) (ds es : List Bytes)
    → All (λ d. lacks record_separator d ≡ true) (a ∷ ds)
    → All (λ d. lacks record_separator d ≡ true) (b ∷ es)
    → join (a ∷ ds) ≡ join (b ∷ es)
    → a ∷ ds ≡ b ∷ es
unfolding join
join_injective a b [] [] la lb h = ap (λ x. x ∷ []) h
join_injective a b [] (e ∷ es) la lb h =
    absurd (
      clash (lacks record_separator a) la.0
        (rw h (lacks-append record_separator b (join (e ∷ es)))))
  where
    clash : (t : Bool) → t ≡ true → t ≡ false → ⊥
    clash t p q = cc
join_injective a b (d ∷ ds) [] la lb h = absurd (
    clash (lacks record_separator b) lb.0
      (rw (← h) (lacks-append record_separator a (join (d ∷ ds)))))
  where
    clash : (t : Bool) → t ≡ true → t ≡ false → ⊥
    clash t p q = cc
join_injective a b (d ∷ ds) (e ∷ es) la lb h =
    let heads = split_head record_separator a b (join (d ∷ ds)) (join (e ∷ es)) la.0 lb.0 h in
    let tails =
      join_injective d e ds es la.1 lb.1
        (split_tail record_separator a b (join (d ∷ ds)) (join (e ∷ es)) la.0 lb.0 h) in
    cc

-- Two requests of decisions have one key in the cache only if they are for the same path and the
-- same decisions. No path holds the unit separator, no decision name the record separator, and each
-- request names a decision.
cache_key_injective :
    (path path' : Bytes) (ds es : List Bytes)
    → IsKeyable path ds
    → IsKeyable path' es
    → cache_key path ds ≡ cache_key path' es
    → (path ≡ path') × (ds ≡ es)
unfolding cache_key
cache_key_injective path path' [] es k l h = absurd (k.some_decision refl)
cache_key_injective path path' (d ∷ ds) [] k l h = absurd (l.some_decision refl)
cache_key_injective path path' (d ∷ ds) (e ∷ es) k l h = (
  split_head unit_separator path path' (join (d ∷ ds)) (join (e ∷ es)) k.path_lacks l.path_lacks h,
  join_injective d e ds es k.decisions_lack l.decisions_lack (
      split_tail unit_separator path path' (join (d ∷ ds)) (join (e ∷ es)) k.path_lacks l.path_lacks
        h),
)

module _ {Query : Type 0} where
  -- An entry holds what the compiler prepares for the request of its key.
  abbrev pub IsPrepared : Compiler Query → Bytes × Query → Type 0
  IsPrepared compiler (key, q) =
      (path : Bytes) × (ds : List Bytes) × IsKeyable path ds
      × (key ≡ cache_key path ds)
      × (compiler.prepare path ds ≡ ok q)

  abbrev pub IsListed : Compiler Query → Option (List Bytes) → Type 0
  IsListed compiler none = Unit
  IsListed compiler (some packages) = compiler.get_policy_packages ≡ ok packages

  abbrev pub IsFresh : Compiler Query → PreparedQueryCache Query → Type 0
  IsFresh compiler cache =
      All (IsPrepared compiler) cache.entries × IsListed compiler cache.packages

  load-IsPrepared :
      (compiler : Compiler Query) (path : Bytes) (ds : List Bytes) (entries : List (Bytes × Query))
      (q : Query)
      → IsKeyable path ds
      → All (IsPrepared compiler) entries
      → load Query (cache_key path ds) entries ≡ some q
      → compiler.prepare path ds ≡ ok q
  unfolding load
  load-IsPrepared compiler path ds [] q k f h = absurd (missing q h)
    where
      missing : (q : Query) → ◌≡◌ {A = Option Query} none (some q) → ⊥
      missing q h = cc
  load-IsPrepared compiler path ds ((key, r) ∷ entries) q k ((p, es, l, keyed, prepared), f) h =
      elim (Bool-cases (eqb key (cache_key path ds))) [
        | inl hit ↦
            let (same_path, same_ds) =
              cache_key_injective p path es ds l k
                (sym keyed ∙ eqb-eq key (cache_key path ds) hit) in
            let same : some r ≡ some q = rw hit at h in cc
        | inr miss ↦ load-IsPrepared compiler path ds entries q k f (rw miss at h)
      ]

  store_prepared-IsFresh :
      (compiler : Compiler Query) (path : Bytes) (ds : List Bytes)
      (cache : PreparedQueryCache Query) (r : Result Query)
      → IsKeyable path ds
      → IsFresh compiler cache
      → compiler.prepare path ds ≡ r
      → ((store_prepared Query (cache_key path ds) cache r).0 ≡ compiler.prepare path ds)
        × IsFresh compiler (store_prepared Query (cache_key path ds) cache r).1
  unfolding store_prepared
  store_prepared-IsFresh compiler path ds cache (ok q) k (f, g) h =
      (sym h, (((path, ds, k, refl, h), f), g))
  store_prepared-IsFresh compiler path ds cache (err e) k f h = (sym h, f)

  after_load-IsFresh :
      (compiler : Compiler Query) (path : Bytes) (ds : List Bytes)
      (cache : PreparedQueryCache Query) (o : Option Query)
      → IsKeyable path ds
      → IsFresh compiler cache
      → load Query (cache_key path ds) cache.entries ≡ o
      → ((after_load Query (cache_key path ds) (compiler.prepare path ds) cache o).0
          ≡ compiler.prepare path ds)
        × IsFresh compiler
            (after_load Query (cache_key path ds) (compiler.prepare path ds) cache o).1
  unfolding after_load
  after_load-IsFresh compiler path ds cache (some q) k f h =
      (sym (load-IsPrepared compiler path ds cache.entries q k f.0 h), f)
  after_load-IsFresh compiler path ds cache none k f h =
      store_prepared-IsFresh compiler path ds cache (compiler.prepare path ds) k f refl

  decision_query-IsFresh :
      (compiler : Compiler Query) (path : Bytes) (ds : List Bytes)
      (cache : PreparedQueryCache Query)
      → IsKeyable path ds
      → IsFresh compiler cache
      → ((decision_query Query compiler path ds cache).0 ≡ compiler.prepare path ds)
        × IsFresh compiler (decision_query Query compiler path ds cache).1
  unfolding decision_query
  decision_query-IsFresh compiler path ds cache k f =
      after_load-IsFresh compiler path ds cache (load Query (cache_key path ds) cache.entries) k f
        refl

  store_packages-IsFresh :
      (compiler : Compiler Query) (cache : PreparedQueryCache Query) (r : Result (List Bytes))
      → IsFresh compiler cache
      → compiler.get_policy_packages ≡ r
      → ((store_packages Query cache r).0 ≡ compiler.get_policy_packages)
        × IsFresh compiler (store_packages Query cache r).1
  unfolding store_packages
  store_packages-IsFresh compiler cache (ok packages) (f, g) h = (sym h, (f, h))
  store_packages-IsFresh compiler cache (err e) f h = (sym h, f)

  packages_from-IsFresh :
      (compiler : Compiler Query) (cache : PreparedQueryCache Query) (o : Option (List Bytes))
      → IsFresh compiler cache
      → IsListed compiler o
      → ((packages_from Query compiler cache o).0 ≡ compiler.get_policy_packages)
        × IsFresh compiler (packages_from Query compiler cache o).1
  unfolding packages_from
  packages_from-IsFresh compiler cache (some packages) f h = (sym h, f)
  packages_from-IsFresh compiler cache none f h =
      store_packages-IsFresh compiler cache compiler.get_policy_packages f refl

  policy_packages-IsFresh :
      (compiler : Compiler Query) (cache : PreparedQueryCache Query)
      → IsFresh compiler cache
      → ((policy_packages Query compiler cache).0 ≡ compiler.get_policy_packages)
        × IsFresh compiler (policy_packages Query compiler cache).1
  unfolding policy_packages
  policy_packages-IsFresh compiler cache f =
      packages_from-IsFresh compiler cache cache.packages f f.1

  -- What the active compiler answers, without a cache.
  abbrev pub answer_directly : List (Event Query) → Compiler Query → List (Answer Query)
  answer_directly [] compiler = []
  answer_directly (asks_query path ds ∷ events) compiler =
      query_answer (compiler.prepare path ds) ∷ answer_directly events compiler
  answer_directly (asks_packages ∷ events) compiler =
      packages_answer compiler.get_policy_packages ∷ answer_directly events compiler
  answer_directly (rotates compiler' ∷ events) compiler = answer_directly events compiler'

  abbrev pub AsksKeyable : Event Query → Type 0
  AsksKeyable (asks_query path ds) = IsKeyable path ds
  AsksKeyable asks_packages = Unit
  AsksKeyable (rotates compiler) = Unit

  serve_fresh :
      (events : List (Event Query)) (compiler : Compiler Query) (cache : PreparedQueryCache Query)
      → All AsksKeyable events
      → IsFresh compiler cache
      → serve Query events compiler cache ≡ answer_directly events compiler
  unfolding serve
  serve_fresh [] compiler cache k f = refl
  serve_fresh (asks_query path ds ∷ events) compiler cache (k, ks) f =
      let (same, fresh) = decision_query-IsFresh compiler path ds cache k f in
      let rest =
        serve_fresh events compiler (decision_query Query compiler path ds cache).1 ks fresh in
      rw (same, rest) refl
  serve_fresh (asks_packages ∷ events) compiler cache (k, ks) f =
      let (same, fresh) = policy_packages-IsFresh compiler cache f in
      let rest = serve_fresh events compiler (policy_packages Query compiler cache).1 ks fresh in
      rw (same, rest) refl
  serve_fresh (rotates compiler' ∷ events) compiler cache (k, ks) f =
      serve_fresh events compiler' (new_cache Query) ks (tt, tt)

  -- Whatever the order of calls and of compiler replacements, each call of a cache that starts
  -- empty answers what the compiler that is active then would answer without a cache, errors
  -- included. The calls come one after the other, no path holds the unit separator, no decision
  -- name the record separator, and each request names a decision.
  pub serve-answer_directly :
      (events : List (Event Query)) (compiler : Compiler Query)
      → All AsksKeyable events
      → serve Query events compiler (new_cache Query) ≡ answer_directly events compiler
  serve-answer_directly events compiler k = serve_fresh events compiler (new_cache Query) k (tt, tt)
