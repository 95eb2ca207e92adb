-- ===== src/Authorizer/Identity/Resolved.antt =====
-- What an identity resolves to.
use eamerald.Base.{
  ◌≡◌, ◌≢◌, ◌⊎◌, ◌∙◌, ap, sym, Bool, false, refl, inl, inr, Bool-cases, true, Option, none, some,
  List, [], ◌∷◌,
}
use eamerald.Base.Bytes.{Bytes, codes, eqb, eqb-eq, eqb_iff, has_prefix}
use eamerald.Base.Exec.{Result, ok, err, Result-cases, Result-map, is_not_found, just_ok}
use eamerald.Data.{Object, Relation, RelationIdentifier}
use eamerald.Authorizer.Request.{
  IdentityContext, IdentityType, identity_jwt, identity_sub, identity_none,
}
use eamerald.Authorizer.Identity.{
  Directory, RelationAnswer, is_legacy, relation_request, first_user, answered_user, user_of,
  resolve_identity_to_user, resolve_identity, resolve_subject, resolve_user,
  resolve_identity_context,
}

-- The subject of an identity: its value, or what its token names.
abbrev pub IsSubjectOf : Directory → IdentityContext → Bytes → Type 0
IsSubjectOf dir i subject =
    (i.identity ≢ [])
    × (((i.type ≡ identity_sub) × (subject ≡ i.identity))
        ⊎ ((i.type ≡ identity_jwt) × (dir.resolve_token i.identity ≡ ok subject)))

-- The request asks for the identifiers of the subject, from the user to the identity, or the other way
-- round for a legacy model.
abbrev pub AsksFor : Bool → Bytes → RelationIdentifier → Type 0
AsksFor true subject r =
    (r.object_type ≡ codes "identity")
    × (r.object_id ≡ subject)
    × (r.relation ≡ codes "identifier")
    × (r.subject_type ≡ codes "user")
AsksFor false subject r =
    (r.object_type ≡ codes "user")
    × (r.relation ≡ codes "identifier")
    × (r.subject_type ≡ codes "identity")
    × (r.subject_id ≡ subject)

abbrev pub IsAmong : Bytes → Object → List (Bytes × Object) → Type 0
IsAmong k u [] = ⊥
IsAmong k u ((j, v) ∷ objects) = ((j ≡ k) × (v ≡ u)) ⊎ IsAmong k u objects

-- The user is an object of the answer under the key of a user, or for an answer without objects the side
-- of the relation that is a user.
abbrev pub IsUserOf : Relation → List (Bytes × Object) → Object → Type 0
IsUserOf rel objects u =
    ((objects ≡ [])
      × (u.type ≡ codes "user")
      × (((rel.object_type ≡ codes "user") × (u.id ≡ rel.object_id))
          ⊎ ((rel.object_type ≢ codes "user") × (u.id ≡ rel.subject_id))))
    ⊎ ((k : Bytes) × IsAmong k u objects × (has_prefix k (codes "user:") ≡ true))

abbrev pub ResolvesTo : Directory → IdentityContext → Object → Type 0
ResolvesTo dir i u =
    (subject : Bytes) × (r : RelationIdentifier) × (ans : RelationAnswer) × (rel : Relation)
    × IsSubjectOf dir i subject
    × AsksFor (is_legacy dir) subject r
    × (dir.get_relation r ≡ ok ans)
    × (ans.result ≡ some rel)
    × IsUserOf rel ans.objects u

relation_request-AsksFor :
    (legacy : Bool) (subject : Bytes) → AsksFor legacy subject (relation_request legacy subject)
unfolding relation_request
relation_request-AsksFor true subject = (refl, refl, refl, refl)
relation_request-AsksFor false subject = (refl, refl, refl, refl)

first_user-IsAmong :
    (objects : List (Bytes × Object)) (u : Object)
    → first_user objects ≡ ok u
    → (k : Bytes) × IsAmong k u objects × (has_prefix k (codes "user:") ≡ true)
unfolding first_user
first_user-IsAmong [] u h = absurd (cc h)
first_user-IsAmong ((k, v) ∷ objects) u h = elim (Bool-cases (has_prefix k (codes "user:"))) [
  | inl found ↦ (k, inl (refl, just_ok v u (rw found at h)), found)
  | inr other ↦
      let (j, among, found) = first_user-IsAmong objects u (rw other at h) in (j, inr among, found)
]

user_of-IsUserOf : (rel : Relation) (u : Object) → user_of rel ≡ u → IsUserOf rel [] u
user_of-IsUserOf rel u same = elim (Bool-cases (eqb rel.object_type (codes "user"))) [
  | inl user ↦ inl (
    refl,
    ap (λ (o : Object). o.type) (sym same),
    inl (eqb-eq _ _ user, ap (λ (o : Object). o.id) (sym same) ∙ rw user refl),
  )
  | inr other ↦ inl (
    refl,
    ap (λ (o : Object). o.type) (sym same),
    inr (
      λ e. absurd (cc (other, (eqb_iff rel.object_type (codes "user")).1 e)),
      ap (λ (o : Object). o.id) (sym same) ∙ rw other refl,
    ),
  )
]

answered_user-IsUserOf :
    (result : Option Relation) (objects : List (Bytes × Object)) (u : Object)
    → answered_user (record { result = result; objects = objects }) ≡ ok u
    → (rel : Relation) × (result ≡ some rel) × IsUserOf rel objects u
unfolding answered_user
answered_user-IsUserOf none objects u h = absurd (cc h)
answered_user-IsUserOf (some rel) [] u h =
    (rel, refl, user_of-IsUserOf rel u (just_ok (user_of rel) u h))
answered_user-IsUserOf (some rel) (o ∷ objects) u h =
    (rel, refl, inr (first_user-IsAmong (o ∷ objects) u h))

map-some : (r : Result Object) (u : Object) → Result-map some r ≡ ok (some u) → r ≡ ok u
map-some (ok v) u h = cc
map-some (err e) u h = absurd (cc h)

module _ (dir : Directory) where
  subject_at :
      (t : IdentityType) (identity subject : Bytes)
      → resolve_subject dir (record { type = t; identity = identity }) ≡ ok subject
      → IsSubjectOf dir (record { type = t; identity = identity }) subject
  unfolding resolve_subject
  subject_at t identity subject h = elim (Bool-cases (eqb identity [])) [
    | inl empty ↦ absurd (cc (rw empty at h))
    | inr set ↦ (λ e. absurd (cc (set, (eqb_iff identity []).1 e)), of_type t (rw set at h))
  ]
    where
      of_type :
          (t : IdentityType)
          → (elim t [
            | identity_sub ↦ ok identity
            | identity_jwt ↦ dir.resolve_token identity
            | identity_none ↦ err dir.unresolved_subject
          ])
            ≡ ok subject
          → ((t ≡ identity_sub) × (subject ≡ identity))
            ⊎ ((t ≡ identity_jwt) × (dir.resolve_token identity ≡ ok subject))
      of_type identity_sub e = inl (refl, sym (just_ok identity subject e))
      of_type identity_jwt e = inr (refl, e)
      of_type identity_none e = absurd (cc e)

  resolve_user-ResolvesTo :
      (i : IdentityContext) (u : Object) → resolve_user dir i ≡ ok u → ResolvesTo dir i u
  unfolding resolve_user resolve_identity resolve_identity_to_user
  resolve_user-ResolvesTo i u h = elim (Result-cases (resolve_subject dir i)) [
    | inr (x, e) ↦ absurd (cc (rw e at h))
    | inl (subject, e) ↦
        elim (Result-cases (dir.get_relation (relation_request (is_legacy dir) subject))) [
          | inr (x, a) ↦ elim (Bool-cases (is_not_found x)) [
            | inl b ↦ absurd (cc (rw (e, a, b) at h))
            | inr b ↦ absurd (cc (rw (e, a, b) at h))
          ]
          | inl (ans, a) ↦ elim (Result-cases (answered_user ans)) [
            | inr (x, b) ↦ absurd (cc (rw (e, a, b) at h))
            | inl (v, b) ↦
                let same : v ≡ u = just_ok v u (rw (e, a, b) at h) in
                let (rel, there, user) =
                  answered_user-IsUserOf ans.result ans.objects u (b ∙ ap ok same) in
                (
                  subject,
                  relation_request (is_legacy dir) subject,
                  ans,
                  rel,
                  subject_at i.type i.identity subject e,
                  relation_request-AsksFor (is_legacy dir) subject,
                  a,
                  there,
                  user,
                )
          ]
        ]
  ]

  of_type :
      (t : IdentityType) (identity : Bytes) (u : Object)
      → resolve_identity_context dir (some (record { type = t; identity = identity })) ≡ ok (some u)
      → ResolvesTo dir (record { type = t; identity = identity }) u
  unfolding resolve_identity_context
  of_type identity_none identity u h = absurd (cc h)
  of_type identity_sub identity u h =
      let i : IdentityContext = record { type = identity_sub; identity = identity } in
      resolve_user-ResolvesTo i u (map-some (resolve_user dir i) u h)
  of_type identity_jwt identity u h =
      let i : IdentityContext = record { type = identity_jwt; identity = identity } in
      resolve_user-ResolvesTo i u (map-some (resolve_user dir i) u h)

  -- An identity resolves to a user only if it is not empty and has a subject, its value or what its
  -- token names, and the directory answers the request for the identifier relation of that subject,
  -- whose direction the model decides, with a relation. The user is then an object of the answer
  -- under a key that starts with `user:`, or, for an answer without objects, the side of the
  -- relation that is a user.
  pub resolve_identity_context-ResolvesTo :
      (i : IdentityContext) (u : Object)
      → resolve_identity_context dir (some i) ≡ ok (some u)
      → ResolvesTo dir i u
  resolve_identity_context-ResolvesTo i u h = of_type i.type i.identity u h
