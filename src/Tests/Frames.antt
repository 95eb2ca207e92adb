-- ===== src/Tests/Frames.antt =====
-- A codec that puts the length of each field before it, for relations and for objects without
-- properties, and the store in memory with it.
use eamerald.Base.{
  ℕ, zero, suc, ◌≡◌, refl, ◌∙◌, ap, Option, none, some, List, [], ◌∷◌, ◌++◌, arith, length, take,
  drop,
}
use eamerald.Base.Bytes.{Bytes}
use eamerald.Base.Exec.{Result, ok, err, unknown}
use eamerald.Data.{Object, Relation, RelationIdentifier, Timestamp, Value}
use eamerald.Base.Int.{ℤ, pos, negsuc}
use eamerald.Bolt.{Codec, Backend, BackendLaws}
use eamerald.Tests.Memory.{memory, memory_laws}

-- A field in front of the rest.
unfoldable pub frame : Bytes → Bytes → Bytes
frame field rest = length field ∷ (field ++ rest)

take-frame : (a rest : Bytes) → take (length a) (a ++ rest) ≡ a
take-frame [] rest = refl
take-frame (x ∷ a) rest = ap (λ ys. x ∷ ys) (take-frame a rest)

drop-frame : (a rest : Bytes) → drop (length a) (a ++ rest) ≡ rest
drop-frame [] rest = refl
drop-frame (x ∷ a) rest = drop-frame a rest

unfoldable pub parse {ℓ} : {A : Type ℓ} → Bytes → (Bytes → Bytes → Result A) → Result A
parse [] k = err unknown
parse (n ∷ bytes) k = k (take n bytes) (drop n bytes)

parse-frame :
    {A : Type 0} (field rest : Bytes) (k : Bytes → Bytes → Result A)
    → parse (frame field rest) k ≡ k field rest
unfolding parse frame
parse-frame field rest k = rw (take-frame field rest, drop-frame field rest) refl

unfoldable pub encode_ident : RelationIdentifier → Bytes → Bytes
unfolding frame
encode_ident i rest = frame i.object_type (
    frame i.object_id (
      frame i.relation (frame i.subject_type (frame i.subject_id (frame i.subject_relation rest)))))

unfoldable pub decode_ident :
    {A : Type 0} → Bytes → (RelationIdentifier → Bytes → Result A) → Result A
unfolding parse
decode_ident bytes k = parse bytes λ a r. parse r λ b r. parse r λ c r. parse r λ d r.
    parse r λ e r. parse r λ f r.
      k
        (record {
          object_type = a;
          object_id = b;
          relation = c;
          subject_type = d;
          subject_id = e;
          subject_relation = f;
        })
        r

decode_ident-encode_ident :
    {A : Type 0} (i : RelationIdentifier) (rest : Bytes) (k : RelationIdentifier → Bytes → Result A)
    → decode_ident (encode_ident i rest) k ≡ k i rest
unfolding decode_ident encode_ident parse frame
decode_ident-encode_ident i rest k = simp (take-frame, drop-frame)

-- A timestamp as two numbers with their signs.
unfoldable pub sign : ℤ → Bytes → Bytes
sign (pos n) rest = 0 ∷ n ∷ rest
sign (negsuc n) rest = 1 ∷ n ∷ rest

unfoldable pub unsign : ℕ → ℕ → ℤ
unsign zero n = pos n
unsign (suc i) n = negsuc n

unfoldable pub stamp : Option Timestamp → Bytes
unfolding sign
stamp none = []
stamp (some t) = sign t.seconds (sign t.nanos [])

unfoldable pub unstamp : Bytes → Option Timestamp
unfolding unsign
unstamp (i ∷ a ∷ j ∷ b ∷ []) = some (record { seconds = unsign i a; nanos = unsign j b })
unstamp _ = none

unstamp-sign : (x y : ℤ) → unstamp (sign x (sign y [])) ≡ some (record { seconds = x; nanos = y })
unfolding unstamp sign
unstamp-sign (pos a) (pos b) = refl
unstamp-sign (pos a) (negsuc b) = refl
unstamp-sign (negsuc a) (pos b) = refl
unstamp-sign (negsuc a) (negsuc b) = refl

unstamp-stamp : (t : Option Timestamp) → unstamp (stamp t) ≡ t
unfolding stamp unstamp
unstamp-stamp none = refl
unstamp-stamp (some t) = unstamp-sign t.seconds t.nanos

unfoldable pub marshal_relation : Relation → Result Bytes
unfolding encode_ident stamp
marshal_relation r = ok (
    encode_ident r.ident
      (frame (stamp r.created_at) (frame (stamp r.updated_at) (frame r.etag []))))

unfoldable pub with_rest : RelationIdentifier → Bytes → Result Relation
unfolding parse unstamp
with_rest i bytes = parse bytes λ c r. parse r λ u r.
    parse r λ etag r.
      ok (record { ident = i; created_at = unstamp c; updated_at = unstamp u; etag = etag })

unfoldable pub unmarshal_relation : Bytes → Result Relation
unfolding decode_ident with_rest
unmarshal_relation bytes = decode_ident bytes with_rest

rest_round :
    (r : Relation)
    → with_rest r.ident (frame (stamp r.created_at) (frame (stamp r.updated_at) (frame r.etag [])))
      ≡ ok r
unfolding with_rest frame parse
rest_round r = simp (take-frame, drop-frame, unstamp-stamp)

encoded : (a b : Bytes) → ok a ≡ ok b → a ≡ b
encoded a b e = cc

pub relation_round :
    (r : Relation) (v : Bytes) → marshal_relation r ≡ ok v → unmarshal_relation v ≡ ok r
unfolding marshal_relation unmarshal_relation
relation_round r v h =
    rw (← encoded _ v h) (decode_ident-encode_ident r.ident _ with_rest ∙ rest_round r)

abbrev pub relation_frames : Codec Relation
relation_frames = record {
  marshal = marshal_relation;
  unmarshal = unmarshal_relation;
  unmarshal-marshal = relation_round;
}

-- Properties are refused.
unfoldable pub marshal_object : Object → Result Bytes
unfolding frame stamp
marshal_object o = encode o.properties
  where
    encode : Option (List (Bytes × Value)) → Result Bytes
    encode none = ok (
        frame o.type (
          frame o.id (
            frame o.display_name
              (frame (stamp o.created_at) (frame (stamp o.updated_at) (frame o.etag []))))))
    encode (some p) = err unknown

unfoldable pub unmarshal_object : Bytes → Result Object
unfolding parse unstamp
unmarshal_object bytes = parse bytes λ a r. parse r λ b r. parse r λ n r. parse r λ c r.
    parse r λ u r. parse r λ etag s. ok (record {
      type = a;
      id = b;
      display_name = n;
      properties = none;
      created_at = unstamp c;
      updated_at = unstamp u;
      etag = etag;
    })

object_fields :
    (o : Object)
    → unmarshal_object (
        frame o.type (
          frame o.id (
            frame o.display_name
              (frame (stamp o.created_at) (frame (stamp o.updated_at) (frame o.etag []))))))
      ≡ ok (record o { properties = none })
unfolding unmarshal_object frame parse
object_fields o = simp (take-frame, drop-frame, unstamp-stamp)

object_round_at :
    (o : Object) (p : Option (List (Bytes × Value))) (v : Bytes)
    → marshal_object (record o { properties = p }) ≡ ok v
    → unmarshal_object v ≡ ok (record o { properties = p })
unfolding marshal_object
object_round_at o none v h = rw (← encoded _ v h) (object_fields o)
object_round_at o (some p) v h = absurd (ground arith)

pub object_round : (o : Object) (v : Bytes) → marshal_object o ≡ ok v → unmarshal_object v ≡ ok o
object_round o v h = object_round_at o o.properties v h

abbrev pub object_frames : Codec Object
object_frames = record {
  marshal = marshal_object;
  unmarshal = unmarshal_object;
  unmarshal-marshal = object_round;
}

unfoldable pub unmarshal_ident : Bytes → Result RelationIdentifier
unfolding decode_ident
unmarshal_ident bytes = decode_ident bytes (λ i r. ok i)

identifier_round :
    (r : Relation) (v : Bytes) → marshal_relation r ≡ ok v → unmarshal_ident v ≡ ok r.ident
unfolding unmarshal_ident marshal_relation
identifier_round r v h = rw (← encoded _ v h) (decode_ident-encode_ident r.ident _ (λ i r. ok i))

abbrev pub backend : Backend
backend = record {
  bolt = memory;
  objects = object_frames;
  relations = relation_frames;
  unmarshal_identifier = unmarshal_ident;
}

pub backend_laws : BackendLaws backend
backend_laws = record { bolt = memory_laws; identifier-marshal = identifier_round }
