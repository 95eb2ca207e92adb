-- ===== src/Ds/Object/Patch.antt =====
-- The display name of internal/eds/pkg/ds/object.go, written and read back.
use eamerald.Base.{◌≡◌, ◌≢◌, refl, ap, ◌⊎◌, inl, inr, none, some, [], Bool-cases, Option-cases}
use eamerald.Base.Bytes.{eqb, eqb-eq, eqb_refl}
use eamerald.Base.Dict.{insert, lookup-insert}
use eamerald.Data.{Object, Struct, string_value}
use eamerald.Ds.Object.{
  prop_display_name, with_display_name, patch_object_read, patch_properties, patch_object_write,
}

read_patched :
    (i : Object) (fields : Struct)
    → patch_object_read (record i {
      display_name = [];
      properties = some (insert fields prop_display_name (string_value i.display_name));
    })
      ≡ record i {
        properties = some (insert fields prop_display_name (string_value i.display_name));
      }
unfolding patch_object_read with_display_name
read_patched i fields =
    rw
      (
        lookup-insert fields prop_display_name (string_value i.display_name) prop_display_name,
        eqb_refl prop_display_name,
      )
      refl

-- For an object with a display name, writing its patch panics if it has no properties. Otherwise
-- the patched object has an empty display name, and reading its patch gives the object back, but
-- for the properties.
pub patch_object_read-write :
    (i : Object)
    → i.display_name ≢ []
    → ((i.properties ≡ none) × (patch_object_write i ≡ none))
      ⊎ ((i' : Object) × (patch_object_write i ≡ some i')
          × (i'.display_name ≡ [])
          × ((patch_object_read i').display_name ≡ i.display_name)
          × (record (patch_object_read i') { properties = i.properties } ≡ i))
unfolding patch_object_write patch_properties
patch_object_read-write i set = elim (Bool-cases (eqb i.display_name [])) [
  | inl empty ↦ absurd (set (eqb-eq i.display_name [] empty))
  | inr given ↦ elim (Option-cases i.properties) [
    | inl missing ↦ inl (missing, rw given (ap (patch_properties i) missing))
    | inr (fields, there) ↦ inr (
      _,
      rw given (ap (patch_properties i) there),
      refl,
      ap (λ (o : Object). o.display_name) (read_patched i fields),
      ap (λ (o : Object). record o { properties = i.properties }) (read_patched i fields),
    )
  ]
]
