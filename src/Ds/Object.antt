-- ===== src/Ds/Object.antt =====
-- internal/eds/pkg/ds/object.go: the key of an object, and the display name, which moved from a
-- field of its own to a property.
pub mod Patch
use eamerald.Base.{Option, none, some, [], ◌∷◌, ◌++◌, if◌then◌else◌}
use eamerald.Base.Bytes.{Bytes, eqb, codes}
use eamerald.Base.Dict.{lookup, insert}
use eamerald.Data.{Object, Struct, Value, string_value, get_fields, get_string_value}
use eamerald.Bdb.Keys.{type_id_separator}

unfoldable pub str_key : Bytes → Bytes → Bytes
str_key type id = type ++ type_id_separator ∷ id

abbrev pub prop_display_name : Bytes
prop_display_name = codes "display_name"

unfoldable pub with_display_name : Object → Option Value → Object
with_display_name i none = i
with_display_name i (some v) = record i { display_name = get_string_value (some v) }

unfoldable pub patch_object_read : Object → Object
unfolding with_display_name lookup
patch_object_read i = with_display_name i (lookup (get_fields i.properties) prop_display_name)

-- The properties with the display name; none is the panic of a read of a field of nil properties.
unfoldable pub patch_properties : Object → Option Struct → Option Object
unfolding insert
patch_properties i none = none
patch_properties i (some fields) = some (record i {
  display_name = [];
  properties = some (insert fields prop_display_name (string_value i.display_name));
})

unfoldable pub patch_object_write : Object → Option Object
unfolding patch_properties
patch_object_write i = if eqb i.display_name [] then some i else patch_properties i i.properties
