-- ===== src/Sync/Taken.antt =====
-- The filter of internal/eds/pkg/datasync/directory.go finds what was exported, if it took every key.
use eamerald.Base.{◌≡◌, ap, Bool, true, some, List, [], ◌∷◌, ◌++◌}
use eamerald.Base.Bytes.{Bytes}
use eamerald.Data.{Object, Relation}
use eamerald.Sync.Filter.{
  Cuckoo, CuckooLaws, get_object_key, get_relation_key, object_or_empty, relation_or_empty,
}
use eamerald.Sync.Directory.{
  ExportMsg, object_export, relation_export, other_export, note_export, note_exports,
}

module _ (cuckoo : Cuckoo) where
  -- The filter takes the key of a message.
  abbrev pub takes : ExportMsg → cuckoo.Filter → Bool
  takes (object_export m) f = (cuckoo.insert_key (get_object_key (object_or_empty m)) f).0
  takes (relation_export m) f = (cuckoo.insert_key (get_relation_key (relation_or_empty m)) f).0
  takes other_export f = true

  -- It takes the key of each message in turn.
  abbrev pub TakesAll : List ExportMsg → cuckoo.Filter → Type 0
  TakesAll [] f = Unit
  TakesAll (m ∷ msgs) f = (takes m f ≡ true) × TakesAll msgs (note_export cuckoo true m f)

module _ {cuckoo : Cuckoo} (laws : CuckooLaws cuckoo) where
  insert_key-kept :
      (j k : Bytes) (f : cuckoo.Filter)
      → (cuckoo.insert_key k f).0 ≡ true
      → cuckoo.lookup_key j f ≡ true
      → cuckoo.lookup_key j (cuckoo.insert_key k f).1 ≡ true
  insert_key-kept j k f taken found =
      laws.lookup_key-kept j k f (cuckoo.insert_key k f).1
        (ap (λ b. (b, (cuckoo.insert_key k f).1)) taken) found

  note_export-kept :
      (j : Bytes) (m : ExportMsg) (f : cuckoo.Filter)
      → takes cuckoo m f ≡ true
      → cuckoo.lookup_key j f ≡ true
      → cuckoo.lookup_key j (note_export cuckoo true m f) ≡ true
  unfolding note_export
  note_export-kept j (object_export m) f taken found = insert_key-kept j _ f taken found
  note_export-kept j (relation_export m) f taken found = insert_key-kept j _ f taken found
  note_export-kept j other_export f taken found = found

  note_exports-kept :
      (j : Bytes) (msgs : List ExportMsg) (f : cuckoo.Filter)
      → TakesAll cuckoo msgs f
      → cuckoo.lookup_key j f ≡ true
      → cuckoo.lookup_key j (note_exports cuckoo true msgs f) ≡ true
  unfolding note_exports
  note_exports-kept j [] f taken found = found
  note_exports-kept j (m ∷ msgs) f (one, rest) found =
      note_exports-kept j msgs (note_export cuckoo true m f) rest (note_export-kept j m f one found)

  -- The key of an exported object is found.
  pub note_exports-object :
      (before after : List ExportMsg) (o : Object) (f : cuckoo.Filter)
      → TakesAll cuckoo (before ++ object_export (some o) ∷ after) f
      → cuckoo.lookup_key
          (get_object_key o)
          (note_exports cuckoo true (before ++ object_export (some o) ∷ after) f)
        ≡ true
  unfolding note_exports note_export
  note_exports-object [] after o f (one, rest) = note_exports-kept (get_object_key o) after _ rest (
      laws.lookup_key-insert_key (get_object_key o) f _
        (ap (λ b. (b, (cuckoo.insert_key (get_object_key o) f).1)) one))
  note_exports-object (m ∷ before) after o f (one, rest) =
      note_exports-object before after o (note_export cuckoo true m f) rest

  -- So is that of an exported relation.
  pub note_exports-relation :
      (before after : List ExportMsg) (r : Relation) (f : cuckoo.Filter)
      → TakesAll cuckoo (before ++ relation_export (some r) ∷ after) f
      → cuckoo.lookup_key
          (get_relation_key r)
          (note_exports cuckoo true (before ++ relation_export (some r) ∷ after) f)
        ≡ true
  unfolding note_exports note_export
  note_exports-relation [] after r f (one, rest) =
      note_exports-kept (get_relation_key r) after _ rest (
        laws.lookup_key-insert_key (get_relation_key r) f _
          (ap (λ b. (b, (cuckoo.insert_key (get_relation_key r) f).1)) one))
  note_exports-relation (m ∷ before) after r f (one, rest) =
      note_exports-relation before after r (note_export cuckoo true m f) rest
