-- ===== src/Store.antt =====
-- libs/core/src/profile_store.cpp: profiles as JSON files in one directory. The directory is an
-- association list from the name of a file in `dir_` to its bytes. Names with a path separator
-- lead out of the directory and are not modelled. Log lines are left out.
pub mod Env
pub mod Codec
pub mod Roundtrip
pub mod Order
pub mod Listing
pub mod Sample
mod Tests
use hardware_panel.Base.{
  String, Bool, true, false, not, ◌&&◌, ◌||◌, List, [], ◌∷◌, ◌++◌, Option, none, some, str_eq, ◌&◌,
  if◌then◌else◌,
}
use hardware_panel.Base.Assoc.{lookup, insert, erase, str_lt}
use hardware_panel.Types.{Profile}
use Prim.Native.String
use Env.{Json, FileSystem}

-- `path::extension() == ".json"` for a file name: the name ends so, and starts before that.
abbrev pub has_json_extension : String → Bool
has_json_extension String.[] = false
has_json_extension (String.◌∷◌ c s) = str_eq s ".json" || has_json_extension s

-- The result of parsing a file: an exception leaves the function, or it returns false, or a profile.
pub data Parsed : Type 0 where
  threw skipped : Parsed
  parsed : Profile → Parsed

-- `std::sort` by id; equal ids keep their order here, which the standard leaves open.
unfoldable pub insert_sorted : Profile → List Profile → List Profile
insert_sorted p [] = p ∷ []
insert_sorted p (q ∷ qs) = if str_lt q.id p.id then q ∷ insert_sorted p qs else p ∷ q ∷ qs

unfoldable pub sort : List Profile → List Profile
sort [] = []
sort (p ∷ ps) = insert_sorted p (sort ps)

module _ (json : Json) where
  open json use {Doc, Bytes, parse, dump, object, text, is_object, as_string, find, put, items}

  abbrev pub Dir : Type 0
  Dir = List (String × Bytes)

  -- `doc.value(key, fallback)` of an object: `none` is the exception for a value that is no string.
  abbrev pub value_or : String → String → Doc → Option String
  value_or key fallback doc = elim (find key doc) [ none ↦ some fallback | some v ↦ as_string v ]

  -- The loop over `doc["settings"]`: values that are no strings are passed over. The items come in
  -- the order of their keys, each once.
  unfoldable pub strings_of : List (String × Doc) → List (String × String)
  strings_of [] = []
  strings_of ((k, v) ∷ m) =
      let rest = strings_of m in elim (as_string v) [ none ↦ rest | some s ↦ (k, s) ∷ rest ]

  unfoldable pub settings_of : Doc → List (String × String)
  unfolding strings_of
  settings_of doc = elim (find "settings" doc) [
    | none ↦ []
    | some s ↦ if is_object s then strings_of (items s) else []
  ]

  abbrev with_values :
      Option String → Option String → Option String → List (String × String) → Parsed
  with_values (some id) (some name) (some description) settings =
      parsed (record { id = id; name = name; description = description; settings = settings })
  with_values _ _ _ settings = threw

  -- `ParseProfileFile` once the file has been read.
  unfoldable pub profile_of : Doc → Parsed
  unfolding settings_of
  profile_of doc =
      if is_object doc
      then elim (find "id" doc) [
        | none ↦ skipped
        | some v ↦ elim (as_string v) [
          | none ↦ skipped
          | some id ↦
              with_values (value_or "id" "" doc) (value_or "name" id doc)
                (value_or "description" "" doc) (settings_of doc)
        ]
      ]
      else skipped

  unfoldable pub parse_bytes : Bytes → Parsed
  unfolding profile_of
  parse_bytes b = elim (parse b) [ none ↦ skipped | some doc ↦ profile_of doc ]

  unfoldable pub put_settings : List (String × String) → Doc → Doc
  put_settings [] doc = doc
  put_settings ((k, v) ∷ m) doc = put_settings m (put k (text v) doc)

  -- The document that `Save` writes.
  unfoldable pub doc_of : Profile → Doc
  unfolding put_settings
  doc_of p = put "settings" (put_settings p.settings object) (
      put "description" (text p.description)
        (put "name" (text p.name) (put "id" (text p.id) object)))

  module _ (fs : FileSystem Bytes) where
    open fs use {readable, writable, regular, renamable, removable, stored}

    -- `std::ifstream`: the bytes, if the file is there and opens.
    abbrev pub read : String → Dir → Option Bytes
    read name d = if readable name then lookup name d else none

    unfoldable pub parse_file : String → Dir → Parsed
    unfolding parse_bytes
    parse_file name d = elim (read name d) [ none ↦ skipped | some b ↦ parse_bytes b ]

    -- The loop of `List`: `none` is an exception that leaves it.
    unfoldable pub list_loop : Dir → Dir → Option (List Profile)
    list_loop d [] = some []
    list_loop d ((name, b) ∷ entries) =
        let rest = list_loop d entries in
        if not (regular name && has_json_extension name) || str_eq name "active.json"
        then rest
        else elim (parse_file name d) [
          | threw ↦ none
          | skipped ↦ rest
          | parsed p ↦ elim rest [ none ↦ none | some ps ↦ some (p ∷ ps) ]
        ]

    unfoldable pub list : Dir → Option (List Profile)
    unfolding list_loop sort
    list d = elim (list_loop d d) [ none ↦ none | some ps ↦ some (sort ps) ]

    unfoldable pub get : String → Dir → Parsed
    unfolding parse_file
    get id d = parse_file (id & ".json") d

    -- Writing `tmp` and renaming it, in `Save` and in `SetActiveId`: the new directory, and whether
    -- the rename succeeded.
    unfoldable pub replace_file : String → String → Bytes → Dir → Dir × Bool
    replace_file tmp file b d =
        if writable tmp
        then (let written = insert tmp (stored tmp b) d in
            if renamable tmp file
            then (insert file (stored tmp b) (erase tmp written), true)
            else (written, false))
        else (d, false)

    unfoldable pub save : Profile → Dir → Dir × Bool
    unfolding doc_of
    save p d = replace_file (p.id & ".json.tmp") (p.id & ".json") (dump (doc_of p)) d

    unfoldable pub remove : String → Dir → Dir × Bool
    remove id d = elim (lookup (id & ".json") d) [
      | none ↦ (d, false)
      | some b ↦ if removable (id & ".json") then (erase (id & ".json") d, true) else (d, false)
    ]

    abbrev active_of : Option Doc → String
    active_of none = ""
    active_of (some doc) =
        if is_object doc then elim (value_or "active" "" doc) [ none ↦ "" | some id ↦ id ] else ""

    -- Every exception of the read is caught.
    unfoldable pub active_id : Dir → String
    active_id d = elim (read "active.json" d) [ none ↦ "" | some b ↦ active_of (parse b) ]

    unfoldable pub set_active_id : String → Dir → Dir
    set_active_id id d =
        (replace_file "active.json.tmp" "active.json" (dump (put "active" (text id) object)) d).0

    unfoldable pub save_all : List Profile → Dir → Dir
    unfolding save
    save_all [] d = d
    save_all (p ∷ ps) d = save_all ps (save p d).0

    abbrev pub defaults : List Profile
    defaults =
        record {
          id = "balanced";
          name = "Balanced";
          description = "Windows default balanced plan";
          settings = ("power.plan", "balanced") ∷ [];
        }
        ∷ record {
          id = "performance";
          name = "Performance";
          description = "High performance plan for gaming/renders";
          settings = ("power.plan", "high") ∷ [];
        }
        ∷ record {
          id = "powersaver";
          name = "Power Saver";
          description = "Battery friendly plan";
          settings = ("power.plan", "saver") ∷ [];
        }
        ∷ []

    -- `none`: the exception of `List` leaves it.
    unfoldable pub ensure_defaults : Dir → Option Dir
    unfolding list save_all active_id set_active_id
    ensure_defaults d = elim (list d) [
      | none ↦ none
      | some (p ∷ ps) ↦ some d
      | some [] ↦
          let seeded = save_all defaults d in
          some (if str_eq (active_id seeded) "" then set_active_id "balanced" seeded else seeded)
    ]
