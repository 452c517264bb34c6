-- ===== src/Store/Sample.antt =====
-- A small document library and file system, at which the properties of the store are tried out: a
-- document is the text of the calls that made it, and a file holds a document.
use hardware_panel.Base.{
  String, Bool, true, false, refl, List, [], ◌∷◌, ◌++◌, Option, none, some, str_eq, if◌then◌else◌,
}
use hardware_panel.Store.Env.{Json, JsonLaws, FileSystem}

pub data Doc : Type 0 where
  object_doc : Doc
  text_doc : String → Doc
  put_doc : String → Doc → Doc → Doc

abbrev as_string_doc : Doc → Option String
as_string_doc object_doc = none
as_string_doc (text_doc s) = some s
as_string_doc (put_doc k v d) = none

abbrev is_object_doc : Doc → Bool
is_object_doc object_doc = true
is_object_doc (text_doc s) = false
is_object_doc (put_doc k v d) = is_object_doc d

abbrev find_doc : String → Doc → Option Doc
find_doc j object_doc = none
find_doc j (text_doc s) = none
find_doc j (put_doc k v d) = let rest = find_doc j d in if str_eq k j then some v else rest

abbrev items_doc : Doc → List (String × Doc)
items_doc object_doc = []
items_doc (text_doc s) = []
items_doc (put_doc k v d) = items_doc d ++ (k, v) ∷ []

abbrev pub sample_json : Json
sample_json = record {
  Doc = Doc;
  Bytes = Doc;
  parse = some;
  dump = λ d. d;
  object = object_doc;
  text = text_doc;
  is_object = is_object_doc;
  as_string = as_string_doc;
  find = find_doc;
  put = put_doc;
  items = items_doc;
}

pub sample_laws : JsonLaws sample_json
sample_laws = record {
  parse-dump = λ d. refl;
  object_lem = refl;
  is_object-put = λ k v d h. h;
  as_string-text = λ s. refl;
  find-object = λ k. refl;
  find-put = λ k j v d h. refl;
  items-object = refl;
  items-put = λ k v d h below. refl;
}

-- Everything is allowed but opening locked.json.tmp.
abbrev pub sample_fs : FileSystem Doc
sample_fs = record {
  readable = λ name. true;
  writable = λ name. if str_eq name "locked.json.tmp" then false else true;
  regular = λ name. true;
  renamable = λ tmp file. true;
  removable = λ name. true;
  stored = λ name b. b;
}
