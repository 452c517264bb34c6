-- ===== src/Store/Env.antt =====
-- What the profile store uses and does not implement: nlohmann's JSON documents, and how the file
-- system of one machine answers. Both are parameters of the model.
use hardware_panel.Base.Assoc.{str_lt}
use hardware_panel.Base.{
  String, Bool, true, List, [], ◌∷◌, ◌++◌, Option, none, some, ◌≡◌, str_eq, if◌then◌else◌,
}

-- Documents and the bytes of a file. `parse` is `in >> doc` (`none`: it throws), `dump` is
-- `doc.dump(2)`, `find` is `contains` with `operator[]`, `as_string` is `is_string` with `get`,
-- `put` is `doc[key] = value`, and `items` is the iteration of an object.
pub record Json : Type 1 where
  pub Doc : Type 0
  pub Bytes : Type 0
  pub parse : Bytes → Option Doc
  pub dump : Doc → Bytes
  pub object : Doc
  pub text : String → Doc
  pub is_object : Doc → Bool
  pub as_string : Doc → Option String
  pub find : String → Doc → Option Doc
  pub put : String → Doc → Doc → Doc
  pub items : Doc → List (String × Doc)

-- The keys of a list are all smaller than `k`.
abbrev pub KeysBelow {ℓ} : {V : Type ℓ} → String → List (String × V) → Type 0
KeysBelow k [] = Unit {0}
KeysBelow k ((j, v) ∷ m) = (str_lt j k ≡ true) × KeysBelow k m

-- Documented behaviour of the library: what is written can be read back, an object holds what was
-- put into it, and iterates in the order of its keys.
module _ (json : Json) where
  open json use {Doc, parse, dump, object, text, is_object, as_string, find, put, items}

  pub record JsonLaws : Type 0 where
    pub parse-dump : (d : Doc) → parse (dump d) ≡ some d
    pub object_lem : is_object object ≡ true
    pub is_object-put : (k : String) (v d : Doc) → is_object d ≡ true → is_object (put k v d) ≡ true
    pub as_string-text : (s : String) → as_string (text s) ≡ some s
    pub find-object : (k : String) → find k object ≡ none
    pub find-put :
        (k j : String) (v d : Doc)
        → is_object d ≡ true
        → find j (put k v d) ≡ (if str_eq k j then some v else find j d)
    pub items-object : items object ≡ []
    pub items-put :
        (k : String) (v d : Doc)
        → is_object d ≡ true
        → KeysBelow k (items d)
        → items (put k v d) ≡ items d ++ (k, v) ∷ []

-- How the machine answers for the files of the directory: whether a file can be opened for reading
-- or writing, whether it is a regular file, whether one name can be renamed to another, whether a
-- file can be removed, and which bytes a stream leaves in a file that it was given (a full disk
-- leaves fewer).
pub record FileSystem (Bytes : Type 0) : Type 0 where
  pub readable : String → Bool
  pub writable : String → Bool
  pub regular : String → Bool
  pub renamable : String → String → Bool
  pub removable : String → Bool
  pub stored : String → Bytes → Bytes
