-- ===== src/Store/Codec.antt =====
-- The document of a profile reads back as the profile.
use hardware_panel.Base.{
  String, true, ◌≡◌, refl, ap, sym, ◌∙◌, List, [], ◌∷◌, ◌++◌, some, map, append-nil, append_assoc,
  map-append, subst,
}
use hardware_panel.Types.{Profile}
use hardware_panel.Store.Env.{Json, JsonLaws, KeysBelow}
use hardware_panel.Store.{
  parsed, value_or, strings_of, settings_of, profile_of, parse_bytes, put_settings, doc_of,
}

-- The keys of `m` follow those of `base`, each larger than all before it, as in a `std::map`.
abbrev pub AscendsAfter : List (String × String) → List (String × String) → Type 0
AscendsAfter base [] = Unit {0}
AscendsAfter base ((k, v) ∷ m) = KeysBelow k base × AscendsAfter (base ++ (k, v) ∷ []) m

abbrev pub IsOrdered : List (String × String) → Type 0
IsOrdered m = AscendsAfter [] m

module _ (json : Json) (laws : JsonLaws json) where
  open json use {Doc, object, text, is_object, find, put, items}
  open laws use {
    parse-dump, object_lem, is_object-put, as_string-text, find-object, find-put, items-object,
    items-put,
  }

  encode : String × String → String × Doc
  encode (k, v) = (k, text v)

  KeysBelow-encode :
      (k : String) (m : List (String × String)) → KeysBelow k m → KeysBelow k (map encode m)
  unfolding encode
  KeysBelow-encode k [] h = tt
  KeysBelow-encode k ((j, v) ∷ m) h = (h.0, KeysBelow-encode k m h.1)

  strings_of-encode : (m : List (String × String)) → strings_of json (map encode m) ≡ m
  unfolding strings_of encode
  strings_of-encode [] = refl
  strings_of-encode ((k, v) ∷ m) = rw (as_string-text v, strings_of-encode m) refl

  put_settings-items :
      (m base : List (String × String)) (d : Doc)
      → is_object d ≡ true
      → items d ≡ map encode base
      → AscendsAfter base m
      → (is_object (put_settings json m d) ≡ true)
        × (items (put_settings json m d) ≡ map encode (base ++ m))
  unfolding put_settings encode
  put_settings-items [] base d o i h = (o, i ∙ ap (map encode) (sym (append-nil base)))
  put_settings-items ((k, v) ∷ m) base d o i h =
      let next =
        put_settings-items m (base ++ (k, v) ∷ []) (put k (text v) d) (is_object-put k (text v) d o)
          (items-put k (text v) d o (subst (KeysBelow k) (sym i) (KeysBelow-encode k base h.0))
            ∙ (ap (λ l. l ++ (k, text v) ∷ []) i ∙ sym (map-append encode base ((k, v) ∷ []))))
          h.1 in
      (next.0, next.1 ∙ ap (map encode) (append_assoc base ((k, v) ∷ []) m))

  -- Of a profile whose settings are in the order of their keys, the document that `Save` writes is
  -- read by `ParseProfileFile` as that profile.
  pub profile_of-doc_of :
      (p : Profile) → IsOrdered p.settings → profile_of json (doc_of json p) ≡ parsed p
  unfolding profile_of doc_of settings_of
  profile_of-doc_of p h =
      let d1 = put "id" (text p.id) object in
      let o1 : is_object d1 ≡ true = is_object-put "id" (text p.id) object object_lem in
      let d2 = put "name" (text p.name) d1 in
      let o2 : is_object d2 ≡ true = is_object-put "name" (text p.name) d1 o1 in
      let d3 = put "description" (text p.description) d2 in
      let o3 : is_object d3 ≡ true = is_object-put "description" (text p.description) d2 o2 in
      let inner = put_settings-items p.settings [] object object_lem items-object h in
      let s = put_settings json p.settings object in
      let d4 = put "settings" s d3 in
      let f-id : find "id" d4 ≡ some (text p.id) =
        find-put "settings" "id" s d3 o3
        ∙ (find-put "description" "id" (text p.description) d2 o2
            ∙ (find-put "name" "id" (text p.name) d1 o1
                ∙ find-put "id" "id" (text p.id) object object_lem)) in
      let f-name : find "name" d4 ≡ some (text p.name) =
        find-put "settings" "name" s d3 o3
        ∙ (find-put "description" "name" (text p.description) d2 o2
            ∙ find-put "name" "name" (text p.name) d1 o1) in
      let f-description : find "description" d4 ≡ some (text p.description) =
        find-put "settings" "description" s d3 o3
        ∙ find-put "description" "description" (text p.description) d2 o2 in
      let f-settings : find "settings" d4 ≡ some s = find-put "settings" "settings" s d3 o3 in
      let v-id : value_or json "id" "" d4 ≡ some p.id = rw (f-id, value_or) (as_string-text p.id) in
      let v-name : value_or json "name" p.id d4 ≡ some p.name =
        rw (f-name, value_or) (as_string-text p.name) in
      let v-description : value_or json "description" "" d4 ≡ some p.description =
        rw (f-description, value_or) (as_string-text p.description) in
      let v-settings : settings_of json d4 ≡ p.settings =
        rw (f-settings, settings_of, inner.0, inner.1) (strings_of-encode p.settings) in
      rw (is_object-put "settings" s d3 o3, f-id, as_string-text p.id)
        (rw (v-id, v-name, v-description, v-settings) refl)

  pub parse_bytes-dump :
      (p : Profile) → IsOrdered p.settings → parse_bytes json (json.dump (doc_of json p)) ≡ parsed p
  unfolding parse_bytes
  parse_bytes-dump p h = rw (parse-dump (doc_of json p), parse_bytes) (profile_of-doc_of p h)
