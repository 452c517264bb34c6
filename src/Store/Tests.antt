-- ===== src/Store/Tests.antt =====
-- The properties of the store at a small document library and file system.
use mathlib.Core.List.Permᴰ
use hardware_panel.Store.Order.{IsDistinct, IsAscending, id_of}
use hardware_panel.Store.Listing.{found, list_any_order}
use hardware_panel.Base.{arith, str_eq_iff, String, true, false, ◌≡◌, ◌≢◌, refl, inl, [], ◌∷◌, none}
use hardware_panel.Base.Assoc.{lookup}
use hardware_panel.Types.{Profile}
use hardware_panel.Store.{
  Dir, parsed, get, save, list, list_loop, parse_file, parse_bytes, profile_of, settings_of,
}
use hardware_panel.Store.Sample.{
  Doc, object_doc, text_doc, put_doc, sample_json, sample_laws, sample_fs,
}
use hardware_panel.Store.Roundtrip.{Replaces, get-save, save_failed, list_throws}

abbrev quiet : Profile
quiet = record {
  id = "quiet";
  name = "Quiet";
  description = "";
  settings = ("display.brightness", "30") ∷ ("power.plan", "saver") ∷ [];
}

abbrev locked : Profile
locked = record quiet { id = "locked" }

sample-Replaces : Replaces sample_json sample_fs "quiet.json.tmp" "quiet.json"
sample-Replaces = record { opens = refl; renames = refl; stores = λ b. refl }

get-save_example :
    ((save sample_json sample_fs quiet []).1 ≡ true)
    × (get sample_json sample_fs "quiet" (save sample_json sample_fs quiet []).0 ≡ parsed quiet)
    × ((n : String)
        → n ≢ "quiet.json"
        → n ≢ "quiet.json.tmp"
        → lookup n (save sample_json sample_fs quiet []).0 ≡ none)
unfolding lookup
get-save_example =
    get-save sample_json sample_fs sample_laws quiet [] (tt, ((refl, tt), tt)) sample-Replaces refl

save_failed_example :
    let d' = save sample_json sample_fs locked [] in
    (d'.1 ≡ false)
    × ((n : String) → n ≢ "locked.json.tmp" → lookup n d'.0 ≡ none)
    × (get sample_json sample_fs "locked" d'.0 ≡ get sample_json sample_fs "locked" [])
unfolding lookup
save_failed_example = save_failed sample_json sample_fs locked [] (inl refl)

-- {"id": "x", "name": {}}
abbrev no_name : Doc
no_name = put_doc "name" object_doc (put_doc "id" (text_doc "x") object_doc)

abbrev mixed : Dir sample_json
mixed = ("good.json", put_doc "id" (text_doc "good") object_doc) ∷ ("bad.json", no_name) ∷ []

list_throws_example : list sample_json sample_fs mixed ≡ none
unfolding lookup
list_throws_example =
    list_throws sample_json sample_fs mixed "bad.json" no_name no_name (text_doc "x") object_doc "x"
      refl refl refl refl refl refl refl refl refl refl

abbrev two_files : Dir sample_json
two_files =
    ("b.json", put_doc "id" (text_doc "beta") object_doc)
    ∷ ("a.json", put_doc "id" (text_doc "alpha") object_doc)
    ∷ []

abbrev two_files_turned : Dir sample_json
two_files_turned =
    ("a.json", put_doc "id" (text_doc "alpha") object_doc)
    ∷ ("b.json", put_doc "id" (text_doc "beta") object_doc)
    ∷ []

two_ids :
    IsDistinct id_of
      (found sample_json sample_fs (list_loop sample_json sample_fs two_files two_files))
unfolding list_loop parse_file parse_bytes profile_of settings_of lookup
two_ids = (((λ e. ground (arith, str_eq_iff "beta" "alpha")), tt), (tt, tt))

list_any_order_example :
    (list sample_json sample_fs two_files ≡ list sample_json sample_fs two_files_turned)
    × IsAscending (found sample_json sample_fs (list sample_json sample_fs two_files))
list_any_order_example =
    list_any_order sample_json sample_fs two_files two_files_turned (Permᴰ.swap refl refl)
      (((λ e. ground (arith, str_eq_iff "b.json" "a.json")), tt), (tt, tt)) two_ids
