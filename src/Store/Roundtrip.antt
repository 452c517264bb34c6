-- ===== src/Store/Roundtrip.antt =====
-- What is saved is read back, what fails leaves the old file, and what `List` does with bad files.
use text.Mathlib.TextLemmas.{append_cancel_left}
use hardware_panel.Base.{
  String, Bool, true, false, ◌&&◌, ◌≡◌, ◌≢◌, refl, ap, sym, ◌∙◌, ◌⊎◌, inl, inr, [], ◌∷◌, none, some,
  str_eq, if◌then◌else◌, arith, str_eq_iff, str_eq_refl, str_eq-ne, ◌&◌, Bool-cases,
}
use hardware_panel.Base.Assoc.{lookup, insert, erase, lookup-insert, lookup-erase}
use hardware_panel.Types.{Profile}
use hardware_panel.Store.Env.{Json, JsonLaws, FileSystem}
use hardware_panel.Store.Codec.{IsOrdered, parse_bytes-dump}
use hardware_panel.Store.{
  Dir, threw, parsed, has_json_extension, doc_of, parse_file, list_loop, list, get, replace_file,
  save, active_id, set_active_id,
}

tmp-ne-file : (id : String) → id & ".json.tmp" ≢ id & ".json"
tmp-ne-file id e =
    let same = append_cancel_left id ".json.tmp" ".json" e in
    ground (arith, str_eq_iff ".json.tmp" ".json", same)

module _ (json : Json) (fs : FileSystem json.Bytes) where
  open json use {Doc, Bytes, parse, dump, object, text, is_object, as_string, find, put}
  open fs use {readable, writable, regular, renamable, stored}

  -- Both steps of a replacement work, and the stream leaves all the bytes in the file.
  pub record Replaces (tmp file : String) : Type 0 where
    pub opens : writable tmp ≡ true
    pub renames : renamable tmp file ≡ true
    pub stores : (b : Bytes) → stored tmp b ≡ b

  replace-done :
      (tmp file : String) (b : Bytes) (d : Dir json)
      → Replaces tmp file
      → replace_file json fs tmp file b d ≡ (insert file b (erase tmp (insert tmp b d)), true)
  unfolding replace_file
  replace-done tmp file b d r = rw (r.opens, r.renames, r.stores b) refl

  lookup-replaced :
      (tmp file n : String) (b : Bytes) (d : Dir json)
      → lookup n (insert file b (erase tmp (insert tmp b d)))
        ≡ (if str_eq file n then some b else if str_eq tmp n then none else lookup n d)
  lookup-replaced tmp file n b d = ground (
    arith,
    lookup-insert file n b (erase tmp (insert tmp b d)),
    lookup-erase tmp n (insert tmp b d),
    lookup-insert tmp n b d,
  )

  -- If the temporary file can be written in full and renamed and the profile's file can be read,
  -- `Save` of a profile with its settings in the order of their keys succeeds, `Get` of its id then
  -- returns the profile, and no file but the profile's and the temporary one has changed.
  pub get-save :
      JsonLaws json
      → (p : Profile) (d : Dir json) → IsOrdered p.settings
      → Replaces (p.id & ".json.tmp") (p.id & ".json")
      → readable (p.id & ".json") ≡ true
      → ((save json fs p d).1 ≡ true)
        × (get json fs p.id (save json fs p d).0 ≡ parsed p)
        × ((n : String)
            → n ≢ p.id & ".json"
            → n ≢ p.id & ".json.tmp"
            → lookup n (save json fs p d).0 ≡ lookup n d)
  unfolding save get
  get-save laws p d ordered r opens =
      let file = p.id & ".json" in
      let tmp = p.id & ".json.tmp" in
      let b = dump (doc_of json p) in
      let done = replace-done tmp file b d r in
      let there : lookup file (insert file b (erase tmp (insert tmp b d))) ≡ some b =
        lookup-replaced tmp file file b d ∙ rw (str_eq_refl file) refl in
      rw done (
        refl,
        rw (opens, there, parse_file) (parse_bytes-dump json laws p ordered),
        λ n ne ne'.
            lookup-replaced tmp file n b d
            ∙ rw (str_eq-ne file n (λ e. ne (sym e)), str_eq-ne tmp n (λ e. ne' (sym e))) refl,
      )

  -- If the temporary file cannot be opened or cannot be renamed, `Save` returns false and leaves
  -- every file but the temporary one as it was: the old profile is not damaged.
  pub save_failed :
      (p : Profile) (d : Dir json)
      → (writable (p.id & ".json.tmp") ≡ false)
        ⊎ (renamable (p.id & ".json.tmp") (p.id & ".json") ≡ false)
      → ((save json fs p d).1 ≡ false)
        × ((n : String) → n ≢ p.id & ".json.tmp" → lookup n (save json fs p d).0 ≡ lookup n d)
        × (get json fs p.id (save json fs p d).0 ≡ get json fs p.id d)
  unfolding save get parse_file replace_file
  save_failed p d (inl closed) = rw closed (refl, λ n ne. refl, refl)
  save_failed p d (inr stuck) = elim (Bool-cases (writable tmp)) [
    | inr closed ↦ rw closed (refl, λ n ne. refl, refl)
    | inl opens ↦
        rw (opens, stuck)
          (
            refl,
            others,
            rw (parse_file, others (p.id & ".json") (λ e. tmp-ne-file p.id (sym e))) refl,
          )
  ]
    where
      tmp : String
      tmp = p.id & ".json.tmp"

      others :
          (n : String)
          → n ≢ tmp
          → lookup n (insert tmp (stored tmp (dump (doc_of json p))) d) ≡ lookup n d
      others n ne =
          lookup-insert tmp n (stored tmp (dump (doc_of json p))) d
          ∙ rw (str_eq-ne tmp n (λ e. ne (sym e))) refl

  -- If the temporary file can be written in full and renamed and active.json can be read, `ActiveId`
  -- after `SetActiveId(id)` is `id`, and no file but active.json and the temporary one has changed.
  pub active_id-set_active_id :
      JsonLaws json
      → (id : String) (d : Dir json) → Replaces "active.json.tmp" "active.json"
      → readable "active.json" ≡ true
      → (active_id json fs (set_active_id json fs id d) ≡ id)
        × ((n : String)
            → n ≢ "active.json"
            → n ≢ "active.json.tmp"
            → lookup n (set_active_id json fs id d) ≡ lookup n d)
  unfolding active_id set_active_id
  active_id-set_active_id laws id d r opens =
      let doc = put "active" (text id) object in
      let b = dump doc in
      let d' = insert "active.json" b (erase "active.json.tmp" (insert "active.json.tmp" b d)) in
      let done : set_active_id json fs id d ≡ d' =
        ap (λ (x : Dir json × Bool). x.0) (replace-done "active.json.tmp" "active.json" b d r) in
      let found : find "active" doc ≡ some (text id) =
        laws.find-put "active" "active" (text id) object laws.object_lem in
      let there : lookup "active.json" d' ≡ some b =
        lookup-replaced "active.json.tmp" "active.json" "active.json" b d in
      let back : active_id json fs d' ≡ id =
        rw (there, active_id, opens)
          (rw (laws.parse-dump doc) (
            rw (laws.is_object-put "active" (text id) object laws.object_lem, found)
              (rw (laws.as_string-text id) refl))) in
      (
        ap (active_id json fs) done ∙ back,
        λ n ne ne'.
            ap (lookup n) done
            ∙ (lookup-replaced "active.json.tmp" "active.json" n b d
                ∙ rw
                    (
                      str_eq-ne "active.json" n (λ e. ne (sym e)),
                      str_eq-ne "active.json.tmp" n (λ e. ne' (sym e)),
                    )
                    refl),
      )

  set_active_id-closed :
      (id : String) (d : Dir json)
      → writable "active.json.tmp" ≡ false
      → set_active_id json fs id d ≡ d
  unfolding set_active_id replace_file
  set_active_id-closed id d closed = ground (arith, closed)

  set_active_id-stuck :
      (id : String) (d : Dir json)
      → writable "active.json.tmp" ≡ true
      → renamable "active.json.tmp" "active.json" ≡ false
      → set_active_id json fs id d
        ≡ insert "active.json.tmp"
            (stored "active.json.tmp" (dump (put "active" (text id) object)))
            d
  unfolding set_active_id replace_file
  set_active_id-stuck id d opens stuck = ground (arith, opens, stuck)

  active_id-other :
      (d : Dir json) (b : Bytes)
      → active_id json fs (insert "active.json.tmp" b d) ≡ active_id json fs d
  unfolding active_id
  active_id-other d b = rw (active_id, lookup-insert "active.json.tmp" "active.json" b d) refl

  -- If the temporary file cannot be opened or cannot be renamed, `SetActiveId` leaves `ActiveId` as it
  -- was.
  pub set_active_id_failed :
      (id : String) (d : Dir json)
      → (writable "active.json.tmp" ≡ false) ⊎ (renamable "active.json.tmp" "active.json" ≡ false)
      → active_id json fs (set_active_id json fs id d) ≡ active_id json fs d
  set_active_id_failed id d (inl closed) = ap (active_id json fs) (set_active_id-closed id d closed)
  set_active_id_failed id d (inr stuck) = elim (Bool-cases (writable "active.json.tmp")) [
    | inr closed ↦ ap (active_id json fs) (set_active_id-closed id d closed)
    | inl opens ↦
        ap (active_id json fs) (set_active_id-stuck id d opens stuck)
        ∙ active_id-other d (stored "active.json.tmp" (dump (put "active" (text id) object)))
  ]

  list_loop-throws :
      (d entries : Dir json) (name : String) (b : Bytes)
      → lookup name entries ≡ some b
      → regular name && has_json_extension name ≡ true
      → str_eq name "active.json" ≡ false
      → parse_file json fs name d ≡ threw
      → list_loop json fs d entries ≡ none
  unfolding list_loop lookup
  list_loop-throws d [] name b at listed other bad = absurd (ground arith)
  list_loop-throws d ((n, c) ∷ entries) name b at listed other bad =
      elim (Bool-cases (str_eq n name)) [
        | inl hit ↦ let e : n ≡ name = (str_eq_iff n name).0 hit in rw (e, listed, other, bad) refl
        | inr miss ↦
            let rest : list_loop json fs d entries ≡ none =
              list_loop-throws d entries name b (ground arith) listed other bad in
            ground (arith, rest)
      ]

  -- `List` is broken by a single file: if a regular, readable .json file of the directory other than
  -- active.json holds an object whose "id" is a string and whose "name" is not, the exception of
  -- `doc.value` leaves `List`, whatever the other files hold.
  pub list_throws :
      (d : Dir json) (file : String) (b : Bytes) (doc i n : Doc) (id : String)
      → lookup file d ≡ some b
      → regular file && has_json_extension file ≡ true
      → str_eq file "active.json" ≡ false
      → readable file ≡ true
      → parse b ≡ some doc
      → is_object doc ≡ true
      → find "id" doc ≡ some i
      → as_string i ≡ some id
      → find "name" doc ≡ some n
      → as_string n ≡ none
      → list json fs d ≡ none
  unfolding list parse_file
  list_throws d file b doc i n id at listed other opens p o fi si fn sn =
      let bad : parse_file json fs file d ≡ threw = ground arith in
      rw (list_loop-throws d d file b at listed other bad, list) refl
