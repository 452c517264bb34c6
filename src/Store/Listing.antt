-- ===== src/Store/Listing.antt =====
-- `List` of libs/core/src/profile_store.cpp over a directory in any order.
use mathlib.Core.List.{Permᴰ}
use mathlib.Core.List.Permᴰ
use hardware_panel.Base.{
  String, not, ◌&&◌, ◌||◌, ◌≡◌, refl, ap, ap₂, sym, ◌∙◌, subst, List, [], ◌∷◌, Option, none, some,
  str_eq, Bool-cases, inl, inr, if◌then◌else◌,
}
use hardware_panel.Base.Assoc.{lookup}
use hardware_panel.Types.{Profile}
use hardware_panel.Store.{
  Dir, Parsed, threw, skipped, parsed, has_json_extension, sort, parse_bytes, parse_file, list_loop,
  list,
}
use hardware_panel.Store.Env.{Json, FileSystem}
use hardware_panel.Store.Order.{
  IsDistinct, IsAscending, id_of, name_of, sort-Permᴰ, sort-IsAscending, lookup-Permᴰ,
}

-- Both fail, or both give the same profiles in some order.
abbrev SameUpToOrder : Option (List Profile) → Option (List Profile) → Type 0
SameUpToOrder none none = Unit {0}
SameUpToOrder none (some qs) = ⊥
SameUpToOrder (some ps) none = ⊥
SameUpToOrder (some ps) (some qs) = Permᴰ ps qs

same_refl : (r : Option (List Profile)) → SameUpToOrder r r
same_refl none = tt
same_refl (some ps) = Permᴰ.refl ps

same_trans :
    (r s t : Option (List Profile)) → SameUpToOrder r s → SameUpToOrder s t → SameUpToOrder r t
same_trans none none none h k = tt
same_trans none none (some u) h k = k
same_trans none (some q) t h k = elim h [ ]
same_trans (some p) none t h k = elim h [ ]
same_trans (some p) (some q) none h k = k
same_trans (some p) (some q) (some u) h k = Permᴰ.trans h k

-- What one entry adds to the profiles of those after it.
abbrev adds : Parsed → Option (List Profile) → Option (List Profile)
adds x rest = elim x [
  | threw ↦ none
  | skipped ↦ rest
  | parsed p ↦ elim rest [ none ↦ none | some ps ↦ some (p ∷ ps) ]
]

adds-same :
    (x : Parsed) (r s : Option (List Profile))
    → SameUpToOrder r s
    → SameUpToOrder (adds x r) (adds x s)
adds-same threw r s h = tt
adds-same skipped r s h = h
adds-same (parsed p) none none h = tt
adds-same (parsed p) none (some q) h = h
adds-same (parsed p) (some q) none h = h
adds-same (parsed p) (some q) (some u) h = Permᴰ.cons refl h

adds-adds :
    (x y : Parsed) (r : Option (List Profile))
    → SameUpToOrder (adds x (adds y r)) (adds y (adds x r))
adds-adds threw threw r = tt
adds-adds threw skipped r = tt
adds-adds threw (parsed q) r = tt
adds-adds skipped y r = same_refl (adds y r)
adds-adds (parsed p) threw r = tt
adds-adds (parsed p) skipped r = same_refl (adds (parsed p) r)
adds-adds (parsed p) (parsed q) none = tt
adds-adds (parsed p) (parsed q) (some ps) = Permᴰ.swap refl refl

module _ (json : Json) (fs : FileSystem json.Bytes) where
  open fs use {regular}

  -- The answer for one entry: some are passed over.
  abbrev answer : Dir json → String → Parsed
  answer d name =
      if not (regular name && has_json_extension name) || str_eq name "active.json"
      then skipped
      else parse_file json fs name d

  list_loop-adds :
      (d es : Dir json) (e : String × json.Bytes)
      → list_loop json fs d (e ∷ es) ≡ adds (answer d e.0) (list_loop json fs d es)
  unfolding list_loop
  list_loop-adds d es (name, b) =
      elim (Bool-cases
        (not (regular name && has_json_extension name) || str_eq name "active.json")) [
          | inl e ↦ rw e refl
          | inr e ↦ rw e refl
        ]

  list_loop-same :
      (d : Dir json) {es es' : Dir json}
      → Permᴰ es es'
      → SameUpToOrder (list_loop json fs d es) (list_loop json fs d es')
  list_loop-same d Permᴰ.nil = same_refl _
  list_loop-same d (Permᴰ.cons {l₁ = es} {l₂ = es'} e r) =
      rw (list_loop-adds d es _, list_loop-adds d es' _, e) (adds-same _ _ _ (list_loop-same d r))
  list_loop-same d (Permᴰ.swap {a = a} {b = b} {l = es} e f) =
      rw⁻¹ (e, f)
        (rw
          (
            list_loop-adds d (b ∷ es) a,
            list_loop-adds d es b,
            list_loop-adds d (a ∷ es) b,
            list_loop-adds d es a,
          )
          (adds-adds (answer d a.0) (answer d b.0) (list_loop json fs d es)))
  list_loop-same d (Permᴰ.trans r s) = same_trans _ _ _ (list_loop-same d r) (list_loop-same d s)

  answer-lookup :
      (d d' : Dir json) (name : String)
      → lookup name d ≡ lookup name d'
      → answer d name ≡ answer d' name
  unfolding parse_file
  answer-lookup d d' name h =
      let opened : parse_file json fs name d ≡ parse_file json fs name d' =
        ap
          (λ o. elim (if fs.readable name then o else none) [
            | none ↦ skipped
            | some b ↦ parse_bytes json b
          ])
          h in
      ap
        (λ x.
          if not (regular name && has_json_extension name) || str_eq name "active.json"
          then skipped
          else x)
        opened

  -- The loop reads the directory by the names of the entries only.
  list_loop-lookup :
      (d d' es : Dir json)
      → ((name : String) → lookup name d ≡ lookup name d')
      → list_loop json fs d es ≡ list_loop json fs d' es
  unfolding list_loop
  list_loop-lookup d d' [] h = refl
  list_loop-lookup d d' (e ∷ es) h =
      list_loop-adds d es e
      ∙ (ap₂ adds (answer-lookup d d' e.0 (h e.0)) (list_loop-lookup d d' es h)
          ∙ sym (list_loop-adds d' es e))

  -- The profiles that the loop of `List` finds, none if it throws.
  abbrev pub found : Option (List Profile) → List Profile
  found none = []
  found (some ps) = ps

  -- If no two entries of the directory have one name, and no two of the profiles in it one id, `List`
  -- gives the same result in whatever order the directory is enumerated, and what it gives is in
  -- ascending order of the ids.
  pub list_any_order :
      (d d' : Dir json)
      → Permᴰ d d'
      → IsDistinct name_of d
      → IsDistinct id_of (found (list_loop json fs d d))
      → (list json fs d ≡ list json fs d') × IsAscending (found (list json fs d))
  unfolding list
  list_any_order d d' r names ids =
      let same : SameUpToOrder (list_loop json fs d d) (list_loop json fs d' d') =
        subst (SameUpToOrder (list_loop json fs d d))
          (list_loop-lookup d d' d' (λ name. lookup-Permᴰ name r names)) (list_loop-same d r) in
      sorted (list_loop json fs d d) (list_loop json fs d' d') same ids
    where
      sorted :
          (x y : Option (List Profile))
          → SameUpToOrder x y
          → IsDistinct id_of (found x)
          → ((elim x [ none ↦ none | some ps ↦ some (sort ps) ])
              ≡ (elim y [ none ↦ none | some ps ↦ some (sort ps) ]))
            × IsAscending (found (elim x [ none ↦ none | some ps ↦ some (sort ps) ]))
      sorted none none h k = (refl, tt)
      sorted none (some q) h k = elim h [ ]
      sorted (some p) none h k = elim h [ ]
      sorted (some p) (some q) h k = (ap some (sort-Permᴰ h k), sort-IsAscending p)
