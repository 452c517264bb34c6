-- ===== src/Collectors/Pdh/Setup/Handles.antt =====
-- Which counters are registered for which specification.
use hardware_panel.Base.{
  ℕ, zero, suc, ◌+◌, ◌<◌, ◌≡◌, refl, ap, sym, ◌∙◌, Bool, true, false, List, [], ◌∷◌, ◌++◌, Option,
  none, some, ◌==◌, ap₂, map-append, if◌then◌else◌, length, arith, append-nil, append_assoc,
  get_elem?, Option-cases, Bool-cases, inl, inr, map, ==_ne,
}
use hardware_panel.Collectors.Pdh.{Counter}
use hardware_panel.Collectors.Pdh.CounterPath.{WString, find, localize_path}
use hardware_panel.Collectors.Pdh.Names.{read_z, localized_name, at_text}
use hardware_panel.Collectors.Pdh.Setup.{
  Machine, star, add_one, add_expanded, add_counter, add_localized, paths, add_all, new_pdh,
}

abbrev tag : {H : Type 0} → ℕ → H → Counter H
tag i h = record { handle = h; spec_index = i }

-- The handles of the counters with one index.
abbrev pub handles_at : {H : Type 0} → ℕ → List (Counter H) → List H
handles_at k [] = []
handles_at k (c ∷ cs) =
    let rest = handles_at k cs in if c.spec_index == k then c.handle ∷ rest else rest

handles_at-append :
    {H : Type 0} (k : ℕ) (cs ds : List (Counter H))
    → handles_at k (cs ++ ds) ≡ handles_at k cs ++ handles_at k ds
handles_at-append k [] ds = refl
handles_at-append k (c ∷ cs) ds = ground (arith, handles_at-append k cs ds)

handles_at-tag_same : {H : Type 0} (k : ℕ) (hs : List H) → handles_at k (map (tag k) hs) ≡ hs
handles_at-tag_same k [] = refl
handles_at-tag_same k (h ∷ hs) = ground (arith, handles_at-tag_same k hs)

handles_at-tag_other :
    {H : Type 0} (k i : ℕ) (hs : List H) → (i == k) ≡ false → handles_at k (map (tag i) hs) ≡ []
handles_at-tag_other k i [] ne = refl
handles_at-tag_other k i (h ∷ hs) ne = rw ne (handles_at-tag_other k i hs ne)

some-injective : (a b : WString) → some a ≡ some b → a ≡ b
some-injective a b e = ground arith

module _ {H : Type 0} (machine : Machine H) where
  open machine use {opens, names, lookup, expand, add}

  abbrev handle_of : Option H → List H
  handle_of none = []
  handle_of (some h) = h ∷ []

  -- The handles for the texts of an expanded list.
  abbrev pub expanded_handles : ℕ → List ℕ → List H
  expanded_handles zero p = []
  expanded_handles (suc fuel) p =
      let (expanded, p') = read_z p in
      let rest = expanded_handles fuel p' in
      if at_text p then handle_of (add expanded) ++ rest else []

  -- The handles that PDH gives for a path: of itself, or of the paths that a wildcard stands for.
  abbrev localized_handles : WString → List H
  localized_handles localized = elim (find star localized) [
    | none ↦ handle_of (add localized)
    | some i ↦ elim (expand localized) [
      | none ↦ []
      | some buffer ↦ expanded_handles (length buffer) buffer
    ]
  ]

  abbrev pub handles_of : WString → List H
  handles_of path = localized_handles (localize_path (localized_name names lookup) path)

  add_one-handles :
      (path : WString) (i : ℕ) (cs : List (Counter H))
      → (add_one machine path i cs).1 ≡ cs ++ map (tag i) (handle_of (add path))
  add_one-handles path i cs = elim (Option-cases (add path)) [
    | inl e ↦ rw (add_one, e) (sym (append-nil cs))
    | inr (h, e) ↦ rw (add_one, e) refl
  ]

  add_expanded-handles :
      (fuel : ℕ) (p : List ℕ) (i : ℕ) (added : Bool) (cs : List (Counter H))
      → (add_expanded machine fuel p i (added, cs)).1 ≡ cs ++ map (tag i) (expanded_handles fuel p)
  unfolding add_expanded
  add_expanded-handles zero p i added cs = sym (append-nil cs)
  add_expanded-handles (suc fuel) p i added cs = elim (Bool-cases (at_text p)) [
    | inl e ↦ rw e (
        add_expanded-handles fuel (read_z p).1 i
          (if (add_one machine (read_z p).0 i cs).0 then true else added)
          (add_one machine (read_z p).0 i cs).1
        ∙ (ap (λ ds. ds ++ map (tag i) (expanded_handles fuel (read_z p).1))
              (add_one-handles (read_z p).0 i cs)
            ∙ (append_assoc cs (map (tag i) (handle_of (add (read_z p).0)))
                  (map (tag i) (expanded_handles fuel (read_z p).1))
                ∙ ap (λ ds. cs ++ ds)
                    (sym (
                      map-append (tag i) (handle_of (add (read_z p).0))
                        (expanded_handles fuel (read_z p).1))))))
    | inr e ↦ rw e (sym (append-nil cs))
  ]

  add_localized-handles :
      (localized : WString) (i : ℕ) (cs : List (Counter H))
      → (add_localized machine localized i cs).1 ≡ cs ++ map (tag i) (localized_handles localized)
  unfolding add_localized
  add_localized-handles localized i cs = elim (Option-cases (find star localized)) [
    | inl e ↦ rw (add_localized, localized_handles, e) (add_one-handles localized i cs)
    | inr (at, e) ↦ elim (Option-cases (expand localized)) [
      | inl e' ↦ rw (add_localized, localized_handles, e, e') (sym (append-nil cs))
      | inr (buffer, e') ↦
          rw (add_localized, localized_handles, e, e')
            (add_expanded-handles (length buffer) buffer i false cs)
    ]
  ]

  add_counter-handles :
      (path : WString) (i : ℕ) (cs : List (Counter H))
      → (add_counter machine path i cs).1 ≡ cs ++ map (tag i) (handles_of path)
  unfolding add_counter
  add_counter-handles path i cs =
      add_localized-handles (localize_path (localized_name names lookup) path) i cs

  add_all-step :
      (p : WString) (ps : List WString) (i : ℕ) (cs : List (Counter H))
      → add_all machine (p ∷ ps) i cs
        ≡ add_all machine ps (i + 1) (cs ++ map (tag i) (handles_of p))
  unfolding add_all
  add_all-step p ps i cs = ap (λ ds. add_all machine ps (i + 1) ds) (add_counter-handles p i cs)

  -- A path adds its handles at its own index and none at another one.
  handles_at-other :
      (k i : ℕ) (cs : List (Counter H)) (hs : List H)
      → (i == k) ≡ false
      → handles_at k (cs ++ map (tag i) hs) ≡ handles_at k cs
  handles_at-other k i cs hs ne =
      handles_at-append k cs (map (tag i) hs)
      ∙ (ap (λ ds. handles_at k cs ++ ds) (handles_at-tag_other k i hs ne)
          ∙ append-nil (handles_at k cs))

  handles_at-own :
      (k : ℕ) (cs : List (Counter H)) (hs : List H)
      → handles_at k cs ≡ []
      → handles_at k (cs ++ map (tag k) hs) ≡ hs
  handles_at-own k cs hs h =
      handles_at-append k cs (map (tag k) hs) ∙ ap₂ ◌++◌ h (handles_at-tag_same k hs)

  add_all-later :
      (ps : List WString) (i k : ℕ) (cs : List (Counter H))
      → k < i
      → handles_at k (add_all machine ps i cs) ≡ handles_at k cs
  unfolding add_all
  add_all-later [] i k cs h = refl
  add_all-later (p ∷ ps) i k cs h =
      ap (handles_at k) (add_all-step p ps i cs)
      ∙ (add_all-later ps (i + 1) k (cs ++ map (tag i) (handles_of p)) (omega arith)
          ∙ handles_at-other k i cs (handles_of p) (==_ne i k (λ same. omega arith)))

  add_all-handles :
      (ps : List WString) (i j k : ℕ) (path : WString) (cs : List (Counter H))
      → i + j ≡ k
      → get_elem? ps j ≡ some path
      → handles_at k cs ≡ []
      → handles_at k (add_all machine ps i cs) ≡ handles_of path
  add_all-handles [] i j k path cs e found h = ground arith
  add_all-handles (p ∷ ps) i zero k path cs e found h =
      let same : i ≡ k = omega arith in
      ap (handles_at k) (add_all-step p ps i cs)
      ∙ (add_all-later ps (i + 1) k (cs ++ map (tag i) (handles_of p)) (omega arith)
          ∙ (ap (λ n. handles_at k (cs ++ map (tag n) (handles_of p))) same
              ∙ (handles_at-own k cs (handles_of p) h
                  ∙ ap handles_of (some-injective p path found))))
  add_all-handles (p ∷ ps) i (suc j) k path cs e found h =
      ap (handles_at k) (add_all-step p ps i cs)
      ∙ add_all-handles ps (i + 1) j k path (cs ++ map (tag i) (handles_of p)) (omega arith) found
          (handles_at-other k i cs (handles_of p) (==_ne i k (λ same. omega arith)) ∙ h)

  -- After a constructor that could open its query, the counters of the specification at index `k` are
  -- the ones that PDH gives for the path at index `k`, in its order: of the localized path, or of each
  -- path that its wildcard stands for; a path that PDH does not know leaves those of the others alone.
  pub handles_at-new_pdh :
      (k : ℕ) (path : WString)
      → opens ≡ true
      → get_elem? paths k ≡ some path
      → handles_at k (new_pdh machine) ≡ handles_of path
  unfolding new_pdh
  handles_at-new_pdh k path opened found =
      rw opened (add_all-handles paths 0 k k path [] (omega arith) found refl)
