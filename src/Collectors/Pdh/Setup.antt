-- ===== src/Collectors/Pdh/Setup.antt =====
-- plugins/collectors/pdh_collector.cpp: the constructor, which registers the counters.
pub mod Handles
use hardware_panel.Base.{
  ℕ, zero, suc, ◌+◌, ◌≡◌, refl, ap, sym, ◌∙◌, ◌≢◌, Bool, true, false, List, [], ◌∷◌, ◌++◌, Option,
  none, some, ltb, ◌==◌, ==_ne, if◌then◌else◌, length, arith, append-nil, append_assoc, get_elem?,
  Option-cases, Bool-cases, inl, inr,
}
use hardware_panel.Collectors.Pdh.{Counter}
use hardware_panel.Collectors.Pdh.CounterPath.{WString, wide, find, localize_path}
use hardware_panel.Collectors.Pdh.Names.{CounterValue, read_z, localized_name, at_text}

-- What the registry and PDH answer: PdhLookupPerfNameByIndexW, the list of PdhExpandWildCardPathW
-- (`none` if one of its two calls does not succeed or it has no size), and PdhAddCounterW.
pub record Machine (H : Type 0) : Type 0 where
  pub opens : Bool
  pub names : Option CounterValue
  pub lookup : ℕ → Option WString
  pub expand : WString → Option (List ℕ)
  pub add : WString → Option H

-- The unit of a wildcard, `L'*'`.
abbrev pub star : ℕ
star = 42

-- `paths`.
abbrev pub paths : List WString
paths =
    wide "\\Processor(_Total)\\% Processor Time"
    ∷ wide "\\Processor Information(_Total)\\Processor Frequency"
    ∷ wide "\\Memory\\Available MBytes"
    ∷ wide "\\PhysicalDisk(_Total)\\Disk Read Bytes/sec"
    ∷ wide "\\PhysicalDisk(_Total)\\Disk Write Bytes/sec"
    ∷ wide "\\GPU Engine(*engtype_3D)\\Utilization Percentage"
    ∷ wide "\\GPU Adapter Memory(*)\\Dedicated Usage"
    ∷ []

module _ {H : Type 0} (machine : Machine H) where
  open machine use {opens, names, lookup, expand, add}

  abbrev pub add_one : WString → ℕ → List (Counter H) → Bool × List (Counter H)
  add_one path spec_index counters = elim (add path) [
    | none ↦ (false, counters)
    | some handle ↦ (true, counters ++ record { handle = handle; spec_index = spec_index } ∷ [])
  ]

  -- The loop over the expanded paths, with fuel, from the flag `added` on.
  unfoldable pub add_expanded : ℕ → List ℕ → ℕ → Bool × List (Counter H) → Bool × List (Counter H)
  add_expanded zero p spec_index r = r
  add_expanded (suc fuel) p spec_index (added, counters) =
      let (expanded, p') = read_z p in
      let (one, counters') = add_one expanded spec_index counters in
      let rest = add_expanded fuel p' spec_index (if one then true else added, counters') in
      if at_text p then rest else (added, counters)

  -- `AddCounter`, for the localized path.
  unfoldable pub add_localized : WString → ℕ → List (Counter H) → Bool × List (Counter H)
  unfolding add_expanded find
  add_localized localized spec_index counters = elim (find star localized) [
    | none ↦ add_one localized spec_index counters
    | some i ↦ elim (expand localized) [
      | none ↦ (false, counters)
      | some buffer ↦ add_expanded (length buffer) buffer spec_index (false, counters)
    ]
  ]

  unfoldable pub add_counter : WString → ℕ → List (Counter H) → Bool × List (Counter H)
  unfolding add_localized localize_path localized_name
  add_counter english_path spec_index counters =
      add_localized (localize_path (localized_name names lookup) english_path) spec_index counters

  -- The loop over the paths from index `i` on.
  unfoldable pub add_all : List WString → ℕ → List (Counter H) → List (Counter H)
  unfolding add_counter
  add_all [] i counters = counters
  add_all (path ∷ paths) i counters = add_all paths (i + 1) (add_counter path i counters).1

  -- `counters_` after the constructor.
  unfoldable pub new_pdh : List (Counter H)
  unfolding add_all
  new_pdh = if opens then add_all paths 0 [] else []
