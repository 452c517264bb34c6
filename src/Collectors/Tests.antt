-- ===== src/Collectors/Tests.antt =====
-- A machine with one card and two counters, a table of counter names, and the properties at them.
use hardware_panel.Base.{
  ℕ, ◌+◌, ◌-◌, ◌*◌, ◌/◌, ◌^◌, ◌≡◌, ◌↔◌, refl, List, [], ◌∷◌, ◌++◌, true, none, some, ◌==◌,
  if◌then◌else◌,
}
use hardware_panel.Base.Int.{ℤ, pos, negsuc}
use hardware_panel.Collectors.{Numbers}
use hardware_panel.Collectors.Gpu.Load.{nvml_loads}
use hardware_panel.Collectors.Gpu.Engines.{pdh_load}
use hardware_panel.Collectors.Nvml
use hardware_panel.Collectors.Nvml.{Library}
use hardware_panel.Collectors.Pdh
use hardware_panel.Collectors.Pdh.{Counter, Query}
use hardware_panel.Collectors.Pdh.CounterPath.{
  wide, PathParts, find, parse_path, join_parts, localize_path,
}
use hardware_panel.Collectors.Pdh.CounterPath.RoundTrip.{IsPlain}
use hardware_panel.Collectors.Pdh.CounterPath.Sound.{parse_path-join_parts_iff}
use hardware_panel.Collectors.Pdh.Names.{
  localized_name, read_z, english_name_to_index, same_name, wcstoul, wide_digits,
}
use hardware_panel.Collectors.Pdh.Names.Table.{Entry, encode, english_name_to_index-encode}
use hardware_panel.Collectors.Pdh.Setup.{Machine, new_pdh}
use hardware_panel.Collectors.Pdh.Setup.Handles.{handles_at, handles_of, handles_at-new_pdh}
use hardware_panel.Collectors.Wmi.{Answer, no_com, no_connection, zones, new_wmi}
use hardware_panel.Collectors.Wmi.Streak.{polls, Contains, disables_iff}

abbrev of_ℤ : ℤ → ℕ
of_ℤ (pos n) = n
of_ℤ (negsuc n) = 0

-- Whole numbers in place of `double`.
abbrev whole : Numbers
whole = record {
  V = ℕ;
  literal = λ n d. n / 10 ^ d;
  of_int = of_ℤ;
  of_unsigned = λ n. n;
  add = λ a b. a + b;
  sub = λ a b. a - b;
  mul = λ a b. a * b;
  div = λ a b. a / b;
}

-- The connection is refused ten times, with a failure of COM in between.
abbrev refusals : List Answer
refusals =
    no_connection
    ∷ no_connection
    ∷ zones []
    ∷ no_connection
    ∷ no_connection
    ∷ no_com
    ∷ zones (none ∷ [])
    ∷ no_connection
    ∷ no_connection
    ∷ no_connection
    ∷ no_connection
    ∷ []

disables_iff_example : ((polls whole refusals new_wmi).disabled ≡ true) ↔ Contains 10 refusals
disables_iff_example = disables_iff whole refusals

-- Two engines at 20 and 30 percent, seen by PDH, and the card of NVML at 45 percent.
abbrev engines : List (Counter ℕ)
engines = record { handle = 20; spec_index = 5 } ∷ record { handle = 30; spec_index = 5 } ∷ []

abbrev query : Query ℕ ℕ ℕ
query = record { update = λ s. true; value = λ h s. some h; total_physical = λ s. none }

abbrev card : Library ℕ
card = record {
  Device = ℕ;
  init = some true;
  get_count = some (λ s. some 1);
  get_handle = some (λ i s. some i);
  get_utilization = some (λ d s. some 45);
  get_memory_info = none;
  get_temperature = none;
  get_power_usage = none;
  get_clock_info = none;
}

both_loads : pdh_load whole query engines 0 ++ nvml_loads whole card true 0 ≡ 50 ∷ 45 ∷ []
unfolding Pdh.ready Pdh.sum_of Nvml.ready
both_loads = refl

abbrev engine_path : PathParts
engine_path = record {
  object = wide "GPU Engine";
  instance' = wide "*engtype_3D";
  counter = wide "Utilization Percentage";
}

parse_path-join_parts_iff_example :
    (parse_path (join_parts engine_path) ≡ some engine_path) ↔ IsPlain engine_path
parse_path-join_parts_iff_example = parse_path-join_parts_iff engine_path

-- The head of the English table.
abbrev first_entries : List Entry
first_entries =
    record { index = wide "2"; name = wide "System" }
    ∷ record { index = wide "4"; name = wide "Memory" }
    ∷ []

abbrev one_entry : Entry
one_entry = record { index = wide "1"; name = wide "1847" }

english_name_to_index-encode_example :
    english_name_to_index
      (some
        (record { multi_sz = true; units = encode (one_entry ∷ first_entries); readable = true }))
      (wide "memory")
    ≡ some 4
unfolding same_name wcstoul wide_digits
english_name_to_index-encode_example =
    english_name_to_index-encode one_entry first_entries (wide "memory") refl

-- PDH knows the processor's path, and expands each wildcard to the paths `a` and `b`.
abbrev engines_only : Machine ℕ
engines_only = record {
  opens = true;
  names = none;
  lookup = λ i. none;
  expand = λ path. some (97 ∷ 0 ∷ 98 ∷ 0 ∷ 0 ∷ []);
  add = λ path. elim path [ [] ↦ none | c ∷ s ↦ if c == 92 then none else some c ];
}

two_engines :
    handles_of engines_only (wide "\\GPU Engine(*engtype_3D)\\Utilization Percentage")
    ≡ 97 ∷ 98 ∷ []
unfolding find localize_path localized_name read_z
two_engines = refl

handles_at-new_pdh_example :
    handles_at 5 (new_pdh engines_only)
    ≡ handles_of engines_only (wide "\\GPU Engine(*engtype_3D)\\Utilization Percentage")
handles_at-new_pdh_example =
    handles_at-new_pdh engines_only 5 (wide "\\GPU Engine(*engtype_3D)\\Utilization Percentage")
      refl refl
