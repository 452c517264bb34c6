-- ===== src/Logging/Severity.antt =====
-- Whether the sinks keep the order of the levels.
use hardware_panel.Base.{
  ℕ, ◌≤◌, ◌≡◌, refl, String, Bool, true, false, ◌-◌, min, max, Option, none, some, arith,
}
use hardware_panel.Logging.{
  Level, rank, trace, debug, info, warn, err, critical, TraceLevel, verbose, information, warning,
  error, EntryType, information_type, warning_type, error_type, trace_level, entry_type, etw_event,
  eventlog_entry,
}

-- How severe an event is, from 1 on; 0 is none.
abbrev severity_of : TraceLevel → ℕ
severity_of verbose = 1
severity_of information = 2
severity_of warning = 3
severity_of error = 4

abbrev type_severity : EntryType → ℕ
type_severity information_type = 1
type_severity warning_type = 2
type_severity error_type = 3

abbrev trace_severity : Option (TraceLevel × String) → ℕ
trace_severity none = 0
trace_severity (some (level, text)) = severity_of level

abbrev entry_severity : Option (EntryType × String) → ℕ
entry_severity none = 0
entry_severity (some (type, text)) = type_severity type

trace_level-severity :
    (l : Level) → rank debug ≤ rank l → severity_of (trace_level l) ≡ min 4 (rank l)
trace_level-severity trace h = absurd (omega arith)
trace_level-severity debug h = refl
trace_level-severity info h = refl
trace_level-severity warn h = refl
trace_level-severity err h = refl
trace_level-severity critical h = refl

entry_type-severity : (l : Level) → type_severity (entry_type l) ≡ max 1 (min 3 (rank l - 1))
entry_type-severity trace = refl
entry_type-severity debug = refl
entry_type-severity info = refl
entry_type-severity warn = refl
entry_type-severity err = refl
entry_type-severity critical = refl

-- A line of the level `debug` or above, which is what the logger lets through, is no less severe in
-- both Windows logs than one of a lower level.
severity_monotone :
    (on opened : Bool) (a b : Level) (s t : String)
    → rank debug ≤ rank a
    → rank a ≤ rank b
    → (trace_severity (etw_event on a s) ≤ trace_severity (etw_event on b t))
      × (entry_severity (eventlog_entry opened a s) ≤ entry_severity (eventlog_entry opened b t))
unfolding etw_event eventlog_entry
severity_monotone on opened a b s t h k = (traced on, entered opened)
  where
    traced : (on : Bool) → trace_severity (etw_event on a s) ≤ trace_severity (etw_event on b t)
    traced true = omega (arith, trace_level-severity a h, trace_level-severity b (omega arith))
    traced false = omega arith

    entered :
        (opened : Bool)
        → entry_severity (eventlog_entry opened a s) ≤ entry_severity (eventlog_entry opened b t)
    entered true = omega (arith, entry_type-severity a, entry_type-severity b)
    entered false = omega arith
