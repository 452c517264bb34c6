-- ===== src/Logging.antt =====
-- libs/core/src/log.cpp, libs/core/src/paths.cpp and apps/hwpanel-service/sinks: where a log line and
-- the data of the service go. spdlog, the file system and the Windows logs are outside; a path is a
-- text, and `join` is its operator `/`.
mod Severity
use hardware_panel.Base.{
  ℕ, String, Bool, true, false, List, [], ◌∷◌, ◌++◌, Option, none, some, leb, ltb, str_eq, ◌&◌,
  ◌==◌, ◌||◌, ◌*◌, if◌then◌else◌,
}

-- `spdlog::level`, in its order.
pub data Level : Type 0 where
  trace debug info warn err critical : Level

abbrev pub rank : Level → ℕ
rank trace = 0
rank debug = 1
rank info = 2
rank warn = 3
rank err = 4
rank critical = 5

abbrev pub same_level : Level → Level → Bool
same_level a b = rank a == rank b

-- The level of a TraceLogging event, and the type of an entry of the event log.
pub data TraceLevel : Type 0 where
  verbose information warning error : TraceLevel

pub data EntryType : Type 0 where
  information_type warning_type error_type : EntryType

-- The level that `EtwSink::sink_it_` dispatches to, and the type that `EventLogSink::sink_it_` picks.
abbrev pub trace_level : Level → TraceLevel
trace_level level =
    if leb (rank err) (rank level)
    then error
    else if same_level level warn
    then warning
    else if same_level level debug
    then verbose
    else information

abbrev pub entry_type : Level → EntryType
entry_type level =
    if leb (rank err) (rank level)
    then error_type
    else if same_level level warn
    then warning_type
    else information_type

-- `EtwSink::sink_it_`: the event that is written, if the provider is registered.
unfoldable pub etw_event : Bool → Level → String → Option (TraceLevel × String)
etw_event registered level text = if registered then some (trace_level level, text) else none

-- `EventLogSink::sink_it_`; the flag is whether the handle is not null.
unfoldable pub eventlog_entry : Bool → Level → String → Option (EntryType × String)
eventlog_entry opened level text = if opened then some (entry_type level, text) else none

-- A sink of the logger, and the logger with its level.
pub data Sink : Type 0 where
  console etw eventlog : Sink
  rotating_file : String → ℕ → ℕ → Sink

pub record Logger : Type 0 where
  pub sinks : List Sink
  pub level : Level
  pub flush_on : Level

module _ (join : String → String → String) where
  -- `Init`; the flag is whether the folder of the logs could be made.
  unfoldable pub init : Bool → String → String → Logger
  init made component data_dir = record {
    sinks =
        console
        ∷ (if made
            then rotating_file (join (join data_dir "logs") (component & ".log")) (5 * 1024 * 1024)
                3
              ∷ []
            else []);
    level = debug;
    flush_on = warn;
  }

  unfoldable pub add_sink : Sink → Logger → Logger
  add_sink sink logger = record logger { sinks = logger.sinks ++ sink ∷ [] }

  abbrev pub max_path : ℕ
  max_path = 260

  abbrev pub nonempty : Option String → Option String
  nonempty none = none
  nonempty (some s) = if str_eq s "" then none else some s

  -- `DataDir`: the variable HWPANEL_DATA, and the length and the text that GetEnvironmentVariableW
  -- gives for PROGRAMDATA.
  unfoldable pub data_dir : Option String → ℕ → String → String
  data_dir override len buf = elim (nonempty override) [
    | some dir ↦ dir
    | none ↦
        if len == 0 || ltb max_path len
        then join "C:\\ProgramData" "HWPanel"
        else join buf "HWPanel"
  ]

  unfoldable pub logs_dir : Option String → ℕ → String → String
  unfolding data_dir
  logs_dir override len buf = join (data_dir override len buf) "logs"

  unfoldable pub profiles_dir : Option String → ℕ → String → String
  unfolding data_dir
  profiles_dir override len buf = join (data_dir override len buf) "profiles"
