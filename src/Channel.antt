-- ===== src/Channel.antt =====
-- libs/core/src/channel_manager.cpp: the client's connection watchdog. What the channel does is an
-- argument, one value for each round of the monitor thread until `Stop`: the answer of
-- `channel->GetState(true)`, and when the channel leaves that state. A call of the state callback is
-- a value that the step returns.
pub mod Backoff
pub mod Transitions
mod Tests
use hardware_panel.Base.{
  ℕ, ◌*◌, min, String, Bool, true, false, List, [], ◌∷◌, ◌++◌, Option, none, some, if◌then◌else◌,
}

pub data ConnectionState : Type 0 where
  disconnected connecting connected : ConnectionState

-- The values of `grpc_connectivity_state`.
pub data Connectivity : Type 0 where
  ready connecting transient_failure shutdown idle : Connectivity

-- A round's `GetState`, and after how many milliseconds of `WaitForStateChange` the channel leaves
-- that state, `none` if it never does.
pub record Probe : Type 0 where
  pub gstate : Connectivity
  pub changes_after : Option ℕ

-- `static_cast<int>` of a state is its position.
abbrev pub same_state : ConnectionState → ConnectionState → Bool
same_state ConnectionState.disconnected ConnectionState.disconnected = true
same_state ConnectionState.connecting ConnectionState.connecting = true
same_state ConnectionState.connected ConnectionState.connected = true
same_state _ _ = false

abbrev pub to_string : ConnectionState → String
to_string ConnectionState.disconnected = "disconnected"
to_string ConnectionState.connecting = "connecting"
to_string ConnectionState.connected = "connected"

-- `thread` is `thread_.joinable()`.
pub record Manager : Type 0 where
  pub address : String
  pub has_channel : Bool
  pub state : ConnectionState
  pub has_callback : Bool
  pub running : Bool
  pub thread : Bool

unfoldable pub new : String → Manager
new address = record {
  address = address;
  has_channel = false;
  state = ConnectionState.disconnected;
  has_callback = false;
  running = false;
  thread = false;
}

unfoldable pub start : Manager → Manager
start m = if m.running then m else record m { running = true; thread = true }

unfoldable pub stop : Manager → Manager
stop m = if m.running then record m { running = false; thread = false } else m

unfoldable pub set_state_callback : Bool → Manager → Manager
set_state_callback callback m = record m { has_callback = callback }

-- The new state, and the callback's argument if it is called.
unfoldable pub set_state : ConnectionState → Manager → Manager × List ConnectionState
set_state s m =
    if same_state m.state s
    then (m, [])
    else (record m { state = s }, if m.has_callback then s ∷ [] else [])

-- The `switch` of the loop: the state that is set, and the new backoff.
abbrev pub react : Connectivity → ℕ → Manager → Manager × List ConnectionState × ℕ
react Connectivity.ready backoff m =
    let (m', calls) = set_state ConnectionState.connected m in (m', calls, 1)
react Connectivity.connecting backoff m =
    let (m', calls) = set_state ConnectionState.connecting m in (m', calls, backoff)
react Connectivity.transient_failure backoff m =
    let (m', calls) = set_state ConnectionState.disconnected m in (m', calls, backoff)
react Connectivity.shutdown backoff m =
    let (m', calls) = set_state ConnectionState.disconnected m in (m', calls, backoff)
react Connectivity.idle backoff m = (m, [], backoff)

abbrev pub is_failure : Connectivity → Bool
is_failure Connectivity.transient_failure = true
is_failure Connectivity.shutdown = true
is_failure _ = false

-- `WaitForStateChange` with a deadline that is `timeout` away: it returns at the change of the state
-- or at the deadline.
abbrev pub wait_for_state_change : Option ℕ → ℕ → ℕ
wait_for_state_change none timeout = timeout
wait_for_state_change (some t) timeout = min t timeout

-- One round up to the wait: the callbacks, the deadline's distance in milliseconds, and the backoff
-- in seconds for the next round.
unfoldable pub round : Connectivity → ℕ → Manager → Manager × List ConnectionState × ℕ × ℕ
round g backoff m =
    let (m', calls, b) = react g backoff m in
    if is_failure g then (m', calls, b * 1000, min (b * 2) 15) else (m', calls, 500, b)

-- The rounds until `running_` is false, then the last `SetState`; all callbacks in order, and how
-- long each round has waited.
unfoldable pub rounds : List Probe → ℕ → Manager → Manager × List ConnectionState × List ℕ
rounds [] backoff m = let (m', calls) = set_state ConnectionState.disconnected m in (m', calls, [])
rounds (p ∷ ps) backoff m =
    let (m', calls, timeout, b) = round p.gstate backoff m in
    let (m'', calls', waits) = rounds ps b m' in
    (m'', calls ++ calls', wait_for_state_change p.changes_after timeout ∷ waits)

unfoldable pub monitor_loop : List Probe → Manager → Manager × List ConnectionState × List ℕ
monitor_loop ps m = rounds ps 1 (record m { has_channel = true })
