-- ===== src/Smoke.antt =====
-- tools/hwpanel-smoke/main.cpp: the console client for acceptance runs. What the calls answer is an
-- argument; what is printed is left out.
pub mod Verdict
mod Tests
use hardware_panel.Base.{
  ℕ, suc, ◌+◌, ◌-◌, String, Bool, true, false, ◌&&◌, List, [], ◌∷◌, Option, none, some, str_eq, leb,
  ltb, if◌then◌else◌,
}
use hardware_panel.Base.Int.{ℤ, pos, negsuc, int_lt}
use hardware_panel.Endpoint.{default_endpoint}
use hardware_panel.Executors.Brightness.{atoi}

pub record Options : Type 0 where
  pub endpoint : String
  pub seconds : ℤ
  pub check_status : Bool

-- The loop over `argv`: `none` is the usage message.
unfoldable pub parse_args : List String → Options → Option Options
unfolding atoi
parse_args [] o = some o
parse_args (a ∷ []) o =
    if str_eq a "--status" then some (record o { check_status = true }) else none
parse_args (a ∷ b ∷ rest) o =
    let endpoint = parse_args rest (record o { endpoint = b }) in
    let seconds = parse_args rest (record o { seconds = atoi b }) in
    let status = parse_args (b ∷ rest) (record o { check_status = true }) in
    if str_eq a "--endpoint"
    then endpoint
    else if str_eq a "--seconds"
    then seconds
    else if str_eq a "--status"
    then status
    else none

unfoldable pub options_of : Option String → List String → Option Options
unfolding parse_args
options_of environment args =
    parse_args args
      (record { endpoint = default_endpoint environment; seconds = pos 10; check_status = false })

-- The end of the stream: `status.ok()`, DEADLINE_EXCEEDED or another error.
pub data Finish : Type 0 where
  ok deadline_exceeded error : Finish

abbrev pub deadline_ok : Finish → Bool
deadline_ok ok = true
deadline_ok deadline_exceeded = true
deadline_ok error = false

-- The loop over the samples, by their time stamps: `received` and `monotonic`.
unfoldable pub receive : List ℤ → ℕ → ℤ → Bool → ℕ × Bool
receive [] received last_ts monotonic = (received, monotonic)
receive (ts ∷ samples) received last_ts monotonic =
    receive samples (received + 1) ts (if int_lt ts last_ts then false else monotonic)

-- `std::max(1, seconds - 2)`.
abbrev pub expected : ℤ → ℕ
expected (pos n) = if leb 1 (n - 2) then n - 2 else 1
expected (negsuc n) = 1

-- `main` for the options: the exit code. `status` is whether GetStatus succeeds.
unfoldable pub stream_code : Options → List ℤ → Finish → ℕ
unfolding receive
stream_code o samples finish =
    let (received, monotonic) = receive samples 0 (pos 0) true in
    if deadline_ok finish && (monotonic && leb (expected o.seconds) received) then 0 else 1

unfoldable pub main : Option String → List String → Bool → List ℤ → Finish → ℕ
unfolding options_of stream_code
main environment args status samples finish = elim (options_of environment args) [
  | none ↦ 2
  | some o ↦
      if o.check_status
      then (if status then stream_code o samples finish else 1)
      else stream_code o samples finish
]
