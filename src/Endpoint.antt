-- ===== src/Endpoint.antt =====
-- libs/core/src/endpoint.cpp: where the service listens and the client connects. The environment
-- variable HWPANEL_ENDPOINT is an argument, `none` if it is not set, and `std::to_string` of the port
-- is given as a function.
pub mod CommandLine
use hardware_panel.Base.{ℕ, String, Bool, Option, none, some, str_eq, ◌&◌, if◌then◌else◌}
use text.Mathlib.Text.{starts_with}

abbrev pub pipe_name : String
pipe_name = "hwpanel"

abbrev pub default_tcp_port : ℕ
default_tcp_port = 50051

unfoldable pub named_pipe_address : String
named_pipe_address = "np:\\\\.\\pipe\\" & pipe_name

unfoldable pub tcp_address : (ℕ → String) → ℕ → String
tcp_address to_string port = "127.0.0.1:" & to_string port

unfoldable pub default_endpoint : Option String → String
unfolding named_pipe_address
default_endpoint none = named_pipe_address
default_endpoint (some override) = if str_eq override "" then named_pipe_address else override

-- `address.rfind("np:", 0) == 0`.
unfoldable pub is_named_pipe_address : String → Bool
is_named_pipe_address address = starts_with address "np:"
