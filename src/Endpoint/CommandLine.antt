-- ===== src/Endpoint/CommandLine.antt =====
-- The command line of apps/hwpanel-service/main.cpp.
use hardware_panel.Base.{
  String, Bool, true, false, List, [], ◌∷◌, Option, none, some, str_eq, if◌then◌else◌,
}
use hardware_panel.Endpoint.{default_endpoint}

pub record Options : Type 0 where
  pub endpoint : String
  pub console : Bool

-- The loop over `argv`: `none` is the usage message with exit code 2.
unfoldable pub parse_args : List String → Options → Option Options
parse_args [] o = some o
parse_args (a ∷ []) o = if str_eq a "--console" then some (record o { console = true }) else none
parse_args (a ∷ b ∷ rest) o =
    let plain = parse_args (b ∷ rest) (record o { console = true }) in
    let valued = parse_args rest (record o { endpoint = b }) in
    if str_eq a "--console" then plain else if str_eq a "--endpoint" then valued else none

unfoldable pub options_of : Option String → List String → Option Options
unfolding parse_args
options_of environment args =
    parse_args args (record { endpoint = default_endpoint environment; console = false })
