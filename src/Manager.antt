-- ===== src/Manager.antt =====
-- libs/config/src/profile_manager.cpp: applying a profile as a transaction over the executors. The
-- manager's methods run under its mutex, so each is one step. Log lines are left out; the watch on
-- the directory is in Manager/Watch.
pub mod Recorded
pub mod Reversible
pub mod Rollback
pub mod Watch
mod Tests
use hardware_panel.Base.{
  String, Bool, true, false, List, [], ◌∷◌, ◌++◌, Option, none, some, str_eq, ◌&◌, if◌then◌else◌,
}
use hardware_panel.Base.Int.{ℤ}
use hardware_panel.Types.{Profile}
use hardware_panel.Bus
use hardware_panel.Bus.{Bus}
use hardware_panel.Executors.{Executor, ApplyResult}
use hardware_panel.Store
use hardware_panel.Store.{Dir, Parsed, threw, skipped, parsed}
use hardware_panel.Store.Env.{Json, FileSystem}

pub record SwitchResult : Type 0 where
  pub ok : Bool
  pub message : String
  pub rolled_back_keys : List String

-- How the loop over the settings ends: all applied, or with the result's message, the text of the
-- event, and the keys that were rolled back.
pub data Outcome : Type 0 where
  applied_all : Outcome
  failed : (message event : String) → List String → Outcome

-- `applied`, the latest first, as the rollback walks through it.
abbrev pub Applied : Type 0 → Type 0
Applied W = List (Executor W × String)

-- `PublishNow` on `events_`, unless that is null.
abbrev pub notify : ℤ → String → String → String → Option Bus → Option Bus
notify now level title message none = none
notify now level title message (some bus) = some (Bus.publish_now now level title message bus)

module _ {W : Type 0} where
  unfoldable pub find_executor : String → List (Executor W) → Option (Executor W)
  find_executor k [] = none
  find_executor k (e ∷ es) = if str_eq e.key k then some e else find_executor k es

  unfoldable pub roll_back : Applied W → W → List String × W
  roll_back [] w = ([], w)
  roll_back ((e, previous) ∷ applied) w =
      let (keys, w') = roll_back applied (e.apply previous w).1 in (e.key ∷ keys, w')

  abbrev pub fail : String → String → List String × W → Outcome × W
  fail message event (rolled, w) = (failed message event rolled, w)

  module _ (executors : List (Executor W)) where
    -- The loop over `profile.settings`.
    unfoldable pub apply_settings : List (String × String) → Applied W → W → Outcome × W
    unfolding find_executor roll_back
    apply_settings [] applied w = (applied_all, w)
    apply_settings ((key, desired) ∷ settings) applied w = elim (find_executor key executors) [
      | none ↦ let reason = "no executor for key " & key in fail reason reason (roll_back applied w)
      | some e ↦ elim (e.available w) [
        | false ↦
            let reason = "executor unavailable: " & key in fail reason reason (roll_back applied w)
        | true ↦ elim ((e.apply desired w).0.ok) [
          | false ↦
              let message = (e.apply desired w).0.message in
              fail message (key & ": " & message & " (rolled back)")
                (roll_back applied (e.apply desired w).1)
          | true ↦ apply_settings settings ((e, e.current_value w) ∷ applied) (e.apply desired w).1
        ]
      ]
    ]

module _ (json : Json) (fs : FileSystem json.Bytes) where
  -- `bus` is `events_`, which may be null; `world` is what the executors act on.
  pub record State (W : Type 0) : Type 0 where
    pub dir : Dir json
    pub world : W
    pub bus : Option Bus

  module _ {W : Type 0} where
    unfoldable pub list : State W → Option (List Profile)
    list s = Store.list json fs s.dir

    unfoldable pub active_id : State W → String
    active_id s = Store.active_id json fs s.dir

    -- The end of `SwitchTo`, after the loop.
    unfoldable pub conclude : ℤ → String → Profile → State W → Outcome × W → State W × SwitchResult
    conclude now profile_id profile s (applied_all, w) = (
      record {
        dir = Store.set_active_id json fs profile_id s.dir;
        world = w;
        bus = notify now "info" "Profile applied" profile.name s.bus;
      },
      record { ok = true; message = "ok"; rolled_back_keys = [] },
    )
    conclude now profile_id profile s (failed message event rolled, w) = (
      record {
        dir = s.dir;
        world = w;
        bus = notify now "error" "Profile switch failed" event s.bus;
      },
      record { ok = false; message = message; rolled_back_keys = rolled },
    )

    -- `none` is the exception that the store's `Get` lets through.
    unfoldable pub switch_to :
        List (Executor W) → ℤ → String → State W → Option (State W × SwitchResult)
    unfolding conclude apply_settings
    switch_to executors now profile_id s = elim (Store.get json fs profile_id s.dir) [
      | threw ↦ none
      | skipped ↦ some (
        s,
        record { ok = false; message = "profile not found: " & profile_id; rolled_back_keys = [] },
      )
      | parsed profile ↦
          some (
            conclude now profile_id profile s
              (apply_settings executors profile.settings [] s.world))
    ]
