-- ===== src/Manager/Reversible.antt =====
-- Executors that can be undone, and the settings of a profile applied in turn.
use hardware_panel.Base.{
  String, true, false, ◌≡◌, List, [], ◌∷◌, Option, none, some, if◌then◌else◌, ◌&&◌,
}
use hardware_panel.Executors.{Executor}
use hardware_panel.Manager.{find_executor}

-- What a rollback relies on: `Same` relates states that the executors do not tell apart, a refused
-- `Apply` leaves the state the same, and applying the value read before undoes an `Apply`.
pub record IsReversible {W : Type 0} (Same : W → W → Type 0) (e : Executor W) : Type 0 where
  pub apply_cong : (v : String) (w w' : W) → Same w w' → Same (e.apply v w).1 (e.apply v w').1
  pub apply_refused : (v : String) (w : W) → (e.apply v w).0.ok ≡ false → Same (e.apply v w).1 w
  pub apply_undo :
      (v : String) (w : W)
      → (e.apply v w).0.ok ≡ true
      → Same (e.apply (e.current_value w) (e.apply v w).1).1 w

pub record IsReflTrans {W : Type 0} (Same : W → W → Type 0) : Type 0 where
  pub same_refl : (w : W) → Same w w
  pub same_trans : (w w' w'' : W) → Same w w' → Same w' w'' → Same w w''

abbrev pub All {ℓ} : {A : Type ℓ} → (A → Type 0) → List A → Type 0
All P [] = Unit {0}
All P (x ∷ xs) = P x × All P xs

-- What the settings do when each is found, available and accepted in turn: the state after them, or
-- the failure of the first that is not.
module _ {W : Type 0} (executors : List (Executor W)) where
  unfoldable pub attempt : String → W → Option (Executor W) → Option (Executor W × W)
  attempt v w none = none
  attempt v w (some e) =
      if e.available w && (e.apply v w).0.ok then some (e, (e.apply v w).1) else none

  -- The state after all settings, `none` if one of them fails.
  unfoldable pub apply_each : List (String × String) → W → Option W
  unfolding attempt
  apply_each [] w = some w
  apply_each ((k, v) ∷ m) w = elim (attempt v w (find_executor k executors)) [
    | none ↦ none
    | some (e, w') ↦ apply_each m w'
  ]

  -- The keys of the settings before the first that fails.
  unfoldable pub keys_before_failure : List (String × String) → W → List String
  unfolding attempt
  keys_before_failure [] w = []
  keys_before_failure ((k, v) ∷ m) w = elim (attempt v w (find_executor k executors)) [
    | none ↦ []
    | some (e, w') ↦ k ∷ keys_before_failure m w'
  ]
