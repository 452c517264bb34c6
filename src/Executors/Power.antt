-- ===== src/Executors/Power.antt =====
-- plugins/executors/power_plan_executor.cpp: the Windows power plans. PowerGetActiveScheme and
-- PowerSetActiveScheme are a record of functions of the machine's state; the numbers that `sscanf_s`
-- reads from a text, and `std::to_string`, are arguments.
use hardware_panel.Base.{
  ℕ, zero, suc, ◌%◌, ◌/◌, ◌^◌, ◌≡◌, refl, ap, sym, ◌∙◌, List, [], ◌∷◌, Option, none, some, String,
  Bool, true, false, ◌==◌, str_eq_iff, ◌⊎◌, ◌&&◌, ◌&◌, str_eq, get_elem?, if◌then◌else◌, arith, inl,
  inr, Bool-cases, map,
}
use hardware_panel.Executors.{ApplyResult, Executor}

-- `data4` are the eight bytes of `Data4`.
pub record Guid : Type 0 where
  pub data1 : ℕ
  pub data2 : ℕ
  pub data3 : ℕ
  pub data4 : List ℕ

abbrev pub balanced_plan : Guid
balanced_plan = record {
  data1 = 941310498;
  data2 = 63124;
  data3 = 16880;
  data4 = 150 ∷ 133 ∷ 255 ∷ 91 ∷ 178 ∷ 96 ∷ 223 ∷ 46 ∷ [];
}

abbrev pub high_performance_plan : Guid
high_performance_plan = record {
  data1 = 2355003354;
  data2 = 59583;
  data3 = 19094;
  data4 = 154 ∷ 133 ∷ 166 ∷ 226 ∷ 58 ∷ 140 ∷ 99 ∷ 92 ∷ [];
}

abbrev pub power_saver_plan : Guid
power_saver_plan = record {
  data1 = 2709787400;
  data2 = 13633;
  data3 = 20395;
  data4 = 188 ∷ 129 ∷ 247 ∷ 21 ∷ 86 ∷ 242 ∷ 11 ∷ 74 ∷ [];
}

-- `memcmp` of two GUIDs.
abbrev pub same_bytes : List ℕ → List ℕ → Bool
same_bytes [] [] = true
same_bytes [] (y ∷ ys) = false
same_bytes (x ∷ xs) [] = false
same_bytes (x ∷ xs) (y ∷ ys) = x == y && same_bytes xs ys

unfoldable pub same_guid : Guid → Guid → Bool
same_guid g h =
    g.data1 == h.data1 && g.data2 == h.data2 && g.data3 == h.data3 && same_bytes g.data4 h.data4

abbrev pub hex_chars : List String
hex_chars =
    "0" ∷ "1" ∷ "2" ∷ "3" ∷ "4" ∷ "5" ∷ "6" ∷ "7" ∷ "8" ∷ "9" ∷ "a" ∷ "b" ∷ "c" ∷ "d" ∷ "e" ∷ "f"
    ∷ []

-- The format `%0wx` of a number with at most `w` digits.
unfoldable pub hex : ℕ → ℕ → String
hex zero n = ""
hex (suc w) n = hex w (n / 16) & elim (get_elem? hex_chars (n % 16)) [ none ↦ "" | some c ↦ c ]

abbrev pub hex_bytes : List ℕ → String
hex_bytes [] = ""
hex_bytes (b ∷ bs) = hex 2 b & hex_bytes bs

abbrev pub hex_groups : List ℕ → String
hex_groups (a ∷ b ∷ bs) = hex 2 a & hex 2 b & "-" & hex_bytes bs
hex_groups bs = hex_bytes bs

unfoldable pub guid_to_string : Guid → String
unfolding hex
guid_to_string g =
    hex 8 g.data1 & "-" & hex 4 g.data2 & "-" & hex 4 g.data3 & "-" & hex_groups g.data4

-- `ParseGuid` of the numbers that `sscanf_s` has stored: all 11, or it fails.
unfoldable pub parse_guid : List ℕ → Option Guid
parse_guid (d1 ∷ d2 ∷ d3 ∷ a ∷ b ∷ c ∷ d ∷ e ∷ f ∷ g ∷ h ∷ []) = some (record {
  data1 = d1;
  data2 = d2 % 2 ^ 16;
  data3 = d3 % 2 ^ 16;
  data4 = map (λ n. n % 2 ^ 8) (a ∷ b ∷ c ∷ d ∷ e ∷ f ∷ g ∷ h ∷ []);
})
parse_guid _ = none

unfoldable pub alias_to_guid : String → Option Guid
alias_to_guid alias =
    if str_eq alias "balanced"
    then some balanced_plan
    else if str_eq alias "high"
    then some high_performance_plan
    else if str_eq alias "saver"
    then some power_saver_plan
    else none

unfoldable pub guid_to_alias : Guid → String
unfolding same_guid guid_to_string
guid_to_alias g =
    if same_guid g balanced_plan
    then "balanced"
    else if same_guid g high_performance_plan
    then "high"
    else if same_guid g power_saver_plan
    then "saver"
    else guid_to_string g

alias_of : Option Guid → String
alias_of none = ""
alias_of (some g) = guid_to_alias g

alias_of-alias_to_guid :
    (alias : String) → (alias_to_guid alias ≡ none) ⊎ (alias_of (alias_to_guid alias) ≡ alias)
unfolding alias_of alias_to_guid guid_to_alias same_guid
alias_of-alias_to_guid alias = elim (Bool-cases (str_eq alias "balanced")) [
  | inl b ↦ inr (rw b (sym ((str_eq_iff alias "balanced").0 b)))
  | inr b ↦ elim (Bool-cases (str_eq alias "high")) [
    | inl h ↦ inr (rw (b, h) (sym ((str_eq_iff alias "high").0 h)))
    | inr h ↦ elim (Bool-cases (str_eq alias "saver")) [
      | inl s ↦ inr (rw (b, h, s) (sym ((str_eq_iff alias "saver").0 s)))
      | inr s ↦ inl (rw (b, h, s) refl)
    ]
  ]
]

alias-back : (alias : String) (g : Guid) → alias_to_guid alias ≡ some g → guid_to_alias g ≡ alias
unfolding alias_of
alias-back alias g e = elim (alias_of-alias_to_guid alias) [
  | inl missing ↦ absurd (ground (arith, missing, e))
  | inr back ↦ sym (ap alias_of e) ∙ back
]

-- `active` is `none` if the call fails or gives no scheme; `set_active` returns 0 for ERROR_SUCCESS.
pub record PowerSchemes (W : Type 0) : Type 0 where
  pub active : W → Option Guid
  pub set_active : Guid → W → ℕ × W

module _ {W : Type 0} (system : PowerSchemes W) where
  open system use {active, set_active}

  unfoldable pub current_value : W → String
  unfolding guid_to_alias
  current_value w = elim (active w) [ none ↦ "" | some g ↦ guid_to_alias g ]

  abbrev pub guid_of : (String → List ℕ) → String → Option Guid
  guid_of scan desired = elim (alias_to_guid desired) [
    | none ↦ parse_guid (scan desired)
    | some g ↦ some g
  ]

  abbrev pub set_scheme : (ℕ → String) → String → ℕ × W → ApplyResult × W
  set_scheme to_string desired (rc, w) = (
    if rc == 0
        then record { ok = true; message = "power plan -> " & desired }
        else record { ok = false; message = "PowerSetActiveScheme failed rc=" & to_string rc },
    w,
  )

  unfoldable pub apply : (String → List ℕ) → (ℕ → String) → String → W → ApplyResult × W
  unfolding alias_to_guid parse_guid
  apply scan to_string desired w = elim (guid_of scan desired) [
    | none ↦ (record { ok = false; message = "unknown power plan: " & desired }, w)
    | some g ↦ set_scheme to_string desired (set_active g w)
  ]

  unfoldable pub power_plan_executor : (String → List ℕ) → (ℕ → String) → Executor W
  power_plan_executor scan to_string = record {
    key = "power.plan";
    available = λ w. true;
    current_value = current_value;
    apply = apply scan to_string;
  }

  -- The rollback of the power plan works for the named plans: if the active scheme is that of an
  -- alias, `CurrentValue` is the alias, and where the system accepts that scheme and makes what it
  -- accepts the active one, applying the alias succeeds and makes the scheme active again.
  power_undo :
      (scan : String → List ℕ) (to_string : ℕ → String) (alias : String) (g : Guid) (w w' : W)
      → ((h : Guid) (v : W) → (set_active h v).0 ≡ 0 → active (set_active h v).1 ≡ some h)
      → alias_to_guid alias ≡ some g
      → active w ≡ some g
      → (set_active g w').0 ≡ 0
      → (current_value w ≡ alias)
        × ((apply scan to_string (current_value w) w').0.ok ≡ true)
        × (active (apply scan to_string (current_value w) w').1 ≡ some g)
  unfolding current_value apply
  power_undo scan to_string alias g w w' sets named at accepts =
      let back : current_value w ≡ alias = rw (at, current_value) (alias-back alias g named) in
      let again : apply scan to_string alias w' ≡ set_scheme to_string alias (set_active g w') =
        rw (named, apply) refl in
      (back, rw (back, again, accepts) refl, rw (back, again) (sets g w' accepts))
