-- ===== src/Client/Models.antt =====
-- The list models of apps/hwpanel-client/backend/notification_model.cpp and profile_model.cpp as Qt's
-- views use them: rows, roles, and the changes that a model announces. `QVariant` is `none` where it
-- is invalid; a role is its number.
pub mod Views
use hardware_panel.Base.{
  ℕ, suc, ◌-◌, String, Bool, true, false, not, ◌||◌, List, [], ◌∷◌, ◌++◌, Option, none, some,
  str_eq, ltb, ◌==◌, if◌then◌else◌, length, get_elem?, Option-cases, inl, inr, ◌≡◌, refl,
}
use hardware_panel.Base.Int.{ℤ, pos, negsuc}
use hardware_panel.Types.{EventMessage}
use hardware_panel.Client.{
  NotificationRow, max_rows, append_notification, clear_notifications, ProfileRow, ProfileModel,
  is_active_at,
}

-- `QModelIndex`.
pub record ModelIndex : Type 0 where
  pub valid : Bool
  pub row : ℤ

-- `rows_.at(index.row())` behind the check of both `data` methods.
abbrev in_range : {R : Type 0} → List R → ℤ → Option R
in_range rows (pos n) = get_elem? rows n
in_range rows (negsuc n) = none

abbrev pub row_at : {R : Type 0} → List R → ModelIndex → Option R
row_at rows index = if index.valid then in_range rows index.row else none

unfoldable pub row_count : {R : Type 0} → List R → Bool → ℕ
row_count rows parent_valid = if parent_valid then 0 else length rows

-- `roleNames`; `Qt::UserRole` is 256.
abbrev pub notification_roles : List (ℕ × String)
notification_roles = (257, "time") ∷ (258, "level") ∷ (259, "title") ∷ (260, "message") ∷ []

-- The `switch` over the role.
abbrev pub notification_value : NotificationRow → ℕ → Option String
notification_value row role =
    if role == 257
    then some row.time
    else if role == 258
    then some row.level
    else if role == 259
    then some row.title
    else if role == 260
    then some row.message
    else none

unfoldable pub notification_data : List NotificationRow → ModelIndex → ℕ → Option String
notification_data rows index role = elim (row_at rows index) [
  | none ↦ none
  | some row ↦ notification_value row role
]

-- A text, or whether the profile is active.
pub data Value : Type 0 where
  text : String → Value
  flag : Bool → Value

abbrev pub profile_roles : List (ℕ × String)
profile_roles =
    (257, "profileId") ∷ (258, "profileName") ∷ (259, "profileDescription") ∷ (260, "isActive") ∷ []

abbrev pub profile_value : String → ProfileRow → ℕ → Option Value
profile_value active_id row role =
    if role == 257
    then some (text row.id)
    else if role == 258
    then some (text row.name)
    else if role == 259
    then some (text row.description)
    else if role == 260
    then some (flag (str_eq row.id active_id))
    else none

unfoldable pub profile_data : ProfileModel → ModelIndex → ℕ → Option Value
profile_data m index role = elim (row_at m.rows index) [
  | none ↦ none
  | some row ↦ profile_value m.active_id row role
]

-- `beginInsertRows(first, last)` with its end, and so on.
pub data Change : Type 0 where
  inserted removed : ℕ → ℕ → Change
  reset : Change

-- The changes that `Append` announces, each with the rows that the model has at its end.
unfoldable pub announce_append :
    (ℤ → String) → EventMessage → List NotificationRow → List (Change × List NotificationRow)
announce_append clock_text event rows =
    let row : NotificationRow = record {
      time = clock_text event.timestamp_ms;
      level = event.level;
      title = event.title;
      message = event.message;
    } in
    let last = length (row ∷ rows) - 1 in
    (inserted 0 0, row ∷ rows)
    ∷ (if ltb max_rows (length (row ∷ rows))
        then (removed last last, append_notification clock_text event rows) ∷ []
        else [])

-- A call of a slot of the model.
pub data Call : Type 0 where
  appends : EventMessage → Call
  clears : Call

module _ (clock_text : ℤ → String) where
  unfoldable pub call : Call → List NotificationRow → List NotificationRow
  call (appends e) rows = append_notification clock_text e rows
  call clears rows = clear_notifications rows

  unfoldable pub announced : Call → List NotificationRow → List (Change × List NotificationRow)
  unfolding announce_append
  announced (appends e) rows = announce_append clock_text e rows
  announced clears rows = (reset, clear_notifications rows) ∷ []

-- The role of the active profile answers for the row what `is_active_at` tells.
profile_data-active :
    (m : ProfileModel) (i : ℕ)
    → profile_data m (record { valid = true; row = pos i }) 260
      ≡ elim (is_active_at m i) [ none ↦ none | some b ↦ some (flag b) ]
unfolding profile_data is_active_at
profile_data-active m i = elim (Option-cases (get_elem? m.rows i)) [
  | inl e ↦ rw (e, profile_data, is_active_at) refl
  | inr (row, e) ↦ rw (e, profile_data, is_active_at) refl
]
