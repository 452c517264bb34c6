-- ===== src/Client/Models/Views.antt =====
-- A view that keeps up with the notification model by the changes that it announces.
use hardware_panel.Base.{
  ℕ, zero, suc, ◌-◌, ◌≤◌, ◌≡◌, refl, ap, ap₂, sym, ◌∙◌, String, true, false, List, [], ◌∷◌, ◌++◌,
  append-nil, Option, none, some, map, length, get_elem?, take, drop, ltb, arith, Bool-cases, inl,
  inr,
}
use hardware_panel.Base.Int.{ℤ, pos}
use hardware_panel.Client.{NotificationRow, max_rows, append_notification, clear_notifications}
use hardware_panel.Client.Models.{
  row_count, notification_roles, notification_data, notification_value, Change, inserted, removed,
  reset, announce_append, Call, appends, clears, call, announced,
}

-- What the view shows of the row `i`: the answers of `data` for each of the roles.
abbrev pub cells : List NotificationRow → ℕ → List (Option String)
cells rows i =
    map (λ r. notification_data rows (record { valid = true; row = pos i }) r.0) notification_roles

-- It reads `n` rows from `first` on.
abbrev pub read_rows : List NotificationRow → ℕ → ℕ → List (List (Option String))
read_rows rows first zero = []
read_rows rows first (suc n) = cells rows first ∷ read_rows rows (suc first) n

-- How a view follows an announced change.
abbrev pub follow :
    Change → List NotificationRow → List (List (Option String)) → List (List (Option String))
follow (inserted first last) rows view =
    take first view ++ (read_rows rows first (suc last - first) ++ drop first view)
follow (removed first last) rows view = take first view ++ drop (suc last) view
follow reset rows view = read_rows rows 0 (row_count rows false)

abbrev pub follow_all :
    List (Change × List NotificationRow) → List (List (Option String)) → List (List (Option String))
follow_all [] view = view
follow_all ((c, rows) ∷ cs) view = follow_all cs (follow c rows view)

-- The cells of a row, as it is in the model.
abbrev row_cells : NotificationRow → List (Option String)
row_cells row = some row.time ∷ some row.level ∷ some row.title ∷ some row.message ∷ []

cells_lem :
    (rows : List NotificationRow) (i : ℕ) (row : NotificationRow)
    → get_elem? rows i ≡ some row
    → cells rows i ≡ row_cells row
unfolding notification_data
cells_lem rows i row e =
    ap
      (λ o.
        map (λ r. elim o [ none ↦ none | some row ↦ notification_value row r.0 ])
          notification_roles)
      e

read_rows-suc :
    (row : NotificationRow) (rows : List NotificationRow) (first n : ℕ)
    → read_rows (row ∷ rows) (suc first) n ≡ read_rows rows first n
unfolding notification_data
read_rows-suc row rows first zero = refl
read_rows-suc row rows first (suc n) =
    ap (◌∷◌ (cells rows first)) (read_rows-suc row rows (suc first) n)

read_rows-all : (rows : List NotificationRow) → read_rows rows 0 (length rows) ≡ map row_cells rows
read_rows-all [] = refl
read_rows-all (row ∷ rows) =
    ap₂ ◌∷◌ (cells_lem (row ∷ rows) 0 row refl)
      (read_rows-suc row rows 0 (length rows) ∙ read_rows-all rows)

map-take :
    (n : ℕ) (rows : List NotificationRow)
    → map row_cells (take n rows) ≡ take n (map row_cells rows)
map-take zero rows = refl
map-take (suc n) [] = refl
map-take (suc n) (row ∷ rows) = ap (◌∷◌ (row_cells row)) (map-take n rows)

drop-map :
    (n : ℕ) (rows : List NotificationRow) → length rows ≤ n → drop n (map row_cells rows) ≡ []
drop-map zero [] h = refl
drop-map zero (row ∷ rows) h = elim h [ ]
drop-map (suc n) [] h = refl
drop-map (suc n) (row ∷ rows) h = drop-map n rows (omega arith)

module _ (clock_text : ℤ → String) where
  -- One call of `Append` or `Clear`, as the view sees it.
  follow-call :
      (c : Call) (rows : List NotificationRow)
      → follow_all (announced clock_text c rows) (map row_cells rows)
        ≡ map row_cells (call clock_text c rows)
  unfolding announced call announce_append append_notification clear_notifications row_count
  follow-call (appends e) rows =
      let row : NotificationRow = record {
        time = clock_text e.timestamp_ms;
        level = e.level;
        title = e.title;
        message = e.message;
      } in
      let n = suc (length rows) - 1 in
      let head : cells (row ∷ rows) 0 ≡ row_cells row = cells_lem (row ∷ rows) 0 row refl in
      elim (Bool-cases (ltb max_rows (length (row ∷ rows)))) [
        | inl over ↦ rw over (
            ap (λ c. take n (c ∷ map row_cells rows) ++ drop n (map row_cells rows)) head
            ∙ (ap (◌++◌ (take n (map row_cells (row ∷ rows)))) (drop-map n rows (omega arith))
                ∙ (append-nil (take n (map row_cells (row ∷ rows)))
                    ∙ sym (map-take n (row ∷ rows)))))
        | inr fits ↦ rw fits (ap (λ c. c ∷ map row_cells rows) head)
      ]
  follow-call clears rows = refl

  -- The model and the view after a sequence of calls, from an empty model that the view has read.
  abbrev pub run_calls : List Call → List NotificationRow → List NotificationRow
  run_calls [] rows = rows
  run_calls (c ∷ cs) rows = run_calls cs (call clock_text c rows)

  abbrev pub run_view :
      List Call → List NotificationRow → List (List (Option String)) → List (List (Option String))
  run_view [] rows view = view
  run_view (c ∷ cs) rows view =
      run_view cs (call clock_text c rows) (follow_all (announced clock_text c rows) view)

  run_view-calls :
      (cs : List Call) (rows : List NotificationRow)
      → run_view cs rows (map row_cells rows) ≡ map row_cells (run_calls cs rows)
  run_view-calls [] rows = refl
  run_view-calls (c ∷ cs) rows =
      ap (run_view cs (call clock_text c rows)) (follow-call c rows)
      ∙ run_view-calls cs (call clock_text c rows)

  -- A view that starts at an empty notification model and follows every change that the model
  -- announces, reading inserted rows through `data` when they are announced, shows after any calls of
  -- `Append` and `Clear` what `data` answers for each row that `rowCount` counts and each role, and
  -- no other row.
  pub view_follows :
      (cs : List Call)
      → let rows = run_calls cs [] in run_view cs [] [] ≡ read_rows rows 0 (row_count rows false)
  unfolding row_count
  view_follows cs = run_view-calls cs [] ∙ sym (read_rows-all (run_calls cs []))
