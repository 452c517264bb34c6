-- ===== src/Client/Bounds.antt =====
-- How much the models of the user interface keep, and which part of it.
use hardware_panel.Base.{
  ℕ, zero, suc, ◌+◌, ◌-◌, ◌≤◌, ◌<◌, ◌≡◌, refl, ap, sym, ◌∙◌, List, [], ◌∷◌, ◌++◌, arith, length,
  take, drop, take_last, length-append, length-drop, drop-append_left, drop-drop, append_assoc,
  append-nil, map, String, ltb, leb, inl, inr, Bool-cases,
}
use hardware_panel.Base.Int.{ℤ}
use hardware_panel.Types.{EventMessage}
use hardware_panel.Client.{
  NotificationRow, max_rows, append_notification, Double, MetricSeries, append_value,
}

module _ {ℓ} {A : Type ℓ} where
  -- `xs` in reverse before `acc`.
  abbrev pub newest_first : List A → List A → List A
  newest_first [] acc = acc
  newest_first (x ∷ xs) acc = newest_first xs (x ∷ acc)

  take-shorter :
      (n : ℕ) (xs ys : List A) → take (suc n) xs ≡ take (suc n) ys → take n xs ≡ take n ys
  take-shorter n xs ys e = sym (take-take n xs) ∙ (ap (take n) e ∙ take-take n ys)
    where
      take-take : (n : ℕ) (xs : List A) → take n (take (suc n) xs) ≡ take n xs
      take-take zero xs = refl
      take-take (suc n) [] = refl
      take-take (suc n) (x ∷ xs) = ap (◌∷◌ x) (take-take n xs)

  take-cons :
      (n : ℕ) (x : A) (xs ys : List A) → take n xs ≡ take n ys → take n (x ∷ xs) ≡ take n (x ∷ ys)
  take-cons zero x xs ys e = refl
  take-cons (suc n) x xs ys e = ap (◌∷◌ x) (take-shorter n xs ys e)

  take-newest_first :
      (n : ℕ) (xs ys zs : List A)
      → take n ys ≡ take n zs
      → take n (newest_first xs ys) ≡ take n (newest_first xs zs)
  take-newest_first n [] ys zs e = e
  take-newest_first n (x ∷ xs) ys zs e =
      take-newest_first n xs (x ∷ ys) (x ∷ zs) (take-cons n x ys zs e)

  take-all : (n : ℕ) (xs : List A) → length xs ≤ n → take n xs ≡ xs
  take-all zero [] h = refl
  take-all zero (x ∷ xs) h = elim h [ ]
  take-all (suc n) [] h = refl
  take-all (suc n) (x ∷ xs) h = ap (◌∷◌ x) (take-all n xs (omega arith))

  length-take : (n : ℕ) (xs : List A) → length (take n xs) ≤ n
  length-take zero xs = omega arith
  length-take (suc n) [] = omega arith
  length-take (suc n) (x ∷ xs) = omega (arith, length-take n xs)

  take_last-append :
      (n : ℕ) (xs ys : List A) → take_last n (take_last n xs ++ ys) ≡ take_last n (xs ++ ys)
  take_last-append n xs ys =
      ap (λ k. drop k (take_last n xs ++ ys))
        (omega (
          arith,
          length-append (take_last n xs) ys,
          length-drop (length xs - n) xs,
          length-append xs ys,
        ))
      ∙ (ap (drop (length xs + length ys - n - (length xs - n)))
            (sym (drop-append_left (length xs - n) xs ys (omega arith)))
          ∙ (drop-drop _ (length xs - n) (xs ++ ys)
              ∙ ap (λ k. drop k (xs ++ ys)) (omega (arith, length-append xs ys))))

abbrev row_of : (ℤ → String) → EventMessage → NotificationRow
row_of clock_text e = record {
  time = clock_text e.timestamp_ms;
  level = e.level;
  title = e.title;
  message = e.message;
}

-- Events that arrive one after the other.
abbrev pub append_notifications :
    (ℤ → String) → List EventMessage → List NotificationRow → List NotificationRow
append_notifications clock_text [] rows = rows
append_notifications clock_text (e ∷ es) rows =
    append_notifications clock_text es (append_notification clock_text e rows)

append_notification-take :
    (clock_text : ℤ → String) (e : EventMessage) (rows : List NotificationRow)
    → length rows ≤ max_rows
    → append_notification clock_text e rows ≡ take max_rows (row_of clock_text e ∷ rows)
unfolding append_notification
append_notification-take clock_text e rows h =
    elim (Bool-cases (ltb max_rows (length (row_of clock_text e ∷ rows)))) [
      | inl over ↦ rw over (
          ap (λ n. take n (row_of clock_text e ∷ rows))
            (let full : suc (length rows) - 1 ≡ max_rows = ground (arith, over) in full))
      | inr fits ↦
          rw fits (sym (take-all max_rows (row_of clock_text e ∷ rows) (ground (arith, fits))))
    ]

append_notifications-take :
    (clock_text : ℤ → String) (es : List EventMessage) (rows : List NotificationRow)
    → length rows ≤ max_rows
    → append_notifications clock_text es rows
      ≡ take max_rows (newest_first (map (row_of clock_text) es) rows)
append_notifications-take clock_text [] rows h = sym (take-all max_rows rows h)
append_notifications-take clock_text (e ∷ es) rows h =
    ap (append_notifications clock_text es) (append_notification-take clock_text e rows h)
    ∙ (append_notifications-take clock_text es (take max_rows (row_of clock_text e ∷ rows))
          (length-take max_rows (row_of clock_text e ∷ rows))
        ∙ take-newest_first max_rows (map (row_of clock_text) es)
            (take max_rows (row_of clock_text e ∷ rows)) (row_of clock_text e ∷ rows)
            (take-all max_rows _ (length-take max_rows (row_of clock_text e ∷ rows))))

-- After any events the list of notifications shows the last 50 of them, the newest first, each with
-- its level, title, message and formatted time.
notifications_lem :
    (clock_text : ℤ → String) (es : List EventMessage)
    → append_notifications clock_text es []
      ≡ take max_rows (newest_first (map (row_of clock_text) es) [])
notifications_lem clock_text es = append_notifications-take clock_text es [] (omega arith)

module _ {double : Double} where
  -- Values that are appended one after the other.
  abbrev pub append_all : List double.V → MetricSeries double → MetricSeries double
  append_all [] s = s
  append_all (v ∷ vs) s = append_all vs (append_value double v s)

  append_value-take_last :
      (v : double.V) (s : MetricSeries double)
      → 0 < s.capacity
      → length s.values ≤ s.capacity
      → (append_value double v s).values ≡ take_last s.capacity (s.values ++ v ∷ [])
  unfolding append_value
  append_value-take_last v s pos h = elim (Bool-cases (leb s.capacity (length s.values))) [
    | inl full ↦ rw full (
        sym (drop-append_left 1 s.values (v ∷ []) (ground (arith, full)))
        ∙ ap (λ k. drop k (s.values ++ v ∷ []))
            (let one : 1 ≡ length (s.values ++ v ∷ []) - s.capacity =
                ground (arith, full, length-append s.values (v ∷ [])) in
              one))
    | inr room ↦ rw room (
        ap (λ k. drop k (s.values ++ v ∷ []))
          (let none_over : 0 ≡ length (s.values ++ v ∷ []) - s.capacity =
              ground (arith, room, length-append s.values (v ∷ [])) in
            none_over))
  ]

  -- A series of positive capacity that holds no more than its capacity keeps, of its values followed
  -- by the appended ones, the last `capacity`, in order.
  pub append_all-values :
      (vs : List double.V) (s : MetricSeries double)
      → 0 < s.capacity
      → length s.values ≤ s.capacity
      → (append_all vs s).values ≡ take_last s.capacity (s.values ++ vs)
  unfolding append_value
  append_all-values [] s pos h =
      ap (λ k. drop k s.values) (let z : 0 ≡ length s.values - s.capacity = omega arith in z)
      ∙ ap (take_last s.capacity) (sym (append-nil s.values))
  append_all-values (v ∷ vs) s pos h =
      let e = append_value-take_last v s pos h in
      append_all-values vs (append_value double v s) pos (
        rw e (
          omega
            (arith, length-drop (length (s.values ++ v ∷ []) - s.capacity) (s.values ++ v ∷ []))))
      ∙ (ap (λ l. take_last s.capacity (l ++ vs)) e
          ∙ (take_last-append s.capacity (s.values ++ v ∷ []) vs
              ∙ ap (take_last s.capacity) (append_assoc s.values (v ∷ []) vs)))
