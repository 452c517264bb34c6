-- ===== src/Client/App/Arrival.antt =====
-- The client's models after the signals of a switch and of the events that come around them.
use hardware_panel.Base.{◌≡◌, refl, ap, ◌∙◌, String, true, Bool, List, [], ◌∷◌, ◌++◌, if◌then◌else◌}
use hardware_panel.Base.Int.{ℤ}
use hardware_panel.Types.{EventMessage}
use hardware_panel.Client.{Double, ProfileRow, NotificationRow, set_profiles, append_notification}
use hardware_panel.Client.App.{
  Signal, event_received, profiles_received, switch_result, Models, deliver, deliver_all,
}
use hardware_panel.Client.Worker.Stream.{core_event}
use hardware_panel.Service

-- The event that the client makes of a result.
abbrev pub switch_event : ℤ → Bool → String → EventMessage
switch_event now ok message = record {
  timestamp_ms = now;
  level = if ok then "info" else "warn";
  title = if ok then "Profile switch" else "Profile switch failed";
  message = message;
}

-- The signals of `EventsLoop` for events that the service's stream sends.
abbrev pub stream_signals : {V : Type 0} → List EventMessage → List (Signal V)
stream_signals [] = []
stream_signals (e ∷ es) = event_received (core_event (Service.event_to_proto e)) ∷ stream_signals es

-- Other signals before, between and after the first two.
abbrev pub spread : {A : Type 0} → List A → List A → List A → List A → List A
spread xs ys zs [] = xs ++ (ys ++ zs)
spread xs ys zs (a ∷ []) = xs ++ (a ∷ (ys ++ zs))
spread xs ys zs (a ∷ b ∷ []) = xs ++ (a ∷ (ys ++ (b ∷ zs)))
spread xs ys zs (a ∷ b ∷ c ∷ rest) = xs ++ (a ∷ (ys ++ (b ∷ (zs ++ (c ∷ rest)))))

-- The notifications for some events, one after the other.
abbrev pub append_all :
    (ℤ → String) → List EventMessage → List NotificationRow → List NotificationRow
append_all clock_text [] rows = rows
append_all clock_text (e ∷ es) rows =
    append_all clock_text es (append_notification clock_text e rows)

append_all-append :
    (clock_text : ℤ → String) (xs ys : List EventMessage) (rows : List NotificationRow)
    → append_all clock_text (xs ++ ys) rows
      ≡ append_all clock_text ys (append_all clock_text xs rows)
append_all-append clock_text [] ys rows = refl
append_all-append clock_text (x ∷ xs) ys rows =
    append_all-append clock_text xs ys (append_notification clock_text x rows)

module _ (double : Double) where
  deliver_all-append :
      (clock_text : ℤ → String) (now : ℤ) (xs ys : List (Signal double.V)) (m : Models double)
      → deliver_all double clock_text now (xs ++ ys) m
        ≡ deliver_all double clock_text now ys (deliver_all double clock_text now xs m)
  unfolding deliver_all
  deliver_all-append clock_text now [] ys m = refl
  deliver_all-append clock_text now (x ∷ xs) ys m =
      deliver_all-append clock_text now xs ys (deliver double clock_text now x m)

  deliver_all-stream :
      (clock_text : ℤ → String) (now : ℤ) (es : List EventMessage) (m : Models double)
      → deliver_all double clock_text now (stream_signals es) m
        ≡ record m { notifications = append_all clock_text es m.notifications }
  unfolding deliver_all core_event Service.event_to_proto
  deliver_all-stream clock_text now [] m = refl
  deliver_all-stream clock_text now (e ∷ es) m =
      deliver_all-stream clock_text now es
        (record m { notifications = append_notification clock_text e m.notifications })

  -- What the switch's two signals and the events around them make of the models.
  pub deliver_all-spread :
      (clock_text : ℤ → String) (now : ℤ) (rows : List ProfileRow) (active : String)
      (xs ys zs : List EventMessage) (m : Models double)
      → deliver_all double clock_text now
          (spread
            (stream_signals xs)
            (stream_signals ys)
            (stream_signals zs)
            (switch_result true "ok" ∷ profiles_received rows active ∷ []))
          m
        ≡ record m {
          profiles = record { rows = rows; active_id = active };
          notifications =
              append_all clock_text
                (xs ++ (switch_event now true "ok" ∷ (ys ++ zs)))
                m.notifications;
        }
  unfolding deliver_all set_profiles
  deliver_all-spread clock_text now rows active xs ys zs m =
      let a : Signal double.V = switch_result true "ok" in
      let b : Signal double.V = profiles_received rows active in
      let es = switch_event now true "ok" in
      let n = m.notifications in
      rw
        (
          deliver_all-append clock_text now (stream_signals xs)
              (a ∷ (stream_signals ys ++ (b ∷ stream_signals zs))) m,
          deliver_all-stream clock_text now xs m,
          append_all-append clock_text xs (es ∷ (ys ++ zs)) n,
          append_all-append clock_text ys zs
              (append_notification clock_text es (append_all clock_text xs n)),
        )
        (deliver_all-append clock_text now (stream_signals ys) (b ∷ stream_signals zs) _
          ∙ (ap (deliver_all double clock_text now (b ∷ stream_signals zs))
                (deliver_all-stream clock_text now ys _)
              ∙ deliver_all-stream clock_text now zs _))
