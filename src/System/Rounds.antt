-- ===== src/System/Rounds.antt =====
-- One round of the streaming call, and what a step of another call leaves as it is.
use hardware_panel.Base.{
  ℕ, ◌%◌, ◌≡◌, ◌≢◌, refl, true, List, [], ◌∷◌, none, some, arith, ◌==◌, ==_ne, ==_iff,
}
use hardware_panel.Types.{TelemetrySample}
use hardware_panel.Fanout
use hardware_panel.Fanout.{
  Subscriber, Cell, Registry, Op, publishes, subscribes, pops, closes, releases, pop, pop_at, close,
}
use hardware_panel.Fanout.Stream.{cell_step}
use hardware_panel.Hub
use hardware_panel.Hub.{Hub, subscriber_queue_capacity}
use hardware_panel.Service.{subscribe_loop, decimate_of, popped, timeout}
use hardware_panel.Service.Streaming.{map-unfiltered}
use hardware_panel.Client.Worker.Stream.{one_hertz}

-- A step of a streaming call other than `call`.
abbrev pub IsOther : {A : Type 0} → ℕ → Op A → Type 0
IsOther call (publishes v) = ⊥
IsOther call subscribes = Unit {0}
IsOther call (pops j) = call ≢ j
IsOther call (closes j) = call ≢ j
IsOther call (releases j) = call ≢ j

module _ {V : Type 0} where
  -- A round of the loop writes the sample that it pops: of one sample per second none is left out.
  pub round-sends :
      (index : ℕ) (x : TelemetrySample V)
      → subscribe_loop [] (decimate_of one_hertz) index (popped x true ∷ []) ≡ x ∷ []
  unfolding subscribe_loop decimate_of
  round-sends index x =
      let none_left : (index % 1 == 0) ≡ true = (==_iff (index % 1) 0).1 (omega arith) in
      rw none_left (map-unfiltered (x ∷ []))

  pub round_idle :
      (index : ℕ) → subscribe_loop {V = V} [] (decimate_of one_hertz) index (timeout ∷ []) ≡ []
  unfolding subscribe_loop
  round_idle index = refl

  pub pop-none : (s : Subscriber V) → s.queue ≡ [] → pop s ≡ (s, none)
  unfolding pop
  pop-none s e = rw e (ground arith)

  pub pop-some :
      (s : Subscriber V) (x : V) (q : List V)
      → s.queue ≡ x ∷ q
      → pop s ≡ (record s { queue = q }, some x)
  unfolding pop
  pop-some s x q e = rw e (ground arith)

  pub other-cell :
      (cap call : ℕ) (o : Op V) (c : Cell V) → IsOther call o → cell_step cap call o c ≡ (c, [])
  unfolding cell_step
  other-cell cap call (publishes v) c h = elim h [ ]
  other-cell cap call subscribes c h = refl
  other-cell cap call (pops j) c h = rw (==_ne call j h) refl
  other-cell cap call (closes j) c h = rw (==_ne call j h) refl
  other-cell cap call (releases j) c h = rw (==_ne call j h) refl

  pub hub-step :
      (h : Hub V) (o : Op (TelemetrySample V))
      → (Hub.step h o).0.registry ≡ (Fanout.step subscriber_queue_capacity h.registry o).0
  unfolding Hub.step Hub.publish Hub.subscribe Fanout.step
  hub-step h (publishes v) = refl
  hub-step h subscribes = refl
  hub-step h (pops j) = refl
  hub-step h (closes j) = refl
  hub-step h (releases j) = refl
