-- ===== src/System/Shown.antt =====
-- What the client shows of the ticks, over any run.
use hardware_panel.Base.{
  ℕ, ◌+◌, ◌<◌, ◌≡◌, refl, ap, sym, ◌∙◌, inl, subst, true, false, List, [], ◌∷◌, ◌++◌, some, arith,
  length, get_elem?, append-nil, append_assoc, get_elem?-append_right,
}
use hardware_panel.Types.{TelemetrySample}
use hardware_panel.Pipeline.{Collector, tick}
use hardware_panel.Fanout
use hardware_panel.Fanout.{Cell, Op, subscribes}
use hardware_panel.Fanout.WellFormed.{step-IsWellFormed, run-IsWellFormed, empty-IsWellFormed}
use hardware_panel.Fanout.Stream.{waiting}
use hardware_panel.Hub
use hardware_panel.Hub.{Hub, subscriber_queue_capacity}
use hardware_panel.Hub.History.{run-parts}
use hardware_panel.Client.{Double, new_store}
use hardware_panel.Client.Worker.{Phase}
use hardware_panel.System.{
  Move, ticks, polls, client_steps, others, System, poll, handle_all, client_step, step, run,
  sampled, opened,
}
use hardware_panel.System.Rounds.{IsOther}
use hardware_panel.System.Flow.{
  IsFlowing, tick-IsFlowing, other-IsFlowing, poll-IsFlowing, client_step-IsFlowing,
}

-- The other steps at the hub are those of other calls.
abbrev pub IsApart : {A : Type 0} → ℕ → List (Move A) → Type 0
IsApart call [] = Unit {0}
IsApart call (ticks now ∷ ms) = IsApart call ms
IsApart call (polls ∷ ms) = IsApart call ms
IsApart call (client_steps ∷ ms) = IsApart call ms
IsApart call (others o ∷ ms) = IsOther call o × IsApart call ms

module _ {double : Double} {S : Type 0} where
  open double use {V}

  -- What waits in the queue of the call.
  abbrev pub waiting_for_call : System double S → List (TelemetrySample V)
  waiting_for_call s = waiting (get_elem? s.hub.registry.objects s.call)

  client_step-kept :
      (p : Phase) (wire : List (TelemetrySample V)) (s : System double S)
      → ((client_step p wire s).machine ≡ s.machine) × ((client_step p wire s).call ≡ s.call)
  client_step-kept Phase.in_read [] s = (refl, refl)
  client_step-kept Phase.in_read (m ∷ wire) s = (refl, refl)
  client_step-kept Phase.outer wire s = (refl, refl)
  client_step-kept Phase.inner wire s = (refl, refl)
  client_step-kept (Phase.sleeping ms) wire s = (refl, refl)
  client_step-kept Phase.ended wire s = (refl, refl)

-- A call that has just been opened at a hub with the history `before`.
abbrev pub just_opened :
    (double : Double) {S : Type 0} → ℕ → List (Op (TelemetrySample double.V)) → S → System double S
just_opened double cap before machine = opened machine (Hub.run (Hub.new cap) before).0

module _ {double : Double} {S : Type 0} (collectors : List (Collector S double.V)) where
  open double use {V}

  -- At each tick there is room in the queue of the call, whose capacity is 64.
  abbrev pub KeepsUp : System double S → List (Move (TelemetrySample V)) → Type 0
  KeepsUp s [] = Unit {0}
  KeepsUp s (ticks now ∷ ms) =
      (length (waiting_for_call s) < 64) × KeepsUp (step collectors s (ticks now)) ms
  KeepsUp s (polls ∷ ms) = KeepsUp (step collectors s polls) ms
  KeepsUp s (client_steps ∷ ms) = KeepsUp (step collectors s client_steps) ms
  KeepsUp s (others o ∷ ms) = KeepsUp (step collectors s (others o)) ms

  run-IsFlowing :
      (s : System double S) (ms : List (Move (TelemetrySample V)))
      (said shown : List (TelemetrySample V))
      → IsFlowing s said shown
      → IsApart s.call ms
      → KeepsUp s ms
      → (shown' : List (TelemetrySample V)) × IsFlowing
          (run collectors s ms)
          (said ++ sampled collectors s.machine ms)
          shown'
  unfolding run step sampled poll
  run-IsFlowing s [] said shown f apart keeps = (shown, rw (append-nil said) f)
  run-IsFlowing s (ticks now ∷ ms) said shown f apart keeps =
      let (sample, machine) = tick now collectors s.machine in
      let next =
        run-IsFlowing (step collectors s (ticks now)) ms (said ++ sample ∷ []) shown
          (tick-IsFlowing s sample machine said shown f keeps.0) apart keeps.1 in
      rw (sym (append_assoc said (sample ∷ []) (sampled collectors machine ms))) next
  run-IsFlowing s (polls ∷ ms) said shown f apart keeps =
      run-IsFlowing (poll s) ms said shown (poll-IsFlowing s said shown f) apart keeps
  run-IsFlowing s (client_steps ∷ ms) said shown f apart keeps =
      let (shown', g) = client_step-IsFlowing s said shown f in
      let (machine, call) = client_step-kept s.phase s.wire s in
      subst
        (λ x.
          (shown' : List (TelemetrySample V)) × IsFlowing
            (run collectors (client_step s.phase s.wire s) ms) (said ++ sampled collectors x ms)
            shown')
        machine
        (run-IsFlowing (client_step s.phase s.wire s) ms said shown' g
          (subst (λ c. IsApart c ms) (sym call) apart) keeps)
  run-IsFlowing s (others o ∷ ms) said shown f apart keeps =
      run-IsFlowing (step collectors s (others o)) ms said shown
        (other-IsFlowing s o said shown f apart.0) apart.1 keeps

  opened-IsFlowing :
      (cap : ℕ) (before : List (Op (TelemetrySample V))) (machine : S)
      → IsFlowing (opened {double = double} machine (Hub.run (Hub.new cap) before).0) [] []
  unfolding opened Hub.subscribe Fanout.subscribe
  opened-IsFlowing cap before machine =
      let r = (Hub.run (Hub.new cap) before).0.registry in
      record {
        cell = record { owned = true; sub = record { queue = []; closed = false } };
        there = start_of r.objects;
        held = refl;
        open' = refl;
        sound =
            unfold Fanout.step Fanout.subscribe in
            step-IsWellFormed subscriber_queue_capacity r subscribes (
              rw (run-parts (Hub.new cap) before).1 (
                unfold Hub.new in
                run-IsWellFormed subscriber_queue_capacity Fanout.empty before empty-IsWellFormed));
        reading = inl refl;
        ledger = refl;
        on_screen = refl;
      }
    where
      fresh : Cell (TelemetrySample V)
      fresh = record { owned = true; sub = record { queue = []; closed = false } }

      start_of :
          (cs : List (Cell (TelemetrySample V)))
          → get_elem? (cs ++ fresh ∷ []) (length cs) ≡ some fresh
      start_of cs =
          ap (get_elem? (cs ++ fresh ∷ [])) (let e : length cs ≡ length cs + 0 = omega arith in e)
          ∙ get_elem?-append_right cs (fresh ∷ []) 0

  -- The samples that the client has handled, those on the wire and those in the queue, in this order,
  -- are the samples of the ticks.
  pub run-ledger :
      (cap : ℕ) (before : List (Op (TelemetrySample V))) (machine : S)
      (ms : List (Move (TelemetrySample V)))
      → IsApart (just_opened double cap before machine).call ms
      → KeepsUp (just_opened double cap before machine) ms
      → let s = run collectors (just_opened double cap before machine) ms in
        (shown : List (TelemetrySample V)) × (shown ++ (s.wire ++ waiting_for_call s)
          ≡ sampled collectors machine ms)
        × (s.store ≡ handle_all shown (new_store double))
  unfolding opened
  run-ledger cap before machine ms apart keeps =
      let (shown, f) =
        run-IsFlowing (just_opened double cap before machine) ms [] []
          (opened-IsFlowing cap before machine) apart keeps in
      (shown, rw f.there f.ledger, f.on_screen)
