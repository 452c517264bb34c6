-- ===== src/Hub/History.antt =====
-- The hub's history and its streams, over any interleaving of its clients.
use mathlib.Core.List.{Sublistᴰ}
use hardware_panel.Base.{
  ℕ, ◌^◌, ◌≤◌, ◌<◌, min, ◌≡◌, refl, ap, ap₂, sym, ◌∙◌, List, [], ◌∷◌, ◌++◌, some, arith, length,
  get_elem?, take_last, append-nil, append_assoc, append-nil, append_assoc,
}
use hardware_panel.Base.Int.{ℤ, pos, negsuc, int_of_size, size_of_int}
use hardware_panel.Types.{TelemetrySample}
use hardware_panel.Ring
use hardware_panel.Ring.{Ring, pushes, effective}
use hardware_panel.Ring.Refine.{cap-run, last_n-run, since}
use hardware_panel.Fanout
use hardware_panel.Fanout.{Registry, Op, publishes, subscribes, pops, closes, releases}
use hardware_panel.Fanout.Stream.{published, received, waiting}
use hardware_panel.Fanout.Promises.{in_order, queue_bounded}
use hardware_panel.Hub.{
  Hub, subscriber_queue_capacity, clamp, new, publish, subscribe, history, step, run,
}

-- A number of seconds that a request may ask for; a negative one counts as none.
abbrev pub wanted : ℤ → ℕ
wanted (pos n) = n
wanted (negsuc n) = 0

clamped :
    (seconds : ℤ) (cap : ℕ)
    → cap < 2 ^ 31
    → size_of_int (clamp seconds (pos 0) (int_of_size cap)) ≡ min (wanted seconds) cap
clamped (pos n) cap h = ground arith
clamped (negsuc n) cap h = ground arith

effective_pos : (cap : ℕ) → 0 < cap → effective cap ≡ cap
effective_pos cap h = ground arith

module _ {V : Type 0} where
  -- The pushes that the ring sees.
  abbrev pushed : List (TelemetrySample V) → List (Ring.Op (TelemetrySample V))
  pushed [] = []
  pushed (v ∷ vs) = pushes v ∷ pushed vs

  since-pushed : (xs vs : List (TelemetrySample V)) → since xs (pushed vs) ≡ xs ++ vs
  since-pushed xs [] = sym (append-nil xs)
  since-pushed xs (v ∷ vs) = since-pushed (xs ++ v ∷ []) vs ∙ append_assoc xs (v ∷ []) vs

  -- The hub runs its ring and its registry side by side.
  pub run-parts :
      (h : Hub V) (os : List (Op (TelemetrySample V)))
      → ((run h os).0.history_ring ≡ Ring.run h.history_ring (pushed (published os)))
        × ((run h os).0.registry ≡ (Fanout.run subscriber_queue_capacity h.registry os).0)
        × ((run h os).1 ≡ (Fanout.run subscriber_queue_capacity h.registry os).1)
  unfolding run step publish subscribe Ring.run Ring.step Fanout.run Fanout.step
  run-parts h [] = (refl, refl, refl)
  run-parts h (publishes v ∷ os) = run-parts (publish v h) os
  run-parts h (subscribes ∷ os) = run-parts (subscribe h).0 os
  run-parts h (pops i ∷ os) =
      let (r, out) = Fanout.step subscriber_queue_capacity h.registry (pops i) in
      let p = run-parts (record h { registry = r }) os in (p.0, p.1, ap (◌++◌ out) p.2)
  run-parts h (closes i ∷ os) = run-parts (record h { registry = Fanout.close_at h.registry i }) os
  run-parts h (releases i ∷ os) =
      run-parts (record h { registry = Fanout.release_at h.registry i }) os

  -- A hub made with a capacity from 1 to 2 ^ 31 - 1 answers `History(seconds)`, after any interleaving
  -- of publications and subscriber activity, with the last min(seconds, capacity) published samples in
  -- the order of publication; for a negative `seconds` with none.
  pub history-run :
      (cap : ℕ) (os : List (Op (TelemetrySample V))) (seconds : ℤ)
      → 0 < cap
      → cap < 2 ^ 31
      → history (run (new cap) os).0 seconds
        ≡ some (take_last (min (wanted seconds) cap) (published os))
  unfolding history new Ring.capacity Ring.new
  history-run cap os seconds positive small =
      let ring = Ring.run (Ring.new cap) (pushed (published os)) in
      let cap-ring : ring.cap ≡ cap =
        cap-run (Ring.new cap) (pushed (published os)) ∙ effective_pos cap positive in
      ap (λ r. Ring.last_n r (size_of_int (clamp seconds (pos 0) (int_of_size r.cap))))
        (run-parts (new cap) os).0
      ∙ (ap (λ k. Ring.last_n ring (size_of_int (clamp seconds (pos 0) (int_of_size k)))) cap-ring
          ∙ (ap (Ring.last_n ring) (clamped seconds cap small)
              ∙ (last_n-run cap (pushed (published os)) (min (wanted seconds) cap) (omega arith)
                  ∙ ap₂ (λ k xs. some (take_last k xs))
                      (ap (min (min (wanted seconds) cap)) (effective_pos cap positive)
                        ∙ omega arith)
                      (since-pushed [] (published os)))))

  -- In any interleaving of publications and subscriber activity a client of the hub receives the
  -- published samples in order and none twice, and never more than 64 samples wait for it.
  streams-run :
      (cap : ℕ) (os : List (Op (TelemetrySample V))) (i : ℕ)
      → let (h, out) = run (new cap) os in
        let queue = waiting (get_elem? h.registry.objects i) in
        Sublistᴰ (received i out ++ queue) (published os) × (length queue ≤ 64)
  unfolding new
  streams-run cap os i =
      let p = run-parts (new cap) os in
      rw (p.1, p.2)
        (
          in_order subscriber_queue_capacity os i,
          queue_bounded subscriber_queue_capacity os i (omega arith),
        )
