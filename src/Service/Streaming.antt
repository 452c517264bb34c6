-- ===== src/Service/Streaming.antt =====
-- What a streaming call writes.
use native.Mathlib.Nat.{mod-eq_of_lt, mod-eq-sub-mod, mod-add-mod, mod-lt}
use native.Mathlib.Decide.{dec_lt}
use hardware_panel.Base.{
  ℕ, zero, suc, ◌+◌, ◌-◌, ◌%◌, ◌≤◌, ◌<◌, ◌≡◌, ◌≢◌, refl, ◌^◌, min, take_last, ap₂, ap, sym, ◌∙◌,
  ◌⊎◌, String, Bool, true, ◌&&◌, List, [], ◌∷◌, some, ◌==◌, ==_iff, ==_ne, map, arith, inl, inr,
}
use hardware_panel.Base.Int.{ℤ, pos, negsuc}
use hardware_panel.Types.{MetricSample, TelemetrySample}
use hardware_panel.Hub
use hardware_panel.Hub.History.{wanted, history-run}
use hardware_panel.Fanout.{Op}
use hardware_panel.Fanout.Stream.{published}
use hardware_panel.Service.{
  get_history, keep_metrics, sample_to_proto, IntervalHz, decimate_of, Round, cancelled, timeout,
  popped, subscribe_loop, subscribe,
}

module _ {A : Type 0} where
  -- The values that are popped before the client cancels, and none of whose writes fails.
  abbrev pub values : List (Round A) → List A
  values [] = []
  values (cancelled ∷ rs) = []
  values (timeout ∷ rs) = values rs
  values (popped x written ∷ rs) = x ∷ values rs

  abbrev pub all_written : List (Round A) → Bool
  all_written [] = true
  all_written (cancelled ∷ rs) = true
  all_written (timeout ∷ rs) = all_written rs
  all_written (popped x written ∷ rs) = written && all_written rs

  -- The first value after `wait` others, and then each after `gap` others.
  abbrev pub one_in : ℕ → ℕ → List A → List A
  one_in gap wait [] = []
  one_in gap zero (x ∷ xs) = x ∷ one_in gap gap xs
  one_in gap (suc wait) (x ∷ xs) = one_in gap wait xs

decimate-pos : (hz : IntervalHz) → (gap : ℕ) × (decimate_of hz ≡ suc gap)
unfolding decimate_of
decimate-pos hz = (decimate_of hz - 1, positive hz.rounded_inverse refl)
  where
    positive : (z : ℤ) → hz.rounded_inverse ≡ z → decimate_of hz ≡ suc (decimate_of hz - 1)
    positive (pos n) e = ground (arith, e)
    positive (negsuc n) e = ground (arith, e)

-- With `wait` steps to the next multiple of the gap, the index is one itself only if `wait` is 0.
index-cases :
    (gap index wait : ℕ)
    → wait ≤ gap
    → (index + wait) % suc gap ≡ 0
    → ((index % suc gap ≡ 0) × (wait ≡ 0)) ⊎ ((index % suc gap ≢ 0) × (wait ≢ 0))
index-cases gap index wait h e =
    let r = index % suc gap in
    let below : r < suc gap = mod-lt index {m = suc gap} (omega arith) in
    let reduced : (r + wait) % suc gap ≡ 0 = rw mod-add-mod e in
    elim (dec_lt (r + wait) (suc gap)) [
      | yes p ↦
          let sum : r + wait ≡ 0 = sym (mod-eq_of_lt p) ∙ reduced in
          inl (omega (arith, sum), omega (arith, sum))
      | no p ↦
          let over : r + wait - suc gap ≡ 0 =
            sym (mod-eq_of_lt {n = r + wait - suc gap} {m = suc gap} (omega (arith, below)))
            ∙ (sym (mod-eq-sub-mod {n = r + wait} {m = suc gap} (omega arith)) ∙ reduced) in
          inr (omega (arith, over, below), omega (arith, over, below))
    ]

full-turn : (gap index : ℕ) → index % suc gap ≡ 0 → (index + 1 + gap) % suc gap ≡ 0
full-turn gap index e =
    mod-eq-sub-mod {n = index + 1 + gap} {m = suc gap} (omega arith)
    ∙ (ap (λ k. k % suc gap) (omega arith) ∙ e)

module _ {V : Type 0} where
  subscribe_loop-one_in :
      (filter : List String) (gap index wait : ℕ) (rs : List (Round (TelemetrySample V)))
      → all_written rs ≡ true
      → wait ≤ gap
      → (index + wait) % suc gap ≡ 0
      → subscribe_loop filter (suc gap) index rs
        ≡ map (sample_to_proto filter) (one_in gap wait (values rs))
  unfolding subscribe_loop
  subscribe_loop-one_in filter gap index wait [] w h e = refl
  subscribe_loop-one_in filter gap index wait (cancelled ∷ rs) w h e = refl
  subscribe_loop-one_in filter gap index wait (timeout ∷ rs) w h e =
      subscribe_loop-one_in filter gap index wait rs w h e
  subscribe_loop-one_in filter gap index zero (popped x written ∷ rs) w h e =
      elim (index-cases gap index 0 h e) [
        | inl (multiple, _) ↦
            let hit : (index % suc gap == 0) ≡ true = (==_iff _ _).1 multiple in
            let sent : written ≡ true = ground arith in
            rw (hit, sent)
              (ap (◌∷◌ (sample_to_proto filter x)) (
                subscribe_loop-one_in filter gap (index + 1) gap rs (ground arith) (omega arith)
                  (full-turn gap index multiple)))
        | inr (_, ne) ↦ absurd (ne refl)
      ]
  subscribe_loop-one_in filter gap index (suc wait) (popped x written ∷ rs) w h e =
      elim (index-cases gap index (suc wait) h e) [
        | inl (_, z) ↦ absurd (omega arith)
        | inr (skipped, _) ↦ rw (==_ne (index % suc gap) 0 skipped) (
            subscribe_loop-one_in filter gap (index + 1) wait rs (ground arith) (omega arith) (
              ap (λ k. k % suc gap) (let s : index + 1 + wait ≡ index + suc wait = omega arith in s)
              ∙ e))
      ]

  -- As long as no write fails, a telemetry stream sends of the samples that it pops before the client
  -- cancels the first and then each `decimate`-th, converted with the request's filter, in order and
  -- nothing else; timeouts in between make no difference.
  pub subscribe_decimates :
      (filter : List String) (hz : IntervalHz) (rs : List (Round (TelemetrySample V)))
      → all_written rs ≡ true
      → subscribe filter hz rs
        ≡ map (sample_to_proto filter) (one_in (decimate_of hz - 1) 0 (values rs))
  unfolding subscribe
  subscribe_decimates filter hz rs w =
      let (gap, e) = decimate-pos hz in
      rw e (
        subscribe_loop-one_in filter gap 0 0 rs w (omega arith) (omega arith)
        ∙ ap (λ k. map (sample_to_proto filter) (one_in k 0 (values rs))) (omega arith))

module _ {V : Type 0} where
  keep_metrics-all : (ms : List (MetricSample V)) → keep_metrics [] ms ≡ ms
  unfolding keep_metrics
  keep_metrics-all [] = refl
  keep_metrics-all (m ∷ ms) = ap (◌∷◌ m) (keep_metrics-all ms)

  pub map-unfiltered : (xs : List (TelemetrySample V)) → map (sample_to_proto []) xs ≡ xs
  unfolding sample_to_proto
  map-unfiltered [] = refl
  map-unfiltered (x ∷ xs) =
      ap₂ ◌∷◌
        (ap (λ ms. record { timestamp_ms = x.timestamp_ms; metrics = ms })
          (keep_metrics-all x.metrics))
        (map-unfiltered xs)

  -- `GetHistory(seconds)` of a service whose hub has a capacity from 1 to 2 ^ 31 - 1 answers, after any
  -- interleaving of publications and subscriber activity, with the last min(seconds, capacity)
  -- published samples, whole and in the order of publication; for a negative `seconds` with none.
  get_history-run :
      (cap : ℕ) (os : List (Op (TelemetrySample V))) (seconds : ℤ)
      → 0 < cap
      → cap < 2 ^ 31
      → get_history seconds (Hub.run (Hub.new cap) os).0
        ≡ some (take_last (min (wanted seconds) cap) (published os))
  unfolding get_history
  get_history-run cap os seconds positive small =
      rw (history-run cap os seconds positive small, get_history)
        (ap some (map-unfiltered (take_last (min (wanted seconds) cap) (published os))))
