-- ===== src/Channel/Backoff.antt =====
-- How long the watchdog waits between probes.
use native.Mathlib.Nat.{pow-suc}
use hardware_panel.Base.{
  ℕ, suc, ◌*◌, ◌^◌, min, ◌≡◌, refl, ap, List, [], ◌∷◌, Option, none, some, true, arith,
}
use hardware_panel.Channel.{
  Connectivity, Probe, Manager, wait_for_state_change, round, rounds, monitor_loop,
}

-- The documented deadlines, `failures` being the failed probes since the last one that found the
-- connection ready: half a second, or after a failure 2 ^ failures seconds, at most 15.
abbrev pub deadline : ℕ → Connectivity → ℕ
deadline failures Connectivity.transient_failure = min (2 ^ failures) 15 * 1000
deadline failures Connectivity.shutdown = min (2 ^ failures) 15 * 1000
deadline failures _ = 500

-- The failed probes after one more.
abbrev pub count_failures : ℕ → Connectivity → ℕ
count_failures failures Connectivity.ready = 0
count_failures failures Connectivity.transient_failure = suc failures
count_failures failures Connectivity.shutdown = suc failures
count_failures failures _ = failures

-- A wait ends at the deadline, or when the channel changes before it.
abbrev pub wait_until : ℕ → Option ℕ → ℕ
wait_until limit none = limit
wait_until limit (some t) = min limit t

abbrev pub expected_waits : ℕ → List Probe → List ℕ
expected_waits failures [] = []
expected_waits failures (p ∷ ps) =
    wait_until (deadline failures p.gstate) p.changes_after
    ∷ expected_waits (count_failures failures p.gstate) ps

doubled : (n : ℕ) → min (min (2 ^ n) 15 * 2) 15 ≡ min (2 ^ suc n) 15
doubled n = omega (arith, pow-suc 2 n)

wait_lem : (c : Option ℕ) (n : ℕ) → wait_for_state_change c n ≡ wait_until n c
wait_lem none n = refl
wait_lem (some t) n = omega arith

round-deadline :
    (g : Connectivity) (n : ℕ) (m : Manager) → (round g (min (2 ^ n) 15) m).2 ≡ deadline n g
unfolding round
round-deadline Connectivity.ready n m = refl
round-deadline Connectivity.connecting n m = refl
round-deadline Connectivity.idle n m = refl
round-deadline Connectivity.transient_failure n m = refl
round-deadline Connectivity.shutdown n m = refl

round_backoff :
    (g : Connectivity) (n : ℕ) (m : Manager)
    → (round g (min (2 ^ n) 15) m).3 ≡ min (2 ^ count_failures n g) 15
unfolding round
round_backoff Connectivity.ready n m = refl
round_backoff Connectivity.connecting n m = refl
round_backoff Connectivity.idle n m = refl
round_backoff Connectivity.transient_failure n m = doubled n
round_backoff Connectivity.shutdown n m = doubled n

rounds_waits :
    (ps : List Probe) (n : ℕ) (m : Manager) → (rounds ps (min (2 ^ n) 15) m).2 ≡ expected_waits n ps
unfolding rounds
rounds_waits [] n m = refl
rounds_waits (p ∷ ps) n m =
    rw
      (
        round_backoff p.gstate n m,
        round-deadline p.gstate n m,
        wait_lem p.changes_after (deadline n p.gstate),
      )
      (ap (◌∷◌ (wait_until (deadline n p.gstate) p.changes_after))
        (rounds_waits ps (count_failures n p.gstate) (round p.gstate (min (2 ^ n) 15) m).0))

-- Whatever the probes answer, each wait of the monitor ends at its documented deadline, or earlier
-- when the channel leaves the probed state before it: the deadline is 500 ms away, or after a failed
-- probe min(2 ^ n, 15) seconds, n being the failed probes before it since the connection was last
-- found ready; a probe that finds it connecting or idle leaves the count.
pub monitor_waits : (ps : List Probe) (m : Manager) → (monitor_loop ps m).2 ≡ expected_waits 0 ps
unfolding monitor_loop
monitor_waits ps m = rounds_waits ps 0 (record m { has_channel = true })
