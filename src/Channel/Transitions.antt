-- ===== src/Channel/Transitions.antt =====
-- What the state callback sees.
use hardware_panel.Base.{ℕ, ◌≡◌, refl, ◌∙◌, List, [], ◌∷◌, ◌++◌, true, false, arith}
use hardware_panel.Channel.{
  ConnectionState, Connectivity, Probe, Manager, same_state, set_state, round, rounds, monitor_loop,
}

-- Each value differs from the one before it, the first from `s`.
abbrev pub Alternates : ConnectionState → List ConnectionState → Type 0
Alternates s [] = Unit {0}
Alternates s (t ∷ ts) = (same_state s t ≡ false) × Alternates t ts

abbrev pub last : ConnectionState → List ConnectionState → ConnectionState
last s [] = s
last s (t ∷ ts) = last t ts

Alternates-append :
    (s : ConnectionState) (xs ys : List ConnectionState)
    → Alternates s xs
    → Alternates (last s xs) ys
    → Alternates s (xs ++ ys)
Alternates-append s [] ys h k = k
Alternates-append s (x ∷ xs) ys h k = (h.0, Alternates-append x xs ys h.1 k)

last-append :
    (s : ConnectionState) (xs ys : List ConnectionState) → last s (xs ++ ys) ≡ last (last s xs) ys
last-append s [] ys = refl
last-append s (x ∷ xs) ys = last-append x xs ys

-- The callbacks made on the way from `m` to `m'`.
record Follows (m m' : Manager) (calls : List ConnectionState) : Type 0 where
  listens : m'.has_callback ≡ true
  alternates : Alternates m.state calls
  ends : last m.state calls ≡ m'.state

set_state-Follows :
    (s : ConnectionState) (m : Manager)
    → m.has_callback ≡ true
    → Follows m (set_state s m).0 (set_state s m).1
unfolding set_state
set_state-Follows s m h = ground arith

Follows-trans :
    (m m' m'' : Manager) (xs ys : List ConnectionState)
    → Follows m m' xs
    → Follows m' m'' ys
    → Follows m m'' (xs ++ ys)
Follows-trans m m' m'' xs ys f g = record {
  listens = g.listens;
  alternates = Alternates-append m.state xs ys f.alternates (rw f.ends g.alternates);
  ends = last-append m.state xs ys ∙ rw f.ends g.ends;
}

round-Follows :
    (g : Connectivity) (b : ℕ) (m : Manager)
    → m.has_callback ≡ true
    → Follows m (round g b m).0 (round g b m).1
unfolding round
round-Follows Connectivity.ready b m h = set_state-Follows ConnectionState.connected m h
round-Follows Connectivity.connecting b m h = set_state-Follows ConnectionState.connecting m h
round-Follows Connectivity.transient_failure b m h =
    set_state-Follows ConnectionState.disconnected m h
round-Follows Connectivity.shutdown b m h = set_state-Follows ConnectionState.disconnected m h
round-Follows Connectivity.idle b m h = record { listens = h; alternates = tt; ends = refl }

rounds-Follows :
    (ps : List Probe) (b : ℕ) (m : Manager)
    → m.has_callback ≡ true
    → Follows m (rounds ps b m).0 (rounds ps b m).1
unfolding rounds
rounds-Follows [] b m h = set_state-Follows ConnectionState.disconnected m h
rounds-Follows (p ∷ ps) b m h =
    let f = round-Follows p.gstate b m h in
    Follows-trans m (round p.gstate b m).0 _ (round p.gstate b m).1 _ f
      (rounds-Follows ps (round p.gstate b m).3 (round p.gstate b m).0 f.listens)

set_state-reaches : (s : ConnectionState) (m : Manager) → (set_state s m).0.state ≡ s
unfolding set_state
set_state-reaches s m = ground arith

rounds-disconnected :
    (ps : List Probe) (b : ℕ) (m : Manager) → (rounds ps b m).0.state ≡ ConnectionState.disconnected
unfolding rounds
rounds-disconnected [] b m = set_state-reaches ConnectionState.disconnected m
rounds-disconnected (p ∷ ps) b m =
    rounds-disconnected ps (round p.gstate b m).3 (round p.gstate b m).0

-- With a callback set, whatever the probes answer, the monitor calls it only on a change: no call
-- repeats the state before it. When the monitor ends the state is disconnected, and it is the state
-- that the last call reported, or the initial one if there was no call.
pub monitor_calls :
    (ps : List Probe) (m : Manager)
    → m.has_callback ≡ true
    → let (m', calls, waits) = monitor_loop ps m in
      Alternates m.state calls
      × (last m.state calls ≡ ConnectionState.disconnected)
      × (m'.state ≡ ConnectionState.disconnected)
unfolding monitor_loop
monitor_calls ps m h =
    let f = rounds-Follows ps 1 (record m { has_channel = true }) h in
    let d = rounds-disconnected ps 1 (record m { has_channel = true }) in
    (f.alternates, f.ends ∙ d, d)
