-- ===== src/Fanout/Phases.antt =====
-- `Publish` of libs/core/src/telemetry_hub.cpp and libs/core/src/event_bus.cpp with its two loops
-- apart: the first one runs under the registry's mutex and leaves the pointers that lock in the local
-- vector `live`, the second one takes the mutex of one subscriber after the other. Other threads,
-- publishing ones too, run in between. The vector keeps its subscribers alive until `Publish`
-- returns.
pub mod Words
pub mod Steps
pub mod Registered
pub mod Books
pub mod Order
pub mod Once
mod Tests
use hardware_panel.Base.{
  ℕ, Bool, true, false, ◌||◌, List, [], ◌∷◌, ◌++◌, Option, none, some, ◌==◌, zero, suc,
  if◌then◌else◌, set, get_elem?,
}
use hardware_panel.Fanout
use hardware_panel.Fanout.{Cell, Registry, is_owned, update, accept_cell, tagged}

-- A call of `Publish` between its loops: the vector `live`, and what the second loop has still to do.
pub record Call {ℓ} (A : Type ℓ) : Type ℓ where
  pub value : A
  pub held : List ℕ
  pub remaining : List ℕ

-- `threads` tells of each thread the call of `Publish` that it is in, if it is in one.
pub record Phased {ℓ} (A : Type ℓ) : Type ℓ where
  pub registry : Registry A
  pub threads : List (Option (Call A))

-- What a thread does next: `Publish` up to its second loop, one round of that loop or its return,
-- or a step of the other methods.
pub data Op {ℓ} (A : Type ℓ) : Type ℓ where
  begins : ℕ → A → Op A
  proceeds : ℕ → Op A
  subscribes : Op A
  pops closes releases : ℕ → Op A

abbrev pub member : ℕ → List ℕ → Bool
member i [] = false
member i (j ∷ js) = i == j || member i js

module _ {ℓ} {A : Type ℓ} where
  -- Some call of `Publish` holds a pointer to the subscriber `i`.
  abbrev pub is_held : List (Option (Call A)) → ℕ → Bool
  is_held [] i = false
  is_held (none ∷ ts) i = is_held ts i
  is_held (some k ∷ ts) i = member i k.held || is_held ts i

  -- The first loop: a `weak_ptr` locks while its owner or a call of `Publish` holds a pointer.
  unfoldable pub lock_all : List (Cell A) → List (Option (Call A)) → List ℕ → List ℕ
  lock_all objects threads [] = []
  lock_all objects threads (i ∷ is) =
      let rest = lock_all objects threads is in
      if is_owned (get_elem? objects i) || is_held threads i then i ∷ rest else rest

  -- A thread that is inside `Publish` does not begin another call.
  abbrev pub begin_call : ℕ → A → Option (Option (Call A)) → Phased A → Phased A
  begin_call t v none s = s
  begin_call t v (some (some k)) s = s
  begin_call t v (some none) s =
      let live = lock_all s.registry.objects s.threads s.registry.subscribers in
      record {
        registry = record s.registry { subscribers = live };
        threads = set s.threads t (some (record { value = v; held = live; remaining = live }));
      }

  -- One round of the second loop, or the return after the last one.
  abbrev pub next_round : ℕ → ℕ → A → List ℕ → List ℕ → Phased A → Phased A
  next_round cap t v held [] s = record s { threads = set s.threads t none }
  next_round cap t v held (i ∷ is) s = record {
    registry = record s.registry { objects = update (accept_cell cap v) s.registry.objects i };
    threads = set s.threads t (some (record { value = v; held = held; remaining = is }));
  }

  abbrev pub proceed : ℕ → ℕ → Option (Option (Call A)) → Phased A → Phased A
  proceed cap t none s = s
  proceed cap t (some none) s = s
  proceed cap t (some (some k)) s = next_round cap t k.value k.held k.remaining s

  abbrev pub on_registry : Phased A → Registry A × List (ℕ × A) → Phased A × List (ℕ × A)
  on_registry s (r, out) = (record s { registry = r }, out)

  -- `threads` threads, none of them inside `Publish`.
  abbrev pub idle_threads : ℕ → List (Option (Call A))
  idle_threads zero = []
  idle_threads (suc n) = none ∷ idle_threads n

module _ {ℓ} {A : Type ℓ} (cap : ℕ) where
  unfoldable pub step : Phased A → Op A → Phased A × List (ℕ × A)
  step s (begins t v) = (begin_call t v (get_elem? s.threads t) s, [])
  step s (proceeds t) = (proceed cap t (get_elem? s.threads t) s, [])
  step s subscribes = (record s { registry = (Fanout.subscribe s.registry).0 }, [])
  step s (pops i) = on_registry s (tagged i (Fanout.pop_at s.registry i))
  step s (closes i) = (record s { registry = Fanout.close_at s.registry i }, [])
  step s (releases i) = (record s { registry = Fanout.release_at s.registry i }, [])

  unfoldable pub run : Phased A → List (Op A) → Phased A × List (ℕ × A)
  run s [] = (s, [])
  run s (o ∷ os) = let (s', out) = step s o in let (s'', outs) = run s' os in (s'', out ++ outs)

-- No subscribers yet, and nobody in `Publish`.
unfoldable pub empty {ℓ} : {A : Type ℓ} → ℕ → Phased A
empty n = record { registry = Fanout.empty; threads = idle_threads n }
