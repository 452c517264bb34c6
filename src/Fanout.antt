-- ===== src/Fanout.antt =====
-- The subscriber queues behind libs/core/src/telemetry_hub.cpp, and behind
-- libs/core/src/event_bus.cpp, which repeats them with another capacity and payload.
-- `std::shared_ptr<Subscriber>` is an index into `objects`; a `weak_ptr` in `subscribers_` locks as
-- long as the owner outside keeps its pointer (`owned`). The methods of a subscriber and the
-- registry's own part of `Publish` and `Subscribe` run under a mutex, so each is one step. A blocked
-- `Pop` is the step that it makes when its wait ends.
pub mod Delivery
pub mod WellFormed
pub mod Stream
pub mod Promises
pub mod Phases
mod Tests
use hardware_panel.Base.{
  ℕ, suc, Bool, true, false, not, ◌||◌, List, [], ◌∷◌, ◌++◌, Option, none, some, leb, ◌==◌,
  if◌then◌else◌, length, get_elem?, set, drop,
}

pub record Subscriber {ℓ} (A : Type ℓ) : Type ℓ where
  pub queue : List A
  pub closed : Bool

-- A subscriber object, and whether its owner (the streaming call) still holds it.
pub record Cell {ℓ} (A : Type ℓ) : Type ℓ where
  pub owned : Bool
  pub sub : Subscriber A

-- `subscribers` is `subscribers_`; `objects` is the memory that the pointers lead to.
pub record Registry {ℓ} (A : Type ℓ) : Type ℓ where
  pub objects : List (Cell A)
  pub subscribers : List ℕ

module _ {ℓ} {A : Type ℓ} where
  abbrev is_empty : List A → Bool
  is_empty [] = true
  is_empty (x ∷ xs) = false

  -- The predicate that `wait_for` waits for.
  abbrev pub is_ready : Subscriber A → Bool
  is_ready s = s.closed || not (is_empty s.queue)

  take_front : Subscriber A → List A → Subscriber A × Option A
  take_front s [] = (s, none)
  take_front s (x ∷ q) = (record s { queue = q }, some x)

  -- `Pop` from the moment its wait ends: `none` is a result of `false` (timeout, or closed).
  unfoldable pub pop : Subscriber A → Subscriber A × Option A
  unfolding take_front
  pop s = if is_ready s then take_front s s.queue else (s, none)

  unfoldable pub close : Subscriber A → Subscriber A
  close s = record s { closed = true }

  unfoldable pub queue_size : Subscriber A → ℕ
  queue_size s = length s.queue

  -- The body of the second loop of `Publish`, under the subscriber's mutex.
  unfoldable pub accept : ℕ → A → Subscriber A → Subscriber A
  accept cap v s = if s.closed then s else record s {
    queue = (if leb cap (length s.queue) then drop 1 s.queue else s.queue) ++ v ∷ [];
  }

  unfoldable pub empty : Registry A
  empty = record { objects = []; subscribers = [] }

  unfoldable pub subscribe : Registry A → Registry A × ℕ
  subscribe r =
      let id = length r.objects in
      (
        record {
          objects =
              r.objects
              ++ record { owned = true; sub = record { queue = []; closed = false } } ∷ [];
          subscribers = r.subscribers ++ id ∷ [];
        },
        id,
      )

  -- `weak_ptr::lock` succeeds.
  pub is_owned : Option (Cell A) → Bool
  is_owned none = false
  is_owned (some c) = c.owned

  -- The first loop of `Publish`: the subscribers that lock. The others are erased.
  unfoldable pub live : List (Cell A) → List ℕ → List ℕ
  unfolding is_owned
  live objects [] = []
  live objects (i ∷ is) =
      let rest = live objects is in if is_owned (get_elem? objects i) then i ∷ rest else rest

  -- A change of the object that `i` points to.
  pub update : (Cell A → Cell A) → List (Cell A) → ℕ → List (Cell A)
  update f objects i = elim (get_elem? objects i) [ none ↦ objects | some c ↦ set objects i (f c) ]

  abbrev pub accept_cell : ℕ → A → Cell A → Cell A
  accept_cell cap v c = record c { sub = accept cap v c.sub }

  unfoldable pub deliver : ℕ → A → List ℕ → List (Cell A) → List (Cell A)
  unfolding update
  deliver cap v [] objects = objects
  deliver cap v (i ∷ is) objects = deliver cap v is (update (accept_cell cap v) objects i)

  unfoldable pub publish : ℕ → A → Registry A → Registry A
  publish cap v r =
      let targets = live r.objects r.subscribers in
      record { objects = deliver cap v targets r.objects; subscribers = targets }

  -- `Pop` and `Close` through a pointer, and the end of the owner's pointer.
  unfoldable pub pop_at : Registry A → ℕ → Registry A × Option A
  unfolding update
  pop_at r i = elim (get_elem? r.objects i) [
    | none ↦ (r, none)
    | some c ↦
        (record r { objects = set r.objects i (record c { sub = (pop c.sub).0 }) }, (pop c.sub).1)
  ]

  unfoldable pub close_at : Registry A → ℕ → Registry A
  unfolding update
  close_at r i = record r { objects = update (λ c. record c { sub = close c.sub }) r.objects i }

  unfoldable pub release_at : Registry A → ℕ → Registry A
  unfolding update
  release_at r i = record r { objects = update (λ c. record c { owned = false }) r.objects i }

-- What the threads of the service do to a registry, in the order of their critical sections.
pub data Op {ℓ} (A : Type ℓ) : Type ℓ where
  publishes : A → Op A
  subscribes : Op A
  pops closes releases : ℕ → Op A

module _ {ℓ} {A : Type ℓ} where
  abbrev pub tagged : ℕ → Registry A × Option A → Registry A × List (ℕ × A)
  tagged i (r, none) = (r, [])
  tagged i (r, some x) = (r, (i, x) ∷ [])

module _ {ℓ} {A : Type ℓ} (cap : ℕ) where
  -- One step, with what a `Pop` of it handed out, to whom.
  unfoldable pub step : Registry A → Op A → Registry A × List (ℕ × A)
  step r (publishes v) = (publish cap v r, [])
  step r subscribes = ((subscribe r).0, [])
  step r (pops i) = tagged i (pop_at r i)
  step r (closes i) = (close_at r i, [])
  step r (releases i) = (release_at r i, [])

  unfoldable pub run : Registry A → List (Op A) → Registry A × List (ℕ × A)
  run r [] = (r, [])
  run r (o ∷ os) = let (r', out) = step r o in let (r'', outs) = run r' os in (r'', out ++ outs)
