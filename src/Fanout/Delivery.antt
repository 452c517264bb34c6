-- ===== src/Fanout/Delivery.antt =====
-- `Publish` reaches each live subscriber once and touches nothing else.
use mathlib.Core.Option
use hardware_panel.Base.{
  ℕ, zero, suc, ◌+◌, ◌≤◌, ◌<◌, ◌≡◌, refl, ◌≢◌, ap, sym, ◌∙◌, List, [], ◌∷◌, ◌++◌, Option, none,
  some, arith, ◌==◌, ==_iff, Bool-cases, Option-cases, inl, inr, true, length, get_elem?,
  length-set, if◌then◌else◌, get_elem?-set_self, get_elem?-set_ne,
}
use hardware_panel.Fanout.{
  Cell, Registry, accept, is_owned, live, update, accept_cell, deliver, publish,
}

abbrev pub count : ℕ → List ℕ → ℕ
count i [] = 0
count i (j ∷ js) = if i == j then suc (count i js) else count i js

-- A pointer is registered at most once, only if its object exists, and for as long as it is owned.
pub record IsWellFormed {A : Type 0} (r : Registry A) : Type 0 where
  pub once : (i : ℕ) → count i r.subscribers ≤ 1
  pub known : (i : ℕ) → length r.objects ≤ i → count i r.subscribers ≡ 0
  pub listed :
      (i : ℕ) (c : Cell A)
      → get_elem? r.objects i ≡ some c
      → c.owned ≡ true
      → count i r.subscribers ≡ 1

pub count-append : (i : ℕ) (xs ys : List ℕ) → count i (xs ++ ys) ≡ count i xs + count i ys
count-append i [] ys = omega arith
count-append i (x ∷ xs) ys = ground (arith, count-append i xs ys)

module _ {A : Type 0} where
  pub get_elem?_lt : (xs : List A) (i : ℕ) (a : A) → get_elem? xs i ≡ some a → i < length xs
  get_elem?_lt [] i a e = ground arith
  get_elem?_lt (x ∷ xs) zero a e = omega arith
  get_elem?_lt (x ∷ xs) (suc i) a e = omega (arith, get_elem?_lt xs i a e)

  pub get_elem?-none : (xs : List A) (i : ℕ) → get_elem? xs i ≡ none → length xs ≤ i
  get_elem?-none [] i e = omega arith
  get_elem?-none (x ∷ xs) zero e = ground arith
  get_elem?-none (x ∷ xs) (suc i) e = omega (arith, get_elem?-none xs i e)

  pub get_elem?_ge : (xs : List A) (i : ℕ) → length xs ≤ i → get_elem? xs i ≡ none
  get_elem?_ge [] i h = refl
  get_elem?_ge (x ∷ xs) zero h = elim h [ ]
  get_elem?_ge (x ∷ xs) (suc i) h = get_elem?_ge xs i (omega arith)

module _ {A : Type 0} where
  pub length-update :
      (f : Cell A → Cell A) (cs : List (Cell A)) (j : ℕ) → length (update f cs j) ≡ length cs
  unfolding update
  length-update f cs j = elim (Option-cases (get_elem? cs j)) [
    | inl e ↦ rw (e, update)
    | inr (c, e) ↦ rw (e, update) (length-set cs j (f c))
  ]

  pub get_elem?-update :
      (f : Cell A → Cell A) (cs : List (Cell A)) (j i : ℕ)
      → get_elem? (update f cs j) i
        ≡ (if i == j then Option.map f (get_elem? cs i) else get_elem? cs i)
  unfolding update
  get_elem?-update f cs j i = elim (Bool-cases (i == j)) [
    | inl same ↦ let e : i ≡ j = (==_iff i j).0 same in rw (same, e) (hit (get_elem? cs j) refl)
    | inr other ↦ rw other (miss (get_elem? cs j) refl (λ e. ground arith))
  ]
    where
      hit :
          (o : Option (Cell A))
          → get_elem? cs j ≡ o
          → get_elem? (update f cs j) j ≡ Option.map f (get_elem? cs j)
      hit none e = rw (e, update) e
      hit (some c) e = rw (e, update) (get_elem?-set_self cs j (f c) (get_elem?_lt cs j c e))

      miss :
          (o : Option (Cell A))
          → get_elem? cs j ≡ o
          → j ≢ i
          → get_elem? (update f cs j) i ≡ get_elem? cs i
      miss none e ne = rw (e, update)
      miss (some c) e ne = rw (e, update) (get_elem?-set_ne cs (f c) ne)

  pub count-live :
      (cs : List (Cell A)) (is : List ℕ) (i : ℕ)
      → count i (live cs is) ≡ (if is_owned (get_elem? cs i) then count i is else 0)
  unfolding live
  count-live cs [] i = ground arith
  count-live cs (j ∷ is) i = elim (Bool-cases (i == j)) [
    | inl same ↦
        let e : j ≡ i = sym ((==_iff i j).0 same) in
        rw (same, e) (ground (arith, count-live cs is i))
    | inr other ↦ ground (arith, count-live cs is i)
  ]

  pub length-deliver :
      (cap : ℕ) (v : A) (is : List ℕ) (cs : List (Cell A))
      → length (deliver cap v is cs) ≡ length cs
  unfolding deliver
  length-deliver cap v [] cs = refl
  length-deliver cap v (i ∷ is) cs =
      length-deliver cap v is (update (accept_cell cap v) cs i)
      ∙ length-update (accept_cell cap v) cs i

  pub deliver-other :
      (cap : ℕ) (v : A) (is : List ℕ) (cs : List (Cell A)) (i : ℕ)
      → count i is ≡ 0
      → get_elem? (deliver cap v is cs) i ≡ get_elem? cs i
  unfolding deliver
  deliver-other cap v [] cs i h = refl
  deliver-other cap v (j ∷ is) cs i h = elim (Bool-cases (i == j)) [
    | inl same ↦ ground arith
    | inr other ↦
        deliver-other cap v is (update (accept_cell cap v) cs j) i (ground arith)
        ∙ (get_elem?-update (accept_cell cap v) cs j i ∙ rw other)
  ]

  deliver-target :
      (cap : ℕ) (v : A) (is : List ℕ) (cs : List (Cell A)) (i : ℕ)
      → count i is ≡ 1
      → get_elem? (deliver cap v is cs) i ≡ Option.map (accept_cell cap v) (get_elem? cs i)
  unfolding deliver
  deliver-target cap v [] cs i h = ground arith
  deliver-target cap v (j ∷ is) cs i h = elim (Bool-cases (i == j)) [
    | inl same ↦
        deliver-other cap v is (update (accept_cell cap v) cs j) i (ground arith)
        ∙ (get_elem?-update (accept_cell cap v) cs j i ∙ rw same)
    | inr other ↦
        deliver-target cap v is (update (accept_cell cap v) cs j) i (ground arith)
        ∙ ap (Option.map (accept_cell cap v))
            (get_elem?-update (accept_cell cap v) cs j i ∙ rw other)
  ]

  -- In a well-formed registry `Publish` applies the subscriber's own step, once, to every object
  -- whose owner still holds it, and leaves every other object as it is.
  pub publish_isolated :
      (cap : ℕ) (v : A) (r : Registry A) (i : ℕ) (c : Cell A)
      → IsWellFormed r
      → get_elem? r.objects i ≡ some c
      → get_elem? (publish cap v r).objects i
        ≡ some (if c.owned then record c { sub = accept cap v c.sub } else c)
  unfolding publish is_owned
  publish_isolated cap v r i c w e =
      let counted = count-live r.objects r.subscribers i in
      let targets = live r.objects r.subscribers in
      elim (Bool-cases c.owned) [
        | inl held ↦ ground (
          arith,
          e,
          deliver-target cap v targets r.objects i
              (counted ∙ rw (e, is_owned, held) (w.listed i c e held)),
        )
        | inr gone ↦ ground (
          arith,
          e,
          deliver-other cap v targets r.objects i (counted ∙ rw (e, is_owned, gone) refl),
        )
      ]
