-- ===== src/Fanout/Phases/Words.antt =====
-- The words for what a subscriber is promised: what waits for it, what calls of `Publish` still owe
-- it, and the part of a list that passes a test.
use mathlib.Core.List.{Sublistᴰ}
use hardware_panel.Base.{
  ℕ, zero, suc, ◌+◌, ◌≤◌, ◌≡◌, refl, Bool, true, List, [], ◌∷◌, ◌++◌, Option, none, some, arith, ap,
  ◌∙◌, length-append, Bool-cases, inl, inr, length, get_elem?, if◌then◌else◌,
}
use hardware_panel.Fanout.Delivery.{count}
use hardware_panel.Fanout.Stream.{waiting}
use hardware_panel.Fanout.Phases.{
  Call, Phased, Op, begins, proceeds, subscribes, pops, closes, releases, step,
}

-- The elements that pass a test.
module _ {A : Type 0} where
  abbrev pub keep : (A → Bool) → List A → List A
  keep p [] = []
  keep p (x ∷ xs) = if p x then x ∷ keep p xs else keep p xs

  pub keep-append : (p : A → Bool) (xs ys : List A) → keep p (xs ++ ys) ≡ keep p xs ++ keep p ys
  keep-append p [] ys = refl
  keep-append p (x ∷ xs) ys = ground (arith, keep-append p xs ys)

  pub keep-Sublistᴰ :
      (p : A → Bool) {xs ys : List A} → Sublistᴰ xs ys → Sublistᴰ (keep p xs) (keep p ys)
  keep-Sublistᴰ p Sublistᴰ.slnil = Sublistᴰ.slnil
  keep-Sublistᴰ p (Sublistᴰ.cons {a = a} s) = elim (Bool-cases (p a)) [
    | inl e ↦ rw e (Sublistᴰ.cons (keep-Sublistᴰ p s))
    | inr e ↦ rw e (keep-Sublistᴰ p s)
  ]
  keep-Sublistᴰ p (Sublistᴰ.cons-cons {a = a} {b = b} q s) = rw q (elim (Bool-cases (p b)) [
    | inl e ↦ rw e (Sublistᴰ.cons-cons refl (keep-Sublistᴰ p s))
    | inr e ↦ rw e (keep-Sublistᴰ p s)
  ])

  length-Sublistᴰ : {xs ys : List A} → Sublistᴰ xs ys → length xs ≤ length ys
  length-Sublistᴰ Sublistᴰ.slnil = omega arith
  length-Sublistᴰ (Sublistᴰ.cons s) = omega (arith, length-Sublistᴰ s)
  length-Sublistᴰ (Sublistᴰ.cons-cons e s) = omega (arith, length-Sublistᴰ s)

module _ {A : Type 0} (p : A → Bool) where
  -- How many elements pass the test.
  abbrev pub passing : List A → ℕ
  passing xs = length (keep p xs)

  pub passing-append : (xs ys : List A) → passing (xs ++ ys) ≡ passing xs + passing ys
  passing-append xs ys = ap length (keep-append p xs ys) ∙ length-append (keep p xs) (keep p ys)

  pub passing-Sublistᴰ : {xs ys : List A} → Sublistᴰ xs ys → passing xs ≤ passing ys
  passing-Sublistᴰ s = length-Sublistᴰ (keep-Sublistᴰ p s)

module _ {A : Type 0} where
  -- `n` copies of a value.
  abbrev pub copies : ℕ → A → List A
  copies zero v = []
  copies (suc n) v = v ∷ copies n v

  -- What the call that a thread is in has still to bring to the subscriber `i`.
  abbrev pub owed : ℕ → Option (Call A) → List A
  owed i none = []
  owed i (some k) = copies (count i k.remaining) k.value

  abbrev pub owed_by : ℕ → Option (Option (Call A)) → List A
  owed_by i none = []
  owed_by i (some o) = owed i o

  -- What waits in the queue of `i`.
  abbrev pub queued : ℕ → Phased A → List A
  queued i s = waiting (get_elem? s.registry.objects i)

  -- The value that a step publishes: a thread that is inside `Publish` begins nothing.
  abbrev pub begun : A → Option (Option (Call A)) → List A
  begun v none = []
  begun v (some none) = v ∷ []
  begun v (some (some k)) = []

  abbrev pub starts : Phased A → Op A → List A
  starts s (begins t v) = begun v (get_elem? s.threads t)
  starts s (proceeds t) = []
  starts s subscribes = []
  starts s (pops i) = []
  starts s (closes i) = []
  starts s (releases i) = []

  -- The values that a run publishes, in the order of the first loops.
  unfoldable pub published : ℕ → Phased A → List (Op A) → List A
  published cap s [] = []
  published cap s (o ∷ os) = starts s o ++ published cap (step cap s o).0 os

module _ {A : Type 0} (p : A → Bool) (t : ℕ) where
  -- Every publication of a value that passes the test is one of the thread `t`.
  abbrev pub OnlyFrom : List (Op A) → Type 0
  OnlyFrom [] = Unit {0}
  OnlyFrom (begins u v ∷ os) = (p v ≡ true → u ≡ t) × OnlyFrom os
  OnlyFrom (proceeds u ∷ os) = OnlyFrom os
  OnlyFrom (subscribes ∷ os) = OnlyFrom os
  OnlyFrom (pops j ∷ os) = OnlyFrom os
  OnlyFrom (closes j ∷ os) = OnlyFrom os
  OnlyFrom (releases j ∷ os) = OnlyFrom os
