-- ===== src/Collectors/Pdh/CounterPath/Search.antt =====
-- The laws of searching in a wide string.
use hardware_panel.Base.{
  ℕ, zero, suc, ◌≤◌, ◌<◌, ◌≡◌, refl, ◌⊎◌, inl, inr, false, [], ◌∷◌, ◌++◌, none, some, ◌==◌, length,
  take, drop, arith, Option-cases,
}
use hardware_panel.Collectors.Pdh.CounterPath.{WString, find, rfind}

pub find-absent_head : (c x : ℕ) (xs : WString) → find c (x ∷ xs) ≡ none → (x == c) ≡ false
unfolding find
find-absent_head c x xs h = ground arith

pub find-absent_tail : (c x : ℕ) (xs : WString) → find c (x ∷ xs) ≡ none → find c xs ≡ none
unfolding find
find-absent_tail c x xs h = ground arith

-- The first `c` after a text without it.
pub find-append :
    (c : ℕ) (xs ys : WString) → find c xs ≡ none → find c (xs ++ c ∷ ys) ≡ some (length xs)
unfolding find
find-append c [] ys h = ground arith
find-append c (x ∷ xs) ys h =
    let rest = find-append c xs ys (find-absent_tail c x xs h) in
    ground (arith, rest, find-absent_head c x xs h)

-- Any `c` after a text without it and one other unit comes behind them.
pub find-append_other :
    (c x : ℕ) (xs ys : WString)
    → find c xs ≡ none
    → (x == c) ≡ false
    → (find c (xs ++ x ∷ ys) ≡ none)
      ⊎ ((j : ℕ) × (length xs < j) × (find c (xs ++ x ∷ ys) ≡ some j))
unfolding find
find-append_other c x [] ys h ne = elim (Option-cases (find c ys)) [
  | inl e ↦ inl (ground arith)
  | inr (k, e) ↦ inr (suc k, omega arith, ground arith)
]
find-append_other c x (y ∷ xs) ys h ne =
    let head = find-absent_head c y xs h in
    elim (find-append_other c x xs ys (find-absent_tail c y xs h) ne) [
      | inl e ↦ inl (rw (head, e) refl)
      | inr (j, h', e) ↦ inr (suc j, omega arith, rw (head, e) refl)
    ]

pub rfind-append :
    (c : ℕ) (xs ys : WString) → rfind c ys ≡ none → rfind c (xs ++ c ∷ ys) ≡ some (length xs)
unfolding rfind
rfind-append c [] ys h = ground arith
rfind-append c (x ∷ xs) ys h = ground (arith, rfind-append c xs ys h)

-- Nothing before the first `c`, and nothing behind the last one.
pub find-take :
    (c : ℕ) (xs : WString) (k n : ℕ) → find c xs ≡ some k → n ≤ k → find c (take n xs) ≡ none
unfolding find
find-take c xs k zero e h = refl
find-take c [] k (suc n) e h = refl
find-take c (x ∷ xs) k (suc n) e h = elim (Option-cases (find c xs)) [
  | inl none' ↦ ground arith
  | inr (j, e') ↦ ground (arith, find-take c xs j n e')
]

pub find-take_absent : (c : ℕ) (xs : WString) (n : ℕ) → find c xs ≡ none → find c (take n xs) ≡ none
unfolding find
find-take_absent c xs zero h = refl
find-take_absent c [] (suc n) h = refl
find-take_absent c (x ∷ xs) (suc n) h =
    let rest = find-take_absent c xs n (find-absent_tail c x xs h) in
    ground (arith, rest, find-absent_head c x xs h)

pub rfind-drop :
    (c : ℕ) (xs : WString) (i : ℕ) → rfind c xs ≡ some i → rfind c (drop (suc i) xs) ≡ none
unfolding rfind
rfind-drop c [] i e = ground arith
rfind-drop c (x ∷ xs) zero e = elim (Option-cases (rfind c xs)) [
  | inl absent ↦ absent
  | inr (j, e') ↦ ground arith
]
rfind-drop c (x ∷ xs) (suc i) e = elim (Option-cases (rfind c xs)) [
  | inl absent ↦ ground arith
  | inr (j, e') ↦ rfind-drop c xs i (ground arith)
]
