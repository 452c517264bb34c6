-- ===== src/Ring/Refine.antt =====
-- A ring buffer holds the most recent elements of what was pushed since it was made or cleared.
use native.Mathlib.Nat.{mod-eq_of_lt, mod-eq-sub-mod, mod-add-mod, mod-lt}
use native.Mathlib.Decide.{dec_lt}
use hardware_panel.Base.{
  ℕ, zero, suc, ◌+◌, ◌-◌, ◌%◌, ◌^◌, ◌≤◌, ◌<◌, min, ◌≡◌, refl, ◌≢◌, ap, sym, ◌∙◌, List, [], ◌∷◌,
  ◌++◌, some, arith, lt→ltb, le→ltb, length, get_elem?, set, drop, take_last, length-append,
  length-set, get_elem?-set_self, get_elem?-set_ne, get_elem?-append_left, get_elem?-append_right,
  drop_of_get_elem?, drop-length, get_elem?_total,
}
use hardware_panel.Ring.{
  Ring, Op, pushes, clears, word, effective, new, push, size, capacity, total_pushed, collect,
  last_n, all, clear, step, run,
}

-- An index that runs off the end of the vector comes back at its start.
mod-wrap : (cap h i : ℕ) → h < cap → i < cap → cap ≤ h + i → (h + i) % cap ≡ h + i - cap
mod-wrap cap h i p q r =
    mod-eq-sub-mod {n = h + i} {m = cap} r ∙ mod-eq_of_lt {n = h + i - cap} {m = cap} (omega arith)

-- The buffer `r` holds the last elements of `xs`, oldest first from `head`.
pub record Represents {A : Type 0} (r : Ring A) (xs : List A) : Type 0 where
  pub cap_pos : 0 < r.cap
  pub cap_small : r.cap ≤ 2 ^ 63
  pub head_in : r.head < r.cap
  pub head_zero : length r.buf < r.cap → r.head ≡ 0
  pub filled : length r.buf ≡ min r.cap (length xs)
  pub counted : r.total ≡ length xs % 2 ^ 64
  pub holds :
      (i : ℕ)
      → i < length r.buf
      → get_elem? r.buf ((r.head + i) % r.cap) ≡ get_elem? xs (length xs - length r.buf + i)

module _ {A : Type 0} where
  get_elem?-last :
      (xs : List A) (v : A) (k : ℕ) → k ≡ length xs → get_elem? (xs ++ v ∷ []) k ≡ some v
  get_elem?-last xs v k e =
      ap (get_elem? (xs ++ v ∷ [])) (omega arith) ∙ get_elem?-append_right xs (v ∷ []) 0

  -- While the buffer grows, positions in it and in the history agree.
  grow-holds :
      (r : Ring A) (xs : List A) (v : A)
      → Represents r xs
      → length r.buf < r.cap
      → (i : ℕ) → i < suc (length r.buf)
      → get_elem? (r.buf ++ v ∷ []) ((r.head + i) % r.cap) ≡ get_elem? (xs ++ v ∷ []) i
  grow-holds r xs v h lt i il = elim (dec_lt i (length r.buf)) [
    | yes p ↦ ground (
      arith,
      h.holds i p,
      h.head_zero lt,
      h.filled,
      mod-eq_of_lt {n = i} {m = r.cap} (omega arith),
      get_elem?-append_left r.buf (v ∷ []) i p,
      get_elem?-append_left xs (v ∷ []) i (omega (arith, h.filled)),
    )
    | no p ↦ ground (
      arith,
      h.head_zero lt,
      h.filled,
      mod-eq_of_lt {n = i} {m = r.cap} (omega arith),
      get_elem?-last r.buf v i (omega arith),
      get_elem?-last xs v i (omega (arith, h.filled)),
    )
  ]

  -- Once it is full, the oldest element is overwritten and the window moves on by one.
  turn-holds :
      (r : Ring A) (xs : List A) (v : A)
      → Represents r xs
      → length r.buf ≡ r.cap
      → (i : ℕ) → i < r.cap
      → get_elem? (set r.buf r.head v) ((((r.head + 1) % word) % r.cap + i) % r.cap)
        ≡ get_elem? (xs ++ v ∷ []) (length xs + 1 - r.cap + i)
  turn-holds r xs v h full i il = elim (dec_lt (suc i) r.cap) [
    | yes p ↦
        rw (index, get_elem?-set_ne r.buf {i = r.head} {j = (r.head + suc i) % r.cap} v (apart p))
          (h.holds (suc i) (omega arith)
            ∙ (ap (get_elem? xs) (omega (arith, h.filled))
                ∙ sym (
                    get_elem?-append_left xs (v ∷ []) (length xs + 1 - r.cap + i)
                      (omega (arith, h.filled)))))
    | no p ↦
        rw (index, last (omega arith), get_elem?-set_self r.buf r.head v (omega (arith, h.head_in)))
          (sym (get_elem?-last xs v (length xs + 1 - r.cap + i) (omega (arith, h.filled))))
  ]
    where
      index : (((r.head + 1) % word) % r.cap + i) % r.cap ≡ (r.head + suc i) % r.cap
      index =
          rw (mod-eq_of_lt {n = r.head + 1} {m = word} (omega (arith, h.head_in, h.cap_small)))
            (rw mod-add-mod (ap (λ k. k % r.cap) (omega arith)))

      last : suc i ≡ r.cap → (r.head + suc i) % r.cap ≡ r.head
      last e =
          mod-eq-sub-mod {n = r.head + suc i} {m = r.cap} (omega arith)
          ∙ (ap (λ k. k % r.cap) (omega arith) ∙ mod-eq_of_lt {n = r.head} {m = r.cap} h.head_in)

      apart : suc i < r.cap → r.head ≢ (r.head + suc i) % r.cap
      apart p = elim (dec_lt (r.head + suc i) r.cap) [
        | yes q ↦ omega (arith, mod-eq_of_lt q)
        | no q ↦ omega (arith, mod-wrap r.cap r.head (suc i) h.head_in p (omega arith))
      ]

  new-Represents : (capacity : ℕ) → capacity ≤ 2 ^ 63 → Represents {A = A} (new capacity) []
  unfolding new
  new-Represents capacity h = record {
    cap_pos = ground arith;
    cap_small = ground arith;
    head_in = ground arith;
    head_zero = λ _. refl;
    filled = ground arith;
    counted = omega arith;
    holds = λ i il. elim il [ ];
  }

  clear-Represents : (r : Ring A) (xs : List A) → Represents r xs → Represents (clear r) []
  unfolding clear
  clear-Represents r xs h = record {
    cap_pos = h.cap_pos;
    cap_small = h.cap_small;
    head_in = h.cap_pos;
    head_zero = λ _. refl;
    filled = omega arith;
    counted = omega arith;
    holds = λ i il. elim il [ ];
  }

  push-Represents :
      (r : Ring A) (xs : List A) (v : A) → Represents r xs → Represents (push r v) (xs ++ v ∷ [])
  unfolding push
  push-Represents r xs v h = elim (dec_lt (length r.buf) r.cap) [
    | yes p ↦ rw (lt→ltb _ _ p) (record {
      cap_pos = h.cap_pos;
      cap_small = h.cap_small;
      head_in = h.head_in;
      head_zero = λ _. h.head_zero p;
      filled = omega (arith, length-append r.buf (v ∷ []), length-append xs (v ∷ []), h.filled);
      counted = omega (arith, h.counted, length-append xs (v ∷ []));
      holds = λ i il.
          grow-holds r xs v h p i (omega (arith, length-append r.buf (v ∷ [])))
          ∙ ap (get_elem? (xs ++ v ∷ [])) (
              omega (
                arith,
                h.filled,
                length-append r.buf (v ∷ []),
                length-append xs (v ∷ []),
                h.holds,
              ));
    })
    | no p ↦ rw (le→ltb (length r.buf) r.cap (omega arith)) (record {
      cap_pos = h.cap_pos;
      cap_small = h.cap_small;
      head_in = mod-lt ((r.head + 1) % word) h.cap_pos;
      head_zero = λ lt. absurd (omega (arith, length-set r.buf r.head v, h.filled));
      filled = omega (arith, length-set r.buf r.head v, length-append xs (v ∷ []), h.filled);
      counted = omega (arith, h.counted, length-append xs (v ∷ []));
      holds = λ i il.
          turn-holds r xs v h (omega (arith, h.filled)) i
            (omega (arith, h.filled, length-set r.buf r.head v))
          ∙ ap (get_elem? (xs ++ v ∷ []))
              (omega (arith, h.filled, length-set r.buf r.head v, length-append xs (v ∷ [])));
    })
  ]

  -- The copy loop reads inside the vector and collects the end of the history.
  collect-drop :
      (r : Ring A) (xs : List A)
      → Represents r xs
      → (k i : ℕ) → i + k ≡ length r.buf
      → collect r k i ≡ some (drop (length xs - length r.buf + i) xs)
  unfolding collect
  collect-drop r xs h zero i e =
      ap some (sym (drop-length xs) ∙ ap (λ n. drop n xs) (omega (arith, h.filled)))
  collect-drop r xs h (suc k) i e =
      let (a, at) = get_elem?_total xs (length xs - length r.buf + i) (omega (arith, h.filled)) in
      let read : get_elem? r.buf ((r.head + i) % word % r.cap) ≡ some a =
        rw
          (mod-eq_of_lt {n = r.head + i} {m = word}
            (omega (arith, h.head_in, h.cap_small, h.filled)))
          (h.holds i (omega arith) ∙ at) in
      rw (read, collect, collect-drop r xs h k (i + 1) (omega arith))
        (ap some (
          ap (λ n. a ∷ drop n xs) {y = suc (length xs - length r.buf + i)} (omega arith)
          ∙ sym (drop_of_get_elem? (length xs - length r.buf + i) xs a at)))

  last_n-Represents :
      (r : Ring A) (xs : List A) (n : ℕ)
      → Represents r xs
      → last_n r n ≡ some (take_last (min n r.cap) xs)
  unfolding last_n
  last_n-Represents r xs n h =
      collect-drop r xs h (min n (length r.buf)) (length r.buf - min n (length r.buf)) (omega arith)
      ∙ ap (λ k. some (drop k xs)) (omega (arith, h.filled))

  -- What was pushed since the last `Clear`, after what is in `xs` already.
  abbrev pub since : List A → List (Op A) → List A
  since xs [] = xs
  since xs (pushes v ∷ os) = since (xs ++ v ∷ []) os
  since xs (clears ∷ os) = since [] os

  run-Represents :
      (r : Ring A) (xs : List A) (os : List (Op A))
      → Represents r xs
      → Represents (run r os) (since xs os)
  unfolding run step
  run-Represents r xs [] h = h
  run-Represents r xs (pushes v ∷ os) h =
      run-Represents (push r v) (xs ++ v ∷ []) os (push-Represents r xs v h)
  run-Represents r xs (clears ∷ os) h = run-Represents (clear r) [] os (clear-Represents r xs h)

  pub cap-run : (r : Ring A) (os : List (Op A)) → (run r os).cap ≡ r.cap
  unfolding run step push clear
  cap-run r [] = refl
  cap-run r (pushes v ∷ os) = cap-run (push r v) os ∙ ground arith
  cap-run r (clears ∷ os) = cap-run (clear r) os

  -- After any pushes and clears of a buffer made with a capacity up to 2 ^ 63, `LastN(n)` reads no
  -- element outside the vector and returns, in order, the last `n` elements pushed since the last
  -- `Clear`, or the last `capacity` of them if `n` is larger (a capacity of 0 counts as 1).
  pub last_n-run :
      (cap : ℕ) (os : List (Op A)) (n : ℕ)
      → cap ≤ 2 ^ 63
      → last_n (run (new cap) os) n ≡ some (take_last (min n (effective cap)) (since [] os))
  last_n-run cap os n h =
      last_n-Represents (run (new cap) os) (since [] os) n
        (run-Represents (new cap) [] os (new-Represents cap h))
      ∙ ap (λ k. some (take_last (min n k) (since [] os)))
          (cap-run (new cap) os ∙ unfold new in refl)

  -- After any pushes and clears of a buffer made with a capacity up to 2 ^ 63, `Size()` is the
  -- number of elements pushed since the last `Clear` but at most the capacity, `TotalPushed()` is
  -- that number modulo 2 ^ 64, and `All()` returns the last `capacity` of those elements in order.
  counts-run :
      (cap : ℕ) (os : List (Op A))
      → cap ≤ 2 ^ 63
      → let r = run (new cap) os in
        (size r ≡ min (effective cap) (length (since [] os)))
        × (total_pushed r ≡ length (since [] os) % 2 ^ 64)
        × (all r ≡ some (take_last (effective cap) (since [] os)))
  unfolding size total_pushed all
  counts-run cap os h =
      let rep = run-Represents (new cap) [] os (new-Represents cap h) in
      let same : (run (new cap) os).cap ≡ effective cap =
        cap-run (new cap) os ∙ unfold new in refl in
      (
        rep.filled ∙ ap (λ k. min k (length (since [] os))) same,
        rep.counted,
        last_n-run cap os (length (run (new cap) os).buf) h
            ∙ ap (λ k. some (drop k (since [] os))) (omega (arith, rep.filled, same)),
      )
