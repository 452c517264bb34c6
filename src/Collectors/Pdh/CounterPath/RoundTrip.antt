-- ===== src/Collectors/Pdh/CounterPath/RoundTrip.antt =====
-- Joining and parsing the parts of a counter's path.
use hardware_panel.Base.{
  subst, ℕ, suc, ◌+◌, ◌-◌, ◌≤◌, ◌≡◌, refl, ap, sym, ◌∙◌, inl, inr, false, [], ◌∷◌, ◌++◌, none, some,
  length, take, drop, arith, ==_ne, le→ltb, lt→ltb, drop-drop, length-append, append_assoc,
}
use hardware_panel.Collectors.Pdh.CounterPath.{
  parse_parts, parse_object, parse_instance, checked, WString, backslash, paren_open, paren_close,
  find, find_from, rfind, PathParts, empty, parse_path, join_parts,
}
use hardware_panel.Collectors.Pdh.CounterPath.Search.{find-append, find-append_other, rfind-append}

take-length : (xs ys : WString) → take (length xs) (xs ++ ys) ≡ xs
take-length [] ys = refl
take-length (x ∷ xs) ys = ap (λ zs. x ∷ zs) (take-length xs ys)

drop-length_append : (xs ys : WString) → drop (length xs) (xs ++ ys) ≡ ys
drop-length_append [] ys = refl
drop-length_append (x ∷ xs) ys = drop-length_append xs ys

-- The parts that a path can hold: an object without `(` and a counter without backslash, neither
-- empty, and an instance without `)`.
pub record IsPlain (parts : PathParts) : Type 0 where
  pub object_named : empty parts.object ≡ false
  pub counter_named : empty parts.counter ≡ false
  pub object_plain : find paren_open parts.object ≡ none
  pub instance_plain : find paren_close parts.instance' ≡ none
  pub counter_plain : rfind backslash parts.counter ≡ none

parse_path-parts :
    (rest : WString) (n : ℕ)
    → 2 ≤ length rest
    → rfind backslash (backslash ∷ rest) ≡ some (suc n)
    → parse_path (backslash ∷ rest)
      ≡ parse_parts (backslash ∷ rest) (find_from paren_open 1 (backslash ∷ rest)) (suc n)
unfolding parse_path
parse_path-parts rest n h e =
    rw (le→ltb (length (backslash ∷ rest)) 3 (omega arith), e, ==_ne (suc n) 0 (omega arith)) refl

-- A text that is not empty.
named : (s : WString) → empty s ≡ false → 1 ≤ length s
named [] h = ground arith
named (x ∷ xs) h = omega arith

checked-plain : (parts : PathParts) → IsPlain parts → checked parts ≡ some parts
checked-plain parts p = rw (p.object_named, p.counter_named) refl

-- Dropping a text and the unit behind it.
drop-behind : (xs ys : WString) (x : ℕ) (n : ℕ) → n ≡ suc (length xs) → drop n (xs ++ x ∷ ys) ≡ ys
drop-behind [] ys x n e = rw e refl
drop-behind (y ∷ xs) ys x n e = rw e (drop-behind xs ys x (suc (length xs)) refl)

parse_object-plain :
    (object counter : WString)
    → IsPlain (record { object = object; instance' = []; counter = counter })
    → parse_object (backslash ∷ object ++ backslash ∷ counter) (suc (length object))
      ≡ some (record { object = object; instance' = []; counter = counter })
parse_object-plain object counter p =
    let e1 : take (suc (length object) - 1) (object ++ backslash ∷ counter) ≡ object =
      rw (let e : suc (length object) - 1 ≡ length object = omega arith in e)
        (take-length object (backslash ∷ counter)) in
    let e2 : drop (suc (length object) + 1) (backslash ∷ object ++ backslash ∷ counter) ≡ counter =
      drop-behind (backslash ∷ object) counter backslash (suc (length object) + 1) (omega arith) in
    rw (e1, e2) (checked-plain _ p)

parse_path-plain :
    (object counter : WString)
    → IsPlain (record { object = object; instance' = []; counter = counter })
    → parse_path (backslash ∷ object ++ backslash ∷ counter)
      ≡ some (record { object = object; instance' = []; counter = counter })
unfolding find_from
parse_path-plain object counter p =
    let rest = object ++ backslash ∷ counter in
    let long : 2 ≤ length rest =
      omega (arith, named object p.object_named, length-append object (backslash ∷ counter)) in
    let front =
      parse_path-parts rest (length object) long
        (rfind-append backslash (backslash ∷ object) counter p.counter_plain) in
    elim (find-append_other paren_open backslash object counter p.object_plain refl) [
      | inl e ↦ rw (front, find_from, e) (parse_object-plain object counter p)
      | inr (j, h, e) ↦
          rw (front, find_from, e, le→ltb (1 + j) (suc (length object)) (omega arith))
            (parse_object-plain object counter p)
    ]

-- From the instance on.
abbrev behind : WString → WString → WString
behind inst counter = paren_open ∷ (inst ++ (paren_close ∷ (backslash ∷ counter)))

parse_instance-plain :
    (object inst counter : WString)
    → IsPlain (record { object = object; instance' = inst; counter = counter })
    → parse_instance
        (backslash ∷ (object ++ behind inst counter))
        (1 + length object)
        (length object + length inst + 3)
      ≡ some (record { object = object; instance' = inst; counter = counter })
unfolding find_from find
parse_instance-plain object inst counter p =
    let path = backslash ∷ (object ++ behind inst counter) in
    let open' = 1 + length object in
    let from : drop open' path ≡ behind inst counter =
      rw (let e : open' ≡ suc (length object) = omega arith in e)
        (drop-length_append object (behind inst counter)) in
    let close : find paren_close (drop open' path) ≡ some (suc (length inst)) =
      rw (from, find-append paren_close inst (backslash ∷ counter) p.instance_plain) refl in
    let e1 : take (open' - 1) (object ++ behind inst counter) ≡ object =
      rw (let e : open' - 1 ≡ length object = omega arith in e)
        (take-length object (behind inst counter)) in
    let e2 : drop (open' + 1) path ≡ inst ++ (paren_close ∷ (backslash ∷ counter)) =
      drop-behind (backslash ∷ object) _ paren_open (open' + 1) (omega arith) in
    let e3 : take (open' + suc (length inst) - open' - 1)
          (inst ++ (paren_close ∷ (backslash ∷ counter)))
        ≡ inst =
      rw (let e : open' + suc (length inst) - open' - 1 ≡ length inst = omega arith in e)
        (take-length inst (paren_close ∷ (backslash ∷ counter))) in
    let e4 : drop (length object + length inst + 3 + 1) path ≡ counter =
      rw
        (let e : length object + length inst + 3 + 1 ≡ (open' + 1) + (suc (length inst) + 1) =
            omega arith in
          e)
        (sym (drop-drop (suc (length inst) + 1) (open' + 1) path)
          ∙ (ap (drop (suc (length inst) + 1)) e2
              ∙ (sym (
                    drop-drop 1 (suc (length inst)) (inst ++ (paren_close ∷ (backslash ∷ counter))))
                  ∙ ap (drop 1) (
                      drop-behind inst (backslash ∷ counter) paren_close (suc (length inst))
                        refl)))) in
    let found : find_from paren_close open' path ≡ some (open' + suc (length inst)) =
      rw (find_from, close) refl in
    rw
      (
        parse_instance,
        found,
        le→ltb (length object + length inst + 3) (open' + suc (length inst)) (omega arith),
        e1,
        e2,
        e3,
        e4,
      )
      (checked-plain _ p)

parse_path-behind :
    (object inst counter : WString)
    → IsPlain (record { object = object; instance' = inst; counter = counter })
    → parse_path (backslash ∷ (object ++ behind inst counter))
      ≡ some (record { object = object; instance' = inst; counter = counter })
unfolding find_from
parse_path-behind object inst counter p =
    let rest = object ++ behind inst counter in
    let before = object ++ (paren_open ∷ (inst ++ (paren_close ∷ []))) in
    let split : before ++ (backslash ∷ counter) ≡ rest =
      append_assoc object (paren_open ∷ (inst ++ (paren_close ∷ []))) (backslash ∷ counter)
      ∙ ap (λ ys. object ++ (paren_open ∷ ys))
          (append_assoc inst (paren_close ∷ []) (backslash ∷ counter)) in
    let size : length before ≡ length object + length inst + 2 = omega (
      arith,
      length-append object (paren_open ∷ (inst ++ (paren_close ∷ []))),
      length-append inst (paren_close ∷ []),
    ) in
    let last : rfind backslash (backslash ∷ rest) ≡ some (suc (length object + length inst + 2)) =
      subst (λ r. rfind backslash (backslash ∷ r) ≡ some (suc (length object + length inst + 2)))
        split
        (rfind-append backslash (backslash ∷ before) counter p.counter_plain
          ∙ ap (λ n. some (suc n)) size) in
    let long : 2 ≤ length rest =
      omega (arith, named object p.object_named, length-append object (behind inst counter)) in
    let opened : find_from paren_open 1 (backslash ∷ rest) ≡ some (1 + length object) =
      rw (find_from, find-append paren_open object _ p.object_plain) refl in
    parse_path-parts rest (length object + length inst + 2) long last
    ∙ rw
        (
          opened,
          lt→ltb (1 + length object) (suc (length object + length inst + 2)) (omega arith),
          let e : suc (length object + length inst + 2) ≡ length object + length inst + 3 =
                omega arith in
              e,
        )
        (parse_instance-plain object inst counter p)

-- The parts that a path can hold come back from their joined path.
pub parse_path-join_parts :
    (parts : PathParts) → IsPlain parts → parse_path (join_parts parts) ≡ some parts
unfolding join_parts
parse_path-join_parts parts p = joined parts.object parts.instance' parts.counter p
  where
    joined :
        (o i c : WString)
        → IsPlain (record { object = o; instance' = i; counter = c })
        → parse_path (join_parts (record { object = o; instance' = i; counter = c }))
          ≡ some (record { object = o; instance' = i; counter = c })
    joined o [] c q = parse_path-plain o c q
    joined o (x ∷ i) c q =
        ap parse_path (
          ap (λ s. backslash ∷ s)
            (append_assoc o (paren_open ∷ ((x ∷ i) ++ (paren_close ∷ []))) (backslash ∷ c)
              ∙ ap (λ ys. o ++ (paren_open ∷ ys))
                  (append_assoc (x ∷ i) (paren_close ∷ []) (backslash ∷ c))))
        ∙ parse_path-behind o (x ∷ i) c q
