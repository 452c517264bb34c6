-- ===== src/Collectors/Pdh/CounterPath/Sound.antt =====
-- What a parsed path looks like, and the path that is made of its localized parts.
use hardware_panel.Base.{
  ℕ, zero, suc, ◌+◌, ◌-◌, ◌<◌, ◌≡◌, refl, ap, sym, ◌∙◌, ◌↔◌, inl, inr, Bool, true, false, [], ◌∷◌,
  Option, none, some, ltb, ◌==◌, if◌then◌else◌, length, take, drop, arith, Bool-cases, Option-cases,
  subst, drop-drop,
}
use hardware_panel.Collectors.Pdh.CounterPath.{
  WString, backslash, paren_open, paren_close, find, starts_with, find_from, rfind, PathParts,
  empty, parse_path, checked, parse_instance, parse_object, parse_parts, join_parts, localize_path,
  substr,
}
use hardware_panel.Collectors.Pdh.CounterPath.Search.{find-take, find-take_absent, rfind-drop}
use hardware_panel.Collectors.Pdh.CounterPath.RoundTrip.{IsPlain, parse_path-join_parts}

skipped :
    {A : Type 0} (b : Bool) (o : Option A) (a : A)
    → (if b then none else o) ≡ some a
    → (b ≡ false) × (o ≡ some a)
skipped true o a e = ground arith
skipped false o a e = (refl, e)

taken :
    {A : Type 0} (b : Bool) (o : Option A) (a : A)
    → (if b then o else none) ≡ some a
    → (b ≡ true) × (o ≡ some a)
taken true o a e = (refl, e)
taken false o a e = ground arith

checked-IsPlain :
    (out parts : PathParts)
    → find paren_open out.object ≡ none
    → find paren_close out.instance' ≡ none
    → rfind backslash out.counter ≡ none
    → checked out ≡ some parts
    → IsPlain parts
checked-IsPlain out parts o i c e = elim (Bool-cases (empty out.object)) [
  | inl unnamed ↦ ground arith
  | inr object_named ↦ elim (Bool-cases (empty out.counter)) [
    | inl unnamed ↦ ground arith
    | inr counter_named ↦ subst IsPlain (ground arith) (
        let r : IsPlain out = record {
          object_named = object_named;
          counter_named = counter_named;
          object_plain = o;
          instance_plain = i;
          counter_plain = c;
        } in
        r)
  ]
]

-- The text up to a bound before which `find_from 1` finds nothing.
object_plain_before :
    (path : WString) (n : ℕ)
    → ((k : ℕ) → find_from paren_open 1 path ≡ some k → n < k)
    → find paren_open (substr path 1 n) ≡ none
unfolding find_from
object_plain_before path n h = elim (Option-cases (find paren_open (drop 1 path))) [
  | inl e ↦ find-take_absent paren_open (drop 1 path) n e
  | inr (k, e) ↦
      let b = h (1 + k) (rw (find_from, e) refl) in
      find-take paren_open (drop 1 path) k n e (omega arith)
]

-- The text between the first `(` and the first `)` behind it.
instance_plain_between :
    (ys : WString) (m : ℕ)
    → find paren_close ys ≡ some m
    → find paren_close (take (m - 1) (drop 1 ys)) ≡ none
unfolding find
instance_plain_between [] m e = ground arith
instance_plain_between (y ∷ ys) zero e = refl
instance_plain_between (y ∷ ys) (suc m) e = elim (Option-cases (find paren_close ys)) [
  | inl absent ↦ ground arith
  | inr (j, e') ↦
      rw (let s : suc m - 1 ≡ m = omega arith in s) (find-take paren_close ys j m e' (ground arith))
]

rfind-drop_succ :
    (path : WString) (i : ℕ)
    → rfind backslash path ≡ some i
    → rfind backslash (drop (i + 1) path) ≡ none
rfind-drop_succ path i last =
    subst (λ n. rfind backslash (drop n path) ≡ none) (let e : suc i ≡ i + 1 = omega arith in e)
      (rfind-drop backslash path i last)

some-injective : (a b : ℕ) → some a ≡ some b → a ≡ b
some-injective a b e = ground arith

find_from-offset :
    (c : ℕ) (path : WString) (from i : ℕ)
    → find_from c from path ≡ some i
    → (m : ℕ) × (find c (drop from path) ≡ some m) × (from + m ≡ i)
unfolding find_from
find_from-offset c path from i e = elim (Option-cases (find c (drop from path))) [
  | inl absent ↦ ground arith
  | inr (m, found) ↦ (m, found, ground arith)
]

parse_object-IsPlain :
    (path : WString) (last_bs : ℕ) (parts : PathParts)
    → rfind backslash path ≡ some last_bs
    → ((k : ℕ) → find_from paren_open 1 path ≡ some k → last_bs - 1 < k)
    → parse_object path last_bs ≡ some parts
    → IsPlain parts
unfolding find
parse_object-IsPlain path last_bs parts last h e =
    let nothing : find paren_close [] ≡ none = refl in
    checked-IsPlain _ parts (object_plain_before path (last_bs - 1) h) nothing
      (rfind-drop_succ path last_bs last) e

parse_instance-IsPlain :
    (path : WString) (open' last_bs : ℕ) (parts : PathParts)
    → rfind backslash path ≡ some last_bs
    → find_from paren_open 1 path ≡ some open'
    → parse_instance path open' last_bs ≡ some parts
    → IsPlain parts
parse_instance-IsPlain path open' last_bs parts last opened e =
    elim (Option-cases (find_from paren_close open' path)) [
      | inl e' ↦ let impossible = rw (parse_instance, e') at e in ground arith
      | inr (close, e') ↦
          let (m, found, sum) = find_from-offset paren_close path open' close e' in
          let (within, e2) = skipped (ltb last_bs close) _ parts (rw (parse_instance, e') at e) in
          checked-IsPlain _ parts
            (object_plain_before path (open' - 1) (λ k e3.
              let same : k ≡ open' = some-injective _ _ (sym e3 ∙ opened) in
              let (m', found', sum') = find_from-offset paren_open path 1 open' opened in
              omega arith))
            (rw (let s : close - open' - 1 ≡ m - 1 = omega arith in s) (
              subst (λ ys. find paren_close (take (m - 1) ys) ≡ none) (drop-drop 1 open' path)
                (instance_plain_between (drop open' path) m found)))
            (rfind-drop_succ path last_bs last) e2
    ]

parse_parts-IsPlain :
    (path : WString) (last_bs : ℕ) (parts : PathParts)
    → rfind backslash path ≡ some last_bs
    → (last_bs == 0) ≡ false
    → parse_parts path (find_from paren_open 1 path) last_bs ≡ some parts
    → IsPlain parts
parse_parts-IsPlain path last_bs parts last pos e =
    elim (Option-cases (find_from paren_open 1 path)) [
      | inl e' ↦
          parse_object-IsPlain path last_bs parts last
            (λ k e3. let impossible = sym e' ∙ e3 in ground arith) (rw e' at e)
      | inr (open', e') ↦ elim (Bool-cases (ltb open' last_bs)) [
        | inl before ↦
            parse_instance-IsPlain path open' last_bs parts last e'
              (rw (parse_parts, before) at (rw e' at e))
        | inr behind ↦
            parse_object-IsPlain path last_bs parts last
              (λ k e3. let same : k ≡ open' = some-injective _ _ (sym e3 ∙ e') in ground arith)
              (rw (parse_parts, behind) at (rw e' at e))
      ]
    ]

-- What a path parses to is plain.
parse_path-IsPlain :
    (path : WString) (parts : PathParts) → parse_path path ≡ some parts → IsPlain parts
unfolding parse_path
parse_path-IsPlain path parts e = elim (Option-cases (rfind backslash path)) [
  | inl e' ↦
      let (long, e1) = skipped (ltb (length path) 3) _ parts (rw e' at e) in
      let (first, e2) = taken (starts_with backslash path) none parts e1 in ground arith
  | inr (last_bs, e') ↦
      let (long, e1) = skipped (ltb (length path) 3) _ parts (rw e' at e) in
      let (first, e2) = taken (starts_with backslash path) _ parts e1 in
      let (positive, e3) = skipped (last_bs == 0) _ parts e2 in
      parse_parts-IsPlain path last_bs parts e' positive e3
]

-- Joining and parsing are inverse exactly on the parts whose object and counter are not empty, whose
-- object has no `(`, whose instance has no `)` and whose counter has no backslash.
pub parse_path-join_parts_iff :
    (parts : PathParts) → (parse_path (join_parts parts) ≡ some parts) ↔ IsPlain parts
parse_path-join_parts_iff parts =
    (parse_path-IsPlain (join_parts parts) parts, parse_path-join_parts parts)

localize_path-parsed :
    (localized_name : WString → WString) (path : WString) (parts : PathParts)
    → parse_path path ≡ some parts
    → localize_path localized_name path
      ≡ join_parts (record {
        object = localized_name parts.object;
        instance' = parts.instance';
        counter = localized_name parts.counter;
      })
unfolding localize_path
localize_path-parsed localized_name path parts e = rw (localize_path, e) refl

-- A path that parses is localized part by part: if the local name of its object is not empty and has
-- no `(` and the one of its counter is not empty and has no backslash, then the localized path parses
-- to the two local names and the instance of the English path.
parse_path-localize_path :
    (localized_name : WString → WString) (path : WString) (parts : PathParts)
    → parse_path path ≡ some parts
    → empty (localized_name parts.object) ≡ false
    → find paren_open (localized_name parts.object) ≡ none
    → empty (localized_name parts.counter) ≡ false
    → rfind backslash (localized_name parts.counter) ≡ none
    → parse_path (localize_path localized_name path)
      ≡ some (record {
        object = localized_name parts.object;
        instance' = parts.instance';
        counter = localized_name parts.counter;
      })
parse_path-localize_path localized_name path parts e o o' c c' =
    let p = parse_path-IsPlain path parts e in
    ap parse_path (localize_path-parsed localized_name path parts e)
    ∙ parse_path-join_parts _ (record {
      object_named = o;
      counter_named = c;
      object_plain = o';
      instance_plain = p.instance_plain;
      counter_plain = c';
    })
