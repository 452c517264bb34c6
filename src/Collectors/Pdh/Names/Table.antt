-- ===== src/Collectors/Pdh/Names/Table.antt =====
-- The search of the table of counter names against a search of its entries.
use hardware_panel.Base.{
  ℕ, zero, suc, ◌≡◌, refl, ap, ◌∙◌, Bool, true, false, List, [], ◌∷◌, ◌++◌, Option, none, some,
  ◌==◌, if◌then◌else◌, length, arith, Bool-cases, length-append, le→ltb, ◌<◌, inl, inr,
}
use hardware_panel.Collectors.Pdh.CounterPath.{WString}
use hardware_panel.Collectors.Pdh.Names.{
  read_z, same_name, wcstoul, at_text, walk, english_name_to_index,
}

-- An entry of the table: the digits of an index, and a name.
pub record Entry : Type 0 where
  pub index : WString
  pub name : WString

-- A text that a multi-string can hold: not empty, and without a zero.
abbrev nonzero : WString → Bool
nonzero [] = true
nonzero (c ∷ s) = let rest = nonzero s in if c == 0 then false else rest

abbrev pub is_text : WString → Bool
is_text [] = false
is_text (c ∷ s) = nonzero (c ∷ s)

abbrev pub all_text : List Entry → Bool
all_text [] = true
all_text (e ∷ es) =
    let rest = all_text es in
    if is_text e.index then (if is_text e.name then rest else false) else false

-- The table as REG_MULTI_SZ: each text ends in a zero, and a zero ends the list.
abbrev pub encode : List Entry → List ℕ
encode [] = 0 ∷ []
encode (e ∷ es) = e.index ++ (0 ∷ (e.name ++ (0 ∷ encode es)))

-- The first entry of that name, whatever the case of its letters.
abbrev pub lookup_entry : WString → List Entry → Option ℕ
lookup_entry english_name [] = none
lookup_entry english_name (e ∷ es) =
    let rest = lookup_entry english_name es in
    if same_name e.name english_name then some (wcstoul e.index) else rest

nonzero_parts :
    (c : ℕ) (s : WString) → nonzero (c ∷ s) ≡ true → ((c == 0) ≡ false) × (nonzero s ≡ true)
nonzero_parts c s h = elim (Bool-cases (c == 0)) [
  | inl e ↦ let impossible = rw e at h in ground arith
  | inr e ↦ (e, rw e at h)
]

read_z-nonzero : (s rest : WString) → nonzero s ≡ true → read_z (s ++ (0 ∷ rest)) ≡ (s, rest)
unfolding read_z
read_z-nonzero [] rest h = refl
read_z-nonzero (c ∷ s) rest h =
    let (head, tail) = nonzero_parts c s h in rw (head, read_z-nonzero s rest tail) refl

read_z-append : (s rest : WString) → is_text s ≡ true → read_z (s ++ (0 ∷ rest)) ≡ (s, rest)
read_z-append [] rest h = ground arith
read_z-append (c ∷ s) rest h = read_z-nonzero (c ∷ s) rest h

at_text-append : (s rest : WString) → is_text s ≡ true → at_text (s ++ rest) ≡ true
at_text-append [] rest h = ground arith
at_text-append (c ∷ s) rest h = rw ((nonzero_parts c s h).0) refl

all_text_parts :
    (e : Entry) (es : List Entry)
    → all_text (e ∷ es) ≡ true
    → (is_text e.index ≡ true) × (is_text e.name ≡ true) × (all_text es ≡ true)
all_text_parts e es h = elim (Bool-cases (is_text e.index)) [
  | inr no' ↦ let impossible = rw no' at h in ground arith
  | inl i ↦ elim (Bool-cases (is_text e.name)) [
    | inr no' ↦ let impossible = rw (i, no') at h in ground arith
    | inl n ↦ (i, n, rw (i, n) at h)
  ]
]

-- One round of the loop.
walk-entry :
    (fuel : ℕ) (english_name : WString) (e : Entry) (rest : List ℕ)
    → is_text e.index ≡ true
    → is_text e.name ≡ true
    → walk (suc fuel) english_name (e.index ++ (0 ∷ (e.name ++ (0 ∷ rest)))) ≡ (
        if same_name e.name english_name
        then some (wcstoul e.index)
        else walk fuel english_name rest)
unfolding walk
walk-entry fuel english_name e rest i n =
    rw
      (
        read_z-append e.index (e.name ++ (0 ∷ rest)) i,
        read_z-append e.name rest n,
        at_text-append e.index (0 ∷ (e.name ++ (0 ∷ rest))) i,
        at_text-append e.name (0 ∷ rest) n,
      )
      refl

walk-encode :
    (es : List Entry) (fuel : ℕ) (english_name : WString)
    → all_text es ≡ true
    → length es < fuel
    → walk fuel english_name (encode es) ≡ lookup_entry english_name es
unfolding walk
walk-encode es zero english_name h l = ground arith
walk-encode [] (suc fuel) english_name h l = refl
walk-encode (e ∷ es) (suc fuel) english_name h l =
    let (i, n, rest) = all_text_parts e es h in
    walk-entry fuel english_name e (encode es) i n
    ∙ ap (λ r. if same_name e.name english_name then some (wcstoul e.index) else r)
        (walk-encode es fuel english_name rest (omega arith))

length-encode : (es : List Entry) → length es < length (encode es)
length-encode [] = omega arith
length-encode (e ∷ es) = omega (
  arith,
  length-append e.index (0 ∷ (e.name ++ (0 ∷ encode es))),
  length-append e.name (0 ∷ encode es),
  length-encode es,
)

-- The search of a table that the registry gives, one text after the other, is the search of its
-- entries: the index of the first one whose name differs from the English name at most in the case of
-- its letters, and none if there is no such entry. It holds for all entries of texts without zeros,
-- with at least one entry, and shows that the loop ends within the length of the table.
pub english_name_to_index-encode :
    (e : Entry) (es : List Entry) (english_name : WString)
    → all_text (e ∷ es) ≡ true
    → english_name_to_index
        (some (record { multi_sz = true; units = encode (e ∷ es); readable = true }))
        english_name
      ≡ lookup_entry english_name (e ∷ es)
unfolding english_name_to_index
english_name_to_index-encode e es english_name h =
    rw
      (le→ltb (length (encode (e ∷ es))) 2 (
        omega (
          arith,
          length-append e.index (0 ∷ (e.name ++ (0 ∷ encode es))),
          length-append e.name (0 ∷ encode es),
        )))
      (walk-encode (e ∷ es) (length (encode (e ∷ es))) english_name h (length-encode (e ∷ es)))
