-- ===== src/Collectors/Pdh/CounterPath.antt =====
-- plugins/collectors/pdh_collector.cpp: the parts of a counter's path, `\object(instance)\counter`.
-- A wide string is the list of its code units.
mod Search
pub mod RoundTrip
pub mod Sound
use Prim.Native.Char.{Char, code}
use hardware_panel.Base.{
  ℕ, zero, suc, ◌+◌, ◌-◌, String, Bool, true, false, List, [], ◌∷◌, ◌++◌, Option, none, some, ltb,
  ◌==◌, ◌||◌, if◌then◌else◌, length, take, drop, get_elem?,
}

abbrev pub WString : Type 0
WString = List ℕ

-- The code units of an `L""` literal.
abbrev pub wide : String → WString
wide String.[] = []
wide (String.◌∷◌ c s) = code c ∷ wide s

-- `L'\\'`, `L'('` and `L')'`.
abbrev pub backslash : ℕ
backslash = 92

abbrev pub paren_open : ℕ
paren_open = 40

abbrev pub paren_close : ℕ
paren_close = 41

-- `find(c, 0)`, `find(c, from)`, `rfind(c)` and `substr(pos, count)`; `npos` is `none`.
unfoldable pub find : ℕ → WString → Option ℕ
find c [] = none
find c (x ∷ xs) =
    if x == c then some 0 else elim (find c xs) [ none ↦ none | some i ↦ some (suc i) ]

unfoldable pub find_from : ℕ → ℕ → WString → Option ℕ
unfolding find
find_from c from s = elim (find c (drop from s)) [ none ↦ none | some i ↦ some (from + i) ]

unfoldable pub rfind : ℕ → WString → Option ℕ
rfind c [] = none
rfind c (x ∷ xs) = elim (rfind c xs) [
  | none ↦ if x == c then some 0 else none
  | some i ↦ some (suc i)
]

abbrev pub substr : WString → ℕ → ℕ → WString
substr s pos count = take count (drop pos s)

-- `PathParts`.
pub record PathParts : Type 0 where
  pub object : WString
  pub instance' : WString
  pub counter : WString

abbrev pub empty : WString → Bool
empty [] = true
empty (x ∷ xs) = false

-- The last line of `ParsePath`.
abbrev pub checked : PathParts → Option PathParts
checked out = if empty out.object || empty out.counter then none else some out

-- `ParsePath` from the search for `)` on; `last_bs` is the last backslash.
abbrev pub parse_instance : WString → ℕ → ℕ → Option PathParts
parse_instance path open' last_bs = elim (find_from paren_close open' path) [
  | none ↦ none
  | some close ↦
      if ltb last_bs close
      then none
      else checked (record {
        object = substr path 1 (open' - 1);
        instance' = substr path (open' + 1) (close - open' - 1);
        counter = drop (last_bs + 1) path;
      })
]

abbrev pub parse_object : WString → ℕ → Option PathParts
parse_object path last_bs = checked (record {
  object = substr path 1 (last_bs - 1);
  instance' = [];
  counter = drop (last_bs + 1) path;
})

abbrev pub parse_parts : WString → Option ℕ → ℕ → Option PathParts
parse_parts path none last_bs = parse_object path last_bs
parse_parts path (some open') last_bs =
    if ltb open' last_bs then parse_instance path open' last_bs else parse_object path last_bs

abbrev pub starts_with : ℕ → WString → Bool
starts_with c [] = false
starts_with c (x ∷ xs) = x == c

unfoldable pub parse_path : WString → Option PathParts
unfolding find_from rfind
parse_path path =
    if ltb (length path) 3
    then none
    else if starts_with backslash path
    then elim (rfind backslash path) [
      | none ↦ none
      | some last_bs ↦
          if last_bs == 0 then none else parse_parts path (find_from paren_open 1 path) last_bs
    ]
    else none

-- What `LocalizePath` joins.
unfoldable pub join_parts : PathParts → WString
join_parts parts =
    let object = backslash ∷ parts.object in
    let with_instance =
      if empty parts.instance'
      then object
      else object ++ (paren_open ∷ parts.instance' ++ paren_close ∷ []) in
    with_instance ++ backslash ∷ parts.counter

-- `LocalizePath`; `localized_name` is `LocalizedName`.
unfoldable pub localize_path : (WString → WString) → WString → WString
unfolding parse_path join_parts
localize_path localized_name english_path = elim (parse_path english_path) [
  | none ↦ english_path
  | some parts ↦ join_parts (record {
    object = localized_name parts.object;
    instance' = parts.instance';
    counter = localized_name parts.counter;
  })
]
