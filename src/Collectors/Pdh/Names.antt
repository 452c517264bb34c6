-- ===== src/Collectors/Pdh/Names.antt =====
-- plugins/collectors/pdh_collector.cpp: the index of a counter's English name, from the table in the
-- registry, and the name that PDH gives for it.
pub mod Table
use hardware_panel.Base.{
  ℕ, zero, suc, ◌+◌, ◌-◌, ◌*◌, ◌^◌, ◌%◌, Bool, true, false, List, [], ◌∷◌, Option, none, some, ltb,
  leb, ◌==◌, ◌||◌, ◌&&◌, not, if◌then◌else◌, length,
}
use hardware_panel.Collectors.Pdh.CounterPath.{WString}

-- The value `Counter` of the key Perflib\009: whether its type is REG_MULTI_SZ, its code units, and
-- whether the second query, which reads them, succeeds.
pub record CounterValue : Type 0 where
  pub multi_sz : Bool
  pub units : List ℕ
  pub readable : Bool

-- `std::wstring s(p)`: the units up to a zero, and what stands behind it. The buffer ends in a zero.
unfoldable pub read_z : List ℕ → WString × List ℕ
read_z [] = ([], [])
read_z (c ∷ p) = let (s, rest) = read_z p in if c == 0 then ([], p) else (c ∷ s, rest)

-- `towlower` in the C locale.
abbrev pub towlower : ℕ → ℕ
towlower c = if leb 65 c && leb c 90 then c + 32 else c

-- The comparison of two names.
unfoldable pub same_name : WString → WString → Bool
same_name [] [] = true
same_name [] (d ∷ b) = false
same_name (c ∷ a) [] = false
same_name (c ∷ a) (d ∷ b) =
    let rest = same_name a b in if towlower c == towlower d then rest else false

-- `wcstoul(s, nullptr, 10)` with a 32-bit `unsigned long`.
abbrev pub ulong_max : ℕ
ulong_max = 4294967295

unfoldable pub wide_digits : ℕ → WString → ℕ
wide_digits acc [] = acc
wide_digits acc (c ∷ s) =
    let rest = wide_digits (acc * 10 + (c - 48)) s in if leb 48 c && leb c 57 then rest else acc

abbrev pub is_wide_space : ℕ → Bool
is_wide_space c = c == 32 || (leb 9 c && leb c 13)

abbrev pub saturated : ℕ → ℕ
saturated n = if ltb ulong_max n then ulong_max else n

abbrev pub wide_negated : ℕ → ℕ
wide_negated n = if ltb ulong_max n then ulong_max else (2 ^ 32 - n) % 2 ^ 32

unfoldable pub wide_signed : WString → ℕ
unfolding wide_digits
wide_signed [] = 0
wide_signed (c ∷ s) =
    if c == 45
    then wide_negated (wide_digits 0 s)
    else if c == 43
    then saturated (wide_digits 0 s)
    else saturated (wide_digits 0 (c ∷ s))

unfoldable pub wcstoul : WString → ℕ
unfolding wide_signed
wcstoul [] = 0
wcstoul (c ∷ s) = let rest = wcstoul s in if is_wide_space c then rest else wide_signed (c ∷ s)

-- `p < end && *p != 0`.
abbrev pub at_text : List ℕ → Bool
at_text [] = false
at_text (c ∷ p) = not (c == 0)

-- The loop over the table, with fuel: the index of the first name that is the same.
unfoldable pub walk : ℕ → WString → List ℕ → Option ℕ
unfolding read_z same_name wcstoul
walk zero english_name p = none
walk (suc fuel) english_name p =
    let (idx_str, p') = read_z p in
    let (name, p'') = read_z p' in
    let rest = walk fuel english_name p'' in
    if at_text p
    then (if at_text p'
        then (if same_name name english_name then some (wcstoul idx_str) else rest)
        else none)
    else none

-- `EnglishNameToIndex`; the value is `none` if the key does not open or has none.
unfoldable pub english_name_to_index : Option CounterValue → WString → Option ℕ
unfolding walk
english_name_to_index none english_name = none
english_name_to_index (some v) english_name =
    if not v.multi_sz || ltb (length v.units) 2
    then none
    else if v.readable
    then walk (length v.units) english_name v.units
    else none

-- `LocalizedName`; `lookup` is PdhLookupPerfNameByIndexW without the terminator, `none` if it gives no
-- size or fails.
unfoldable pub localized_name : Option CounterValue → (ℕ → Option WString) → WString → WString
unfolding english_name_to_index
localized_name value lookup english_name = elim (english_name_to_index value english_name) [
  | none ↦ english_name
  | some index ↦ elim (lookup index) [ none ↦ english_name | some name ↦ name ]
]
