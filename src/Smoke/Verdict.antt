-- ===== src/Smoke/Verdict.antt =====
-- When the tool exits with 0.
use hardware_panel.Base.{
  ℕ, ◌+◌, ◌≤◌, ◌≡◌, ◌↔◌, ◌⊎◌, refl, sym, ◌∙◌, inl, inr, String, Bool, true, false, ◌&&◌, List, [],
  ◌∷◌, Option, some, leb, if◌then◌else◌, arith, Bool-cases, Option-cases, length, subst,
}
use hardware_panel.Base.Int.{ℤ, pos, negsuc, int_lt}
use hardware_panel.Smoke.{
  Options, options_of, Finish, ok, deadline_exceeded, error, deadline_ok, receive, expected,
  stream_code, main,
}

-- No time stamp is below the one before it, the first not below `from`.
abbrev pub IsAscending : ℤ → List ℤ → Type 0
IsAscending from [] = ◌≡◌ {A = ℕ} 0 0
IsAscending from (ts ∷ samples) = (int_lt ts from ≡ false) × IsAscending ts samples

receive-count :
    (samples : List ℤ) (n : ℕ) (last : ℤ) (m : Bool)
    → (receive samples n last m).0 ≡ n + length samples
unfolding receive
receive-count [] n last m = omega arith
receive-count (ts ∷ samples) n last m =
    omega (arith, receive-count samples (n + 1) ts (if int_lt ts last then false else m))

receive-false : (samples : List ℤ) (n : ℕ) (last : ℤ) → (receive samples n last false).1 ≡ false
unfolding receive
receive-false [] n last = refl
receive-false (ts ∷ samples) n last = elim (Bool-cases (int_lt ts last)) [
  | inl e ↦ rw (receive, e) (receive-false samples (n + 1) ts)
  | inr e ↦ rw (receive, e) (receive-false samples (n + 1) ts)
]

receive-IsAscending :
    (samples : List ℤ) (n : ℕ) (last : ℤ)
    → ((receive samples n last true).1 ≡ true) ↔ IsAscending last samples
unfolding receive
receive-IsAscending [] n last = (λ h. refl, λ h. refl)
receive-IsAscending (ts ∷ samples) n last = elim (Bool-cases (int_lt ts last)) [
  | inl e ↦
      rw (receive, e)
        (
          λ h. absurd (let no_more = sym h ∙ receive-false samples (n + 1) ts in ground arith),
          λ h. absurd (let no_more = h.0 in ground arith),
        )
  | inr e ↦
      let rest = receive-IsAscending samples (n + 1) ts in
      rw (receive, e) (λ h. (refl, rest.0 h), λ h. rest.1 h.1)
]

-- `seconds - 2 <= n`, for an `int`.
abbrev pub IsCovered : ℤ → ℕ → Type 0
IsCovered (pos seconds) n = seconds ≤ n + 2
IsCovered (negsuc k) n = 0 ≤ n

-- What the stream has to give: it ended well or at the deadline, its time stamps ascend from 0, and
-- there is at least one, and one for each second but two.
abbrev pub Passes : Options → List ℤ → Finish → Type 0
Passes o samples finish =
    ((finish ≡ ok) ⊎ (finish ≡ deadline_exceeded))
    × IsAscending (pos 0) samples
    × (1 ≤ length samples)
    × IsCovered o.seconds (length samples)

deadline_ok_lem :
    (finish : Finish) → (deadline_ok finish ≡ true) ↔ ((finish ≡ ok) ⊎ (finish ≡ deadline_exceeded))
deadline_ok_lem ok = (λ h. inl refl, λ h. refl)
deadline_ok_lem deadline_exceeded = (λ h. inr refl, λ h. refl)
deadline_ok_lem error = (λ h. absurd (ground arith), λ h. absurd (ground arith))

expected_lem : (s : ℤ) (n : ℕ) → (expected s ≤ n) ↔ ((1 ≤ n) × IsCovered s n)
expected_lem (pos k) n = ground arith
expected_lem (negsuc k) n = (λ h. (h, omega arith), λ h. h.0)

both : (a b : Bool) → ((a && b) ≡ true) ↔ ((a ≡ true) × (b ≡ true))
both true b = (λ h. (refl, h), λ h. h.1)
both false b = (λ h. absurd (ground arith), λ h. absurd (ground arith))

zero_code : (b : Bool) → (◌≡◌ {A = ℕ} (if b then 0 else 1) 0) ↔ (b ≡ true)
zero_code b = ground arith

stream_code_lem :
    (o : Options) (samples : List ℤ) (finish : Finish)
    → (stream_code o samples finish ≡ 0) ↔ Passes o samples finish
unfolding stream_code
stream_code_lem o samples finish =
    let got = receive samples 0 (pos 0) true in
    let enough = leb (expected o.seconds) got.0 in
    let count = receive-count samples 0 (pos 0) true in
    let ascending = receive-IsAscending samples 0 (pos 0) in
    let code = zero_code (deadline_ok finish && (got.1 && enough)) in
    (
      λ h.
          let (ended, rest) = (both (deadline_ok finish) (got.1 && enough)).0 (code.0 h) in
          let (sorted, many) = (both got.1 enough).0 rest in
          let there : expected o.seconds ≤ length samples = ground (arith, many, count) in
          let (some_there, covered) = (expected_lem o.seconds (length samples)).0 there in
          ((deadline_ok_lem finish).0 ended, ascending.0 sorted, some_there, covered),
      λ p.
          let there : expected o.seconds ≤ length samples =
            (expected_lem o.seconds (length samples)).1 (p.2, p.3) in
          code.1 (
            (both (deadline_ok finish) (got.1 && enough)).1 (
              (deadline_ok_lem finish).1 p.0,
              (both got.1 enough).1 (ascending.1 p.1, ground (arith, there, count)),
            )),
    )

some-injective : (a b : Options) → some a ≡ some b → a ≡ b
some-injective a b e = ground arith

checked_code :
    (c s : Bool) (n : ℕ)
    → (◌≡◌ {A = ℕ} (if c then (if s then n else 1) else n) 0)
      ↔ (((if c then s else true) ≡ true) × (n ≡ 0))
checked_code true true n = (λ h. (refl, h), λ h. h.1)
checked_code true false n = (λ h. absurd (ground arith), λ h. absurd (ground arith))
checked_code false s n = (λ h. (refl, h), λ h. h.1)

-- The tool exits with 0 exactly if its arguments are understood, GetStatus succeeds if it was asked
-- for, and the stream ends well or at the deadline, with time stamps that never fall and begin at 0 or
-- later, and at least one sample, and at least as many as there are seconds less two.
pub main_succeeds_iff :
    (environment : Option String) (args : List String) (status : Bool) (samples : List ℤ)
    (finish : Finish)
    → (main environment args status samples finish ≡ 0) ↔ (
        (o : Options) × (options_of environment args ≡ some o)
        × ((if o.check_status then status else true) ≡ true)
        × Passes o samples finish)
unfolding main
main_succeeds_iff environment args status samples finish =
    elim (Option-cases (options_of environment args)) [
      | inl e ↦
          rw (main, e)
            (λ h. absurd (ground arith), λ h. absurd (let impossible = h.1 in ground arith))
      | inr (o, e) ↦
          let code = checked_code o.check_status status (stream_code o samples finish) in
          let stream = stream_code_lem o samples finish in
          rw (main, e)
            (
              λ h. (o, refl, (code.0 h).0, stream.0 (code.0 h).1),
              λ h.
                  let same : h.0 ≡ o = some-injective h.0 o (sym h.1) in
                  code.1 (
                    subst
                      (λ k.
                        ((if k.check_status then status else true) ≡ true)
                        × (stream_code k samples finish ≡ 0))
                      same (h.2, (stream_code_lem h.0 samples finish).1 h.3)),
            )
    ]
