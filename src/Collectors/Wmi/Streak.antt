-- ===== src/Collectors/Wmi/Streak.antt =====
-- When the collector gives up.
use hardware_panel.Base.{
  ℕ, suc, ◌+◌, ◌-◌, ◌≤◌, ◌<◌, ◌≡◌, ◌↔◌, refl, ap, sym, ◌⊎◌, inl, inr, List, [], ◌∷◌, ◌++◌, Bool,
  true, false, Option, none, some, ◌==◌, leb, if◌then◌else◌, arith, Bool-cases, length, subst,
}
use hardware_panel.Base.Int.{ℤ}
use hardware_panel.Collectors.{Numbers}
use hardware_panel.Collectors.Wmi.{
  Answer, no_com, no_locator, no_connection, zones, WmiCollector, new_wmi, available, count_failure,
  readable, sum_zones, collect,
}

-- The answer lets some zone be read.
abbrev pub reads : Answer → Bool
reads (zones zs) = if length (readable zs) == 0 then false else true
reads _ = false

-- The answer counts as a failure: the connection was refused, or no zone could be read.
abbrev pub fails : Answer → Bool
fails no_connection = true
fails (zones zs) = length (readable zs) == 0
fails _ = false

abbrev pub failures : List Answer → ℕ
failures [] = 0
failures (a ∷ answers) = if fails a then suc (failures answers) else failures answers

abbrev pub none_reads : List Answer → Bool
none_reads [] = true
none_reads (a ∷ answers) = if reads a then false else none_reads answers

-- A stretch of answers in which no zone is read and `n` answers are failures.
abbrev IsStreak : ℕ → List Answer → Type 0
IsStreak n answers = (none_reads answers ≡ true) × (failures answers ≡ n)

abbrev StartsWith : ℕ → List Answer → Type 0
StartsWith n answers =
    (run : List Answer) × (after : List Answer) × (answers ≡ run ++ after) × IsStreak n run

abbrev pub Contains : ℕ → List Answer → Type 0
Contains n answers =
    (before : List Answer) × (run : List Answer) × (after : List Answer) × (answers
      ≡ before ++ (run ++ after))
    × (none_reads run ≡ true)
    × (failures run ≡ n)

Contains-cons :
    (n : ℕ) (a : Answer) (answers : List Answer) → Contains n answers → Contains n (a ∷ answers)
Contains-cons n a answers (before, run, after, e, quiet, full) =
    (a ∷ before, run, after, ap (◌∷◌ a) e, quiet, full)

StartsWith-Contains : (n : ℕ) (answers : List Answer) → StartsWith n answers → Contains n answers
StartsWith-Contains n answers (run, after, e, s) = ([], run, after, e, s.0, s.1)

module _ (numbers : Numbers) where
  -- What the ticks of the pipeline do to the collector: it is asked while it is available.
  unfoldable pub poll : Answer → WmiCollector → WmiCollector
  unfolding available
  poll a c = if available c then (collect numbers a c).1 else c

  unfoldable pub polls : List Answer → WmiCollector → WmiCollector
  unfolding poll
  polls [] c = c
  polls (a ∷ answers) c = polls answers (poll a c)

  sum_zones-count :
      (zs : List (Option ℤ)) (sum : numbers.V) (count : ℕ)
      → (sum_zones numbers zs sum count).1 ≡ count + length (readable zs)
  unfolding sum_zones
  sum_zones-count [] sum count = omega arith
  sum_zones-count (none ∷ zs) sum count = sum_zones-count zs sum count
  sum_zones-count (some z ∷ zs) sum count = omega (arith, sum_zones-count zs _ (count + 1))

  collect-state :
      (a : Answer) (c : WmiCollector)
      → (collect numbers a c).1 ≡ (
          if reads a
          then record c { consecutive_failures = 0 }
          else if fails a
          then count_failure c
          else c)
  unfolding collect
  collect-state no_com c = refl
  collect-state no_locator c = refl
  collect-state no_connection c = refl
  collect-state (zones zs) c = ground (arith, sum_zones-count zs (numbers.literal 0 1) 0)

  -- The counter of a collector that has not given up.
  abbrev IsLive : WmiCollector → Type 0
  IsLive c = (c.disabled ≡ false) × (c.consecutive_failures < 10)

  Outcome : Answer → WmiCollector → WmiCollector → Type 0
  Outcome a c c' =
      ((reads a ≡ true) × IsLive c' × (c'.consecutive_failures ≡ 0))
      ⊎ (((fails a ≡ true)
            × (reads a ≡ false)
            × (((c.consecutive_failures ≡ 9) × (c'.disabled ≡ true))
                ⊎ (IsLive c' × (c'.consecutive_failures ≡ suc c.consecutive_failures))))
          ⊎ ((fails a ≡ false) × (reads a ≡ false) × (c' ≡ c)))

  poll-Outcome : (a : Answer) (c : WmiCollector) → IsLive c → Outcome a c (poll a c)
  unfolding poll Outcome count_failure
  poll-Outcome a c live = elim (Bool-cases (reads a)) [
    | inl r ↦ inl (r, ground (arith, collect-state a c), ground (arith, collect-state a c))
    | inr r ↦ elim (Bool-cases (fails a)) [
      | inl f ↦ elim (Bool-cases (leb 9 c.consecutive_failures)) [
        | inl full ↦ inr (inl (f, r, inl (ground arith, ground (arith, collect-state a c))))
        | inr room ↦
            inr (
              inl
                (f, r, inr (ground (arith, collect-state a c), ground (arith, collect-state a c))))
      ]
      | inr f ↦ inr (inr (f, r, ground (arith, collect-state a c)))
    ]
  ]

  poll-disabled : (a : Answer) (c : WmiCollector) → c.disabled ≡ true → poll a c ≡ c
  unfolding poll
  poll-disabled a c off = ground arith

  polls-disabled :
      (answers : List Answer) (c : WmiCollector)
      → c.disabled ≡ true
      → (polls answers c).disabled ≡ true
  unfolding polls
  polls-disabled [] c off = off
  polls-disabled (a ∷ answers) c off =
      subst (λ k. (polls answers k).disabled ≡ true) (sym (poll-disabled a c off))
        (polls-disabled answers c off)

  -- Some streak within the answers makes a live collector give up, or the one it has begun does.
  GivesUp : ℕ → List Answer → Type 0
  GivesUp k answers = StartsWith (10 - k) answers ⊎ Contains 10 answers

  polls-GivesUp :
      (answers : List Answer) (c : WmiCollector)
      → IsLive c
      → (polls answers c).disabled ≡ true
      → GivesUp c.consecutive_failures answers
  unfolding polls GivesUp Outcome
  polls-GivesUp [] c live off = absurd (ground arith)
  polls-GivesUp (a ∷ answers) c live off = elim (poll-Outcome a c live) [
    | inl (r, live', zeroed) ↦ inr (
        Contains-cons 10 a answers (elim (polls-GivesUp answers (poll a c) live' off) [
          | inl s ↦
              StartsWith-Contains 10 answers (subst (λ n. StartsWith n answers) (omega arith) s)
          | inr t ↦ t
        ]))
    | inr (inl (f, r, inl (nine, off'))) ↦
        inl (a ∷ [], answers, refl, (ground (arith, f, r), ground (arith, f, r, nine)))
    | inr (inl (f, r, inr (live', grown))) ↦ elim (polls-GivesUp answers (poll a c) live' off) [
      | inl (run, after, e, s) ↦ inl (a ∷ run, after, ap (◌∷◌ a) e, (rw r s.0, rw f (omega arith)))
      | inr t ↦ inr (Contains-cons 10 a answers t)
    ]
    | inr (inr (f, r, same)) ↦ elim (polls-GivesUp answers (poll a c) (rw same live) off) [
      | inl (run, after, e, s) ↦
          inl (a ∷ run, after, ap (◌∷◌ a) e, (rw r s.0, rw f (ground (arith, s, same))))
      | inr t ↦ inr (Contains-cons 10 a answers t)
    ]
  ]

  polls-streak :
      (run : List Answer) (c : WmiCollector)
      → IsLive c
      → none_reads run ≡ true
      → 10 ≤ failures run + c.consecutive_failures
      → (polls run c).disabled ≡ true
  unfolding polls Outcome
  polls-streak [] c live quiet full = absurd (omega arith)
  polls-streak (a ∷ run) c live quiet full = elim (poll-Outcome a c live) [
    | inl (r, live', zeroed) ↦ absurd (ground arith)
    | inr (inl (f, r, inl (nine, off))) ↦ polls-disabled run (poll a c) off
    | inr (inl (f, r, inr (live', grown))) ↦
        polls-streak run (poll a c) live' (ground arith) (ground arith)
    | inr (inr (f, r, same)) ↦
        polls-streak run (poll a c) (rw same live) (ground arith) (rw same (ground arith))
  ]

  polls-IsLive :
      (answers : List Answer) (c : WmiCollector)
      → IsLive c
      → ((polls answers c).disabled ≡ true) ⊎ IsLive (polls answers c)
  unfolding polls Outcome
  polls-IsLive [] c live = inr live
  polls-IsLive (a ∷ answers) c live = elim (poll-Outcome a c live) [
    | inl (r, live', zeroed) ↦ polls-IsLive answers (poll a c) live'
    | inr (inl (f, r, inl (nine, off))) ↦ inl (polls-disabled answers (poll a c) off)
    | inr (inl (f, r, inr (live', grown))) ↦ polls-IsLive answers (poll a c) live'
    | inr (inr (f, r, same)) ↦ polls-IsLive answers (poll a c) (rw same live)
  ]

  polls-append :
      (xs ys : List Answer) (c : WmiCollector) → polls (xs ++ ys) c ≡ polls ys (polls xs c)
  unfolding polls
  polls-append [] ys c = refl
  polls-append (x ∷ xs) ys c = polls-append xs ys (poll x c)

  Contains-disabled :
      (before run after : List Answer)
      → none_reads run ≡ true
      → failures run ≡ 10
      → (polls (before ++ (run ++ after)) new_wmi).disabled ≡ true
  Contains-disabled before run after quiet full =
      rw (polls-append before (run ++ after), polls-append run after)
        (polls-disabled after _ (elim (polls-IsLive before new_wmi (refl, omega arith)) [
          | inl off ↦ polls-disabled run _ off
          | inr live ↦ polls-streak run _ live quiet (omega arith)
        ]))

  -- The collector, asked in each tick while it is available, has disabled itself exactly if
  -- somewhere among the answers there is a stretch in which no zone was read and ten answers were
  -- failures: a refused connection, or no zone to read. Answers from before WMI was reached (COM
  -- or the locator failed) neither count nor interrupt the stretch.
  pub disables_iff :
      (answers : List Answer) → ((polls answers new_wmi).disabled ≡ true) ↔ Contains 10 answers
  unfolding GivesUp
  disables_iff answers = (
    λ off. elim (polls-GivesUp answers new_wmi (refl, omega arith) off) [
      | inl s ↦ StartsWith-Contains 10 answers s
      | inr t ↦ t
    ],
    λ t. rw t.3 (Contains-disabled t.0 t.1 t.2 t.4 t.5),
  )
