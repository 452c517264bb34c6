-- ===== src/Manager/Rollback.antt =====
-- `SwitchTo` is atomic on executors that can be undone.
use hardware_panel.Base.{
  String, true, false, ◌≡◌, refl, ap, sym, ◌∙◌, List, [], ◌∷◌, ◌++◌, none, some, str_eq, subst,
  arith, Bool-cases, Option-cases, inl, inr, reverse, append-nil, append_assoc, str_eq_iff,
}
use mathlib.Core.List.{reverse-cons}
use hardware_panel.Base.Int.{ℤ}
use hardware_panel.Types.{Profile}
use hardware_panel.Executors.{Executor}
use hardware_panel.Store
use hardware_panel.Store.{Dir, Parsed, threw, skipped, parsed}
use hardware_panel.Store.Env.{Json, FileSystem}
use hardware_panel.Manager.{
  SwitchResult, Outcome, applied_all, failed, State, Applied, notify, find_executor, roll_back,
  fail, apply_settings, conclude, switch_to,
}
use hardware_panel.Manager.Reversible.{
  IsReversible, IsReflTrans, All, attempt, apply_each, keys_before_failure,
}

module _ {W : Type 0} where
  find_executor-key :
      (k : String) (es : List (Executor W)) (e : Executor W)
      → find_executor k es ≡ some e
      → e.key ≡ k
  unfolding find_executor
  find_executor-key k [] e h = ground arith
  find_executor-key k (x ∷ es) e h = ground (arith, str_eq_iff x.key k, find_executor-key k es e)

  find_executor-All :
      (P : Executor W → Type 0) (k : String) (es : List (Executor W)) (e : Executor W)
      → All P es
      → find_executor k es ≡ some e
      → P e
  unfolding find_executor
  find_executor-All P k [] e a h = absurd (ground arith)
  find_executor-All P k (x ∷ es) e a h = elim (Bool-cases (str_eq x.key k)) [
    | inl hit ↦ subst P (ground arith) a.0
    | inr miss ↦ find_executor-All P k es e a.1 (ground arith)
  ]

  -- The keys that are rolled back do not depend on the state.
  keys_of : Applied W → List String
  keys_of [] = []
  keys_of ((e, v) ∷ a) = e.key ∷ keys_of a

  roll_back-keys : (a : Applied W) (w : W) → (roll_back a w).0 ≡ keys_of a
  unfolding roll_back keys_of
  roll_back-keys [] w = refl
  roll_back-keys ((e, v) ∷ a) w = ap (◌∷◌ e.key) (roll_back-keys a (e.apply v w).1)

  module _ (Same : W → W → Type 0) (eqv : IsReflTrans Same) where
    roll_back-cong :
        (a : Applied W) (w w' : W)
        → All (λ p. IsReversible Same p.0) a
        → Same w w'
        → Same (roll_back a w).1 (roll_back a w').1
    unfolding roll_back
    roll_back-cong [] w w' rs h = h
    roll_back-cong ((e, v) ∷ a) w w' rs h =
        roll_back-cong a (e.apply v w).1 (e.apply v w').1 rs.1 (rs.0.apply_cong v w w' h)

    -- How the loop ends, started at `w` with `a` applied on the way from `start`.
    Ends : List (Executor W) → List (String × String) → Applied W → W → W → Outcome × W → Type 0
    Ends es m a start w (applied_all, w') = (apply_each es m w ≡ some w')
    Ends es m a start w (failed message event rolled, w') =
        (apply_each es m w ≡ none)
        × Same w' start
        × (rolled ≡ reverse (keys_before_failure es m w) ++ keys_of a)

    Ends-cons :
        (es : List (Executor W)) (k v : String) (m : List (String × String)) (a : Applied W)
        (start w : W) (e : Executor W) (previous : String) (w' : W) (o : Outcome × W)
        → attempt es v w (find_executor k es) ≡ some (e, w')
        → e.key ≡ k
        → Ends es m ((e, previous) ∷ a) start w' o
        → Ends es ((k, v) ∷ m) a start w o
    unfolding Ends apply_each keys_before_failure keys_of
    Ends-cons es k v m a start w e previous w' (applied_all, w'') step named h =
        rw (step, apply_each) h
    Ends-cons es k v m a start w e previous w' (failed message event rolled, w'') step named h =
        rw (step, apply_each, keys_before_failure)
          (
            h.0,
            h.1,
            h.2
                ∙ (ap (λ n. reverse (keys_before_failure es m w') ++ n ∷ keys_of a) named
                    ∙ (sym (
                          append_assoc (reverse (keys_before_failure es m w')) (k ∷ []) (keys_of a))
                        ∙ ap (λ l. l ++ keys_of a)
                            (sym (reverse-cons k (keys_before_failure es m w'))))),
          )

    Ends-nil :
        (es : List (Executor W)) (k v : String) (m : List (String × String)) (a : Applied W)
        (start w w' : W) (message event : String)
        → attempt es v w (find_executor k es) ≡ none
        → Same (roll_back a w').1 start
        → Ends es ((k, v) ∷ m) a start w (fail message event (roll_back a w'))
    unfolding Ends apply_each keys_before_failure
    Ends-nil es k v m a start w w' message event step h =
        rw (step, apply_each, keys_before_failure) (refl, h, roll_back-keys a w')

    apply_settings-Ends :
        (es : List (Executor W)) (m : List (String × String)) (a : Applied W) (start w : W)
        → All (IsReversible Same) es
        → All (λ p. IsReversible Same p.0) a
        → Same (roll_back a w).1 start
        → Ends es m a start w (apply_settings es m a w)
    unfolding apply_settings attempt
    apply_settings-Ends es [] a start w rs ra h = unfold Ends apply_each in refl
    apply_settings-Ends es ((k, v) ∷ m) a start w rs ra h =
        elim (Option-cases (find_executor k es)) [
          | inl missing ↦
              rw (missing, apply_settings)
                (Ends-nil es k v m a start w w _ _ (rw (missing, attempt)) h)
          | inr (e, found) ↦
              let r : IsReversible Same e = find_executor-All (IsReversible Same) k es e rs found in
              elim (Bool-cases (e.available w)) [
                | inr off ↦
                    rw (found, apply_settings, off)
                      (Ends-nil es k v m a start w w _ _ (rw (found, attempt, off)) h)
                | inl on ↦ elim (Bool-cases (e.apply v w).0.ok) [
                  | inr refused ↦
                      rw (found, apply_settings, on, refused)
                        (Ends-nil es k v m a start w (e.apply v w).1 _ _
                          (rw (found, attempt, on, refused))
                          (eqv.same_trans _ _ _
                            (roll_back-cong a (e.apply v w).1 w ra (r.apply_refused v w refused))
                            h))
                  | inl accepted ↦
                      rw (found, apply_settings, on, accepted)
                        (Ends-cons es k v m a start w e (e.current_value w) (e.apply v w).1 _
                          (rw (found, attempt, on, accepted)) (find_executor-key k es e found)
                          (apply_settings-Ends es m ((e, e.current_value w) ∷ a) start
                            (e.apply v w).1 rs (r, ra)
                            (eqv.same_trans _ _ _
                              (roll_back-cong a (e.apply (e.current_value w) (e.apply v w).1).1 w ra
                                (r.apply_undo v w accepted))
                              h)))
                ]
              ]
        ]

  apply_settings-each :
      (es : List (Executor W)) (m : List (String × String)) (a : Applied W) (w w' : W)
      → apply_each es m w ≡ some w'
      → apply_settings es m a w ≡ (applied_all, w')
  unfolding apply_settings apply_each attempt
  apply_settings-each es [] a w w' h = ground arith
  apply_settings-each es ((k, v) ∷ m) a w w' h = elim (Option-cases (find_executor k es)) [
    | inl missing ↦ absurd (ground (arith, missing))
    | inr (e, found) ↦ elim (Bool-cases (e.available w)) [
      | inr off ↦ absurd (ground (arith, found, off))
      | inl on ↦ elim (Bool-cases (e.apply v w).0.ok) [
        | inr refused ↦ absurd (ground (arith, found, on, refused))
        | inl accepted ↦
            rw (found, apply_settings, on, accepted)
              (apply_settings-each es m _ (e.apply v w).1 w'
                (sym (rw (found, apply_each, on, accepted) refl) ∙ h))
      ]
    ]
  ]

module _ (json : Json) (fs : FileSystem json.Bytes) {W : Type 0} where
  pub switch_to-applies :
      (es : List (Executor W)) (now : ℤ) (id : String) (s : State json fs W) (profile : Profile)
      (w' : W)
      → Store.get json fs id s.dir ≡ parsed profile
      → apply_each es profile.settings s.world ≡ some w'
      → switch_to json fs es now id s
        ≡ some (
          record {
            dir = Store.set_active_id json fs id s.dir;
            world = w';
            bus = notify now "info" "Profile applied" profile.name s.bus;
          },
          record { ok = true; message = "ok"; rolled_back_keys = [] },
        )
  unfolding switch_to
  switch_to-applies es now id s profile w' found h =
      rw (found, switch_to, apply_settings-each es profile.settings [] s.world w' h) refl

  -- What a failed switch has left: the answer, and the state it stands beside.
  abbrev pub RolledBack :
      (W → W → Type 0) → ℤ → List String → State json fs W → State json fs W × SwitchResult → Type 0
  RolledBack Same now rolled s (s', r) =
      (r.ok ≡ false)
      × (r.rolled_back_keys ≡ rolled)
      × Same s'.world s.world
      × (s'.dir ≡ s.dir)
      × ((event : String) × (s'.bus ≡ notify now "error" "Profile switch failed" event s.bus))

  -- If the profile's file is read as `profile`, some setting of it finds no executor, or one that is
  -- unavailable or refuses the value, and the executors are reversible (up to a reflexive and
  -- transitive `Same`: `Apply` respects it, a refused `Apply` changes nothing, and applying the value
  -- read before undoes an `Apply`), then `SwitchTo` fails and leaves no trace: the machine is in the
  -- same state as before, the directory with the active id is unchanged, one error event is published,
  -- and the keys reported are those of the settings before the failing one, in reverse.
  pub switch_rolls_back :
      (Same : W → W → Type 0)
      → IsReflTrans Same
      → (es : List (Executor W)) → All (IsReversible Same) es
      → (now : ℤ) (id : String) (s : State json fs W) (profile : Profile)
      → Store.get json fs id s.dir ≡ parsed profile
      → apply_each es profile.settings s.world ≡ none
      → (answer : State json fs W × SwitchResult) × (switch_to json fs es now id s ≡ some answer)
        × RolledBack Same now (reverse (keys_before_failure es profile.settings s.world)) s answer
  unfolding switch_to conclude Ends keys_of roll_back
  switch_rolls_back Same eqv es rs now id s profile found h = (
    conclude json fs now id profile s (apply_settings es profile.settings [] s.world),
    rw (found, switch_to) refl,
    finish (apply_settings es profile.settings [] s.world)
        (apply_settings-Ends Same eqv es profile.settings [] s.world s.world rs tt (start s.world)),
  )
    where
      start : (w : W) → Same (roll_back {W = W} [] w).1 w
      start w = eqv.same_refl w

      finish :
          (o : Outcome × W)
          → Ends Same eqv es profile.settings [] s.world s.world o
          → RolledBack Same now
              (reverse (keys_before_failure es profile.settings s.world))
              s
              (conclude json fs now id profile s o)
      finish (applied_all, w') e = absurd (ground (arith, e, h))
      finish (failed message event rolled, w') e =
          (refl, e.2 ∙ append-nil _, e.1, refl, (event, refl))
